-- ===== src/Authkeys/Replace.antt =====
-- What `write_atomically` leaves on the disk, on every path through it.
use mpx_cli.Prelude.{◌≡◌, true, false, none, some, ◌⊎◌, arith, unwrap_or}
use mpx_cli.Text.Utf8.{Text, as_bytes}
use mpx_cli.Authkeys.Disk.{absent, file, Disk, IoError, done, failed, Faults, write_atomically}

-- Nothing fails.
abbrev pub no_faults : Faults
no_faults = record {
  read = false;
  make_dir = false;
  set_mode = false;
  remove = false;
  create = false;
  write = none;
  sync = false;
  rename = false;
}

-- The new text is in place, private, and no scratch file is left.
pub record Replaced (content : Text) (before after : Disk) : Type 0 where
  pub target : after.target ≡ file (as_bytes content) 0o600
  pub scratch : after.scratch ≡ absent
  pub dir : after.dir ≡ some (unwrap_or before.dir 0o700)

module _ (faults : Faults) (content : Text) (d : Disk) where
  -- If `write_atomically` succeeds, then the file has the new text and mode 600, no scratch
  -- file is left, and the directory exists, with mode 700 if it was made.
  pub write_atomically-Replaced :
      {d' : Disk} → write_atomically faults content d ≡ (done tt, d') → Replaced content d d'
  unfolding write_atomically
  write_atomically-Replaced h = ground arith

  -- If `write_atomically` fails, then the file is what it was. No scratch file is left
  -- either, unless removing files fails or there was no directory, where what stood at the
  -- scratch path may be unchanged.
  pub write_atomically_failed :
      {e : IoError} {d' : Disk}
      → write_atomically faults content d ≡ (failed e, d')
      → (d'.target ≡ d.target)
        × ((faults.remove ≡ true)
            ⊎ (d'.scratch ≡ absent)
            ⊎ ((d.dir ≡ none) × (d'.scratch ≡ d.scratch)))
  unfolding write_atomically
  write_atomically_failed h = ground arith

-- If no call fails, then `write_atomically` succeeds from any disk, whatever stands at the
-- scratch path.
pub write_atomically-no_faults :
    (content : Text) (d : Disk)
    → write_atomically no_faults content d ≡ (
      done tt,
      record {
        dir = some (unwrap_or d.dir 0o700);
        target = file (as_bytes content) 0o600;
        scratch = absent;
      },
    )
unfolding write_atomically
write_atomically-no_faults content d = ground arith
