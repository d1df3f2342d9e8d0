-- ===== src/Authkeys/Disk.antt =====
-- The part of the file system that `read_existing` and `write_atomically` touch: the directory,
-- the file and the scratch file beside it. Any call may fail; `Faults` says which ones do.
use mpx_cli.Prelude.{
  ◌≡◌, refl, ◌⊎◌, inl, inr, ℕ, Bool, Option, none, some, [], Bytes, take, if◌then◌else◌, is_some,
}
use mpx_cli.Text.Utf8.{Text, as_bytes, from_utf8}

-- What a path names. A symbolic link holds the name of what it points at.
pub data Node : Type 0 where
  absent : Node
  file : Bytes → ℕ → Node
  symlink : Text → Node

pub record Disk : Type 0 where
  -- The mode of the parent directory, where it exists.
  pub dir : Option ℕ
  pub target : Node
  pub scratch : Node

-- `std::io::ErrorKind`, as far as the code tells the kinds apart.
pub data IoError : Type 0 where
  not_found invalid_data already_exists other : IoError

pub data Outcome {ℓ} (A : Type ℓ) : Type ℓ where
  done : A → Outcome A
  failed : IoError → Outcome A

-- Which of the calls fail, for a reason that is not in `Disk`; a failed write may have written
-- some bytes.
pub record Faults : Type 0 where
  pub read : Bool
  pub make_dir : Bool
  pub set_mode : Bool
  pub remove : Bool
  pub create : Bool
  pub write : Option ℕ
  pub sync : Bool
  pub rename : Bool

abbrev pub Fs : Type 0 → Type 0
Fs A = Disk → Outcome A × Disk

abbrev pub follow : {A B : Type 0} → Outcome A → (A → Fs B) → Fs B
follow (done a) f d = f a d
follow (failed e) f d = (failed e, d)

-- `?`
infixl 5 ◌>>=◌ ◌>>◌
abbrev pub ◌>>=◌ : {A B : Type 0} → Fs A → (A → Fs B) → Fs B
◌>>=◌ m f d = let (r, d') = m d in follow r f d'

abbrev pub ◌>>◌ : {B : Type 0} → Fs (Unit {0}) → Fs B → Fs B
m >> k = m >>= λ _. k

abbrev pub pure : {A : Type 0} → A → Fs A
pure a d = (done a, d)

-- Bytes as text: the error of `read_to_string` on a file that is not UTF-8.
abbrev pub decoded : Option Text → Outcome Text
decoded none = failed invalid_data
decoded (some s) = done s

-- `fs::read_to_string`. A link is followed to a file that is not part of the model.
unfoldable pub read_to_string : Faults → Node → Outcome Text
read_to_string faults absent = failed not_found
read_to_string faults (file content mode) =
    if faults.read then failed other else decoded (from_utf8 content)
read_to_string faults (symlink to) = failed other

module _ (faults : Faults) where
  -- `if !dir.exists() { create_dir_all(dir)?; set_mode(dir, 0o700)?; }`. A directory that
  -- `create_dir_all` made has the mode of the umask, 0o755, until then.
  ensure_dir : Fs (Unit {0})
  ensure_dir d =
      if is_some d.dir
      then (done tt, d)
      else if faults.make_dir
      then (failed other, d)
      else if faults.set_mode
      then (failed other, record d { dir = some 0o755 })
      else (done tt, record d { dir = some 0o700 })

  -- `let _ = fs::remove_file(&tmp);`
  remove_scratch : Fs (Unit {0})
  remove_scratch d = (done tt, if faults.remove then d else record d { scratch = absent })

  -- `create_private`: `create_new` refuses whatever stands at the path, a link too.
  create_at : Node → Fs (Unit {0})
  create_at absent d =
      if faults.create then (failed other, d) else (done tt, record d { scratch = file [] 0o600 })
  create_at _ d = (failed already_exists, d)

  create_private : Fs (Unit {0})
  unfolding create_at
  create_private d = create_at d.scratch d

  -- `file.write_all(..).and_then(|()| file.sync_all())`, through the open file.
  write_scratch : Bytes → Fs (Unit {0})
  write_scratch content d = elim faults.write [
    | some n ↦ (failed other, record d { scratch = file (take n content) 0o600 })
    | none ↦
        (if faults.sync then failed other else done tt, record d { scratch = file content 0o600 })
  ]

  -- `fs::rename(&tmp, path)`
  rename_scratch : Fs (Unit {0})
  rename_scratch d =
      if faults.rename
      then (failed other, d)
      else (done tt, record d { target = d.scratch; scratch = absent })

  -- The error path: the scratch file goes, and the error is passed on.
  cleaned : Outcome (Unit {0}) × Disk → Outcome (Unit {0}) × Disk
  unfolding remove_scratch
  cleaned (done u, d) = (done u, d)
  cleaned (failed e, d) = (failed e, (remove_scratch d).1)

  replace_target : Bytes → Fs (Unit {0})
  unfolding write_scratch rename_scratch cleaned
  replace_target content d = cleaned ((write_scratch content >> rename_scratch) d)

  -- `write_atomically`
  unfoldable pub write_atomically : Text → Fs (Unit {0})
  unfolding ensure_dir remove_scratch create_private replace_target
  write_atomically content = do
    ensure_dir
    remove_scratch
    create_private
    replace_target (as_bytes content)

pub Outcome-cases :
    {A : Type 0} (r : Outcome A) → ((a : A) × (r ≡ done a)) ⊎ ((e : IoError) × (r ≡ failed e))
Outcome-cases (done a) = inl (a, refl)
Outcome-cases (failed e) = inr (e, refl)
