-- ===== src/Cli/Offline/Offered.antt =====
-- What `bind_offline` of src/main.rs leaves on the disk.
use mpx_cli.Prelude.{ℕ, ◌≡◌, refl, ◌⊎◌, inl, inr, Option, none, some, List, [], ◌∷◌, Bytes}
use mpx_cli.Text.Utf8.{Text}
use mpx_cli.Text.Fields.{split_whitespace}
use mpx_cli.Util.Console.{Printed}
use mpx_cli.Authkeys.Disk.{Disk, Outcome, done, failed}
use mpx_cli.Authkeys.{AddOutcome, ensure_line}
use mpx_cli.Authkeys.Enroll.{ensure_line_failed}
use mpx_cli.Cli.Machine.{BindArgs, Generated, Machine}
use mpx_cli.Cli.Offline.{
  World, show, offline_comment, installed, with_fields, with_seed, with_public, with_key,
  bind_offline,
}

-- The same file, and the same announcements and withdrawals.
pub record Same (w w' : World) : Type 0 where
  pub target : w'.disk.target ≡ w.disk.target
  pub announced : w'.announced ≡ w.announced
  pub withdrawn : w'.withdrawn ≡ w.withdrawn

module _ (machine : Machine) (args : BindArgs) where
  -- The offline bind: it gave up, or `ensure_line` succeeded.
  pub data Offered (w : World) : ℕ × World → Type 0 where
    gave_up : {w' : World} → Same w w' → Offered w (1, w')
    offered :
        {w' : World} (key_type key_b64 : Text) (outcome : AddOutcome)
        → ensure_line machine.faults key_type key_b64 (offline_comment machine args) w.disk
          ≡ (done outcome, w'.disk)
        → w'.announced ≡ w.announced
        → w'.withdrawn ≡ w.withdrawn
        → Offered w (0, w')

  same : (w : World) (lines : List Printed) → Offered w (1, show lines w)
  same w lines = gave_up (record { target = refl; announced = refl; withdrawn = refl })

  installed-Offered :
      (w : World) (seed : Bytes) (key_type key_b64 : Text) (r : Outcome AddOutcome) (d : Disk)
      → ensure_line machine.faults key_type key_b64 (offline_comment machine args) w.disk ≡ (r, d)
      → Offered w (installed machine args seed r (record w { disk = d }))
  unfolding installed
  installed-Offered w seed key_type key_b64 (done outcome) d e =
      offered key_type key_b64 outcome e refl refl
  installed-Offered w seed key_type key_b64 (failed x) d e = gave_up (record {
    target =
        ensure_line_failed machine.faults w.disk key_type key_b64 (offline_comment machine args) e;
    announced = refl;
    withdrawn = refl;
  })

  with_fields-Offered :
      (w : World) (seed : Bytes) (fields : List Text)
      → Offered w (with_fields machine args seed fields w)
  unfolding with_fields
  with_fields-Offered w seed [] = same w _
  with_fields-Offered w seed (key_type ∷ []) = same w _
  with_fields-Offered w seed (key_type ∷ key_b64 ∷ rest) =
      installed-Offered w seed key_type key_b64 _ _ refl

  with_seed-Offered :
      (w : World) (public : Text) (seed : Option Bytes)
      → Offered w (with_seed machine args public seed w)
  unfolding with_seed
  with_seed-Offered w public none = same w _
  with_seed-Offered w public (some seed) = with_fields-Offered w seed (split_whitespace public)

  with_public-Offered :
      (w : World) (seed : Option Bytes) (public : Text ⊎ Text)
      → Offered w (with_public machine args seed public w)
  unfolding with_public
  with_public-Offered w seed (inl err) = same w _
  with_public-Offered w seed (inr public) = with_seed-Offered w public seed

  pub bind_offline-Offered : (w : World) → Offered w (bind_offline machine args w)
  unfolding bind_offline with_key
  bind_offline-Offered w = go machine.generate
    where
      go : (key : Text ⊎ Generated) → Offered w (with_key machine args key w)
      go (inl err) = same w _
      go (inr key) = with_public-Offered w key.seed key.to_openssh
