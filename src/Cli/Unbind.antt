-- ===== src/Cli/Unbind.antt =====
-- What the exit code of `unbind` says of authorized_keys.
use mpx_cli.Prelude.{◌≡◌, refl, Bool, true, false, List, [], ◌∷◌, arith, if◌then◌else◌}
use mpx_cli.Authkeys.Disk.{Disk, Faults, Outcome, done, failed}
use mpx_cli.Authkeys.Line.{MarkedKey}
use mpx_cli.Authkeys.{marked_keys, remove_marked}
use mpx_cli.Authkeys.Revoke.{remove_marked_failed, remove_marked-nil}
use mpx_cli.Cli.{UnbindArgs, chosen, only_lists, removal_code, remove_chosen, with_keys, unbind}

-- An exit code of 1 says that the file is as it was.
module _ (faults : Faults) (args : UnbindArgs) (d : Disk) where
  removal-kept :
      (r : Outcome (List MarkedKey)) {d' : Disk}
      → remove_marked faults (chosen args) d ≡ (r, d')
      → removal_code r ≡ 1
      → d'.target ≡ d.target
  removal-kept (done []) e one = remove_marked-nil faults (chosen args) d e
  removal-kept (done (k ∷ ks)) e one = absurd (omega (arith, one))
  removal-kept (failed x) e one = remove_marked_failed faults (chosen args) d e

  listing-kept :
      (b : Bool)
      → (if b then (0, d) else remove_chosen faults args d).0 ≡ 1
      → (if b then (0, d) else remove_chosen faults args d).1.target ≡ d.target
  listing-kept true one = refl
  listing-kept false one = removal-kept (remove_marked faults (chosen args) d).0 refl one

  with_keys-kept :
      (r : Outcome (List MarkedKey))
      → (with_keys faults args d r).0 ≡ 1
      → (with_keys faults args d r).1.target ≡ d.target
  with_keys-kept (done keys) one = listing-kept (only_lists args) one
  with_keys-kept (failed e) one = refl

  -- If `unbind` exits with 1, then the file is as it was.
  pub unbind_kept : (unbind faults args d).0 ≡ 1 → (unbind faults args d).1.target ≡ d.target
  unfolding unbind
  unbind_kept one = with_keys-kept (marked_keys faults d.target) one
