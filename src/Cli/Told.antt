-- ===== src/Cli/Told.antt =====
-- src/main.rs: what `unbind` prints, and how it agrees with what `unbind` does.
use mpx_cli.Prelude.{
  ℕ, ◌-◌, ◌≡◌, refl, Bool, true, false, not, ◌&&◌, List, [], ◌∷◌, ◌++◌, map, length, replicate,
  if◌then◌else◌, is_some, arith,
}
use mpx_cli.Text.Utf8.{Text}
use mpx_cli.Text.Codes.{codes}
use mpx_cli.Util.Console.{Console, Printed, println, ok, note, warn}
use mpx_cli.Authkeys.Disk.{Disk, Faults, IoError, Outcome, done, failed}
use mpx_cli.Authkeys.Line.{MarkedKey}
use mpx_cli.Authkeys.Enroll.{Holds}
use mpx_cli.Authkeys.Kept.{seen, taken, left}
use mpx_cli.Authkeys.Revoke.{remove_marked_lem}
use mpx_cli.Authkeys.{marked_keys, remove_marked}
use mpx_cli.Cli.{UnbindArgs, chosen, only_lists, removal_code, remove_chosen, with_keys, unbind}

-- The path as it is displayed, and the text of an error.
module _ (console : Console) (path : Text) (error_text : IoError → Text) where
  -- `{:24}`
  abbrev padded_to : ℕ → Text → Text
  padded_to n s = s ++ replicate (n - length s) b' '

  abbrev listed : MarkedKey → Printed
  listed key =
      println (key.id ++ (codes "  " ++ (padded_to 24 key.device ++ (codes "  " ++ key.key_type))))

  abbrev hint : UnbindArgs → List Printed
  hint args =
      if not (is_some args.id) && (not args.all && not args.list)
      then note console (codes "remove one with `mpx unbind <id>` or all with `mpx unbind --all`")
        ∷ []
      else []

  abbrev list_lines : UnbindArgs → List MarkedKey → List Printed
  list_lines args [] = note console (codes "no multiplex-enrolled keys in " ++ path) ∷ []
  list_lines args (k ∷ ks) = map listed (k ∷ ks) ++ hint args

  abbrev pub removed_line : MarkedKey → Printed
  removed_line key =
      ok console (codes "removed " ++ (key.id ++ (codes " (" ++ (key.device ++ codes ")"))))

  abbrev removal_lines : Outcome (List MarkedKey) → List Printed
  removal_lines (done []) = warn console (codes "no matching enrolled key") ∷ []
  removal_lines (done (k ∷ ks)) = map removed_line (k ∷ ks)
  removal_lines (failed e) =
      warn console (codes "could not rewrite " ++ (path ++ (codes ": " ++ error_text e))) ∷ []

  abbrev lines_with : Faults → UnbindArgs → Disk → Outcome (List MarkedKey) → List Printed
  lines_with faults args d (failed e) =
      warn console (codes "could not read " ++ (path ++ (codes ": " ++ error_text e))) ∷ []
  lines_with faults args d (done keys) =
      if only_lists args
      then list_lines args keys
      else removal_lines (remove_marked faults (chosen args) d).0

  -- What `unbind` prints.
  unfoldable pub unbind_lines : Faults → UnbindArgs → Disk → List Printed
  unbind_lines faults args d = lines_with faults args d (marked_keys faults d.target)

  module _ (faults : Faults) (args : UnbindArgs) (d : Disk) (s : Text) where
    -- Some keys were removed, each is told of, and the file has the other lines.
    abbrev pub Told : List Printed → ℕ × Disk → Type 0
    Told printed r =
        (k : MarkedKey) × (ks : List MarkedKey) × (printed ≡ map removed_line (k ∷ ks))
        × (k ∷ ks ≡ taken (chosen args) (seen s))
        × ((s' : Text) × Holds r.1 s' × (seen s' ≡ left (chosen args) (seen s)))

    removal-Told :
        (r : Outcome (List MarkedKey)) (d' : Disk)
        → remove_marked faults (chosen args) d ≡ (r, d')
        → faults.read ≡ false
        → Holds d s
        → removal_code r ≡ 0
        → Told (removal_lines r) (removal_code r, d')
    removal-Told (done []) d' e readable h zero = absurd (omega (arith, zero))
    removal-Told (done (k ∷ ks)) d' e readable h zero =
        let (same, after) = remove_marked_lem faults (chosen args) d s readable h e in
        (k, ks, refl, same, after)
    removal-Told (failed x) d' e readable h zero = absurd (omega (arith, zero))

    with_keys-Told :
        (r : Outcome (List MarkedKey))
        → only_lists args ≡ false
        → faults.read ≡ false
        → Holds d s
        → (with_keys faults args d r).0 ≡ 0
        → Told (lines_with faults args d r) (with_keys faults args d r)
    with_keys-Told (failed e) removes readable h zero = absurd (omega (arith, zero))
    with_keys-Told (done keys) removes readable h zero = go (only_lists args) removes zero
      where
        go :
            (b : Bool)
            → b ≡ false
            → (if b then (0, d) else remove_chosen faults args d).0 ≡ 0
            → Told
                (if b
                  then list_lines args keys
                  else removal_lines (remove_marked faults (chosen args) d).0)
                (if b then (0, d) else remove_chosen faults args d)
        go true e zero = absurd (cc e)
        go false e zero =
            removal-Told (remove_marked faults (chosen args) d).0
              (remove_marked faults (chosen args) d).1 refl readable h zero

    -- If `unbind` is not asked for a list, the file can be read and it exits with 0, then
    -- it has removed the keys that are chosen, of which there is at least one, it prints
    -- one line for each of them, in their order, and nothing else, and the file has the
    -- other lines, each with the same text but for white space at its ends and the same
    -- mark.
    pub unbind-Told :
        only_lists args ≡ false
        → faults.read ≡ false
        → Holds d s
        → (unbind faults args d).0 ≡ 0
        → Told (unbind_lines faults args d) (unbind faults args d)
    unfolding unbind unbind_lines
    unbind-Told removes readable h zero =
        with_keys-Told (marked_keys faults d.target) removes readable h zero
