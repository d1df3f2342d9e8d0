-- ===== src/Authkeys/Revoke.antt =====
-- `remove_marked`, on a file seen as its trimmed lines.
use mpx_cli.Prelude.{
  refl, ◌∷◌, map, ◌≡◌, ap, subst, sym, ◌∙◌, Bool, false, ◌⊎◌, inl, inr, List, [], arith,
}
use mpx_cli.Text.Utf8.{Text}
use mpx_cli.Text.Lines.{lines}
use mpx_cli.Authkeys.Disk.{
  Disk, Faults, done, failed, IoError, follow, Outcome-cases, write_atomically,
}
use mpx_cli.Authkeys.Line.{MarkedKey}
use mpx_cli.Authkeys.Replace.{
  no_faults, write_atomically-no_faults, write_atomically-Replaced, write_atomically_failed,
}
use mpx_cli.Authkeys.Enroll.{Holds, read-Holds, Replaced-Holds, target_of}
use mpx_cli.Authkeys.{read_existing, kept_text, removed_keys, rewrite_kept, remove_marked}
use mpx_cli.Authkeys.LineText.{lines-IsLine}
use mpx_cli.Authkeys.Kept.{
  seen, seen_row, map-seen_row, taken, left, rows, left_rows, left_rows-nil, seen-left_rows,
  removed_keys-seen, rows-kept_text, kept_chars,
}

module _ (faults : Faults) (f : MarkedKey → Bool) where
  rewrite_kept-done :
      (kept : Text) (ks js : List MarkedKey) (d : Disk) {d' : Disk}
      → rewrite_kept faults kept ks d ≡ (done js, d')
      → (js ≡ ks) × (((ks ≡ []) × (d' ≡ d)) ⊎ (write_atomically faults kept d ≡ (done tt, d')))
  unfolding rewrite_kept
  rewrite_kept-done kept ks js d e = ground arith

  rewrite_kept-failed :
      (kept : Text) (ks : List MarkedKey) (d : Disk) {x : IoError} {d' : Disk}
      → rewrite_kept faults kept ks d ≡ (failed x, d')
      → write_atomically faults kept d ≡ (failed x, d')
  unfolding rewrite_kept
  rewrite_kept-failed kept ks d e = ground arith

  remove_marked_read :
      (d : Disk) (s : Text)
      → read_existing faults d.target ≡ done s
      → remove_marked faults f d
        ≡ rewrite_kept faults (kept_text f (lines s)) (removed_keys f (lines s)) d
  unfolding remove_marked
  remove_marked_read d s e =
      ap
        (λ r.
          follow r (λ s. rewrite_kept faults (kept_text f (lines s)) (removed_keys f (lines s))) d)
        e

  pub remove_marked_unread :
      (d : Disk) {e : IoError}
      → read_existing faults d.target ≡ failed e
      → remove_marked faults f d ≡ (failed e, d)
  unfolding remove_marked
  remove_marked_unread d e =
      ap
        (λ r.
          follow r (λ s. rewrite_kept faults (kept_text f (lines s)) (removed_keys f (lines s))) d)
        e

  -- If `remove_marked` fails, whichever call was the cause, then the file is as it was.
  pub remove_marked_failed :
      (d : Disk) {e : IoError} {d' : Disk}
      → remove_marked faults f d ≡ (failed e, d')
      → d'.target ≡ d.target
  remove_marked_failed d h = elim (Outcome-cases (read_existing faults d.target)) [
    | inl (s, r) ↦
        (write_atomically_failed faults (kept_text f (lines s)) d (
          rewrite_kept-failed (kept_text f (lines s)) (removed_keys f (lines s)) d
            (sym (remove_marked_read d s r) ∙ h))).0
    | inr (x, r) ↦ ap target_of (sym h ∙ remove_marked_unread d r)
  ]

  -- What `remove_marked` returns and leaves, as rows.
  pub remove_marked-rows :
      (d : Disk) (s : Text) {ks : List MarkedKey} {d' : Disk}
      → Holds d s
      → read_existing faults d.target ≡ done s
      → remove_marked faults f d ≡ (done ks, d')
      → (ks ≡ taken f (seen s)) × ((s' : Text) × Holds d' s' × (rows s' ≡ left_rows f (rows s)))
  remove_marked-rows d s {ks} {d'} h r e =
      let (same, how) =
        rewrite_kept-done (kept_text f (lines s)) (removed_keys f (lines s)) ks d
          (sym (remove_marked_read d s r) ∙ e) in
      let taken_eq = removed_keys-seen f (lines s) in
      (
        same ∙ taken_eq,
        elim how [
          | inl (empty, unchanged) ↦ (
            s,
            subst (λ x. Holds x s) (sym unchanged) h,
            sym (
                left_rows-nil f (rows s)
                  (ap (taken f) (sym (map-seen_row (lines s))) ∙ sym taken_eq ∙ empty)),
          )
          | inr written ↦ (
            kept_text f (lines s),
            Replaced-Holds (kept_text f (lines s)) (kept_chars f s h.chars)
                (write_atomically-Replaced faults (kept_text f (lines s)) d written),
            rows-kept_text f (lines s) (lines-IsLine s),
          )
        ],
      )

  -- If the file can be read and `remove_marked` succeeds, then it returns the marked keys
  -- that the filter takes, and the file then holds the other lines in their order, each with
  -- the same text but for white space at its ends and the same mark.
  pub remove_marked_lem :
      (d : Disk) (s : Text) {ks : List MarkedKey} {d' : Disk}
      → faults.read ≡ false
      → Holds d s
      → remove_marked faults f d ≡ (done ks, d')
      → (ks ≡ taken f (seen s)) × ((s' : Text) × Holds d' s' × (seen s' ≡ left f (seen s)))
  remove_marked_lem d s ok h e =
      let (same, (s', held, after)) = remove_marked-rows d s h (read-Holds faults d s ok h) e in
      (
        same,
        (
          s',
          held,
          map-seen_row (lines s')
              ∙ ap (map seen_row) after
              ∙ seen-left_rows f (rows s)
              ∙ ap (left f) (sym (map-seen_row (lines s))),
        ),
      )

  rewrite_kept-nil :
      (kept : Text) (ks : List MarkedKey) (d : Disk) {d' : Disk}
      → rewrite_kept faults kept ks d ≡ (done [], d')
      → d' ≡ d
  unfolding rewrite_kept
  rewrite_kept-nil kept ks d e = ground arith

  -- Where nothing is removed, nothing is written.
  pub remove_marked-nil :
      (d : Disk) {d' : Disk} → remove_marked faults f d ≡ (done [], d') → d'.target ≡ d.target
  remove_marked-nil d h = elim (Outcome-cases (read_existing faults d.target)) [
    | inl (s, r) ↦
        ap (λ (x : Disk). x.target)
          (rewrite_kept-nil (kept_text f (lines s)) (removed_keys f (lines s)) d
            (sym (remove_marked_read d s r) ∙ h))
    | inr (x, r) ↦ ap target_of (sym h ∙ remove_marked_unread d r)
  ]

-- A file that holds text can be rewritten where no call fails.
pub remove_marked-no_faults :
    (f : MarkedKey → Bool) (d : Disk) (s : Text)
    → Holds d s
    → (ks : List MarkedKey) × (d' : Disk) × (remove_marked no_faults f d ≡ (done ks, d'))
unfolding rewrite_kept
remove_marked-no_faults f d s h =
    let read = remove_marked_read no_faults f d s (read-Holds no_faults d s refl h) in
    let (ks, d', e) = rewrites (removed_keys f (lines s)) in (ks, d', read ∙ e)
  where
    rewrites :
        (removed : List MarkedKey)
        → (ks : List MarkedKey) × (d' : Disk) × (rewrite_kept no_faults
              (kept_text f (lines s))
              removed
              d
            ≡ (done ks, d'))
    rewrites [] = ([], d, refl)
    rewrites (k ∷ removed) = (
      k ∷ removed,
      _,
      ap (λ r. follow r.0 (λ u x. (done (k ∷ removed), x)) r.1)
          (write_atomically-no_faults (kept_text f (lines s)) d),
    )
