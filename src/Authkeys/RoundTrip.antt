-- ===== src/Authkeys/RoundTrip.antt =====
-- Enrolling, listing and revoking together.
use mpx_cli.Prelude.{
  ◌≡◌, refl, ap, ap₂, ◌∙◌, Bool, true, false, Option, none, some, List, [], ◌∷◌, ◌++◌, arith, All,
  equal, equal_refl, ◌>>=◌, ◌==◌,
}
use mpx_cli.Text.Utf8.{Text}
use mpx_cli.Text.Lines.{lines}
use mpx_cli.Authkeys.Disk.{Disk, Faults, done}
use mpx_cli.Authkeys.Line.{MarkedKey, marker_prefix, split_colon, marked_key, marked_of}
use mpx_cli.Authkeys.Lines.{readings-terminated, readings-line}
use mpx_cli.Authkeys.Parse.{parse_line-entry, trim-entry}
use mpx_cli.Authkeys.Enroll.{Holds, IsEntry, read-Holds, ensure_line_added}
use mpx_cli.Authkeys.Kept.{
  Seen, seen, seen_line, seen_line-strip_cr, keys_in, taken, left, marked_lines-seen,
}
use mpx_cli.Authkeys.Revoke.{remove_marked_lem}
use mpx_cli.Authkeys.{added, entry, updated, marked_keys, ensure_line, remove_marked}

abbrev pub NoColon : Text → Type 0
NoColon = All (λ c. (c == b':') ≡ false)

split_colon_id :
    (id device : Text) → NoColon id → split_colon (id ++ (b':' ∷ device)) ≡ (id, device)
unfolding split_colon
split_colon_id [] device h = refl
split_colon_id (c ∷ id) device h =
    rw (h.0) (ap (λ (p : Text × Text). (c ∷ p.0, p.1)) (split_colon_id id device h.1))

-- The comment that a bind writes.
abbrev pub marker : Text → Text → Text
marker id device = marker_prefix ++ (id ++ (b':' ∷ device))

-- The key that a bind enrolls, as the other commands see it.
abbrev pub enrolled : Text → Text → Text → Text → MarkedKey
enrolled t k id device = record {
  id = id;
  device = device;
  key_type = t;
  line = entry t k (marker id device);
}

module _ (t k id device : Text) (w : IsEntry t k (marker id device)) (plain : NoColon id) where
  abbrev enrolled_as : Text × Text → Option MarkedKey
  enrolled_as (i, v) =
      some (record { id = i; device = v; key_type = t; line = entry t k (marker id device) })

  seen_line-entry :
      seen_line (entry t k (marker id device))
      ≡ (entry t k (marker id device), some (enrolled t k id device))
  unfolding marked_key
  seen_line-entry =
      ap₂ (λ t k. (t, k)) (trim-entry t k _ w.key_type.word w.comment)
        (ap₂ (λ p t. p >>= marked_of t) (parse_line-entry t k _ w.key_type w.key_b64 w.comment)
            (trim-entry t k _ w.key_type.word w.comment)
          ∙ ap enrolled_as (split_colon_id id device plain))

  seen-updated :
      (s : Text)
      → seen (updated s (entry t k (marker id device)))
        ≡ seen s ++ (entry t k (marker id device), some (enrolled t k id device)) ∷ []
  unfolding lines
  seen-updated s =
      readings-terminated seen_line seen_line-strip_cr s
        (entry t k (marker id device) ++ (b'\n' ∷ []))
      ∙ ap (λ ls. seen s ++ ls)
          (readings-line seen_line seen_line-strip_cr (entry t k (marker id device)) [] w.line
            ∙ ap (λ l. l ∷ []) seen_line-entry)

keys_in-append :
    (ls : List Seen) (x : Text) (k : MarkedKey)
    → keys_in (ls ++ (x, some k) ∷ []) ≡ keys_in ls ++ k ∷ []
keys_in-append [] x k = refl
keys_in-append ((t, none) ∷ ls) x k = keys_in-append ls x k
keys_in-append ((t, some j) ∷ ls) x k = ap (◌∷◌ j) (keys_in-append ls x k)

taken-append :
    (f : MarkedKey → Bool) (ls : List Seen) (x : Text) (k : MarkedKey)
    → f k ≡ true
    → taken f ls ≡ []
    → (taken f (ls ++ (x, some k) ∷ []) ≡ k ∷ []) × (left f (ls ++ (x, some k) ∷ []) ≡ ls)
taken-append f [] x k y e = (rw y refl, rw y refl)
taken-append f ((t, none) ∷ ls) x k y e =
    let ih = taken-append f ls x k y e in (ih.0, ap (◌∷◌ (t, none)) ih.1)
taken-append f ((t, some j) ∷ ls) x k y e = ground (arith, taken-append f ls x k)

-- The filter of `mpx unbind <id>`.
abbrev pub has_id : Text → MarkedKey → Bool
has_id id k = equal k.id id

module _ (faults faults' : Faults) (d : Disk) (s t k id device : Text) {d' : Disk}
    (ok : faults.read ≡ false) (ok' : faults'.read ≡ false) (h : Holds d s)
    (w : IsEntry t k (marker id device)) (plain : NoColon id)
    (bound : ensure_line faults t k (marker id device) d ≡ (done added, d')) where
  -- If the file can be read and `ensure_line` added a key under a marker whose id has no
  -- colon, then `marked_keys` lists the keys that were marked before and then this one.
  pub marked_keys-ensure_line :
      marked_keys faults' d'.target ≡ done (keys_in (seen s) ++ enrolled t k id device ∷ [])
  unfolding marked_keys
  marked_keys-ensure_line =
      let (fresh, held, parsed) =
        ensure_line_added faults d t k (marker id device) s ok h w bound in
      rw (read-Holds faults' d' _ ok' held) (
        ap done (
          marked_lines-seen (lines (updated s (entry t k (marker id device))))
          ∙ ap keys_in (seen-updated t k id device w plain s)
          ∙ keys_in-append (seen s) _ (enrolled t k id device)))

  -- If the file can be read, `ensure_line` added a key under a marker whose id has no colon,
  -- no key was marked with this id before, and `remove_marked` by the id succeeds, then it
  -- returns that key alone, and the file holds the lines that it held before the key was
  -- added, each with the same text but for white space at its ends and the same mark.
  pub remove_marked-ensure_line :
      {ks : List MarkedKey} {d'' : Disk}
      → taken (has_id id) (seen s) ≡ []
      → remove_marked faults' (has_id id) d' ≡ (done ks, d'')
      → (ks ≡ enrolled t k id device ∷ []) × ((s' : Text) × Holds d'' s' × (seen s' ≡ seen s))
  remove_marked-ensure_line none_before e =
      let (fresh, held, parsed) =
        ensure_line_added faults d t k (marker id device) s ok h w bound in
      let (took, after) = remove_marked_lem faults' (has_id id) d' _ ok' held e in
      let (s', held', rest) = after in
      let now = seen-updated t k id device w plain s in
      let (one, others) =
        taken-append (has_id id) (seen s) (entry t k (marker id device)) (enrolled t k id device)
          (equal_refl id) none_before in
      (
        took ∙ ap (taken (has_id id)) now ∙ one,
        (s', held', rest ∙ ap (left (has_id id)) now ∙ others),
      )
