-- ===== src/Authkeys/Enroll.antt =====
-- `ensure_line`: what enrolling a key does to the file, whatever stands in it.
use mpx_cli.Prelude.{
  ℕ, ◌≡◌, refl, ap, sym, ◌∙◌, true, false, Option, none, some, ◌⊎◌, inl, inr, List, [], ◌∷◌, ◌++◌,
  map, arith, if◌then◌else◌, All, All-append, equal_refl, Option-cases, Bool-cases,
}
use mpx_cli.Text.Utf8.{Text, IsChar, as_bytes, from_utf8-as_bytes}
use mpx_cli.Text.Lines.{lines, ends_with_newline}
use mpx_cli.Text.Words.{IsWord}
use mpx_cli.Authkeys.Disk.{
  Node, absent, file, Disk, Faults, Outcome, done, failed, IoError, follow, Outcome-cases,
  write_atomically,
}
use mpx_cli.Authkeys.Line.{KeyLine, parse_line}
use mpx_cli.Authkeys.Parse.{IsKeyType, parse_line-entry}
use mpx_cli.Authkeys.Lines.{IsLine, readings-terminated, readings-line, parse_line-strip_cr}
use mpx_cli.Authkeys.Replace.{
  Replaced, write_atomically-Replaced, write_atomically_failed, write_atomically-no_faults,
  no_faults,
}
use mpx_cli.Authkeys.{
  added, already_present, read_existing, find_key, has_key, terminated, entry, updated, append_key,
  ensure_line,
}

-- The file holds the text `s`; a file that is not there holds no text.
pub record Holds (d : Disk) (s : Text) : Type 0 where
  pub chars : All IsChar s
  pub node : ((d.target ≡ absent) × (s ≡ [])) ⊎ ((mode : ℕ) × (d.target ≡ file (as_bytes s) mode))

pub read-Holds :
    (faults : Faults) (d : Disk) (s : Text)
    → faults.read ≡ false
    → Holds d s
    → read_existing faults d.target ≡ done s
unfolding read_existing
read-Holds faults d s ok h = elim h.node [
  | inl (e, empty) ↦ rw (e, empty) refl
  | inr (mode, e) ↦ rw e (rw ok (rw (from_utf8-as_bytes s h.chars) refl))
]

-- The look-up of `ensure_line`, on lines that are already parsed.
abbrev pub find_in : Text → List (Option KeyLine) → Option Text
find_in key_b64 [] = none
find_in key_b64 (none ∷ ks) = find_in key_b64 ks
find_in key_b64 (some k ∷ ks) = if has_key key_b64 k then some k.comment else find_in key_b64 ks

pub find_key-map : (key : Text) (ls : List Text) → find_key key ls ≡ find_in key (map parse_line ls)
unfolding find_key
find_key-map key [] = refl
find_key-map key (l ∷ ls) = ground (arith, find_key-map key ls)

find_in-append :
    (key : Text) (ks : List (Option KeyLine)) (k : KeyLine)
    → find_in key ks ≡ none
    → has_key key k ≡ true
    → find_in key (ks ++ some k ∷ []) ≡ some k.comment
find_in-append key [] k n h = rw h refl
find_in-append key (none ∷ ks) k n h = find_in-append key ks k n h
find_in-append key (some j ∷ ks) k n h = ground (arith, find_in-append key ks k)

All-terminated : (s : Text) → All IsChar s → All IsChar (terminated s)
unfolding terminated
All-terminated [] h = h
All-terminated (c ∷ s) h = elim (Bool-cases (ends_with_newline (c ∷ s))) [
  | inl e ↦ rw e h
  | inr e ↦ rw e (All-append IsChar (c ∷ s) (b'\n' ∷ []) h (omega arith))
]

-- What mpx writes: a key type, a key and a comment of one word each, on one line.
pub record IsEntry (t k c : Text) : Type 0 where
  pub key_type : IsKeyType t
  pub key_b64 : IsWord k
  pub comment : IsWord c
  pub line : IsLine (entry t k c)
  pub chars : All IsChar (entry t k c)

-- The lines of the file as `parse_line` sees them, before and after.
parsed-updated :
    (s t k c : Text)
    → IsEntry t k c
    → map parse_line (lines (updated s (entry t k c)))
      ≡ map parse_line (lines s) ++ some (record { key_type = t; key_b64 = k; comment = c }) ∷ []
unfolding lines
parsed-updated s t k c h =
    readings-terminated parse_line parse_line-strip_cr s (entry t k c ++ (b'\n' ∷ []))
    ∙ ap (λ ks. map parse_line (lines s) ++ ks)
        (readings-line parse_line parse_line-strip_cr (entry t k c) [] h.line
          ∙ ap (λ k. k ∷ []) (parse_line-entry t k c h.key_type h.key_b64 h.comment))

pub Replaced-Holds :
    (content : Text) {d d' : Disk} → All IsChar content → Replaced content d d' → Holds d' content
Replaced-Holds content h r = record { chars = h; node = inr (0o600, r.target) }

pub All-updated : (s line : Text) → All IsChar s → All IsChar line → All IsChar (updated s line)
All-updated s line h k =
    All-append IsChar (terminated s) (line ++ (b'\n' ∷ [])) (All-terminated s h)
      (All-append IsChar line (b'\n' ∷ []) k (omega arith))

module _ (faults : Faults) (s line : Text) where
  append_key-added :
      (o : Option Text) (d : Disk) {d' : Disk}
      → append_key faults s line o d ≡ (done added, d')
      → (o ≡ none) × (write_atomically faults (updated s line) d ≡ (done tt, d'))
  unfolding append_key
  append_key-added o d e = ground arith

  append_key-failed :
      (o : Option Text) (d : Disk) {e : IoError} {d' : Disk}
      → append_key faults s line o d ≡ (failed e, d')
      → write_atomically faults (updated s line) d ≡ (failed e, d')
  unfolding append_key
  append_key-failed o d h = ground arith

abbrev pub target_of : {A : Type 0} → Outcome A × Disk → Node
target_of (r, d) = d.target

module _ (faults : Faults) (d : Disk) (t k c : Text) where
  pub ensure_line_read :
      (s : Text)
      → read_existing faults d.target ≡ done s
      → ensure_line faults t k c d ≡ append_key faults s (entry t k c) (find_key k (lines s)) d
  unfolding ensure_line
  ensure_line_read s e =
      ap
        (λ r.
          follow r (λ content. append_key faults content (entry t k c) (find_key k (lines content)))
            d)
        e

  -- A file that cannot be read is left alone.
  pub ensure_line_unread :
      {e : IoError}
      → read_existing faults d.target ≡ failed e
      → ensure_line faults t k c d ≡ (failed e, d)
  unfolding ensure_line
  ensure_line_unread e =
      ap
        (λ r.
          follow r (λ content. append_key faults content (entry t k c) (find_key k (lines content)))
            d)
        e

  -- If `ensure_line` fails, whichever call was the cause, then the file is as it was.
  pub ensure_line_failed :
      {e : IoError} {d' : Disk} → ensure_line faults t k c d ≡ (failed e, d') → d'.target ≡ d.target
  ensure_line_failed {e} {d'} h = elim (Outcome-cases (read_existing faults d.target)) [
    | inl (s, r) ↦
        (write_atomically_failed faults (updated s (entry t k c)) d (
          append_key-failed faults s (entry t k c) (find_key k (lines s)) d
            (sym (ensure_line_read s r) ∙ h))).0
    | inr (x, r) ↦ ap target_of (sym h ∙ ensure_line_unread r)
  ]

  -- If the file can be read and `ensure_line` reports that a well-formed key was added, then
  -- no line held the key, the file is the old text and one line, and `parse_line` finds in
  -- it what it found before and then the new key.
  pub ensure_line_added :
      (s : Text) {d' : Disk}
      → faults.read ≡ false
      → Holds d s
      → IsEntry t k c
      → ensure_line faults t k c d ≡ (done added, d')
      → (find_key k (lines s) ≡ none)
        × Holds d' (updated s (entry t k c))
        × (map parse_line (lines (updated s (entry t k c)))
            ≡ map parse_line (lines s)
              ++ some (record { key_type = t; key_b64 = k; comment = c }) ∷ [])
  ensure_line_added s ok h w e =
      let (fresh, written) =
        append_key-added faults s (entry t k c) (find_key k (lines s)) d
          (sym (ensure_line_read s (read-Holds faults d s ok h)) ∙ e) in
      (
        fresh,
        Replaced-Holds _ (All-updated s (entry t k c) h.chars w.chars)
            (write_atomically-Replaced faults (updated s (entry t k c)) d written),
        parsed-updated s t k c w,
      )

-- If the file can be read and `ensure_line` added a well-formed key, then enrolling the key
-- once more, under any key type and comment, leaves the disk as it is and reports the comment
-- of the first time.
pub ensure_line_twice :
    (faults faults' : Faults) (d : Disk) (s t k c t' c' : Text) {d' : Disk}
    → faults.read ≡ false
    → faults'.read ≡ false
    → Holds d s
    → IsEntry t k c
    → ensure_line faults t k c d ≡ (done added, d')
    → ensure_line faults' t' k c' d' ≡ (done (already_present c), d')
unfolding append_key
ensure_line_twice faults faults' d s t k c t' c' {d'} ok ok' h w e =
    let (fresh, held, parsed) = ensure_line_added faults d t k c s ok h w e in
    let content = updated s (entry t k c) in
    let found : find_key k (lines content) ≡ some c =
      find_key-map k (lines content)
      ∙ ap (find_in k) parsed
      ∙ find_in-append k (map parse_line (lines s))
          (record { key_type = t; key_b64 = k; comment = c })
          (sym (find_key-map k (lines s)) ∙ fresh) (equal_refl k) in
    ensure_line_read faults' d' t' k c' content (read-Holds faults' d' content ok' held)
    ∙ ap (λ o. append_key faults' content (entry t' k c') o d') found

-- If no call fails and the file holds text or is absent, then `ensure_line` succeeds: either a
-- line holds the key, and its comment is reported and the disk is as it was, or the key is
-- added.
pub ensure_line-no_faults :
    (d : Disk) (s t k c : Text)
    → Holds d s
    → ((c' : Text) × (find_key k (lines s) ≡ some c')
        × (ensure_line no_faults t k c d ≡ (done (already_present c'), d)))
      ⊎ ((d' : Disk) × (ensure_line no_faults t k c d ≡ (done added, d')))
unfolding append_key
ensure_line-no_faults d s t k c h =
    let read = ensure_line_read no_faults d t k c s (read-Holds no_faults d s refl h) in
    elim (Option-cases (find_key k (lines s))) [
      | inl e ↦ inr (
        _,
        read
            ∙ ap (λ o. append_key no_faults s (entry t k c) o d) e
            ∙ ap (λ r. follow r.0 (λ u x. (done added, x)) r.1)
                (write_atomically-no_faults (updated s (entry t k c)) d),
      )
      | inr (c', e) ↦ inl (c', e, read ∙ ap (λ o. append_key no_faults s (entry t k c) o d) e)
    ]
