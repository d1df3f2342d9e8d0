-- ===== src/Authkeys/Refines.antt =====
-- `ensure_line` and `remove_marked` of src/authkeys.rs beside the abstract store of rows,
-- whatever calls fail.
use mpx_cli.Prelude.{
  ◌≡◌, refl, ap, ap₂, subst, sym, ◌∙◌, Bool, Option, none, some, ◌⊎◌, inl, inr, List, [], ◌∷◌, ◌++◌,
  map, Bool-cases, All,
}
use mpx_cli.Text.Utf8.{Text}
use mpx_cli.Text.Lines.{lines}
use mpx_cli.Authkeys.Disk.{
  Disk, Faults, IoError, Outcome, done, failed, write_atomically, follow, pure, other,
}
use mpx_cli.Authkeys.Line.{MarkedKey, parse_line}
use mpx_cli.Authkeys.Lines.{readings-terminated, readings-line}
use mpx_cli.Authkeys.Parse.{parse_line-entry, trim-entry}
use mpx_cli.Authkeys.Replace.{write_atomically-Replaced, write_atomically_failed}
use mpx_cli.Authkeys.Kept.{row, rows, row-strip_cr, map-seen_row, taken}
use mpx_cli.Authkeys.Enroll.{
  Holds, read-Holds, Replaced-Holds, All-updated, IsEntry, find_in, find_key-map, ensure_line_read,
  ensure_line_unread,
}
use mpx_cli.Authkeys.Revoke.{remove_marked_failed, remove_marked-rows, remove_marked_unread}
use mpx_cli.Authkeys.Store.{
  Request, enroll, revoke, Reply, enrolled, revoked, refused, IsRequest, parsed, new_row, serve,
  Session, end, served, turned_down, enroll_reply, revoke_reply, call, replay,
}
use mpx_cli.Authkeys.{
  AddOutcome, added, read_existing, find_key, entry, updated, append_key, remove_marked,
}

Holds-target : {d d' : Disk} {s : Text} → d'.target ≡ d.target → Holds d s → Holds d' s
Holds-target e h = record {
  chars = h.chars;
  node = elim h.node [ inl (a, empty) ↦ inl (e ∙ a, empty) | inr (mode, a) ↦ inr (mode, e ∙ a) ];
}

-- A file that holds a text is read as that text, or not at all.
read_existing-Holds :
    (faults : Faults) (d : Disk) (s : Text)
    → Holds d s
    → (read_existing faults d.target ≡ done s)
      ⊎ ((e : IoError) × (read_existing faults d.target ≡ failed e))
unfolding read_existing
read_existing-Holds faults d s h = elim (Bool-cases faults.read) [
  | inl broken ↦ elim h.node [
    | inl (e, empty) ↦ inl (rw (e, empty) refl)
    | inr (mode, e) ↦ inr (other, rw e (rw broken refl))
  ]
  | inr sound ↦ inl (unfold read_existing in read-Holds faults d s sound h)
]

rows-updated :
    (s t k c : Text) → IsEntry t k c → rows (updated s (entry t k c)) ≡ rows s ++ new_row t k c ∷ []
unfolding lines
rows-updated s t k c h =
    readings-terminated row row-strip_cr s (entry t k c ++ (b'\n' ∷ []))
    ∙ ap (λ rs. rows s ++ rs)
        (readings-line row row-strip_cr (entry t k c) [] h.line
          ∙ ap₂ (λ u p. (u, p) ∷ []) (trim-entry t k c h.key_type.word h.comment)
              (parse_line-entry t k c h.key_type h.key_b64 h.comment))

map-parsed : (ls : List Text) → map parse_line ls ≡ map parsed (map row ls)
map-parsed [] = refl
map-parsed (l ∷ ls) = ap (◌∷◌ (parse_line l)) (map-parsed ls)

find_key-rows : (k s : Text) → find_key k (lines s) ≡ find_in k (map parsed (rows s))
find_key-rows k s = find_key-map k (lines s) ∙ ap (find_in k) (map-parsed (lines s))

-- One request on a disk that holds a text.
pub data Kept (d : Disk) (s : Text) (q : Request) : Reply × Disk → Type 0 where
  unchanged : {e : IoError} {d' : Disk} → d'.target ≡ d.target → Kept d s q (refused e, d')
  promised :
      {r : Reply} {d' : Disk} (s' : Text)
      → Holds d' s'
      → serve q (rows s) ≡ (r, rows s')
      → Kept d s q (r, d')

module _ (faults : Faults) (d : Disk) (s : Text) (h : Holds d s) where
  module _ (t k c : Text) (w : IsEntry t k c) where
    written-Kept :
        (r : Outcome (Unit {0})) {d' : Disk}
        → find_key k (lines s) ≡ none
        → write_atomically faults (updated s (entry t k c)) d ≡ (r, d')
        → let after = follow r (λ u. pure added) d' in
          Kept d s (enroll t k c) (enroll_reply after.0, after.1)
    written-Kept (done u) fresh e =
        promised (updated s (entry t k c))
          (Replaced-Holds _ (All-updated s (entry t k c) h.chars w.chars)
            (write_atomically-Replaced faults (updated s (entry t k c)) d e))
          (rw (sym (find_key-rows k s) ∙ fresh)
            (ap (λ rs. (enrolled added, rs)) (sym (rows-updated s t k c w))))
    written-Kept (failed x) fresh e =
        unchanged (write_atomically_failed faults (updated s (entry t k c)) d e).0

    append_key-Kept :
        (o : Option Text)
        → find_key k (lines s) ≡ o
        → let after = append_key faults s (entry t k c) o d in
          Kept d s (enroll t k c) (enroll_reply after.0, after.1)
    unfolding append_key
    append_key-Kept none e =
        written-Kept (write_atomically faults (updated s (entry t k c)) d).0 e refl
    append_key-Kept (some c') e = promised s h (rw (sym (find_key-rows k s) ∙ e) refl)

    enroll-Kept : Kept d s (enroll t k c) (call faults (enroll t k c) d)
    enroll-Kept = elim (read_existing-Holds faults d s h) [
      | inl r ↦
          subst (λ (x : Outcome AddOutcome × Disk). Kept d s (enroll t k c) (enroll_reply x.0, x.1))
            (sym (ensure_line_read faults d t k c s r))
            (append_key-Kept (find_key k (lines s)) refl)
      | inr (x, r) ↦
          subst (λ (x : Outcome AddOutcome × Disk). Kept d s (enroll t k c) (enroll_reply x.0, x.1))
            (sym (ensure_line_unread faults d t k c r)) (unchanged refl)
    ]

  revoke-Kept : (f : MarkedKey → Bool) → Kept d s (revoke f) (call faults (revoke f) d)
  revoke-Kept f = elim (read_existing-Holds faults d s h) [
    | inl r ↦ go r (remove_marked faults f d).0 refl
    | inr (x, r) ↦
        subst (λ (x : Outcome (List MarkedKey) × Disk). Kept d s (revoke f) (revoke_reply x.0, x.1))
          (sym (remove_marked_unread faults f d r)) (unchanged refl)
  ]
    where
      go :
          read_existing faults d.target ≡ done s
          → (r : Outcome (List MarkedKey)) {d' : Disk} → remove_marked faults f d ≡ (r, d')
          → Kept d s (revoke f) (revoke_reply r, d')
      go sound (done ks) e =
          let (took, (s', held, after)) = remove_marked-rows faults f d s h sound e in
          promised s' held (
            ap₂ (λ js rs. (revoked js, rs)) (ap (taken f) (sym (map-seen_row (lines s))) ∙ sym took)
              (sym after))
      go sound (failed x) e = unchanged (remove_marked_failed faults f d e)

  pub call-Kept : (q : Request) → IsRequest q → Kept d s q (call faults q d)
  call-Kept (enroll t k c) w = enroll-Kept t k c w
  call-Kept (revoke f) w = revoke-Kept f

abbrev pub requests : List (Faults × Request) → List Request
requests [] = []
requests ((faults, q) ∷ qs) = q ∷ requests qs

-- What a session on the disk comes to: the file holds a text again, and the rows went through a
-- session of the store.
abbrev pub Refined : Text → List Request → List Reply × Disk → Type 0
Refined s qs (ps, d) = (s' : Text) × Holds d s' × Session (rows s) qs ps (rows s')

-- From a file that holds a text, any sequence of enrollments of well-formed keys and of
-- revocations, with any calls failing in each, goes as in the store of rows: each request is
-- answered as the store promises and the rows of the file change accordingly, or it is refused
-- and the rows are as they were.
pub replay-Refined :
    (qs : List (Faults × Request)) (d : Disk) (s : Text)
    → Holds d s
    → All IsRequest (requests qs)
    → Refined s (requests qs) (replay qs d)
unfolding replay
replay-Refined [] d s h w = (s, h, end (rows s))
replay-Refined ((faults, q) ∷ qs) d s h w =
    go (call-Kept faults d s h q w.0) (λ d' s' h'. replay-Refined qs d' s' h' w.1)
  where
    go :
        {r : Reply} {d' : Disk}
        → Kept d s q (r, d')
        → ((d' : Disk) (s' : Text) → Holds d' s' → Refined s' (requests qs) (replay qs d'))
        → Refined s (q ∷ requests qs) (r ∷ (replay qs d').0, (replay qs d').1)
    go {d'} (unchanged same) rest =
        let (s'', held, session) = rest d' s (Holds-target same h) in
        (s'', held, turned_down q _ session)
    go {d'} (promised s' h' e) rest =
        let (s'', held, session) = rest d' s' h' in (s'', held, served q _ e session)
