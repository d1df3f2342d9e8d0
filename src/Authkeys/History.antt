-- ===== src/Authkeys/History.antt =====
-- Sequences of binds and revocations on authorized_keys, and what they do to its rows.
use mpx_cli.Prelude.{
  ◌≡◌, refl, ap, subst, sym, ◌∙◌, Bool, true, false, Option, none, some, inl, inr, List, [], ◌∷◌,
  ◌++◌, map, if◌then◌else◌, arith, equal, is_some, All, Option-cases, Bool-cases,
}
use mpx_cli.Text.Utf8.{Text}
use mpx_cli.Text.Codes.{strip_prefix}
use mpx_cli.Authkeys.Disk.{Disk, Faults}
use mpx_cli.Authkeys.Line.{MarkedKey, marker_prefix}
use mpx_cli.Authkeys.Kept.{Row, rows, mark, stays, left_rows}
use mpx_cli.Authkeys.Enroll.{Holds, find_in}
use mpx_cli.Authkeys.Store.{
  Request, enroll, revoke, Reply, IsRequest, parsed, new_row, put_key, serve, Session, end, served,
  turned_down, replay,
}
use mpx_cli.Authkeys.Refines.{requests, replay-Refined}

-- The rows that carry no mark: other people's keys, comments and blank lines.
pub foreign : List Row → List Row
foreign [] = []
foreign (r ∷ rs) = let rest = foreign rs in if is_some (mark r) then rest else r ∷ rest

-- A request whose comment, if any, is a marker.
abbrev pub IsMarked : Request → Type 0
IsMarked (enroll t k c) = is_some (strip_prefix marker_prefix c) ≡ true
IsMarked (revoke f) = Unit

foreign-append :
    (rs : List Row) (r : Row) → is_some (mark r) ≡ true → foreign (rs ++ r ∷ []) ≡ foreign rs
unfolding foreign
foreign-append [] r h = rw h refl
foreign-append (q ∷ rs) r h =
    ap (λ rest. if is_some (mark q) then rest else q ∷ rest) (foreign-append rs r h)

mark-new_row :
    (t k c : Text)
    → is_some (strip_prefix marker_prefix c) ≡ true
    → is_some (mark (new_row t k c)) ≡ true
mark-new_row t k c h = elim (Option-cases (strip_prefix marker_prefix c)) [
  | inl e ↦ rw e (rw e at h)
  | inr (rest, e) ↦ rw e refl
]

foreign-put_key :
    (new : Row) (o : Option Text) (rs : List Row)
    → is_some (mark new) ≡ true
    → foreign (put_key new o rs).1 ≡ foreign rs
foreign-put_key new none rs h = foreign-append rs new h
foreign-put_key new (some comment) rs h = refl

foreign-left_rows : (f : MarkedKey → Bool) (rs : List Row) → foreign (left_rows f rs) ≡ foreign rs
unfolding foreign left_rows
foreign-left_rows f [] = refl
foreign-left_rows f (r ∷ rs) =
    let ih = foreign-left_rows f rs in
    elim (Option-cases (mark r)) [
      | inl e ↦ rw e (rw e (ap (◌∷◌ r) ih))
      | inr (k, e) ↦
          rw e (elim (Bool-cases (f k)) [ inl yea ↦ rw yea ih | inr nay ↦ rw nay (rw e ih) ])
    ]

foreign-serve : (q : Request) (rs : List Row) → IsMarked q → foreign (serve q rs).1 ≡ foreign rs
foreign-serve (enroll t k c) rs h =
    foreign-put_key (new_row t k c) (find_in k (map parsed rs)) rs (mark-new_row t k c h)
foreign-serve (revoke f) rs h = foreign-left_rows f rs

foreign-Session :
    {rs rs' : List Row} {qs : List Request} {ps : List Reply}
    → Session rs qs ps rs'
    → All IsMarked qs
    → foreign rs' ≡ foreign rs
foreign-Session (end rs) h = refl
foreign-Session {rs} (served q r e more) h =
    foreign-Session more h.1 ∙ sym (ap (λ a. foreign a.1) e) ∙ foreign-serve q rs h.0
foreign-Session (turned_down q e more) h = foreign-Session more h.1

-- No two rows hold the same key.
abbrev pub IsDistinct : List Row → Type 0
IsDistinct [] = Unit
IsDistinct ((t, none) ∷ rs) = IsDistinct rs
IsDistinct ((t, some k) ∷ rs) = (find_in k.key_b64 (map parsed rs) ≡ none) × IsDistinct rs

equal_sym : (a b : Text) → equal a b ≡ equal b a
unfolding equal
equal_sym [] [] = refl
equal_sym [] (y ∷ b) = refl
equal_sym (x ∷ a) [] = refl
equal_sym (x ∷ a) (y ∷ b) = ground (arith, equal_sym a b)

find_in-behind :
    (key t k c : Text) (rs : List Row)
    → equal k key ≡ false
    → find_in key (map parsed rs) ≡ none
    → find_in key (map parsed (rs ++ new_row t k c ∷ [])) ≡ none
find_in-behind key t k c [] h e = rw h refl
find_in-behind key t k c ((u, none) ∷ rs) h e = find_in-behind key t k c rs h e
find_in-behind key t k c ((u, some j) ∷ rs) h e = ground (arith, find_in-behind key t k c rs h)

IsDistinct-append :
    (t k c : Text) (rs : List Row)
    → find_in k (map parsed rs) ≡ none
    → IsDistinct rs
    → IsDistinct (rs ++ new_row t k c ∷ [])
IsDistinct-append t k c [] e h = (refl, tt)
IsDistinct-append t k c ((u, none) ∷ rs) e h = IsDistinct-append t k c rs e h
IsDistinct-append t k c ((u, some j) ∷ rs) e h = elim (Bool-cases (equal j.key_b64 k)) [
  | inl same ↦ absurd (cc (rw same at e))
  | inr apart ↦ (
    find_in-behind j.key_b64 t k c rs (equal_sym k j.key_b64 ∙ apart) h.0,
    IsDistinct-append t k c rs (rw apart at e) h.1,
  )
]

find_in-left_rows :
    (key : Text) (f : MarkedKey → Bool) (rs : List Row)
    → find_in key (map parsed rs) ≡ none
    → find_in key (map parsed (left_rows f rs)) ≡ none
unfolding left_rows
find_in-left_rows key f [] e = e
find_in-left_rows key f ((u, none) ∷ rs) e = find_in-left_rows key f rs e
find_in-left_rows key f ((u, some j) ∷ rs) e = elim (Bool-cases (equal j.key_b64 key)) [
  | inl same ↦ absurd (cc (rw same at e))
  | inr apart ↦
      let ih = find_in-left_rows key f rs (rw apart at e) in
      elim (Bool-cases (stays f (u, some j))) [
        | inl yea ↦ rw yea (rw apart ih)
        | inr nay ↦ rw nay ih
      ]
]

IsDistinct-left_rows :
    (f : MarkedKey → Bool) (rs : List Row) → IsDistinct rs → IsDistinct (left_rows f rs)
unfolding left_rows
IsDistinct-left_rows f [] h = tt
IsDistinct-left_rows f ((u, none) ∷ rs) h = IsDistinct-left_rows f rs h
IsDistinct-left_rows f ((u, some j) ∷ rs) h = elim (Bool-cases (stays f (u, some j))) [
  | inl yea ↦ rw yea (find_in-left_rows j.key_b64 f rs h.0, IsDistinct-left_rows f rs h.1)
  | inr nay ↦ rw nay (IsDistinct-left_rows f rs h.1)
]

IsDistinct-put_key :
    (t k c : Text) (rs : List Row) (o : Option Text)
    → find_in k (map parsed rs) ≡ o
    → IsDistinct rs
    → IsDistinct (put_key (new_row t k c) o rs).1
IsDistinct-put_key t k c rs none e h = IsDistinct-append t k c rs e h
IsDistinct-put_key t k c rs (some comment) e h = h

IsDistinct-serve : (q : Request) (rs : List Row) → IsDistinct rs → IsDistinct (serve q rs).1
IsDistinct-serve (enroll t k c) rs h =
    IsDistinct-put_key t k c rs (find_in k (map parsed rs)) refl h
IsDistinct-serve (revoke f) rs h = IsDistinct-left_rows f rs h

IsDistinct-Session :
    {rs rs' : List Row} {qs : List Request} {ps : List Reply}
    → Session rs qs ps rs'
    → IsDistinct rs
    → IsDistinct rs'
IsDistinct-Session (end rs) h = h
IsDistinct-Session {rs} (served q r e more) h =
    IsDistinct-Session more (subst (λ a. IsDistinct a.1) e (IsDistinct-serve q rs h))
IsDistinct-Session (turned_down q e more) h = IsDistinct-Session more h

module _ (qs : List (Faults × Request)) (d : Disk) (s : Text) (h : Holds d s)
    (w : All IsRequest (requests qs)) where
  -- From a file that holds a text, any sequence of revocations and of enrollments of well-
  -- formed keys under markers, with any calls failing in each, leaves a file whose rows
  -- without a marker are those of the start, in their order.
  pub foreign-replay :
      All IsMarked (requests qs)
      → (s' : Text) × Holds (replay qs d).1 s' × (foreign (rows s') ≡ foreign (rows s))
  foreign-replay marked =
      let (s', held, session) = replay-Refined qs d s h w in
      (s', held, foreign-Session session marked)

  -- From a file that holds a text in which no two rows hold the same key, any sequence of
  -- enrollments of well-formed keys and of revocations, with any calls failing in each,
  -- leaves a file in which no two rows hold the same key.
  pub IsDistinct-replay :
      IsDistinct (rows s) → (s' : Text) × Holds (replay qs d).1 s' × IsDistinct (rows s')
  IsDistinct-replay distinct =
      let (s', held, session) = replay-Refined qs d s h w in
      (s', held, IsDistinct-Session session distinct)
