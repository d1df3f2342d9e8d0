-- ===== src/Payload/Name.antt =====
-- `truncated_name`: the longest prefix of whole characters that fits `MAX_NAME` bytes.
use mpx_cli.Prelude.{
  ℕ, ◌||◌, some, zero, suc, ◌+◌, ◌-◌, ◌≤◌, ◌<◌, min, ◌≡◌, ◌⊎◌, ltb→lt, ltb-false, refl, ap, ◌∙◌,
  sym, true, [], ◌∷◌, ◌++◌, arith, ltb, leb, if◌then◌else◌, tests, Bool-cases, Option-cases, le→leb,
  lt→leb, inl, inr, length, get_elem?, take, length-append, All, Bytes,
}
use native.Mathlib.Nat.{zero-add, suc-add, add-suc}
use mpx_cli.Text.Utf8.{Text, IsChar, as_bytes, utf8_char, is_char_boundary}

abbrev pub max_name : ℕ
max_name = 32

-- `while end > 0 && !name.is_char_boundary(end) { end -= 1; }`
floor_boundary : Bytes → ℕ → ℕ
floor_boundary bs zero = zero
floor_boundary bs (suc end) =
    if is_char_boundary bs (suc end) then suc end else floor_boundary bs end

unfoldable pub truncated_name : Text → Bytes
unfolding floor_boundary
truncated_name name =
    let bs = as_bytes name in take (floor_boundary bs (min (length bs) max_name)) bs

-- The characters that fit into `n` bytes.
unfoldable pub fitting : ℕ → Text → Text
fitting n [] = []
fitting n (c ∷ s) =
    if leb (length (utf8_char c)) n then c ∷ fitting (n - length (utf8_char c)) s else []

length-utf8_char : (c : ℕ) → (0 < length (utf8_char c)) × (length (utf8_char c) ≤ 4)
unfolding utf8_char
length-utf8_char c = ground arith

-- Up to its own width a character has its boundary at 0 only.
floor_boundary-utf8_char :
    (c n : ℕ) (bs : Bytes) → n < length (utf8_char c) → floor_boundary (utf8_char c ++ bs) n ≡ 0
unfolding floor_boundary is_char_boundary utf8_char
floor_boundary-utf8_char c zero bs h = refl
floor_boundary-utf8_char c (suc zero) bs h = ground arith
floor_boundary-utf8_char c (suc (suc zero)) bs h = ground arith
floor_boundary-utf8_char c (suc (suc (suc zero))) bs h = ground arith
floor_boundary-utf8_char c (suc (suc (suc (suc n)))) bs h =
    absurd (ground (arith, length-utf8_char c))

get_elem?-append : (us bs : Bytes) (i : ℕ) → get_elem? (us ++ bs) (length us + i) ≡ get_elem? bs i
get_elem?-append [] bs i = rw zero-add
get_elem?-append (a ∷ us) bs i = rw suc-add (get_elem?-append us bs i)

first_byte :
    (c : ℕ) (s : Text)
    → (b : ℕ) × (get_elem? (as_bytes (c ∷ s)) 0 ≡ some b) × ((ltb b 128 || leb 192 b) ≡ true)
unfolding as_bytes utf8_char
first_byte c s = elim (Option-cases (get_elem? (as_bytes (c ∷ s)) 0)) [
  | inl e ↦ absurd (ground arith)
  | inr (b, e) ↦ (b, e, ground arith)
]

-- A text starts with a boundary, whatever stands in front of it.
is_char_boundary-append :
    (us : Bytes) (s : Text) (i : ℕ)
    → 0 < length us
    → is_char_boundary (us ++ as_bytes s) (length us + i) ≡ is_char_boundary (as_bytes s) i
unfolding is_char_boundary as_bytes
is_char_boundary-append us [] zero h = ground (arith, get_elem?-append us [] 0, length-append us [])
is_char_boundary-append us (c ∷ s) zero h =
    let (b, e, lead) = first_byte c s in
    rw (get_elem?-append us (as_bytes (c ∷ s)) 0) (rw e (rw lead (ground arith)))
is_char_boundary-append us s (suc i) h =
    rw (get_elem?-append us (as_bytes s) (suc i)) (ground (arith, length-append us (as_bytes s)))

floor_boundary_at : (bs : Bytes) (n : ℕ) → is_char_boundary bs n ≡ true → floor_boundary bs n ≡ n
unfolding floor_boundary
floor_boundary_at bs zero h = refl
floor_boundary_at bs (suc n) h = rw h

floor_boundary-shift :
    (bs cs : Bytes) (w n : ℕ)
    → ((i : ℕ) → is_char_boundary bs (w + i) ≡ is_char_boundary cs i)
    → floor_boundary bs (w + n) ≡ w + floor_boundary cs n
unfolding floor_boundary
floor_boundary-shift bs cs w zero same =
    floor_boundary_at bs (w + 0) (same 0 ∙ unfold is_char_boundary in refl)
floor_boundary-shift bs cs w (suc n) same =
    let ih = floor_boundary-shift bs cs w n same in
    let here = same (suc n) in rw add-suc (ground arith)

take-append_add : (us bs : Bytes) (k : ℕ) → take (length us + k) (us ++ bs) ≡ us ++ take k bs
take-append_add [] bs k = rw zero-add
take-append_add (u ∷ us) bs k = rw suc-add (ap (◌∷◌ u) (take-append_add us bs k))

take-floor_boundary :
    (n : ℕ) (s : Text)
    → n ≤ length (as_bytes s)
    → take (floor_boundary (as_bytes s) n) (as_bytes s) ≡ as_bytes (fitting n s)
unfolding as_bytes fitting
take-floor_boundary zero [] h = unfold floor_boundary in refl
take-floor_boundary (suc n) [] h = absurd (omega arith)
take-floor_boundary n (c ∷ s) h = elim (Bool-cases (leb (length (utf8_char c)) n)) [
  | inl fits ↦
      let w = length (utf8_char c) in
      let e : w + (n - w) ≡ n = omega tests in
      let total = length-append (utf8_char c) (as_bytes s) in
      let wide = length-utf8_char c in
      let shift =
        floor_boundary-shift (utf8_char c ++ as_bytes s) (as_bytes s) w (n - w)
          (λ i. is_char_boundary-append (utf8_char c) s i wide.0) in
      rw fits (
        ap (λ k. take (floor_boundary (utf8_char c ++ as_bytes s) k) (utf8_char c ++ as_bytes s))
          (sym e)
        ∙ ap (λ k. take k (utf8_char c ++ as_bytes s)) shift
        ∙ take-append_add (utf8_char c) (as_bytes s) _
        ∙ ap (λ t. utf8_char c ++ t) (take-floor_boundary (n - w) s (omega tests)))
  | inr wide ↦ rw wide (rw (floor_boundary-utf8_char c n (as_bytes s) (omega tests)) refl)
]

fitting-min : (n : ℕ) (s : Text) → fitting (min (length (as_bytes s)) n) s ≡ fitting n s
unfolding fitting as_bytes
fitting-min n [] = refl
fitting-min n (c ∷ s) =
    let total = length-append (utf8_char c) (as_bytes s) in
    elim (Bool-cases (leb (length (utf8_char c)) n)) [
      | inl fits ↦
          let w = length (utf8_char c) in
          let e : min (length (utf8_char c ++ as_bytes s)) n - w
              ≡ min (length (as_bytes s)) (n - w) =
            omega tests in
          rw (fits, le→leb w (min (length (utf8_char c ++ as_bytes s)) n) (omega tests))
            (ap (◌∷◌ c) (rw e (fitting-min (n - w) s)))
      | inr wide ↦
          rw
            (
              wide,
              lt→leb (length (utf8_char c)) (min (length (utf8_char c ++ as_bytes s)) n)
                  (omega tests),
            )
            refl
    ]

pub truncated_name_lem : (name : Text) → truncated_name name ≡ as_bytes (fitting max_name name)
unfolding truncated_name
truncated_name_lem name =
    take-floor_boundary (min (length (as_bytes name)) max_name) name (omega arith)
    ∙ rw (fitting-min max_name name) refl

-- What fits is a prefix of the characters, and the next character no longer fits.
pub fitting-prefix : (n : ℕ) (s : Text) → fitting n s ≡ take (length (fitting n s)) s
unfolding fitting
fitting-prefix n [] = refl
fitting-prefix n (c ∷ s) = elim (Bool-cases (leb (length (utf8_char c)) n)) [
  | inl fits ↦ rw fits (ap (◌∷◌ c) (fitting-prefix (n - length (utf8_char c)) s))
  | inr wide ↦ rw wide refl
]

pub length-fitting : (n : ℕ) (s : Text) → length (as_bytes (fitting n s)) ≤ n
unfolding fitting as_bytes
length-fitting n [] = omega arith
length-fitting n (c ∷ s) = elim (Bool-cases (leb (length (utf8_char c)) n)) [
  | inl fits ↦
      let rest = fitting (n - length (utf8_char c)) s in
      rw fits (
        omega (
          tests,
          length-append (utf8_char c) (as_bytes rest),
          length-fitting (n - length (utf8_char c)) s,
        ))
  | inr wide ↦ rw wide (omega arith)
]

pub fitting_maximal :
    (n : ℕ) (s : Text)
    → length (fitting n s) < length s
    → n < length (as_bytes (take (suc (length (fitting n s))) s))
unfolding fitting as_bytes
fitting_maximal n [] h = absurd (omega arith)
fitting_maximal n (c ∷ s) h = elim (Bool-cases (leb (length (utf8_char c)) n)) [
  | inl fits ↦
      let k = n - length (utf8_char c) in
      let more : length (fitting k s) < length s = omega (arith, rw fits at h) in
      let ih = fitting_maximal k s more in
      rw fits (
        omega (tests, length-append (utf8_char c) (as_bytes (take (suc (length (fitting k s))) s))))
  | inr wide ↦ rw wide (omega (tests, length-append (utf8_char c) []))
]

pub All-fitting : (n : ℕ) (s : Text) → All IsChar s → All IsChar (fitting n s)
unfolding fitting
All-fitting n [] h = tt
All-fitting n (c ∷ s) h = elim (Bool-cases (leb (length (utf8_char c)) n)) [
  | inl fits ↦ rw fits (h.0, All-fitting (n - length (utf8_char c)) s h.1)
  | inr wide ↦ rw wide tt
]

take_all : (n : ℕ) (s : Text) → length s ≤ n → take n s ≡ s
take_all zero [] h = refl
take_all zero (c ∷ s) h = absurd (omega arith)
take_all (suc n) [] h = refl
take_all (suc n) (c ∷ s) h = ap (◌∷◌ c) (take_all n s (omega arith))

-- The name that is sent is a prefix of whole characters that takes at most 32 bytes, and
-- either it is the whole name or one more character would take more than 32 bytes.
pub truncated_name_longest :
    (name : Text)
    → let count = length (fitting max_name name) in
      (truncated_name name ≡ as_bytes (take count name))
      × (length (truncated_name name) ≤ max_name)
      × ((truncated_name name ≡ as_bytes name)
          ⊎ (max_name < length (as_bytes (take (suc count) name))))
truncated_name_longest name =
    let count = length (fitting max_name name) in
    let whole = truncated_name_lem name ∙ ap as_bytes (fitting-prefix max_name name) in
    (
      whole,
      rw (truncated_name_lem name) (length-fitting max_name name),
      elim (Bool-cases (ltb count (length name))) [
        | inl more ↦ inr (fitting_maximal max_name name (ltb→lt count (length name) more))
        | inr all ↦
            inl (whole ∙ ap as_bytes (take_all count name (ltb-false count (length name) all)))
      ],
    )
