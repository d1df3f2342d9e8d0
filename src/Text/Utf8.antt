-- ===== src/Text/Utf8.antt =====
-- `str::as_bytes`, `String::from_utf8` and `str::is_char_boundary` of Rust's standard library.
use mpx_cli.Prelude.{
  ℕ, ◌+◌, ◌-◌, ◌*◌, ◌/◌, ◌%◌, ◌≤◌, ◌<◌, ◌≡◌, refl, ◌⊎◌, ◌∙◌, Bool, true, ◌&&◌, ◌||◌, Option, none,
  some, List, [], ◌∷◌, ◌++◌, arith, tests, Bool-cases, ltb-false, inl, inr, ◌≢◌, >>=-eq-some, ltb,
  leb, ◌==◌, if◌then◌else◌, ◌>>=◌, length, get_elem?, All, Bytes,
}

-- A text is the list of its Unicode scalar values.
abbrev pub Text : Type 0
Text = List ℕ

-- A `char`: a code point that is no surrogate.
abbrev pub IsChar : ℕ → Type 0
IsChar c = (c < 0xd800) ⊎ ((0xe000 ≤ c) × (c < 0x110000))

-- The bytes of one `char`.
unfoldable pub utf8_char : ℕ → Bytes
utf8_char c =
    if ltb c 0x80
    then c ∷ []
    else if ltb c 0x800
    then (0xc0 + c / 64) ∷ (0x80 + c % 64) ∷ []
    else if ltb c 0x10000
    then (0xe0 + c / 4096) ∷ (0x80 + c / 64 % 64) ∷ (0x80 + c % 64) ∷ []
    else (0xf0 + c / 262144) ∷ (0x80 + c / 4096 % 64) ∷ (0x80 + c / 64 % 64) ∷ (0x80 + c % 64) ∷ []

-- `as_bytes`
unfoldable pub as_bytes : Text → Bytes
unfolding utf8_char
as_bytes [] = []
as_bytes (c ∷ s) = utf8_char c ++ as_bytes s

-- What the decoder waits for: so many continuation bytes, the first of them in a range.
record Pending : Type 0 where
  need : ℕ
  acc : ℕ
  low : ℕ
  high : ℕ

abbrev ready : Pending
ready = record { need = 0; acc = 0; low = 0x80; high = 0xbf }

abbrev pending : ℕ → ℕ → ℕ → ℕ → Pending
pending n a l h = record { need = n; acc = a; low = l; high = h }

-- The first byte of a `char` of several bytes.
lead : ℕ → Option Pending
lead b =
    if leb 0xc2 b && leb b 0xdf
    then some (pending 1 (b - 0xc0) 0x80 0xbf)
    else if b == 0xe0
    then some (pending 2 0 0xa0 0xbf)
    else if b == 0xed
    then some (pending 2 0xd 0x80 0x9f)
    else if leb 0xe1 b && leb b 0xef
    then some (pending 2 (b - 0xe0) 0x80 0xbf)
    else if b == 0xf0
    then some (pending 3 0 0x90 0xbf)
    else if leb 0xf1 b && leb b 0xf3
    then some (pending 3 (b - 0xf0) 0x80 0xbf)
    else if b == 0xf4
    then some (pending 3 4 0x80 0x8f)
    else none

-- A continuation byte: the state behind it.
continue : Pending → ℕ → Option Pending
continue p b =
    if leb p.low b && leb b p.high
    then some (pending (p.need - 1) (p.acc * 64 + (b - 0x80)) 0x80 0xbf)
    else none

push : ℕ → Option Text → Option Text
push c none = none
push c (some s) = some (c ∷ s)

decode_from : Pending → Bytes → Option Text
decode_from p [] = if p.need == 0 then some [] else none
decode_from p (b ∷ bs) =
    if p.need == 0
    then (if ltb b 0x80
        then push b (decode_from ready bs)
        else elim (lead b) [ none ↦ none | some q ↦ decode_from q bs ])
    else elim (continue p b) [
      | none ↦ none
      | some q ↦ if q.need == 0 then push q.acc (decode_from ready bs) else decode_from q bs
    ]

-- `String::from_utf8(..).ok()`
unfoldable pub from_utf8 : Bytes → Option Text
unfolding decode_from lead continue push
from_utf8 = decode_from ready

-- `s.is_char_boundary(index)`
unfoldable pub is_char_boundary : Bytes → ℕ → Bool
is_char_boundary bs i =
    if i == 0
    then true
    else elim (get_elem? bs i) [ none ↦ i == length bs | some b ↦ ltb b 128 || leb 192 b ]

-- The lead byte and the one behind it, for the widths 3 and 4.
lead_pair : ℕ → ℕ → Option Pending
lead_pair a b = lead a >>= λ q. continue q b

lead_two :
    (c : ℕ) → 0x80 ≤ c → c < 0x800 → lead (0xc0 + c / 64) ≡ some (pending 1 (c / 64) 0x80 0xbf)
unfolding lead
lead_two c l h = ground arith

lead_three :
    (c : ℕ)
    → 0x800 ≤ c
    → c < 0x10000
    → IsChar c
    → lead_pair (0xe0 + c / 4096) (0x80 + c / 64 % 64) ≡ some (pending 1 (c / 64) 0x80 0xbf)
unfolding lead_pair lead continue
lead_three c l h k = ground arith

lead_four :
    (c : ℕ)
    → 0x10000 ≤ c
    → c < 0x110000
    → lead_pair (0xf0 + c / 262144) (0x80 + c / 4096 % 64) ≡ some (pending 2 (c / 4096) 0x80 0xbf)
unfolding lead_pair lead continue
lead_four c l h = ground arith

continue_last :
    (c : ℕ) → continue (pending 1 (c / 64) 0x80 0xbf) (0x80 + c % 64) ≡ some (pending 0 c 0x80 0xbf)
unfolding continue
continue_last c = ground arith

continue_middle :
    (c : ℕ)
    → continue (pending 2 (c / 4096) 0x80 0xbf) (0x80 + c / 64 % 64)
      ≡ some (pending 1 (c / 64) 0x80 0xbf)
unfolding continue
continue_middle c = ground arith

decode_from-utf8_char_one :
    (c : ℕ) (bs : Bytes) → c < 0x80 → decode_from ready (c ∷ bs) ≡ push c (decode_from ready bs)
unfolding decode_from
decode_from-utf8_char_one c bs h = ground arith

decode_from-lead_two :
    (a b c : ℕ) (q : Pending) (bs : Bytes)
    → 0x80 ≤ a
    → lead a ≡ some q
    → q.need ≢ 0
    → continue q b ≡ some (pending 0 c 0x80 0xbf)
    → decode_from ready (a ∷ b ∷ bs) ≡ push c (decode_from ready bs)
unfolding decode_from
decode_from-lead_two a b c q bs l e n k = ground arith

decode_from-continue_last :
    (b c : ℕ) (q : Pending) (bs : Bytes)
    → q.need ≢ 0
    → continue q b ≡ some (pending 0 c 0x80 0xbf)
    → decode_from q (b ∷ bs) ≡ push c (decode_from ready bs)
unfolding decode_from
decode_from-continue_last b c q bs n k = ground arith

decode_from-continue :
    (b : ℕ) (q r : Pending) (bs : Bytes)
    → continue q b ≡ some r
    → q.need ≢ 0
    → r.need ≢ 0
    → decode_from q (b ∷ bs) ≡ decode_from r bs
unfolding decode_from
decode_from-continue b q r bs k n m = ground arith

decode_from-lead :
    (a : ℕ) (q : Pending) (bs : Bytes)
    → 0x80 ≤ a
    → lead a ≡ some q
    → decode_from ready (a ∷ bs) ≡ decode_from q bs
unfolding decode_from
decode_from-lead a q bs l e = ground arith

continue-need : (q r : Pending) (b : ℕ) → continue q b ≡ some r → r.need ≡ q.need - 1
unfolding continue
continue-need q r b h = ground arith

decode_from-lead_pair :
    (a b : ℕ) (r : Pending) (bs : Bytes)
    → 0x80 ≤ a
    → lead_pair a b ≡ some r
    → r.need ≢ 0
    → decode_from ready (a ∷ b ∷ bs) ≡ decode_from r bs
unfolding lead_pair
decode_from-lead_pair a b r bs l e n =
    let (q, first, second) = >>=-eq-some (lead a) (λ q. continue q b) e in
    let fewer = continue-need q r b second in
    decode_from-lead a q (b ∷ bs) l first ∙ decode_from-continue b q r bs second (omega arith) n

decode_from-utf8_char :
    (c : ℕ) (bs : Bytes)
    → IsChar c
    → decode_from ready (utf8_char c ++ bs) ≡ push c (decode_from ready bs)
unfolding utf8_char
decode_from-utf8_char c bs h = elim (Bool-cases (ltb c 0x80)) [
  | inl one ↦ rw one (decode_from-utf8_char_one c bs (omega tests))
  | inr wide ↦ rw wide (elim (Bool-cases (ltb c 0x800)) [
    | inl two ↦ rw two (
        decode_from-lead_two _ _ c _ bs (omega arith)
          (lead_two c (ltb-false _ _ wide) (omega tests)) (λ e. cc e) (continue_last c))
    | inr wider ↦ rw wider (elim (Bool-cases (ltb c 0x10000)) [
      | inl three ↦ rw three (
          decode_from-lead_pair _ _ _ _ (omega arith)
            (lead_three c (ltb-false _ _ wider) (omega tests) h) (λ e. cc e)
          ∙ decode_from-continue_last _ c _ bs (λ e. cc e) (continue_last c))
      | inr four ↦ rw four (
          decode_from-lead_pair _ _ _ _ (omega arith)
            (lead_four c (ltb-false _ _ four) (omega arith)) (λ e. cc e)
          ∙ decode_from-continue _ _ (pending 1 (c / 64) 0x80 0xbf) _ (continue_middle c)
              (λ e. cc e) (λ e. cc e)
          ∙ decode_from-continue_last _ c _ bs (λ e. cc e) (continue_last c))
    ])
  ])
]

-- Decoding inverts encoding, in front of whatever decodes.
pub from_utf8-as_bytes : (s : Text) → All IsChar s → from_utf8 (as_bytes s) ≡ some s
unfolding from_utf8 as_bytes
from_utf8-as_bytes [] h = refl
from_utf8-as_bytes (c ∷ s) h =
    decode_from-utf8_char c (as_bytes s) h.0 ∙ rw (from_utf8-as_bytes s h.1) refl
