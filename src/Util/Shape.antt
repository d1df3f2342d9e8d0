-- ===== src/Util/Shape.antt =====
-- What a device slug looks like, whatever name the device sends.
use mpx_cli.Prelude.{
  ℕ, ◌+◌, ◌≤◌, ◌<◌, ◌≡◌, refl, Bool, true, false, not, ◌&&◌, ◌||◌, [], ◌∷◌, ◌++◌, arith, tests, leb,
  ◌==◌, if◌then◌else◌, length, length-append, All, All-append, Bool-cases, inl, inr,
}
use mpx_cli.Text.Utf8.{Text}
use mpx_cli.Util.Slug.{
  to_ascii_lowercase, is_ascii_alphanumeric, slug_step, slug_loop, trim_dashes_start,
  trim_dashes_end, prepend_inked, or_device, device_slug,
}

-- A lower-case letter, a digit or a dash.
abbrev pub is_slug_char : ℕ → Bool
is_slug_char c = (c == b'-') || (leb b'a' c && leb c b'z' || leb b'0' c && leb c b'9')

pub record IsSlug (s : Text) : Type 0 where
  pub chars : All (λ c. is_slug_char c ≡ true) s
  pub short : length s ≤ 24

lower-slug_char :
    (c : ℕ)
    → is_ascii_alphanumeric (to_ascii_lowercase c) ≡ true
    → is_slug_char (to_ascii_lowercase c) ≡ true
unfolding is_ascii_alphanumeric to_ascii_lowercase
lower-slug_char c h = ground arith

push-IsSlug :
    (s : Text) (c : ℕ) → IsSlug s → length s < 24 → is_slug_char c ≡ true → IsSlug (s ++ (c ∷ []))
push-IsSlug s c h room k = record {
  chars = All-append (λ d. is_slug_char d ≡ true) s (c ∷ []) h.chars (k, tt);
  short = omega (arith, length-append s (c ∷ []));
}

slug_step-IsSlug :
    (s : Text) (last_dash : Bool) (c : ℕ)
    → IsSlug s
    → length s < 24
    → IsSlug (slug_step s last_dash c).0
unfolding slug_step
slug_step-IsSlug s last_dash c h room =
    elim (Bool-cases (is_ascii_alphanumeric (to_ascii_lowercase c))) [
      | inl inked ↦ rw inked (push-IsSlug s (to_ascii_lowercase c) h room (lower-slug_char c inked))
      | inr other ↦ rw other (dashed last_dash)
    ]
  where
    dashed :
        (b : Bool)
        → IsSlug (if◌then◌else◌ {A = Text × Bool} (not b) (s ++ (b'-' ∷ []), true) (s, b)).0
    dashed true = h
    dashed false = push-IsSlug s b'-' h room refl

slug_loop-IsSlug :
    (s : Text) (last_dash : Bool) (name : Text)
    → IsSlug s
    → length s < 24
    → IsSlug (slug_loop s last_dash name)
unfolding slug_loop
slug_loop-IsSlug s last_dash [] h room = h
slug_loop-IsSlug s last_dash (c ∷ rest) h room =
    let next = slug_step s last_dash c in
    let h' = slug_step-IsSlug s last_dash c h room in
    elim (Bool-cases (leb 24 (length next.0))) [
      | inl full ↦ rw full h'
      | inr more ↦ rw more (slug_loop-IsSlug next.0 next.1 rest h' (omega tests))
    ]

trim_start-IsSlug : (s : Text) → IsSlug s → IsSlug (trim_dashes_start s)
unfolding trim_dashes_start
trim_start-IsSlug [] h = h
trim_start-IsSlug (c ∷ s) h = elim (Bool-cases (c == b'-')) [
  | inl dash ↦
      rw dash (trim_start-IsSlug s (record { chars = h.chars.1; short = omega (arith, h.short) }))
  | inr inked ↦ rw inked h
]

prepend_inked-IsSlug :
    (c : ℕ) (s : Text)
    → is_slug_char c ≡ true
    → All (λ d. is_slug_char d ≡ true) s
    → All (λ d. is_slug_char d ≡ true) (prepend_inked c s)
prepend_inked-IsSlug c [] h k = elim (Bool-cases (c == b'-')) [
  | inl dash ↦ rw dash tt
  | inr inked ↦ rw inked (h, tt)
]
prepend_inked-IsSlug c (d ∷ s) h k = (h, k)

length-prepend_inked : (c : ℕ) (s : Text) → length (prepend_inked c s) ≤ 1 + length s
length-prepend_inked c [] = elim (Bool-cases (c == b'-')) [
  | inl dash ↦ rw dash (omega arith)
  | inr inked ↦ rw inked (omega arith)
]
length-prepend_inked c (d ∷ s) = omega arith

All-trim_end :
    (s : Text)
    → All (λ d. is_slug_char d ≡ true) s
    → All (λ d. is_slug_char d ≡ true) (trim_dashes_end s)
unfolding trim_dashes_end
All-trim_end [] h = tt
All-trim_end (c ∷ s) h = prepend_inked-IsSlug c (trim_dashes_end s) h.0 (All-trim_end s h.1)

length-trim_end : (s : Text) → length (trim_dashes_end s) ≤ length s
unfolding trim_dashes_end
length-trim_end [] = omega arith
length-trim_end (c ∷ s) =
    omega (arith, length-prepend_inked c (trim_dashes_end s), length-trim_end s)

or_device-IsSlug : (s : Text) → IsSlug s → IsSlug (or_device s) × (0 < length (or_device s))
or_device-IsSlug [] h = (record { chars = ground arith; short = omega arith }, omega arith)
or_device-IsSlug (c ∷ s) h = (h, omega arith)

-- The slug of any name is not empty, has at most 24 characters, and only lower-case letters,
-- digits and dashes.
pub device_slug-IsSlug :
    (display : Text) → IsSlug (device_slug display) × (0 < length (device_slug display))
unfolding device_slug
device_slug-IsSlug display =
    let s = slug_loop [] true display in
    let h =
      slug_loop-IsSlug [] true display (record { chars = tt; short = omega arith }) (omega arith) in
    or_device-IsSlug (trim_dashes_start (trim_dashes_end s)) (
      trim_start-IsSlug (trim_dashes_end s) (record {
        chars = All-trim_end s h.chars;
        short = omega (arith, length-trim_end s, h.short);
      }))
