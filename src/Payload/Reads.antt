-- ===== src/Payload/Reads.antt =====
-- What it means that an action of `decode` reads exactly some bytes, with a rule for each way to
-- build an action: both halves of the round trip go through these.
use mpx_cli.Prelude.{
  ℕ, ◌+◌, ◌<◌, ◌≡◌, refl, ap, ap₂, sym, ◌∙◌, Option, none, some, [], ◌∷◌, ◌++◌, append-nil,
  append_assoc, arith, lt→ltb, le→leb, lt→leb, length, length-append, drop-append, take-append,
  Bytes, from_be_bytes, ◌⊎◌, inl, inr, ◌^◌, to_be_bytes, from_be_bytes-to_be_bytes_two, cons_head,
  cons_tail,
}
use mpx_cli.Payload.Reader.{Reader, Parse, pure, lift, ◌>>=◌, take, u8, u16, usize_mod}

-- The cursor between what was read and what is left.
abbrev pub between : Bytes → Bytes → Reader
between pre post = record { bytes = pre ++ post; index = length pre }

-- `m` reads the bytes `mid` as the value `a`, and fails where the input ends inside of `mid`.
pub record Reads {A : Type 0} (m : Parse A) (mid : Bytes) (a : A) : Type 0 where
  pub complete :
      (pre post : Bytes)
      → length (pre ++ (mid ++ post)) < usize_mod
      → m (between pre (mid ++ post)) ≡ some (a, between (pre ++ mid) post)
  pub cut :
      (pre kept lost : Bytes)
      → length (pre ++ kept) < usize_mod
      → mid ≡ kept ++ lost
      → 0 < length lost
      → m (between pre kept) ≡ none

between_assoc :
    (pre mid post : Bytes)
    → between (pre ++ mid) post
      ≡ record { bytes = pre ++ (mid ++ post); index = length pre + length mid }
between_assoc pre mid post = rw (append_assoc pre mid post) (rw (length-append pre mid))

take_complete :
    (pre bs post : Bytes)
    → length (pre ++ (bs ++ post)) < usize_mod
    → take (length bs) (between pre (bs ++ post)) ≡ some (bs, between (pre ++ bs) post)
unfolding take
take_complete pre bs post h =
    let total = length-append pre (bs ++ post) in
    let part = length-append bs post in
    rw (between_assoc pre bs post, drop-append pre (bs ++ post), take-append bs post)
      (rw (lt→ltb (length pre + length bs) usize_mod (omega arith))
        (rw (le→leb (length pre + length bs) (length (pre ++ (bs ++ post))) (omega arith)) refl))

take_cut : (pre kept : Bytes) (n : ℕ) → length kept < n → take n (between pre kept) ≡ none
unfolding take
take_cut pre kept n h =
    rw (lt→leb (length pre + n) (length (pre ++ kept)) (omega (arith, length-append pre kept)))
      (ground arith)

pub Reads-take : (bs : Bytes) (n : ℕ) → n ≡ length bs → Reads (take n) bs bs
Reads-take bs n e = record {
  complete = λ pre post h. rw e (take_complete pre bs post h);
  cut = λ pre kept lost h split more.
      take_cut pre kept n (omega (arith, length-append kept lost, ap (length {A = ℕ}) split));
}

pub Reads-pure : {A : Type 0} (a : A) → Reads (pure a) [] a
Reads-pure a = record {
  complete = λ pre post h. rw append-nil;
  cut = λ pre kept lost h split more.
      absurd (omega (arith, length-append kept lost, ap (length {A = ℕ}) split));
}

pub Reads-lift : {A : Type 0} (o : Option A) (a : A) → o ≡ some a → Reads (lift o) [] a
Reads-lift o a e = rw e (Reads-pure a)

-- Where a list is split twice, one of the first parts is a prefix of the other.
split_twice :
    (us vs kept lost : Bytes)
    → us ++ vs ≡ kept ++ lost
    → ((rest : Bytes) × (us ≡ kept ++ rest) × (0 < length rest))
      ⊎ ((rest : Bytes) × (kept ≡ us ++ rest) × (vs ≡ rest ++ lost))
split_twice [] vs kept lost e = inr (kept, refl, e)
split_twice (u ∷ us) vs [] lost e = inl (u ∷ us, refl, omega arith)
split_twice (u ∷ us) vs (k ∷ kept) lost e = elim (split_twice us vs kept lost (cons_tail e)) [
  | inl (rest, p, more) ↦ inl (rest, ap₂ ◌∷◌ (cons_head e) p, more)
  | inr (rest, p, q) ↦ inr (rest, ap₂ ◌∷◌ (sym (cons_head e)) p, q)
]

module _ {A B : Type 0} (m : Parse A) (f : A → Parse B) where
  bind_some : {a : A} {r s : Reader} → m r ≡ some (a, s) → (m >>= f) r ≡ f a s
  bind_some e = rw (e, ◌>>=◌)

  bind_none : {r : Reader} → m r ≡ none → (m >>= f) r ≡ none
  bind_none e = rw (e, ◌>>=◌)

  pub Reads-bind :
      {us vs : Bytes} {a : A} {b : B}
      → Reads m us a
      → Reads (f a) vs b
      → Reads (m >>= f) (us ++ vs) b
  Reads-bind {us} {vs} {a} {b} r s = record {
    complete = λ pre post h.
        let fits = rw (append_assoc us vs post) at h in
        let fits' = rw (← append_assoc pre us (vs ++ post)) at fits in
        ap (λ t. (m >>= f) (between pre t)) (append_assoc us vs post)
        ∙ bind_some (r.complete pre (vs ++ post) fits)
        ∙ s.complete (pre ++ us) post fits'
        ∙ ap (λ t. some (b, between t post)) (append_assoc pre us vs);
    cut = λ pre kept lost h split more. elim (split_twice us vs kept lost split) [
      | inl (rest, p, q) ↦ bind_none (r.cut pre kept rest h p q)
      | inr (rest, p, q) ↦
          let fits = rw p at h in
          let fits' = rw (← append_assoc pre us rest) at fits in
          ap (λ t. (m >>= f) (between pre t)) p
          ∙ bind_some (r.complete pre rest fits)
          ∙ s.cut (pre ++ us) rest lost fits' q more
    ];
  }

-- A last step that only wraps the value.
pub Reads-wrap :
    {A B : Type 0} (m : Parse A) (g : A → B) {us : Bytes} {a : A}
    → Reads m us a
    → Reads (m >>= λ x. pure (g x)) us (g a)
Reads-wrap m g {us} r =
    rw append-nil at (Reads-bind m (λ x. pure (g x)) {us = us} r (Reads-pure (g _)))

pub Reads-u8 : (b : ℕ) → Reads u8 (b ∷ []) b
unfolding u8
Reads-u8 b = Reads-wrap (take 1) _ (Reads-take (b ∷ []) 1 refl)

pub Reads-u16 : (x : ℕ) → x < 2 ^ 16 → Reads u16 (to_be_bytes 2 x) x
unfolding u16
Reads-u16 x h =
    rw (from_be_bytes-to_be_bytes_two x h) at
      (Reads-wrap (take 2) from_be_bytes (Reads-take (to_be_bytes 2 x) 2 refl))
