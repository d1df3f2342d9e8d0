-- ===== src/Payload/Reader.antt =====
-- `Reader`: a cursor over the bytes of a payload, and the functions of `decode` as its actions.
use mpx_cli.Prelude.{
  ℕ, ◌+◌, ◌^◌, Option, none, some, [], ◌∷◌, leb, ltb, ◌&&◌, if◌then◌else◌, length,
  take as take_list, drop, Bytes, from_be_bytes,
}

pub record Reader : Type 0 where
  pub bytes : Bytes
  pub index : ℕ

-- `usize` has 64 bits.
abbrev pub usize_mod : ℕ
usize_mod = 2 ^ 64

-- What a `?` of `decode` goes through: the cursor moves on, or the whole function returns `None`.
abbrev pub Parse {ℓ} : Type ℓ → Type ℓ
Parse A = Reader → Option (A × Reader)

module _ {ℓ} {A : Type ℓ} where
  abbrev pub pure : A → Parse A
  pure a r = some (a, r)

  abbrev pub fail : Parse A
  fail r = none

  -- `..ok()?` on a value that is at hand.
  abbrev pub lift : Option A → Parse A
  lift none r = none
  lift (some a) r = some (a, r)

infixl 5 ◌>>=◌
abbrev pub ◌>>=◌ {ℓ κ} : {A : Type ℓ} {B : Type κ} → Parse A → (A → Parse B) → Parse B
◌>>=◌ m f r = elim (m r) [ none ↦ none | some (a, r') ↦ f a r' ]

-- `Reader::take`: `checked_add`, then `bytes.get(index..end)`.
unfoldable pub take : ℕ → Parse Bytes
take count r =
    let end = r.index + count in
    if ltb end usize_mod && leb end (length r.bytes)
    then some (take_list count (drop r.index r.bytes), record r { index = end })
    else none

abbrev first : Bytes → ℕ
first [] = 0
first (b ∷ bs) = b

-- `Reader::u8`
unfoldable pub u8 : Parse ℕ
unfolding take
u8 = do bs ← take 1; pure (first bs)

-- `Reader::u16`
unfoldable pub u16 : Parse ℕ
unfolding take
u16 = do bs ← take 2; pure (from_be_bytes bs)
