-- ===== src/Text/Words.antt =====
-- Words without white space, and how `trim` and `split_whitespace` find them.
use mpx_cli.Prelude.{ℕ, ◌≡◌, ◌≢◌, refl, ap, ◌∙◌, true, false, not, [], ◌∷◌, ◌++◌, arith, All}
use mpx_cli.Text.Utf8.{Text}
use mpx_cli.Text.Fields.{
  is_whitespace, is_empty, trim_start, trim_end, trim, push_word, split_whitespace,
}

abbrev pub IsInk : ℕ → Type 0
IsInk c = is_whitespace c ≡ false

-- A word: at least one character, and no white space.
pub record IsWord (w : Text) : Type 0 where
  pub ink : All IsInk w
  pub ne_nil : w ≢ []

pub is_whitespace_space : is_whitespace b' ' ≡ true
unfolding is_whitespace
is_whitespace_space = refl

pub is_whitespace_quote : is_whitespace b'"' ≡ false
unfolding is_whitespace
is_whitespace_quote = refl

trim_end_ne_nil : (us w : Text) → w ≢ [] → is_empty (us ++ w) ≡ false
trim_end_ne_nil [] [] h = absurd (h refl)
trim_end_ne_nil [] (c ∷ w) h = refl
trim_end_ne_nil (u ∷ us) w h = refl

trim_end_ink : (w : Text) → All IsInk w → trim_end w ≡ w
unfolding trim_end
trim_end_ink [] h = refl
trim_end_ink (c ∷ w) h = rw (h.0) (ap (◌∷◌ c) (trim_end_ink w h.1))

-- What a text ends with decides how much `trim_end` takes.
pub trim_end-append : (us w : Text) → trim_end w ≡ w → w ≢ [] → trim_end (us ++ w) ≡ us ++ w
unfolding trim_end
trim_end-append [] w e h = e
trim_end-append (u ∷ us) w e h =
    rw (trim_end-append us w e h) (rw (trim_end_ne_nil us w h) (ground arith))

pub trim_end_word : (w : Text) → IsWord w → trim_end w ≡ w
trim_end_word w h = trim_end_ink w h.ink

pub trim_start_word : (w s : Text) → IsWord w → trim_start (w ++ s) ≡ w ++ s
unfolding trim_start
trim_start_word [] s h = absurd (h.ne_nil refl)
trim_start_word (c ∷ w) s h = rw (h.ink.0) refl

-- A text that begins and ends with a word has nothing to trim.
pub trim_words : (v s : Text) → IsWord v → trim_end s ≡ s → s ≢ [] → trim (v ++ s) ≡ v ++ s
unfolding trim
trim_words v s hv e ne = ap trim_start (trim_end-append v s e ne) ∙ trim_start_word v s hv

pub trim_start_space : (w s : Text) → IsWord w → trim_start (b' ' ∷ (w ++ s)) ≡ w ++ s
unfolding trim_start
trim_start_space w s h = rw is_whitespace_space (trim_start_word w s h)

split_whitespace_push :
    (c d : ℕ) (s : Text)
    → IsInk c
    → IsInk d
    → split_whitespace (c ∷ d ∷ s) ≡ push_word c true (split_whitespace (d ∷ s))
unfolding split_whitespace
split_whitespace_push c d s hc hd =
    rw hc (ap (λ b. push_word c (not b) (split_whitespace (d ∷ s))) hd)

split_whitespace_ink :
    (c : ℕ) (w : Text) → All IsInk (c ∷ w) → split_whitespace (c ∷ w) ≡ (c ∷ w) ∷ []
unfolding split_whitespace
split_whitespace_ink c [] h = rw (h.0) refl
split_whitespace_ink c (d ∷ w) h =
    split_whitespace_push c d w h.0 h.1.0 ∙ ap (push_word c true) (split_whitespace_ink d w h.1)

pub split_whitespace_word : (w : Text) → IsWord w → split_whitespace w ≡ w ∷ []
split_whitespace_word [] h = absurd (h.ne_nil refl)
split_whitespace_word (c ∷ w) h = split_whitespace_ink c w h.ink

split_whitespace-append_ink :
    (c : ℕ) (w s : Text)
    → All IsInk (c ∷ w)
    → split_whitespace ((c ∷ w) ++ (b' ' ∷ s)) ≡ (c ∷ w) ∷ split_whitespace s
unfolding split_whitespace
split_whitespace-append_ink c [] s h = rw (h.0) (rw is_whitespace_space refl)
split_whitespace-append_ink c (d ∷ w) s h =
    split_whitespace_push c d (w ++ (b' ' ∷ s)) h.0 h.1.0
    ∙ ap (push_word c true) (split_whitespace-append_ink d w s h.1)

pub split_whitespace-append :
    (w s : Text) → IsWord w → split_whitespace (w ++ (b' ' ∷ s)) ≡ w ∷ split_whitespace s
split_whitespace-append [] s h = absurd (h.ne_nil refl)
split_whitespace-append (c ∷ w) s h = split_whitespace-append_ink c w s h.ink
