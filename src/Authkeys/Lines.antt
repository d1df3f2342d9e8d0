-- ===== src/Authkeys/Lines.antt =====
-- Lines that are put behind one another: what `lines` makes of a text that grew by a line, up to
-- the carriage returns that `trim` takes off again.
use mpx_cli.Prelude.{
  ℕ, ◌≡◌, ◌≢◌, refl, ap, ◌∙◌, true, false, ◌&&◌, List, [], ◌∷◌, ◌++◌, map, arith, if◌then◌else◌,
  ◌==◌, All, Bool-cases, inl, inr,
}
use mpx_cli.Text.Utf8.{Text}
use mpx_cli.Text.Fields.{is_whitespace, is_empty, trim_start, trim_end, trim}
use mpx_cli.Text.Lines.{Line, push_char, split_lines, strip_cr, line_text, lines, ends_with_newline}
use mpx_cli.Authkeys.Line.{parse_line}
use mpx_cli.Authkeys.{terminated}

is_whitespace_cr : is_whitespace b'\r' ≡ true
unfolding is_whitespace
is_whitespace_cr = refl

trim_end-strip_cr : (s : Text) → trim_end (strip_cr s) ≡ trim_end s
unfolding trim_end strip_cr
trim_end-strip_cr [] = refl
trim_end-strip_cr (c ∷ []) = ground (arith, is_whitespace_cr)
trim_end-strip_cr (c ∷ d ∷ s) =
    ap (λ t. if is_whitespace c && is_empty t then [] else c ∷ t) (trim_end-strip_cr (d ∷ s))

pub trim-strip_cr : (s : Text) → trim (strip_cr s) ≡ trim s
unfolding trim
trim-strip_cr s = ap trim_start (trim_end-strip_cr s)

pub parse_line-strip_cr : (s : Text) → parse_line (strip_cr s) ≡ parse_line s
unfolding parse_line
parse_line-strip_cr s = rw (trim-strip_cr s) refl

-- A line without a line feed.
abbrev pub IsLine : Text → Type 0
IsLine = All (λ c. (c == b'\n') ≡ false)

split_lines_line :
    (l s : Text) → IsLine l → split_lines (l ++ (b'\n' ∷ s)) ≡ (l, true) ∷ split_lines s
unfolding split_lines
split_lines_line [] s h = refl
split_lines_line (c ∷ l) s h = rw (h.0) (ap (push_char c) (split_lines_line l s h.1))

-- The last line gets its line feed.
abbrev ended_last : List Line → List Line
ended_last [] = []
ended_last ((l, ended) ∷ []) = (l, true) ∷ []
ended_last (x ∷ y ∷ ls) = x ∷ ended_last (y ∷ ls)

split_lines-ne-nil : (c : ℕ) (s : Text) → split_lines (c ∷ s) ≢ []
unfolding split_lines
split_lines-ne-nil c s = ground arith

push_char-ended_last :
    (c : ℕ) (ls : List Line) → ls ≢ [] → push_char c (ended_last ls) ≡ ended_last (push_char c ls)
push_char-ended_last c [] h = absurd (h refl)
push_char-ended_last c (l ∷ []) h = refl
push_char-ended_last c (l ∷ m ∷ ls) h = refl

cons-ended_last : (x : Line) (ls : List Line) → ls ≢ [] → x ∷ ended_last ls ≡ ended_last (x ∷ ls)
cons-ended_last x [] h = absurd (h refl)
cons-ended_last x (l ∷ ls) h = refl

push_char-append :
    (c : ℕ) (ks ls : List Line) → ks ≢ [] → push_char c (ks ++ ls) ≡ push_char c ks ++ ls
push_char-append c [] ls h = absurd (h refl)
push_char-append c (k ∷ ks) ls h = refl

split_lines-newline :
    (s : Text)
    → s ≢ []
    → ends_with_newline s ≡ false
    → split_lines (s ++ (b'\n' ∷ [])) ≡ ended_last (split_lines s)
unfolding split_lines ends_with_newline
split_lines-newline [] n h = absurd (n refl)
split_lines-newline (c ∷ []) n h = rw h refl
split_lines-newline (c ∷ d ∷ s) n h =
    let ih = split_lines-newline (d ∷ s) (λ e. cc e) h in
    let more = split_lines-ne-nil d s in
    elim (Bool-cases (c == b'\n')) [
      | inl e ↦
          rw e (ap (◌∷◌ ([], true)) ih ∙ cons-ended_last ([], true) (split_lines (d ∷ s)) more)
      | inr e ↦ rw e (ap (push_char c) ih ∙ push_char-ended_last c (split_lines (d ∷ s)) more)
    ]

split_lines-append :
    (s t : Text)
    → ends_with_newline s ≡ true
    → split_lines (s ++ t) ≡ split_lines s ++ split_lines t
unfolding split_lines ends_with_newline
split_lines-append [] t h = cc
split_lines-append (c ∷ []) t h = rw h refl
split_lines-append (c ∷ d ∷ s) t h =
    let ih = split_lines-append (d ∷ s) t h in
    elim (Bool-cases (c == b'\n')) [
      | inl e ↦ rw e (ap (◌∷◌ ([], true)) ih)
      | inr e ↦ rw e (
          ap (push_char c) ih
          ∙ push_char-append c (split_lines (d ∷ s)) (split_lines t) (split_lines-ne-nil d s))
    ]

ends_with_newline-append : (s : Text) → ends_with_newline (s ++ (b'\n' ∷ [])) ≡ true
unfolding ends_with_newline
ends_with_newline-append [] = refl
ends_with_newline-append (c ∷ []) = refl
ends_with_newline-append (c ∷ d ∷ s) = ends_with_newline-append (d ∷ s)

-- A reading of lines that a carriage return at the end does not change.
module _ {A : Type 0} (f : Text → A) (same : (s : Text) → f (strip_cr s) ≡ f s) where
  abbrev readings : List Line → List A
  readings ls = map f (map line_text ls)

  readings-ended_last : (ls : List Line) → readings (ended_last ls) ≡ readings ls
  readings-ended_last [] = refl
  readings-ended_last ((l, true) ∷ []) = refl
  readings-ended_last ((l, false) ∷ []) = ap (λ a. a ∷ []) (same l)
  readings-ended_last (x ∷ y ∷ ls) = ap (◌∷◌ (f (line_text x))) (readings-ended_last (y ∷ ls))

  readings-append : (ks ls : List Line) → readings (ks ++ ls) ≡ readings ks ++ readings ls
  readings-append [] ls = refl
  readings-append (k ∷ ks) ls = ap (◌∷◌ (f (line_text k))) (readings-append ks ls)

  -- A text with its last line ended, and one more line, reads as before with that line behind.
  pub readings-terminated :
      (s t : Text) → map f (lines (terminated s ++ t)) ≡ map f (lines s) ++ map f (lines t)
  unfolding lines terminated
  readings-terminated [] t = refl
  readings-terminated (c ∷ s) t = elim (Bool-cases (ends_with_newline (c ∷ s))) [
    | inl e ↦ rw e (
        ap readings (split_lines-append (c ∷ s) t e)
        ∙ readings-append (split_lines (c ∷ s)) (split_lines t))
    | inr e ↦ rw e (
        ap readings
          (split_lines-append ((c ∷ s) ++ (b'\n' ∷ [])) t (ends_with_newline-append (c ∷ s)))
        ∙ readings-append (split_lines ((c ∷ s) ++ (b'\n' ∷ []))) (split_lines t)
        ∙ ap (λ ls. ls ++ readings (split_lines t))
            (ap readings (split_lines-newline (c ∷ s) (λ e. cc e) e)
              ∙ readings-ended_last (split_lines (c ∷ s))))
  ]

  pub readings-line :
      (l s : Text) → IsLine l → map f (lines (l ++ (b'\n' ∷ s))) ≡ f l ∷ map f (lines s)
  unfolding lines
  readings-line l s h =
      ap readings (split_lines_line l s h) ∙ ap (λ a. a ∷ readings (split_lines s)) (same l)
