-- ===== src/Authkeys/LineText.antt =====
-- What the lines of a text are made of: its characters, less line feeds.
use mpx_cli.Prelude.{ℕ, ◌≡◌, true, false, inl, inr, List, [], ◌∷◌, map, All, Bool-cases, ◌==◌}
use mpx_cli.Text.Utf8.{Text, IsChar}
use mpx_cli.Text.Lines.{Line, push_char, split_lines, strip_cr, line_text, lines}
use mpx_cli.Authkeys.Lines.{IsLine}

IsLine-strip_cr : (l : Text) → IsLine l → IsLine (strip_cr l)
unfolding strip_cr
IsLine-strip_cr [] h = tt
IsLine-strip_cr (c ∷ []) h = elim (Bool-cases (c == b'\r')) [ inl e ↦ rw e tt | inr e ↦ rw e h ]
IsLine-strip_cr (c ∷ d ∷ s) h = (h.0, IsLine-strip_cr (d ∷ s) h.1)

push_char-IsLine :
    (c : ℕ) (ls : List Line)
    → (c == b'\n') ≡ false
    → All (λ l. IsLine l.0) ls
    → All (λ l. IsLine l.0) (push_char c ls)
push_char-IsLine c [] n h = ((n, tt), tt)
push_char-IsLine c ((l, e) ∷ ls) n h = ((n, h.0), h.1)

split_lines-IsLine : (s : Text) → All (λ l. IsLine l.0) (split_lines s)
unfolding split_lines
split_lines-IsLine [] = tt
split_lines-IsLine (c ∷ s) = elim (Bool-cases (c == b'\n')) [
  | inl e ↦ rw e (tt, split_lines-IsLine s)
  | inr e ↦ rw e (push_char-IsLine c (split_lines s) e (split_lines-IsLine s))
]

line_text-IsLine : (ls : List Line) → All (λ l. IsLine l.0) ls → All IsLine (map line_text ls)
line_text-IsLine [] h = tt
line_text-IsLine ((l, true) ∷ ls) h = (IsLine-strip_cr l h.0, line_text-IsLine ls h.1)
line_text-IsLine ((l, false) ∷ ls) h = (h.0, line_text-IsLine ls h.1)

pub lines-IsLine : (s : Text) → All IsLine (lines s)
unfolding lines
lines-IsLine s = line_text-IsLine (split_lines s) (split_lines-IsLine s)

All-strip_cr : (l : Text) → All IsChar l → All IsChar (strip_cr l)
unfolding strip_cr
All-strip_cr [] h = tt
All-strip_cr (c ∷ []) h = elim (Bool-cases (c == b'\r')) [ inl e ↦ rw e tt | inr e ↦ rw e h ]
All-strip_cr (c ∷ d ∷ s) h = (h.0, All-strip_cr (d ∷ s) h.1)

All-push_char :
    (c : ℕ) (ls : List Line)
    → IsChar c
    → All (λ l. All IsChar l.0) ls
    → All (λ l. All IsChar l.0) (push_char c ls)
All-push_char c [] n h = ((n, tt), tt)
All-push_char c ((l, e) ∷ ls) n h = ((n, h.0), h.1)

pub All-split_lines : (s : Text) → All IsChar s → All (λ l. All IsChar l.0) (split_lines s)
unfolding split_lines
All-split_lines [] h = tt
All-split_lines (c ∷ s) h = elim (Bool-cases (c == b'\n')) [
  | inl e ↦ rw e (tt, All-split_lines s h.1)
  | inr e ↦ rw e (All-push_char c (split_lines s) h.0 (All-split_lines s h.1))
]

pub All-line_text :
    (ls : List Line) → All (λ l. All IsChar l.0) ls → All (All IsChar) (map line_text ls)
All-line_text [] h = tt
All-line_text ((l, true) ∷ ls) h = (All-strip_cr l h.0, All-line_text ls h.1)
All-line_text ((l, false) ∷ ls) h = (h.0, All-line_text ls h.1)
