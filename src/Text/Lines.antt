-- ===== src/Text/Lines.antt =====
-- `str::lines`.
use mpx_cli.Prelude.{ℕ, Bool, true, false, List, [], ◌∷◌, map, ◌==◌, if◌then◌else◌}
use mpx_cli.Text.Utf8.{Text}

-- A line, and whether a line feed ended it.
abbrev pub Line : Type 0
Line = Text × Bool

abbrev pub push_char : ℕ → List Line → List Line
push_char c [] = (c ∷ [], false) ∷ []
push_char c ((l, ended) ∷ ls) = (c ∷ l, ended) ∷ ls

-- `split_inclusive('\n')`, without the line feeds.
unfoldable pub split_lines : Text → List Line
split_lines [] = []
split_lines (c ∷ s) =
    let rest = split_lines s in if c == b'\n' then ([], true) ∷ rest else push_char c rest

-- `strip_suffix('\r')`, where it is there.
unfoldable pub strip_cr : Text → Text
strip_cr [] = []
strip_cr (c ∷ []) = if c == b'\r' then [] else c ∷ []
strip_cr (c ∷ d ∷ s) = c ∷ strip_cr (d ∷ s)

-- A carriage return counts as part of a line's end only in front of a line feed.
abbrev pub line_text : Line → Text
line_text (l, ended) = if ended then strip_cr l else l

unfoldable pub lines : Text → List Text
unfolding split_lines strip_cr
lines s = map line_text (split_lines s)

-- `s.ends_with('\n')`
unfoldable pub ends_with_newline : Text → Bool
ends_with_newline [] = false
ends_with_newline (c ∷ []) = c == b'\n'
ends_with_newline (c ∷ d ∷ s) = ends_with_newline (d ∷ s)
