-- ===== src/Text/Fields.antt =====
-- White space in `str`: `trim`, `split_whitespace` and the joining of words.
use mpx_cli.Prelude.{
  ℕ, Bool, true, false, not, ◌&&◌, ◌||◌, List, [], ◌∷◌, ◌++◌, leb, ◌==◌, if◌then◌else◌,
}
use mpx_cli.Text.Utf8.{Text}

-- `char::is_whitespace`: the code points of Unicode's White_Space.
unfoldable pub is_whitespace : ℕ → Bool
is_whitespace c =
    leb 9 c && leb c 13
    || c == 0x20
    || c == 0x85
    || c == 0xa0
    || c == 0x1680
    || leb 0x2000 c && leb c 0x200a
    || c == 0x2028
    || c == 0x2029
    || c == 0x202f
    || c == 0x205f
    || c == 0x3000

abbrev pub is_empty : Text → Bool
is_empty [] = true
is_empty (c ∷ s) = false

unfoldable pub trim_start : Text → Text
trim_start [] = []
trim_start (c ∷ s) = let rest = trim_start s in if is_whitespace c then rest else c ∷ s

unfoldable pub trim_end : Text → Text
trim_end [] = []
trim_end (c ∷ s) =
    let rest = trim_end s in if is_whitespace c && is_empty rest then [] else c ∷ rest

-- `trim`
unfoldable pub trim : Text → Text
unfolding trim_start trim_end
trim s = trim_start (trim_end s)

-- One character in front of the words behind it; the flag says that a word goes on there.
abbrev pub push_word : ℕ → Bool → List Text → List Text
push_word c false ws = (c ∷ []) ∷ ws
push_word c true [] = (c ∷ []) ∷ []
push_word c true (w ∷ ws) = (c ∷ w) ∷ ws

abbrev pub starts_word : (ℕ → Bool) → Text → Bool
starts_word blank [] = false
starts_word blank (c ∷ s) = not (blank c)

-- `split_whitespace`
unfoldable pub split_whitespace : Text → List Text
split_whitespace [] = []
split_whitespace (c ∷ s) =
    let rest = split_whitespace s in
    if is_whitespace c then rest else push_word c (starts_word is_whitespace s) rest

-- `.collect::<Vec<_>>().join(" ")`
unfoldable pub join : List Text → Text
join [] = []
join (w ∷ []) = w
join (w ∷ v ∷ ws) = w ++ (b' ' ∷ join (v ∷ ws))
