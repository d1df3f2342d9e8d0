-- ===== src/Authkeys/Kept.antt =====
-- The file seen as its trimmed lines with the key that each marks, and what `kept_text` keeps of it.
use mpx_cli.Prelude.{
  ◌≡◌, refl, ap, ap₂, sym, ◌∙◌, Bool, true, not, Option, none, some, inl, inr, List, [], ◌∷◌, ◌++◌,
  map, arith, if◌then◌else◌, All, All-append, ◌>>=◌, Option-cases, Bool-cases,
}
use mpx_cli.Text.Utf8.{Text, IsChar}
use mpx_cli.Text.Fields.{trim}
use mpx_cli.Text.Lines.{split_lines, strip_cr, lines}
use mpx_cli.Authkeys.Line.{MarkedKey, KeyLine, parse_line, marked_key, marked_of}
use mpx_cli.Authkeys.Lines.{IsLine, readings-line, parse_line-strip_cr, trim-strip_cr}
use mpx_cli.Authkeys.{marked_lines, kept_text, removed_keys}
use mpx_cli.Authkeys.LineText.{All-line_text, All-split_lines}

-- A line as `parse_line` sees it, and the rows of a file.
abbrev pub Row : Type 0
Row = Text × Option KeyLine

abbrev pub row : Text → Row
row l = (trim l, parse_line l)

abbrev pub rows : Text → List Row
rows s = map row (lines s)

abbrev pub mark : Row → Option MarkedKey
mark (t, p) = p >>= marked_of t

-- A line as the commands see it.
abbrev pub Seen : Type 0
Seen = Text × Option MarkedKey

abbrev pub seen_row : Row → Seen
seen_row r = (r.0, mark r)

abbrev pub seen_line : Text → Seen
seen_line l = (trim l, marked_key l)

abbrev pub seen : Text → List Seen
seen s = map seen_line (lines s)

-- The keys that the lines mark, those of them that a filter takes, and the lines that it leaves.
abbrev pub keys_in : List Seen → List MarkedKey
keys_in [] = []
keys_in ((t, none) ∷ ls) = keys_in ls
keys_in ((t, some k) ∷ ls) = k ∷ keys_in ls

abbrev pub taken : (MarkedKey → Bool) → List Seen → List MarkedKey
taken f [] = []
taken f ((t, none) ∷ ls) = taken f ls
taken f ((t, some k) ∷ ls) = let rest = taken f ls in if f k then k ∷ rest else rest

abbrev pub left : (MarkedKey → Bool) → List Seen → List Seen
left f [] = []
left f ((t, none) ∷ ls) = (t, none) ∷ left f ls
left f ((t, some k) ∷ ls) = let rest = left f ls in if f k then rest else (t, some k) ∷ rest

pub seen_line-strip_cr : (s : Text) → seen_line (strip_cr s) ≡ seen_line s
unfolding marked_key
seen_line-strip_cr s =
    ap₂ (λ t k. (t, k)) (trim-strip_cr s)
      (ap₂ (λ p t. p >>= marked_of t) (parse_line-strip_cr s) (trim-strip_cr s))

pub marked_lines-seen : (ls : List Text) → marked_lines ls ≡ keys_in (map seen_line ls)
unfolding marked_lines
marked_lines-seen [] = refl
marked_lines-seen (l ∷ ls) = ground (arith, marked_lines-seen ls)

pub removed_keys-seen :
    (f : MarkedKey → Bool) (ls : List Text) → removed_keys f ls ≡ taken f (map seen_line ls)
unfolding removed_keys
removed_keys-seen f [] = refl
removed_keys-seen f (l ∷ ls) = ground (arith, removed_keys-seen f ls)

-- The rows that a filter leaves.
abbrev pub keeps : (MarkedKey → Bool) → Option MarkedKey → Bool
keeps f none = true
keeps f (some k) = not (f k)

abbrev pub stays : (MarkedKey → Bool) → Row → Bool
stays f r = keeps f (mark r)

unfoldable pub left_rows : (MarkedKey → Bool) → List Row → List Row
left_rows f [] = []
left_rows f (r ∷ rs) = let rest = left_rows f rs in if stays f r then r ∷ rest else rest

pub row-strip_cr : (s : Text) → row (strip_cr s) ≡ row s
row-strip_cr s = ap₂ (λ t p. (t, p)) (trim-strip_cr s) (parse_line-strip_cr s)

pub seen_line-row : (l : Text) → seen_line l ≡ seen_row (row l)
unfolding marked_key
seen_line-row l = refl

pub map-seen_row : (ls : List Text) → map seen_line ls ≡ map seen_row (map row ls)
map-seen_row [] = refl
map-seen_row (l ∷ ls) = ap₂ (◌∷◌) (seen_line-row l) (map-seen_row ls)

kept_text-cons :
    (f : MarkedKey → Bool) (l : Text) (ls : List Text)
    → kept_text f (l ∷ ls)
      ≡ (if keeps f (marked_key l) then l ++ (b'\n' ∷ kept_text f ls) else kept_text f ls)
unfolding kept_text
kept_text-cons f l ls = elim (Option-cases (marked_key l)) [
  | inl e ↦ rw (e, kept_text) refl
  | inr (k, e) ↦
      rw (e, kept_text) (elim (Bool-cases (f k)) [ inl yea ↦ rw yea refl | inr nay ↦ rw nay refl ])
]

-- What `remove_marked` writes has the rows that the filter leaves.
pub rows-kept_text :
    (f : MarkedKey → Bool) (ls : List Text)
    → All IsLine ls
    → rows (kept_text f ls) ≡ left_rows f (map row ls)
unfolding left_rows
rows-kept_text f [] h = unfold lines kept_text in refl
rows-kept_text f (l ∷ ls) h =
    let ih = rows-kept_text f ls h.1 in
    let kept = readings-line row row-strip_cr l (kept_text f ls) h.0 ∙ ap (◌∷◌ (row l)) ih in
    let same : marked_key l ≡ mark (row l) = unfold marked_key in refl in
    ap rows (
      kept_text-cons f l ls
      ∙ ap (λ m. if keeps f m then l ++ (b'\n' ∷ kept_text f ls) else kept_text f ls) same)
    ∙ elim (Bool-cases (stays f (row l))) [ inl yea ↦ rw yea kept | inr nay ↦ rw nay ih ]

left-cons :
    (f : MarkedKey → Bool) (t : Text) (m : Option MarkedKey) (ls : List Seen)
    → left f ((t, m) ∷ ls) ≡ (if keeps f m then (t, m) ∷ left f ls else left f ls)
left-cons f t none ls = refl
left-cons f t (some k) ls = elim (Bool-cases (f k)) [
  | inl yea ↦ rw yea refl
  | inr nay ↦ rw nay refl
]

pub seen-left_rows :
    (f : MarkedKey → Bool) (rs : List Row)
    → map seen_row (left_rows f rs) ≡ left f (map seen_row rs)
unfolding left_rows
seen-left_rows f [] = refl
seen-left_rows f (r ∷ rs) =
    let ih = seen-left_rows f rs in
    elim (Bool-cases (stays f r)) [
      | inl yea ↦ rw yea (ap (◌∷◌ (seen_row r)) ih)
      | inr nay ↦ rw nay ih
    ]
    ∙ sym (left-cons f r.0 (mark r) (map seen_row rs))

All-kept_text :
    (f : MarkedKey → Bool) (ls : List Text) → All (All IsChar) ls → All IsChar (kept_text f ls)
unfolding kept_text
All-kept_text f [] h = tt
All-kept_text f (l ∷ ls) h =
    let rest = All-kept_text f ls h.1 in
    let kept : All IsChar (l ++ (b'\n' ∷ kept_text f ls)) =
      All-append IsChar l (b'\n' ∷ kept_text f ls) h.0 (omega arith, rest) in
    elim (Option-cases (marked_key l)) [
      | inl e ↦ rw (e, kept_text) kept
      | inr (k, e) ↦
          rw (e, kept_text)
            (elim (Bool-cases (f k)) [ inl yea ↦ rw yea rest | inr nay ↦ rw nay kept ])
    ]

pub kept_chars :
    (f : MarkedKey → Bool) (s : Text) → All IsChar s → All IsChar (kept_text f (lines s))
unfolding lines
kept_chars f s h = All-kept_text f (lines s) (All-line_text (split_lines s) (All-split_lines s h))

taken-cons-nil :
    (f : MarkedKey → Bool) (t : Text) (m : Option MarkedKey) (ls : List Seen)
    → taken f ((t, m) ∷ ls) ≡ []
    → (keeps f m ≡ true) × (taken f ls ≡ [])
taken-cons-nil f t none ls e = (refl, e)
taken-cons-nil f t (some k) ls e = ground arith

-- A filter that takes nothing leaves every row.
pub left_rows-nil :
    (f : MarkedKey → Bool) (rs : List Row) → taken f (map seen_row rs) ≡ [] → left_rows f rs ≡ rs
unfolding left_rows
left_rows-nil f [] e = refl
left_rows-nil f (r ∷ rs) e =
    let (stay, rest) = taken-cons-nil f r.0 (mark r) (map seen_row rs) e in
    rw stay (ap (◌∷◌ r) (left_rows-nil f rs rest))
