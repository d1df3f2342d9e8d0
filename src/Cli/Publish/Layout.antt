-- ===== src/Cli/Publish/Layout.antt =====
-- `print_side_by_side` of src/main.rs: where the panel stands beside the art, and how wide the
-- rows are.
use mpx_cli.Prelude.{
  ℕ, zero, suc, ◌+◌, ◌-◌, ◌*◌, ◌≤◌, ◌≡◌, refl, ap, ap₂, subst, All-append, All-take, All-drop,
  length-append, length-replicate, sym, ◌∙◌, Option, none, some, List, [], ◌∷◌, ◌++◌, map, All,
  arith, length, take, drop, replicate, ◌>>=◌, get_elem?,
}
use Prim.Native.Nat.{max}
use mpx_cli.Text.Utf8.{Text}
use mpx_cli.Text.Codes.{codes}
use mpx_cli.Text.Lines.{lines}
use mpx_cli.Util.Console.{Printed, println, eprintln}
use mpx_cli.Cli.Publish.{widest, width, checked_sub, beside, print_rows, top_of, print_side_by_side}

-- Rows side by side with the lines of a panel, from the first of both, and the rows that are left.
zipped : ℕ → List Text → List Text → List Printed
zipped wide [] panel = []
zipped wide (row ∷ rows) [] = println row ∷ zipped wide rows []
zipped wide (row ∷ rows) (line ∷ panel) = beside wide row (some line) ∷ zipped wide rows panel

-- A line that takes at most `n` columns.
abbrev pub Fits : ℕ → Printed → Type 0
Fits n (println s) = length s ≤ n
Fits n (eprintln s) = length s ≤ n

abbrev pub AtMost : ℕ → Text → Type 0
AtMost n s = length s ≤ n

abbrev pub IsBlank : ℕ → Type 0
IsBlank c = c ≡ b' '

-- A printed row: of a line that is not empty it shows the row of the art, blanks up to the column
-- behind the art and a gap of two, and there the line.
pub data Row (wide : ℕ) (row : Text) : Text → Printed → Type 0 where
  bare : Row wide row [] (println row)
  filled :
      {c : ℕ} {line : Text} (gap : Text)
      → All IsBlank gap
      → length (row ++ gap) ≡ wide + 2
      → Row wide row (c ∷ line) (println (row ++ (gap ++ (c ∷ line))))

-- Rows of the art with every line of a panel at the side of the first of them.
pub data Beside (wide : ℕ) : List Text → List Text → List Printed → Type 0 where
  done : Beside wide [] [] []
  row_alone :
      {row : Text} {rows : List Text} {ps : List Printed}
      → Beside wide rows [] ps
      → Beside wide (row ∷ rows) [] (println row ∷ ps)
  row_and_line :
      {row line : Text} {rows panel : List Text} {p : Printed} {ps : List Printed}
      → Row wide row line p
      → Beside wide rows panel ps
      → Beside wide (row ∷ rows) (line ∷ panel) (p ∷ ps)

-- What printing a panel beside the art comes to.
pub record Layout (art : Text) (panel : List Text) (printed : List Printed) : Type 0 where
  -- The rows above the panel; below it there are as many, or one more.
  pub top : ℕ
  pub centred_low : 2 * top + length panel ≤ length (lines art)
  pub centred_high : length (lines art) ≤ 2 * top + length panel + 1
  pub below : List Printed
  pub shown : printed ≡ map println (take top (lines art)) ++ below
  pub whole : Beside (width art) (drop top (lines art)) panel below
  pub fits : All (Fits (width art + 2 + widest panel)) printed

AtMost-weaken : (m n : ℕ) (ls : List Text) → m ≤ n → All (AtMost m) ls → All (AtMost n) ls
AtMost-weaken m n [] h k = tt
AtMost-weaken m n (l ∷ ls) h k = (omega (arith, h, k.0), AtMost-weaken m n ls h k.1)

widest-AtMost : (ls : List Text) → All (AtMost (widest ls)) ls
unfolding widest
widest-AtMost [] = tt
widest-AtMost (l ∷ ls) = (
  omega arith,
  AtMost-weaken (widest ls) (max (length l) (widest ls)) ls (omega arith) (widest-AtMost ls),
)

abbrev first : List Text → Option Text
first [] = none
first (l ∷ ls) = some l

abbrev rest : List Text → List Text
rest [] = []
rest (l ∷ ls) = ls

get_elem?-drop : (i : ℕ) (ls : List Text) → get_elem? ls i ≡ first (drop i ls)
get_elem?-drop zero [] = refl
get_elem?-drop zero (l ∷ ls) = refl
get_elem?-drop (suc i) [] = refl
get_elem?-drop (suc i) (l ∷ ls) = get_elem?-drop i ls

drop-suc : (i : ℕ) (ls : List Text) → drop (suc i) ls ≡ rest (drop i ls)
drop-suc zero [] = refl
drop-suc zero (l ∷ ls) = refl
drop-suc (suc i) [] = refl
drop-suc (suc i) (l ∷ ls) = drop-suc i ls

length-drop : (n : ℕ) (ls : List Text) → length (drop n ls) ≡ length ls - n
length-drop zero ls = omega arith
length-drop (suc n) [] = omega arith
length-drop (suc n) (l ∷ ls) = omega (arith, length-drop n ls)

zipped-step :
    (wide : ℕ) (row : Text) (rows panel : List Text)
    → zipped wide (row ∷ rows) panel ≡ beside wide row (first panel) ∷ zipped wide rows (rest panel)
unfolding zipped
zipped-step wide row rows [] = refl
zipped-step wide row rows (l ∷ panel) = refl

module _ (wide : ℕ) (panel : List Text) where
  print_rows-zipped :
      (top i : ℕ) (rows : List Text)
      → print_rows wide top panel (top + i) rows ≡ zipped wide rows (drop i panel)
  unfolding print_rows zipped
  print_rows-zipped top i [] = refl
  print_rows-zipped top i (row ∷ rows) =
      ap₂ (◌∷◌)
        (ap (λ o. beside wide row (o >>= get_elem? panel)) found
          ∙ ap (beside wide row) (get_elem?-drop i panel))
        (ap (λ j. print_rows wide top panel j rows) (omega arith)
          ∙ print_rows-zipped top (suc i) rows
          ∙ ap (zipped wide rows) (drop-suc i panel))
      ∙ sym (zipped-step wide row rows (drop i panel))
    where
      found : checked_sub (top + i) top ≡ some i
      found = ground arith

  print_rows-above :
      (n index : ℕ) (rows : List Text)
      → print_rows wide (index + n) panel index rows
        ≡ map println (take n rows) ++ zipped wide (drop n rows) panel
  unfolding print_rows zipped
  print_rows-above zero index rows =
      ap (λ j. print_rows wide (index + 0) panel j rows) (omega arith)
      ∙ print_rows-zipped (index + 0) 0 rows
  print_rows-above (suc n) index [] = refl
  print_rows-above (suc n) index (row ∷ rows) =
      ap₂ (◌∷◌) (ap (λ o. beside wide row (o >>= get_elem? panel)) early) (
        ap (λ t. print_rows wide t panel (index + 1) rows) (omega arith)
        ∙ print_rows-above n (index + 1) rows)
    where
      early : checked_sub index (index + suc n) ≡ none
      early = ground arith

  module _ (most : ℕ) where
    zipped-Fits :
        (rows panel : List Text)
        → All (AtMost wide) rows
        → All (AtMost most) panel
        → All (Fits (wide + 2 + most)) (zipped wide rows panel)
    unfolding zipped
    zipped-Fits [] panel h k = tt
    zipped-Fits (row ∷ rows) [] h k = (omega (arith, h.0), zipped-Fits rows [] h.1 tt)
    zipped-Fits (row ∷ rows) ([] ∷ panel) h k = (omega (arith, h.0), zipped-Fits rows panel h.1 k.1)
    zipped-Fits (row ∷ rows) ((c ∷ line) ∷ panel) h k = (
      subst (λ n. n ≤ wide + 2 + most) (sym (measured row (c ∷ line))) (omega (arith, h.0, k.0)),
      zipped-Fits rows panel h.1 k.1,
    )
      where
        measured :
            (row line : Text)
            → length (row ++ (replicate (wide - length row) b' ' ++ (codes "  " ++ line)))
              ≡ length row + (wide - length row + (2 + length line))
        measured row line =
            length-append row _
            ∙ ap (λ n. length row + n)
                (length-append (replicate (wide - length row) b' ') _
                  ∙ ap₂ ◌+◌ (length-replicate (wide - length row) b' ') (omega arith))

    above-Fits :
        (rows : List Text)
        → All (AtMost wide) rows
        → All (Fits (wide + 2 + most)) (map println rows)
    above-Fits [] h = tt
    above-Fits (row ∷ rows) h = (omega (arith, h.0), above-Fits rows h.1)

-- The blanks between a row and its line.
abbrev gap_of : ℕ → Text → Text
gap_of wide row = replicate (wide - length row) b' ' ++ codes "  "

replicate-IsBlank : (n : ℕ) → All IsBlank (replicate n b' ' ++ codes "  ")
replicate-IsBlank zero = (refl, (refl, tt))
replicate-IsBlank (suc n) = (refl, replicate-IsBlank n)

append_gap :
    (n : ℕ) (line : Text)
    → (replicate n b' ' ++ codes "  ") ++ line ≡ replicate n b' ' ++ (codes "  " ++ line)
append_gap zero line = refl
append_gap (suc n) line = ap (◌∷◌ b' ') (append_gap n line)

beside-Row :
    (wide : ℕ) (row line : Text)
    → length row ≤ wide
    → Row wide row line (beside wide row (some line))
beside-Row wide row [] h = bare
beside-Row wide row (c ∷ line) h =
    subst (λ s. Row wide row (c ∷ line) (println (row ++ s)))
      (append_gap (wide - length row) (c ∷ line))
      (filled (gap_of wide row) (replicate-IsBlank (wide - length row)) (
        length-append row (gap_of wide row)
        ∙ ap (λ n. length row + n)
            (length-append (replicate (wide - length row) b' ') (codes "  ")
              ∙ ap (λ n. n + 2) (length-replicate (wide - length row) b' '))
        ∙ omega (arith, h)))

zipped-Beside :
    (wide : ℕ) (rows panel : List Text)
    → All (AtMost wide) rows
    → length panel ≤ length rows
    → Beside wide rows panel (zipped wide rows panel)
unfolding zipped
zipped-Beside wide [] [] h k = done
zipped-Beside wide [] (line ∷ panel) h k = absurd (omega (arith, k))
zipped-Beside wide (row ∷ rows) [] h k = row_alone (zipped-Beside wide rows [] h.1 (omega arith))
zipped-Beside wide (row ∷ rows) (line ∷ panel) h k =
    row_and_line (beside-Row wide row line h.0)
      (zipped-Beside wide rows panel h.1 (omega (arith, k)))

-- If the panel has no more lines than the art, then all of it is printed beside the art: as
-- many rows stand above it as below, or one less. Each of its lines that is not empty stands
-- in its row behind the row of the art and blanks, two columns behind the width of the art; an
-- empty line leaves the row as it is, and so are the rows above and below. No printed row is
-- longer than the width, the gap and the widest line of the panel.
pub print_side_by_side-Layout :
    (art : Text) (panel : List Text)
    → length panel ≤ length (lines art)
    → Layout art panel (print_side_by_side art panel)
unfolding print_side_by_side width
print_side_by_side-Layout art panel h =
    let top = top_of (lines art) panel in
    let rows = widest-AtMost (lines art) in
    let shown : print_side_by_side art panel
        ≡ map println (take top (lines art)) ++ zipped (width art) (drop top (lines art)) panel =
      ap (λ t. print_rows (width art) t panel 0 (lines art)) (omega arith)
      ∙ print_rows-above (width art) panel top 0 (lines art) in
    record {
      top = top;
      centred_low = omega (arith, h);
      centred_high = omega (arith, h);
      below = zipped (width art) (drop top (lines art)) panel;
      shown = shown;
      whole =
          zipped-Beside (width art) (drop top (lines art)) panel (All-drop _ top (lines art) rows)
            (subst (λ n. length panel ≤ n) (sym (length-drop top (lines art))) (omega (arith, h)));
      fits = subst (All (Fits (width art + 2 + widest panel))) (sym shown) (
          All-append _ (map println (take top (lines art))) _
            (above-Fits (width art) panel (widest panel) (take top (lines art))
              (All-take _ top (lines art) rows))
            (zipped-Fits (width art) panel (widest panel) (drop top (lines art)) panel
              (All-drop _ top (lines art) rows) (widest-AtMost panel)));
    }
