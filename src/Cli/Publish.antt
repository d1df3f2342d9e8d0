-- ===== src/Cli/Publish.antt =====
-- src/main.rs: `publish_payload` and `print_side_by_side`. The art itself
-- is the QR crate's.
pub mod Layout
unfoldable pub use mpx_cli.Qr.{widest, width}
use mpx_cli.Prelude.{
  ℕ, ◌+◌, ◌-◌, ◌/◌, Bool, true, false, not, ◌&&◌, Option, none, some, List, [], ◌∷◌, ◌++◌, map, leb,
  if◌then◌else◌, is_some, length, get_elem?, replicate, ◌>>=◌,
}
use Prim.Native.Nat.{max}
use mpx_cli.Text.Utf8.{Text}
use mpx_cli.Text.Codes.{codes}
use mpx_cli.Text.Lines.{lines}
use mpx_cli.Util.Console.{Console, Printed, println, ok, note, warn}
use mpx_cli.Clip.{System, CopyOutcome, copied, failed, Delivery, copy, tmux_passthrough_hint}

-- `index.checked_sub(top)`
abbrev pub checked_sub : ℕ → ℕ → Option ℕ
checked_sub index top = if leb top index then some (index - top) else none

-- One row, and the line of the panel that stands at its right, if there is one.
abbrev pub beside : ℕ → Text → Option Text → Printed
beside wide row none = println row
beside wide row (some []) = println row
beside wide row (some (c ∷ line)) =
    println (row ++ (replicate (wide - length row) b' ' ++ (codes "  " ++ (c ∷ line))))

-- The rows from `index` on.
unfoldable pub print_rows : ℕ → ℕ → List Text → ℕ → List Text → List Printed
print_rows wide top panel index [] = []
print_rows wide top panel index (row ∷ rows) =
    beside wide row (checked_sub index top >>= get_elem? panel)
    ∷ print_rows wide top panel (index + 1) rows

-- Subtraction stops at 0, as `saturating_sub` does.
abbrev pub top_of : List Text → List Text → ℕ
top_of rows panel = (length rows - length panel) / 2

unfoldable pub print_side_by_side : Text → List Text → List Printed
unfolding print_rows width
print_side_by_side art panel =
    let rows = lines art in print_rows (width art) (top_of rows panel) panel 0 rows

-- The panel underneath.
abbrev pub indented : Text → Printed
indented line = println (codes "  " ++ line)

module _ (console : Console) (sys : System) (render : Text → Option Text) where
  abbrev hint : Option Text → List Printed
  hint none = []
  hint (some text) = note console (codes "  " ++ text) ∷ []

  -- The `match` on what `clip::copy` returned.
  abbrev pub copy_report : Text → CopyOutcome → List Printed
  copy_report url (copied method) =
      ok console (codes "payload copied to clipboard (" ++ (method ++ codes ")"))
      ∷ hint (tmux_passthrough_hint sys)
  copy_report url failed =
      warn console (codes "clipboard unavailable — scan the QR or copy the line below")
      ∷ println url
      ∷ []

  abbrev pub copy_offer : Bool → Text → List Printed × List Delivery
  copy_offer false url = ([], [])
  copy_offer true url =
      let (outcome, deliveries) = copy sys url in (copy_report url outcome, deliveries)

  abbrev pub print_offer : Option Text → List Text → List Printed
  print_offer none panel = map indented panel
  print_offer (some art) panel =
      println []
      ∷ (if leb (width art + 2 + widest panel) 80
          then print_side_by_side art panel
          else println art ∷ map indented panel)

  abbrev too_large : Bool → Option Text → Text → List Printed
  too_large no_qr art url =
      if not no_qr && not (is_some art)
      then warn console (codes "payload too large for a QR — use the clipboard") ∷ println url ∷ []
      else []

  -- What is printed, and what is handed over for a clipboard.
  unfoldable pub publish_payload : Text → Bool → Bool → List Text → List Printed × List Delivery
  publish_payload url copying no_qr panel =
      let (report, deliveries) = copy_offer copying url in
      let art = if no_qr then none else render url in
      (
        report
            ++ (too_large no_qr art url
                ++ (print_offer art panel
                    ++ ((if not copying && no_qr then println url ∷ [] else [])
                        ++ (if copying
                            then []
                            else note console (
                                codes
                                  "clipboard untouched — re-run with --copy to paste this into Multiplex")
                              ∷ [])))),
        deliveries,
      )
