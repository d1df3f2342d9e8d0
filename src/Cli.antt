-- ===== src/Cli.antt =====
-- src/main.rs: `unbind`, and the parts of `bind` that decide something. `unbind` gives the exit code
-- and the disk.
pub mod Machine
pub mod Offline
pub mod Messages
pub mod Bind
pub mod Publish
pub mod Unbind
pub mod Told
pub mod Revert
pub mod Sample
mod Tests
use mpx_cli.Prelude.{
  ℕ, Bool, true, false, not, ◌&&◌, ◌||◌, Option, none, some, List, [], ◌∷◌, ◌++◌, leb, ltb,
  if◌then◌else◌, equal, unwrap_or, is_some, Bytes,
}
use mpx_cli.Text.Utf8.{Text}
use mpx_cli.Text.Codes.{codes, strip_prefix}
use mpx_cli.Text.Fields.{trim, is_empty, join}
use mpx_cli.Util.Hex.{hex}
use mpx_cli.Util.Slug.{to_ascii_lowercase}
use mpx_cli.Authkeys.Disk.{Disk, Faults, Outcome, done, failed}
use mpx_cli.Authkeys.Line.{MarkedKey, marker_prefix, split_colon}
use mpx_cli.Authkeys.{marked_keys, remove_marked}
use mpx_cli.Payload.{IpAddr}
use mpx_cli.Server.Run.{BindOutcome}

pub record UnbindArgs : Type 0 where
  pub id : Option Text
  pub all : Bool
  pub list : Bool

-- The `filter` of `unbind`.
abbrev pub chosen : UnbindArgs → MarkedKey → Bool
chosen args k = if args.all then true else equal k.id (unwrap_or args.id [])

-- `args.list || (args.id.is_none() && !args.all)`
abbrev pub only_lists : UnbindArgs → Bool
only_lists args = args.list || not (is_some args.id) && not args.all

-- The exit code for what `remove_marked` returned.
abbrev pub removal_code : Outcome (List MarkedKey) → ℕ
removal_code (done []) = 1
removal_code (done (k ∷ removed)) = 0
removal_code (failed e) = 1

abbrev remove_chosen : Faults → UnbindArgs → Disk → ℕ × Disk
remove_chosen faults args d =
    let (r, d') = remove_marked faults (chosen args) d in (removal_code r, d')

abbrev with_keys : Faults → UnbindArgs → Disk → Outcome (List MarkedKey) → ℕ × Disk
with_keys faults args d (failed e) = (1, d)
with_keys faults args d (done keys) =
    if only_lists args then (0, d) else remove_chosen faults args d

-- `unbind`: the exit code and the disk.
unfoldable pub unbind : Faults → UnbindArgs → Disk → ℕ × Disk
unbind faults args d = with_keys faults args d (marked_keys faults d.target)

-- The exit code of `bind` for the outcome of `run`.
abbrev pub exit_code : BindOutcome → ℕ
exit_code (BindOutcome.enrolled device comment acknowledged) = 0
exit_code BindOutcome.expired = 2
exit_code BindOutcome.declined = 1
exit_code BindOutcome.canceled = 130

-- `confirm_on_tty`, on the line that was read.
lowercased : Text → Text
lowercased [] = []
lowercased (c ∷ s) = to_ascii_lowercase c ∷ lowercased s

abbrev pub accepts : Text → Bool
accepts answer = is_empty answer || equal answer (codes "y") || equal answer (codes "yes")

unfoldable pub confirm_line : Text → Bool
unfolding lowercased
confirm_line line = accepts (lowercased (trim line))

-- `marker_id8`
abbrev id_of : Text → Option Text → Text
id_of comment none = comment
id_of comment (some rest) = (split_colon rest).0

unfoldable pub marker_id8 : Text → Text
marker_id8 comment = id_of comment (strip_prefix marker_prefix comment)

-- `args.expires.clamp(10, 600)`
unfoldable pub clamped_expires : ℕ → ℕ
clamped_expires n = if ltb n 10 then 10 else if ltb 600 n then 600 else n

-- `parsed_addrs`, given how the standard library parses an address.
unfoldable pub parsed_addrs : (Text → Option IpAddr) → List Text → List IpAddr
parsed_addrs parse [] = []
parsed_addrs parse (s ∷ ss) = elim (parse s) [
  | none ↦ parsed_addrs parse ss
  | some addr ↦ addr ∷ parsed_addrs parse ss
]
