-- ===== src/Clip.antt =====
-- src/clip.rs: `copy`. The system answers which variables are set, which files and programs there
-- are, and whether the terminal can be written; what reaches a clipboard is the list of `Delivery`.
pub mod Passthrough
mod Tests
use mpx_cli.Prelude.{
  ℕ, Bool, true, false, not, ◌&&◌, ◌||◌, Option, none, some, List, [], ◌∷◌, ◌++◌, ◌==◌,
  if◌then◌else◌, is_some, Bytes, unwrap_or,
}
use mpx_cli.Text.Utf8.{Text, as_bytes}
use mpx_cli.Text.Codes.{codes}
use mpx_cli.Util.Console.{Env, is_set, esc}

pub data CopyOutcome : Type 0 where
  copied : Text → CopyOutcome
  failed : CopyOutcome

-- A program that was started: whether it takes all of the text, and the status that `wait` returns.
pub record Child : Type 0 where
  pub takes : Bool
  pub success : Option Bool

-- `/dev/tty`: whether it opens for writing, and whether a write and the flush succeed.
pub record Terminal : Type 0 where
  pub opens : Bool
  pub writes : Bool

pub record System : Type 0 where
  pub env : Env
  pub macos : Bool
  -- The directories of `PATH`, if it is set, and whether a directory has a file of that name.
  pub path : Option (List Text)
  pub has_file : Text → Text → Bool
  pub spawn : Text → List Text → Option Child
  pub tty : Terminal
  -- `b64std`
  pub b64std : Bytes → Text

-- What was handed over: a text to a program, or a text to the terminal.
pub data Delivery : Type 0 where
  piped : Text → Text → Delivery
  typed : Text → Delivery

-- `any` over the directories.
unfoldable pub in_some : (Text → Bool) → List Text → Bool
in_some test [] = false
in_some test (dir ∷ dirs) = test dir || in_some test dirs

module _ (sys : System) where
  abbrev pub which : Text → Bool
  which binary = in_some (λ dir. sys.has_file dir binary) (unwrap_or sys.path [])

  -- A program and its arguments.
  abbrev pub Tool : Type 0
  Tool = Text × List Text

  unfoldable pub local_tool : Option Tool
  local_tool =
      if sys.macos
      then some (codes "pbcopy", [])
      else if is_set sys.env (codes "WAYLAND_DISPLAY") && which (codes "wl-copy")
      then some (codes "wl-copy", [])
      else if is_set sys.env (codes "DISPLAY")
      then (if which (codes "xclip")
          then some (codes "xclip", codes "-selection" ∷ codes "clipboard" ∷ [])
          else if which (codes "xsel")
          then some (codes "xsel", codes "--clipboard" ∷ codes "--input" ∷ [])
          else none)
      else none

  -- A write that fails ends the call before the program is waited for.
  abbrev piped_to : Text → Text → Option Child → Bool × List Delivery
  piped_to program payload none = (false, [])
  piped_to program payload (some child) =
      if child.takes
      then (unwrap_or child.success false, piped program payload ∷ [])
      else (false, [])

  unfoldable pub pipe_to : Tool → Text → Bool × List Delivery
  pipe_to (program, arguments) payload = piped_to program payload (sys.spawn program arguments)

  -- `.replace('\x1b', "\x1b\x1b")`
  unfoldable pub doubled : Text → Text
  doubled [] = []
  doubled (c ∷ s) = if c == esc then esc ∷ esc ∷ doubled s else c ∷ doubled s

  -- `\x1b]52;c;{}\x07`
  abbrev pub sequence : Text → Text
  sequence payload = esc ∷ (codes "]52;c;" ++ (sys.b64std (as_bytes payload) ++ (7 ∷ [])))

  -- `\x1bPtmux;{}\x1b\\`
  abbrev pub passthrough : Text → Text
  passthrough s = esc ∷ (codes "Ptmux;" ++ (doubled s ++ (esc ∷ (b'\\' ∷ []))))

  abbrev pub in_tmux : Bool
  in_tmux = is_set sys.env (codes "TMUX")

  abbrev pub wrapped : Text → Text
  wrapped payload = if in_tmux then passthrough (sequence payload) else sequence payload

  unfoldable pub osc52 : Text → Bool × List Delivery
  osc52 payload =
      if sys.tty.opens && sys.tty.writes then (true, typed (wrapped payload) ∷ []) else (false, [])

  abbrev pub over_ssh : Bool
  over_ssh = is_set sys.env (codes "SSH_TTY") || is_set sys.env (codes "SSH_CONNECTION")

  -- The terminal, where no local program took the text.
  abbrev by_terminal : Text → CopyOutcome × List Delivery
  by_terminal payload =
      let (sent, deliveries) = osc52 payload in
      (
        if sent
            then copied (if over_ssh then codes "OSC 52 → your local terminal" else codes "OSC 52")
            else failed,
        deliveries,
      )

  abbrev after_pipe : Text → Text → Bool × List Delivery → CopyOutcome × List Delivery
  after_pipe payload program (true, deliveries) = (copied program, deliveries)
  after_pipe payload program (false, deliveries) =
      let (outcome, more) = by_terminal payload in (outcome, deliveries ++ more)

  abbrev with_tool : Text → Option Tool → CopyOutcome × List Delivery
  with_tool payload none = by_terminal payload
  with_tool payload (some tool) = after_pipe payload tool.0 (pipe_to tool payload)

  unfoldable pub copy : Text → CopyOutcome × List Delivery
  copy payload = if over_ssh then by_terminal payload else with_tool payload local_tool

  -- `tmux_passthrough_hint`
  unfoldable pub tmux_passthrough_hint : Option Text
  tmux_passthrough_hint =
      if in_tmux
      then some
          (codes "inside tmux, OSC 52 needs `set -g allow-passthrough on` in the host's tmux.conf")
      else none
