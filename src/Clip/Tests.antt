-- ===== src/Clip/Tests.antt =====
-- Copying over SSH, inside tmux.
use mpx_cli.Prelude.{◌≡◌, refl, true, false, none, some, List, [], equal, if◌then◌else◌}
use mpx_cli.Text.Utf8.{Text, as_bytes}
use mpx_cli.Text.Codes.{codes}
use mpx_cli.Util.Console.{Env, unicode}
use mpx_cli.Clip.{System, Delivery, copied, copy, osc52, doubled}
use mpx_cli.Clip.Passthrough.{Copied, copy-Copied}

abbrev env : Env
env name =
    if equal name (codes "SSH_TTY")
    then some (unicode (codes "pts"))
    else if equal name (codes "TMUX")
    then some (unicode [])
    else none

abbrev system : System
system = record {
  env = env;
  macos = true;
  path = none;
  has_file = λ dir binary. false;
  spawn = λ program arguments. none;
  tty = record { opens = true; writes = true };
  b64std = λ bs. bs;
}

abbrev payload : Text
payload = codes "hi"

abbrev deliveries : List Delivery
deliveries = (copy system payload).1

copied_over_ssh : copy system payload ≡ (copied (codes "OSC 52 → your local terminal"), deliveries)
unfolding copy osc52 doubled as_bytes equal
copied_over_ssh = refl

copy-Copied_example : Copied system payload deliveries
copy-Copied_example =
    copy-Copied system payload (codes "OSC 52 → your local terminal") deliveries copied_over_ssh
