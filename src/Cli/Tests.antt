-- ===== src/Cli/Tests.antt =====
-- Revoking an id that no key has, and binds on a machine with crates that hide nothing.
use mpx_cli.Prelude.{◌≤◌, true, none, List, [], ◌∷◌, inl, length, equal, arith}
use mpx_cli.Text.Utf8.{Text}
use mpx_cli.Server.Run.Stops.{signaled}
use mpx_cli.Cli.Publish.{print_side_by_side}
use mpx_cli.Cli.Publish.Layout.{Layout, print_side_by_side-Layout}
use mpx_cli.Cli.Offline.{World, bind_offline}
use mpx_cli.Cli.Bind.{Round, bind}
use mpx_cli.Cli.Bind.Panics.{Exits, FitsIn, bind-Exits}
use mpx_cli.Cli.Bind.Ends.{IsEnough}
use mpx_cli.Prelude.{◌≡◌, refl, false, some, inr}
use mpx_cli.Text.Utf8.{as_bytes, from_utf8}
use mpx_cli.Text.Codes.{codes}
use mpx_cli.Text.Fields.{is_whitespace}
use mpx_cli.Text.Lines.{lines}
use mpx_cli.Authkeys.Disk.{Disk, file, absent}
use mpx_cli.Authkeys.Line.{marked_key}
use mpx_cli.Authkeys.Replace.{no_faults}
use mpx_cli.Authkeys.{marked_keys, remove_marked, read_existing, removed_keys, marked_lines}
use mpx_cli.Cli.{UnbindArgs, unbind}
use mpx_cli.Cli.Unbind.{unbind_kept}
use mpx_cli.Cli.Told.{Told, unbind_lines, unbind-Told}
use mpx_cli.Authkeys.Enroll.{Holds}
use mpx_cli.Util.Console.{Console}
use mpx_cli.Cli.Sample.{disk, art, machine, bind_args, world}

abbrev args : UnbindArgs
args = record { id = some (codes "ff"); all = false; list = false }

finds_none : (unbind no_faults args disk).0 ≡ 1
unfolding unbind marked_keys remove_marked read_existing removed_keys marked_lines from_utf8
    as_bytes lines marked_key is_whitespace
finds_none = refl

unbind_kept_example : (unbind no_faults args disk).1.target ≡ disk.target
unbind_kept_example = unbind_kept no_faults args disk finds_none

abbrev panel : List Text
panel = codes "PIN" ∷ []

room : length panel ≤ length (lines art)
unfolding lines
room = omega arith

print_side_by_side-Layout_example : Layout art panel (print_side_by_side art panel)
print_side_by_side-Layout_example = print_side_by_side-Layout art panel room

-- Someone cancels.
abbrev cancel : Round
cancel = record { signal = true; caller = none }

canceled : IsEnough machine bind_args (cancel ∷ [])
unfolding signaled
canceled = inl refl

machine-FitsIn : FitsIn machine bind_args world
machine-FitsIn v body key n = omega arith

bind-Exits_example : Exits (bind machine bind_args (cancel ∷ cancel ∷ []) world)
bind-Exits_example =
    bind-Exits machine bind_args (cancel ∷ []) cancel canceled tt world machine-FitsIn

abbrev offered : World
offered = (bind_offline machine bind_args world).1

abbrev machine_console : Console
machine_console = record { is_terminal = false; env = λ name. none }

-- One key with a marker, which is revoked by its id.
abbrev marked_text : Text
marked_text = codes "ssh-rsa BB multiplex:bind:a1:pi"

abbrev marked_disk : Disk
marked_disk = record disk { target = file (as_bytes marked_text) 0o600 }

abbrev revoking : UnbindArgs
revoking = record { id = some (codes "a1"); all = false; list = false }

marked-Holds : Holds marked_disk marked_text
marked-Holds = record { chars = ground arith; node = inr (0o600, refl) }

revokes : (unbind no_faults revoking marked_disk).0 ≡ 0
unfolding unbind marked_keys remove_marked read_existing removed_keys marked_lines from_utf8
    as_bytes lines marked_key is_whitespace equal mpx_cli.Authkeys.Line.parse_line
    mpx_cli.Text.Fields.trim mpx_cli.Authkeys.kept_text mpx_cli.Authkeys.Disk.write_atomically
revokes = refl

unbind-Told_example :
    Told machine_console
      (codes "keys")
      (λ e. codes "no")
      no_faults
      revoking
      marked_disk
      marked_text
      (unbind_lines machine_console (codes "keys") (λ e. codes "no") no_faults revoking marked_disk)
      (unbind no_faults revoking marked_disk)
unbind-Told_example =
    unbind-Told machine_console (codes "keys") (λ e. codes "no") no_faults revoking marked_disk
      marked_text refl refl marked-Holds revokes
