-- ===== src/Cancel/Tests.antt =====
-- Signals that arrive at a process with both handlers installed.
use mpx_cli.Prelude.{◌≡◌, true, false, none, some, [], ◌∷◌, ◌==◌, if◌then◌else◌}
use mpx_cli.Cancel.{Libc, fresh, install, receive}
use mpx_cli.Cancel.Latch.{any, caught, fatal, receive-install}

-- SIGINT, SIGTERM, and a change of the window's size, which is ignored.
abbrev linux : Libc
linux = record {
  sigint = 2;
  sigterm = 15;
  signal_fails = λ s. false;
  kills = λ s. if s == 28 then false else true;
}

receive-install_example : receive linux (28 ∷ 15 ∷ 2 ∷ []) (install linux fresh) ≡ (
    if any (fatal linux) (28 ∷ 15 ∷ 2 ∷ [])
    then none
    else some (record (install linux fresh) { canceled = any (caught linux) (28 ∷ 15 ∷ 2 ∷ []) }))
receive-install_example = receive-install linux (28 ∷ 15 ∷ 2 ∷ [])
