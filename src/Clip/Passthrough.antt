-- ===== src/Clip/Passthrough.antt =====
-- What becomes of a copy in src/clip.rs: what a local program gets, or the terminal, through tmux
-- where there is one.
use mpx_cli.Prelude.{
  ℕ, ◌≡◌, refl, ap, sym, subst, ==_iff, ◌∙◌, ◌⊎◌, inl, inr, Bool, true, false, ◌&&◌, Option, none,
  some, List, [], ◌∷◌, ◌++◌, ◌==◌, if◌then◌else◌, Bool-cases, ◌>>=◌, unwrap_or,
}
use mpx_cli.Text.Utf8.{Text}
use mpx_cli.Text.Codes.{codes, strip_prefix, strip_prefix-append}
use mpx_cli.Text.Fields.{is_empty}
use mpx_cli.Util.Console.{esc}
use mpx_cli.Clip.{
  CopyOutcome, copied, failed, Child, System, Delivery, piped, typed, local_tool, piped_to, pipe_to,
  doubled, sequence, passthrough, in_tmux, wrapped, osc52, over_ssh, by_terminal, after_pipe,
  with_tool, copy,
}

abbrev behind : ℕ → Option Text → Option Text
behind c none = none
behind c (some s) = some (c ∷ s)

-- How the text inside of a passthrough sequence is read: an escape stands for the escape behind it,
-- and an escape and a backslash end the sequence. The flag says that an escape was just read.
unfoldable pub unescaped : Bool → Text → Option Text
unescaped escape [] = none
unescaped true (c ∷ s) =
    let rest = unescaped false s in
    if c == esc then behind esc rest else if (c == b'\\') && is_empty s then some [] else none
unescaped false (c ∷ s) =
    let rest = unescaped (c == esc) s in if c == esc then rest else behind c rest

-- What tmux hands on to the terminal around it.
unfoldable pub handed_on : Text → Option Text
handed_on s = strip_prefix (esc ∷ codes "Ptmux;") s >>= unescaped false

module _ (sys : System) where
  unescaped-doubled : (s : Text) → unescaped false (doubled sys s ++ (esc ∷ (b'\\' ∷ []))) ≡ some s
  unfolding unescaped doubled
  unescaped-doubled [] = refl
  unescaped-doubled (c ∷ s) = elim (Bool-cases (c == esc)) [
    | inl e ↦ rw e (rw (unescaped-doubled s) (ap (λ d. some (d ∷ s)) (sym ((==_iff c esc).0 e))))
    | inr e ↦ rw e (rw e (ap (behind c) (unescaped-doubled s)))
  ]

  handed_on-passthrough : (s : Text) → handed_on (passthrough sys s) ≡ some s
  unfolding handed_on
  handed_on-passthrough s =
      ap (λ o. o >>= unescaped false)
        (strip_prefix-append (esc ∷ codes "Ptmux;") (doubled sys s ++ (esc ∷ (b'\\' ∷ []))))
      ∙ unescaped-doubled s

  -- The terminal around it all gets the sequence that sets its clipboard.
  abbrev pub Reaches : Text → Text → Type 0
  Reaches payload s =
      ((in_tmux sys ≡ false) × (s ≡ sequence sys payload))
      ⊎ ((in_tmux sys ≡ true) × (handed_on s ≡ some (sequence sys payload)))

  -- A program of this machine took the text, or the terminal did, and over SSH it was the terminal.
  abbrev pub Copied : Text → List Delivery → Type 0
  Copied payload deliveries =
      ((program : Text) × (over_ssh sys ≡ false) × (deliveries ≡ piped program payload ∷ []))
      ⊎ ((before : List Delivery) × (s : Text) × (deliveries ≡ before ++ typed s ∷ [])
          × Reaches payload s
          × ((over_ssh sys ≡ false) ⊎ (before ≡ [])))

  wrapped-Reaches : (payload : Text) → Reaches payload (wrapped sys payload)
  wrapped-Reaches payload = go (in_tmux sys) refl
    where
      go :
          (tmux : Bool)
          → in_tmux sys ≡ tmux
          → Reaches payload
              (if tmux then passthrough sys (sequence sys payload) else sequence sys payload)
      go true e = inr (e, handed_on-passthrough (sequence sys payload))
      go false e = inl (e, refl)

  module _ (payload : Text) where
    -- A call that copies, and what it handed over.
    CopiedBy : CopyOutcome × List Delivery → Type 0
    CopiedBy (copied method, deliveries) = Copied payload deliveries
    CopiedBy (failed, deliveries) = Unit

    by_terminal-Copied :
        (before : List Delivery)
        → (over_ssh sys ≡ false) ⊎ (before ≡ [])
        → let (outcome, more) = by_terminal sys payload in CopiedBy (outcome, before ++ more)
    unfolding osc52 CopiedBy
    by_terminal-Copied before h = elim (Bool-cases (sys.tty.opens && sys.tty.writes)) [
      | inl e ↦ rw e (inr (before, wrapped sys payload, refl, wrapped-Reaches payload, h))
      | inr e ↦ rw e tt
    ]

    after_pipe-Copied :
        (program : Text) (r : Option Child)
        → over_ssh sys ≡ false
        → CopiedBy (after_pipe sys payload program (piped_to sys program payload r))
    unfolding CopiedBy
    after_pipe-Copied program none local = by_terminal-Copied [] (inl local)
    after_pipe-Copied program (some child) local = elim (Bool-cases child.takes) [
      | inl e ↦ rw e (elim (Bool-cases (unwrap_or child.success false)) [
        | inl g ↦ rw g (inl (program, local, refl))
        | inr g ↦ rw g (by_terminal-Copied (piped program payload ∷ []) (inl local))
      ])
      | inr e ↦ rw e (by_terminal-Copied [] (inl local))
    ]

    with_tool-Copied :
        (tool : Option (Text × List Text))
        → over_ssh sys ≡ false
        → CopiedBy (with_tool sys payload tool)
    unfolding pipe_to
    with_tool-Copied none local = by_terminal-Copied [] (inl local)
    with_tool-Copied (some (program, arguments)) local =
        after_pipe-Copied program (sys.spawn program arguments) local

    copy-CopiedBy : CopiedBy (copy sys payload)
    unfolding copy
    copy-CopiedBy = go (over_ssh sys) refl
      where
        go :
            (ssh : Bool)
            → over_ssh sys ≡ ssh
            → CopiedBy
                (if ssh then by_terminal sys payload else with_tool sys payload (local_tool sys))
        go true e = by_terminal-Copied [] (inr refl)
        go false e = with_tool-Copied (local_tool sys) e

    -- If `copy` reports success, then either a program took the payload, nothing else was
    -- handed over and there is no SSH session, or what was handed over last went to the
    -- terminal: the sequence that sets its clipboard, or inside of tmux one that tmux
    -- hands on as that sequence; and over SSH nothing was handed over before.
    pub copy-Copied :
        (method : Text) (deliveries : List Delivery)
        → copy sys payload ≡ (copied method, deliveries)
        → Copied payload deliveries
    unfolding CopiedBy
    copy-Copied method deliveries e = subst CopiedBy e copy-CopiedBy
