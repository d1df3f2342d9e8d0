-- ===== src/Cli/Revert.antt =====
-- `mpx unbind <id>` behind `mpx bind`: src/main.rs calls of src/authkeys.rs.
use mpx_cli.Prelude.{
  ℕ, ◌/◌, ◌%◌, ◌≡◌, refl, ap, sym, subst, ◌∙◌, false, some, [], ◌∷◌, arith, ◌==◌, Bytes,
}
use mpx_cli.Text.Utf8.{Text}
use mpx_cli.Util.Hex.{hex, hex_digit}
use mpx_cli.Authkeys.Disk.{Disk, done}
use mpx_cli.Authkeys.Replace.{no_faults}
use mpx_cli.Authkeys.Enroll.{Holds, IsEntry, ensure_line_added}
use mpx_cli.Authkeys.Kept.{seen, taken}
use mpx_cli.Authkeys.Revoke.{remove_marked-no_faults}
use mpx_cli.Authkeys.RoundTrip.{
  NoColon, marker, has_id, marked_keys-ensure_line, remove_marked-ensure_line,
}
use mpx_cli.Authkeys.{added, ensure_line}
use mpx_cli.Cli.{UnbindArgs, removal_code, with_keys, unbind}

-- `mpx unbind <id>`
abbrev pub by_id : Text → UnbindArgs
by_id id = record { id = some id; all = false; list = false }

-- What `hex` writes has no colon.
hex_digit-NoColon : (n : ℕ) → (hex_digit n == b':') ≡ false
unfolding hex_digit
hex_digit-NoColon n = ground arith

pub hex-NoColon : (bs : Bytes) → NoColon (hex bs)
unfolding hex
hex-NoColon [] = tt
hex-NoColon (b ∷ bs) = (hex_digit-NoColon (b / 16), (hex_digit-NoColon (b % 16), hex-NoColon bs))

-- What `unbind` leaves of a file that held `s` before.
abbrev pub Reverts : Text → ℕ × Disk → Type 0
Reverts s r = (r.0 ≡ 0) × ((s' : Text) × Holds r.1 s' × (seen s' ≡ seen s))

module _ (d d' : Disk) (s t k id device : Text) (h : Holds d s) (w : IsEntry t k (marker id device))
    (plain : NoColon id)
    (bound : ensure_line no_faults t k (marker id device) d ≡ (done added, d')) where
  -- After a key was added under a marker whose id has no colon and that no other key has, `unbind`
  -- by that id exits with 0 and leaves the lines of before.
  pub unbind-ensure_line :
      taken (has_id id) (seen s) ≡ [] → Reverts s (unbind no_faults (by_id id) d')
  unfolding unbind
  unbind-ensure_line none_before =
      let listed =
        marked_keys-ensure_line no_faults no_faults d s t k id device refl refl h w plain bound in
      let (fresh, held, parsed) =
        ensure_line_added no_faults d t k (marker id device) s refl h w bound in
      let (ks, d'', removed) = remove_marked-no_faults (has_id id) d' _ held in
      let (one, back) =
        remove_marked-ensure_line no_faults no_faults d s t k id device refl refl h w plain bound
          none_before removed in
      subst (Reverts s)
        (sym (
          ap (with_keys no_faults (by_id id) d') listed
          ∙ ap (λ r. (removal_code r.0, r.1)) (removed ∙ ap (λ ks. (done ks, d'')) one)))
        (refl, back)
