-- ===== src/Cli/Offline/Seed.antt =====
-- The seed that `bind_offline` of src/main.rs publishes, and the key that it installs.
use mpx_cli.Prelude.{◌≡◌, some, List, ◌∷◌, Bytes}
use mpx_cli.Text.Utf8.{Text}
use mpx_cli.Text.Fields.{split_whitespace}
use mpx_cli.Util.Console.{Printed}
use mpx_cli.Authkeys.Disk.{Disk, done}
use mpx_cli.Authkeys.{AddOutcome, ensure_line}
use mpx_cli.Payload.Valid.{normal}
use mpx_cli.Payload.Url.{from_url}
use mpx_cli.Cli.Machine.{BindArgs, Machine}
use mpx_cli.Cli.Offline.{
  World, show, publish, offline_payload, offline_url, offline_panel, offline_comment,
}

module _ (machine : Machine) (args : BindArgs) where
  -- An offline bind that went well: the fields of the public key are installed, and what is
  -- published is read back as the seed with what goes with it.
  pub record Published (public : Text) (seed : Bytes) (w w' : World) : Type 0 where
    pub key_type : Text
    pub key_b64 : Text
    pub rest : List Text
    pub fields : split_whitespace public ≡ key_type ∷ key_b64 ∷ rest
    pub outcome : AddOutcome
    pub stored :
        ensure_line machine.faults key_type key_b64 (offline_comment machine args) w.disk
        ≡ (done outcome, w'.disk)
    pub said : List Printed
    pub published :
        w'
        ≡ publish machine args
            (offline_url machine args seed)
            (offline_panel machine args)
            (show said (record w { disk = w'.disk }))
    pub read_back :
        from_url machine.base64 (offline_url machine args seed)
        ≡ some (normal (offline_payload machine args seed))
