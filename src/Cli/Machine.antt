-- ===== src/Cli/Machine.antt =====
-- What `bind` is run on: its arguments, the machine's answers, and the operator at the terminal.
use mpx_cli.Prelude.{
  ℕ, ◌%◌, Bool, false, ◌&&◌, ◌||◌, Option, none, some, List, [], ◌∷◌, ◌++◌, map, ◌==◌,
  if◌then◌else◌, equal, unwrap_or, length, Bytes, ◌>>=◌, from_be_bytes, ◌⊎◌,
}
use mpx_cli.Text.Utf8.{Text}
use mpx_cli.Text.Codes.{codes}
use mpx_cli.Text.Fields.{join}
use mpx_cli.Util.Console.{Env, var, is_set, Console, Printed, warn, padded}
use mpx_cli.Util.Hex.{hex, hex_decode}
use mpx_cli.Authkeys.Disk.{Faults}
use mpx_cli.Authkeys.Path.{default_path}
use mpx_cli.Payload.{IpAddr}
use mpx_cli.Payload.Url.{Base64}
use mpx_cli.Hostinfo.{local_addrs}
use mpx_cli.Hostinfo.Keys.{Keys, Directory, machine_name, host_key_fingerprints}
use mpx_cli.Clip
use mpx_cli.Qr.{QrCrate}
use mpx_cli.Announce.{Daemon}
use mpx_cli.Server.Conn.{Crates}
use mpx_cli.Cli.{confirm_line}

pub record BindArgs : Type 0 where
  pub offline : Bool
  pub no_qr : Bool
  pub copy : Bool
  pub no_announce : Bool
  pub yes : Bool
  pub name : Option Text
  pub user : Option Text
  pub ssh_port : ℕ
  pub addrs : List Text
  pub expires : ℕ
  pub listen_port : ℕ
  -- The path as it is displayed.
  pub authorized_keys : Option Text
  pub hostkeys_dir : Text

-- `TcpListener::bind` and the port of its `local_addr`.
pub data Listening : Type 0 where
  unavailable : Text → Listening
  listening : Option ℕ → Listening
  -- It listens, but it cannot be made non-blocking.
  blocking : Option ℕ → Listening

-- What the SSH key crate generates: the public key's text and the seed, where they are to be had.
pub record Generated : Type 0 where
  pub to_openssh : Text ⊎ Text
  pub seed : Option Bytes

pub record Machine : Type 1 where
  pub crates : Crates
  pub keys : Keys
  pub base64 : Base64
  pub qr : QrCrate
  pub clip : Clip.System
  pub daemon : Daemon
  pub is_terminal : Bool
  pub hostname : Option Text
  pub interfaces : Option (List IpAddr)
  pub show_addr : IpAddr → Text
  pub parse_addr : Text → Option IpAddr
  pub directory : Text → Directory
  -- The variable HOME, as it is displayed.
  pub home : Option Text
  pub public_key : Bytes → Bytes
  -- What the random number generator gives to each of its uses.
  pub random_secret : Bytes
  pub random_token : Bytes
  pub random_pin : Bytes
  pub random_id : Bytes
  pub generate : Text ⊎ Generated
  pub listen : ℕ → Listening
  pub clock : ℕ
  -- The calls of the offline enrollment that fail.
  pub faults : Faults

-- `/dev/tty`: whether it opens for writing and for reading, and the line that is read.
pub record Tty : Type 0 where
  pub opens_out : Bool
  pub opens_in : Bool
  pub line : Option Text

abbrev confirmed : Option Text → Bool
confirmed none = false
confirmed (some line) = confirm_line line

unfoldable pub confirm_on_tty : Tty → Bool
confirm_on_tty tty = tty.opens_out && (tty.opens_in && confirmed tty.line)

-- `spaced_digits`
unfoldable pub spaced_digits : Text → Text
spaced_digits pin = join (map (λ c. c ∷ []) pin)

-- `try_into::<[u8; N]>().ok()`
abbrev pub array_of : ℕ → Bytes → Option Bytes
array_of n bs = if length bs == n then some bs else none

-- `test_env_bytes`
unfoldable pub test_env_bytes : Env → ℕ → Text → Option Bytes
test_env_bytes env n name = do value ← var env name; bytes ← hex_decode value; array_of n bytes

-- The variables of `warn_about_test_hooks`, and what each does.
abbrev pub hooks : List (Text × Text)
hooks =
    (codes "MPX_BIND_TEST_SESSION_SEED", codes "session key is fixed, not random")
    ∷ (codes "MPX_BIND_TEST_TOKEN", codes "token is fixed, not random")
    ∷ (codes "MPX_BIND_TEST_PIN", codes "PIN is fixed, not random")
    ∷ (codes "MPX_BIND_TEST_YES", codes "enrollment skips the confirmation prompt")
    ∷ []

-- `std::env::var(var).as_deref() == Ok("1")`
abbrev is_one : Option Text → Bool
is_one none = false
is_one (some s) = equal s (codes "1")

abbrev pub skips_prompt : Env → Bool
skips_prompt env = is_one (var env (codes "MPX_BIND_TEST_YES"))

unfoldable pub is_active : Env → Text → Bool
is_active env name =
    if equal name (codes "MPX_BIND_TEST_YES") then skips_prompt env else is_set env name

unfoldable pub active : Env → List (Text × Text) → List (Text × Text)
unfolding is_active
active env [] = []
active env (hook ∷ rest) =
    let more = active env rest in if is_active env hook.0 then hook ∷ more else more

abbrev hook_warnings : Console → List (Text × Text) → List Printed
hook_warnings console [] = []
hook_warnings console (hook ∷ rest) =
    (warn console (codes "test hooks are set — this bind is NOT secure:")
      ∷ map (λ (h : Text × Text). warn console (codes "    " ++ (h.0 ++ (codes ": " ++ h.1))))
          (hook ∷ rest))
    ++ warn console (codes "    unset them before binding a machine you care about") ∷ []

unfoldable pub warn_about_test_hooks : Console → List Printed
warn_about_test_hooks console = hook_warnings console (active console.env hooks)

-- `{}` of a path and an error, as the first lines of `bind` use them.
module _ (machine : Machine) (args : BindArgs) where
  abbrev pub env : Env
  env = machine.clip.env

  abbrev pub console : Console
  console = record { is_terminal = machine.is_terminal; env = env }

  abbrev pub name_of : Text
  name_of = unwrap_or args.name (machine_name machine.hostname)

  abbrev or_var : Option Text → Text
  or_var (some user) = user
  or_var none = unwrap_or (var env (codes "USER")) (codes "root")

  abbrev pub user_of : Text
  user_of = or_var args.user

  abbrev addrs_or : List Text → List Text
  addrs_or [] = map machine.show_addr (local_addrs machine.interfaces)
  addrs_or (a ∷ addrs) = a ∷ addrs

  abbrev pub addrs_of : List Text
  addrs_of = addrs_or args.addrs

  abbrev pub hostkeys_of : List Text
  hostkeys_of = host_key_fingerprints machine.keys (machine.directory args.hostkeys_dir)

  abbrev pub path_of : Text
  path_of = unwrap_or args.authorized_keys (default_path machine.home)

  -- `random_id8`
  abbrev pub random_id8 : Text
  random_id8 = hex machine.random_id

  -- The session material.
  abbrev pub secret_of : Bytes
  secret_of =
      unwrap_or (test_env_bytes env 32 (codes "MPX_BIND_TEST_SESSION_SEED")) machine.random_secret

  abbrev pub token_of : Bytes
  token_of = unwrap_or (test_env_bytes env 16 (codes "MPX_BIND_TEST_TOKEN")) machine.random_token

  -- `{:06}` of a `u32` below a million.
  abbrev pub pin_of : Text
  pin_of =
      unwrap_or (var env (codes "MPX_BIND_TEST_PIN"))
        (padded 6 (from_be_bytes machine.random_pin % 1000000))

  abbrev pub auto_yes : Bool
  auto_yes = args.yes || skips_prompt env
