-- ===== src/Hostinfo/Keys.antt =====
-- `machine_name`, `host_key_fingerprints` and `ed25519_host_key_digest`, over a directory as it is
-- read and the SSH key crate.
use mpx_cli.Prelude.{
  ℕ, zero, suc, ◌-◌, Bool, true, false, ◌&&◌, Option, none, some, List, [], ◌∷◌, ◌++◌, leb, ltb,
  ◌==◌, if◌then◌else◌, length, drop, take, equal, Bytes, ◌>>=◌,
}
use mpx_cli.Text.Utf8.{Text}
use mpx_cli.Text.Codes.{codes, starts_with, contains}
use mpx_cli.Text.Fields.{trim}

unfoldable pub ends_with : Text → Text → Bool
ends_with p s = leb (length p) (length s) && equal (drop (length s - length p) s) p

-- `trim_end_matches`, which takes the suffix away at most `n` times. One that is not empty can be
-- taken away no more often than there are characters.
unfoldable pub trim_end_times : ℕ → Text → Text → Text
unfolding ends_with
trim_end_times zero p s = s
trim_end_times (suc n) p s =
    let rest = trim_end_times n p (take (length s - length p) s) in
    if ends_with p s then rest else s

abbrev or_host : Text → Text
or_host [] = codes "host"
or_host (c ∷ s) = c ∷ s

-- `machine_name`, of what `hostname::get` returned, if that is text.
unfoldable pub machine_name : Option Text → Text
unfolding trim_end_times
machine_name none = codes "host"
machine_name (some name) = or_host (trim_end_times (length name) (codes ".local") name)

-- The SSH key crate.
pub record Keys : Type 1 where
  pub PublicKey : Type 0
  pub from_openssh : Text → Option PublicKey
  pub algorithm : PublicKey → Text
  -- `SHA256:` and the digest in base64.
  pub shown_fingerprint : PublicKey → Text
  pub digest : PublicKey → Bytes

-- A directory: the entries that can be read, by their file names if these are text, and what
-- `read_to_string` returns for a name.
pub record Directory : Type 0 where
  pub entries : Option (List (Option Text))
  pub read_to_string : Text → Option Text

abbrev pub is_host_key : Text → Bool
is_host_key n = starts_with (codes "ssh_host_") n && ends_with (codes "_key.pub") n

-- The paths of the directory that pass the filter, by their names.
unfoldable pub host_keys : List (Option Text) → List Text
host_keys [] = []
host_keys (none ∷ ns) = host_keys ns
host_keys (some n ∷ ns) = let rest = host_keys ns in if is_host_key n then n ∷ rest else rest

-- `sort`: by the bytes of the names, which is by their code points.
unfoldable pub before : Text → Text → Bool
before [] t = true
before (c ∷ s) [] = false
before (c ∷ s) (d ∷ t) = let rest = before s t in if c == d then rest else ltb c d

unfoldable pub put_in : Text → List Text → List Text
unfolding before
put_in n [] = n ∷ []
put_in n (m ∷ ms) = let rest = put_in n ms in if before n m then n ∷ m ∷ ms else m ∷ rest

unfoldable pub sorted : List Text → List Text
unfolding put_in
sorted [] = []
sorted (n ∷ ns) = put_in n (sorted ns)

module _ (keys : Keys) where
  abbrev pub is_ed25519 : keys.PublicKey → Bool
  is_ed25519 key = contains (codes "ed25519") (keys.algorithm key)

  abbrev pub shown_key : keys.PublicKey → Text
  shown_key key = keys.algorithm key ++ (codes " " ++ keys.shown_fingerprint key)

  -- `insert(0, ..)` and `push`.
  abbrev pub add_fingerprint : List Text → keys.PublicKey → List Text
  add_fingerprint fingerprints key =
      if is_ed25519 key then shown_key key ∷ fingerprints else fingerprints ++ shown_key key ∷ []

  abbrev pub parsed_key : Directory → Text → Option keys.PublicKey
  parsed_key dir n = dir.read_to_string n >>= λ content. keys.from_openssh (trim content)

  -- The loop over the sorted names.
  unfoldable pub add_all : Directory → List Text → List Text → List Text
  add_all dir fingerprints [] = fingerprints
  add_all dir fingerprints (n ∷ ns) = elim (parsed_key dir n) [
    | none ↦ add_all dir fingerprints ns
    | some key ↦ add_all dir (add_fingerprint fingerprints key) ns
  ]

  abbrev listed : Directory → Option (List (Option Text)) → List Text
  listed dir none = []
  listed dir (some entries) = add_all dir [] (sorted (host_keys entries))

  unfoldable pub host_key_fingerprints : Directory → List Text
  host_key_fingerprints dir = listed dir dir.entries

  -- `try_into::<[u8; 32]>().ok()`
  abbrev pub only_32 : Bytes → Option Bytes
  only_32 bs = if length bs == 32 then some bs else none

  unfoldable pub ed25519_host_key_digest : Directory → Option Bytes
  ed25519_host_key_digest dir =
      parsed_key dir (codes "ssh_host_ed25519_key.pub") >>= λ key. only_32 (keys.digest key)
