-- ===== src/Frame/Value.antt =====
-- The CBOR values of the `ciborium` crate that the messages are made of, and the look-ups in them.
use mpx_cli.Prelude.{ℕ, Bool, Option, none, some, List, [], ◌∷◌, Bytes, equal, if◌then◌else◌, ◌>>=◌}
use mpx_cli.Text.Utf8.{Text}

-- `other` stands for the kinds that the code neither makes nor reads: floats, null and tags.
mutual
  pub data Value : Type 0 where
    integer : ℕ → Value
    negative : ℕ → Value
    bytes : Bytes → Value
    text : Text → Value
    bool : Bool → Value
    array : Items → Value
    map : Entries → Value
    other : ℕ → Value

  pub data Items : Type 0 where
    nil : Items
    cons : Value → Items → Items

  pub data Entries : Type 0 where
    end : Entries
    entry : Value → Value → Entries → Entries

-- `encode` and `decode`, which are the crate's `into_writer` and `from_reader`.
pub record Cbor : Type 0 where
  pub to_bytes : Value → Bytes
  pub from_bytes : Bytes → Option Value

-- The test of `find_map` on one key.
abbrev is_key : Value → Text → Bool
is_key (text t) key = equal t key
is_key _ key = Bool.false

unfoldable pub find : Entries → Text → Option Value
find end key = none
find (entry k v rest) key = if is_key k key then some v else find rest key

-- `map_get`
unfoldable pub map_get : Value → Text → Option Value
unfolding find
map_get (map entries) key = find entries key
map_get _ key = none

abbrev as_text : Value → Option Text
as_text (text t) = some t
as_text _ = none

abbrev as_bytes : Value → Option Bytes
as_bytes (bytes b) = some b
as_bytes _ = none

-- `get_text`
unfoldable pub get_text : Value → Text → Option Text
unfolding map_get
get_text value key = do v ← map_get value key; as_text v

-- `get_bytes`
unfoldable pub get_bytes : Value → Text → Option Bytes
unfolding map_get
get_bytes value key = do v ← map_get value key; as_bytes v

-- The items of a list of texts, as the OFFER carries them.
unfoldable pub text_items : List Text → Items
text_items [] = nil
text_items (t ∷ ts) = cons (text t) (text_items ts)
