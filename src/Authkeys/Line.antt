-- ===== src/Authkeys/Line.antt =====
-- One line of authorized_keys: `parse_line`, `skip_options` and the marker in the comment.
use mpx_cli.Prelude.{
  ℕ, Bool, true, false, not, ◌&&◌, ◌||◌, Option, none, some, List, [], ◌∷◌, ◌==◌, if◌then◌else◌,
  ◌>>=◌,
}
use mpx_cli.Text.Utf8.{Text}
use mpx_cli.Text.Codes.{codes, strip_prefix, starts_with}
use mpx_cli.Text.Fields.{is_whitespace, trim, trim_start, split_whitespace, join}

-- `MARKER_PREFIX`
abbrev pub marker_prefix : Text
marker_prefix = codes "multiplex:bind:"

pub record MarkedKey : Type 0 where
  pub id : Text
  pub device : Text
  pub key_type : Text
  pub line : Text

-- The three parts of a key line.
pub record KeyLine : Type 0 where
  pub key_type : Text
  pub key_b64 : Text
  pub comment : Text

unfoldable pub is_key_type : Text → Bool
is_key_type field =
    starts_with (codes "ssh-") field
    || starts_with (codes "ecdsa-") field
    || starts_with (codes "sk-") field

abbrev pub push_first : ℕ → Option (Text × Text) → Option (Text × Text)
push_first c none = none
push_first c (some (field, rest)) = some (c ∷ field, rest)

-- The loop of `skip_options`: the text before the first unquoted space, and what begins there.
unfoldable pub first_field : Bool → Bool → Text → Option (Text × Text)
first_field quoted escaped [] = none
first_field quoted escaped (c ∷ s) =
    let quote = not escaped && c == b'"' in
    let rest =
      first_field (if quote then not quoted else quoted) (not escaped && (c == b'\\' && quoted))
        s in
    if not escaped && (is_whitespace c && not quoted) then some ([], c ∷ s) else push_first c rest

abbrev pub skipped : Text → Option (Text × Text) → Text
skipped line none = line
skipped line (some (field, rest)) = if is_key_type field then line else trim_start rest

unfoldable pub skip_options : Text → Text
unfolding first_field is_key_type trim_start
skip_options line = skipped line (first_field false false line)

abbrev pub key_line : List Text → Option KeyLine
key_line [] = none
key_line (t ∷ []) = none
key_line (t ∷ k ∷ words) = some (record { key_type = t; key_b64 = k; comment = join words })

abbrev pub is_comment : Text → Bool
is_comment [] = true
is_comment (c ∷ s) = c == b'#'

unfoldable pub parse_line : Text → Option KeyLine
unfolding skip_options trim split_whitespace join
parse_line line =
    let trimmed = trim line in
    if is_comment trimmed then none else key_line (split_whitespace (skip_options trimmed))

-- `splitn(2, ':')`
unfoldable pub split_colon : Text → Text × Text
split_colon [] = ([], [])
split_colon (c ∷ s) =
    let rest = split_colon s in if c == b':' then ([], s) else (c ∷ rest.0, rest.1)

abbrev pub marked_of : Text → KeyLine → Option MarkedKey
marked_of trimmed k = do
  rest ← strip_prefix marker_prefix k.comment
  some (record {
    id = (split_colon rest).0;
    device = (split_colon rest).1;
    key_type = k.key_type;
    line = trimmed;
  })

-- The closure of `marked_keys` and of `remove_marked`.
unfoldable pub marked_key : Text → Option MarkedKey
unfolding parse_line split_colon strip_prefix trim
marked_key line = do k ← parse_line line; marked_of (trim line) k
