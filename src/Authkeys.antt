-- ===== src/Authkeys.antt =====
-- src/authkeys.rs: reading and rewriting authorized_keys. Every error is passed on, and so is what
-- was done to the disk before it.
pub mod Disk
pub mod Line
pub mod Replace
pub mod Path
pub mod Parse
pub mod Lines
pub mod Enroll
pub mod LineText
pub mod Kept
pub mod Revoke
pub mod Store
pub mod Refines
pub mod History
pub mod RoundTrip
mod Tests
use mpx_cli.Prelude.{
  Bool, true, false, not, ◌&&◌, Option, none, some, List, [], ◌∷◌, ◌++◌, equal, if◌then◌else◌,
}
use mpx_cli.Text.Utf8.{Text}
use mpx_cli.Text.Fields.{is_empty}
use mpx_cli.Text.Lines.{lines, ends_with_newline}
use Disk.{
  Node, Faults, Outcome, done, failed, IoError, not_found, Fs, pure, ◌>>=◌, ◌>>◌, read_to_string,
  write_atomically,
}
use Line.{MarkedKey, KeyLine, parse_line, marked_key}

pub data AddOutcome : Type 0 where
  added : AddOutcome
  already_present : Text → AddOutcome

-- A file that is not there is empty; any other failure stays one.
abbrev pub or_empty : Outcome Text → Outcome Text
or_empty (done s) = done s
or_empty (failed not_found) = done []
or_empty (failed e) = failed e

-- `read_existing`
unfoldable pub read_existing : Faults → Node → Outcome Text
unfolding read_to_string
read_existing faults target = or_empty (read_to_string faults target)

-- `..filter_map(..).collect()` of `marked_keys`.
unfoldable pub marked_lines : List Text → List MarkedKey
marked_lines [] = []
marked_lines (l ∷ ls) = elim (marked_key l) [
  | none ↦ marked_lines ls
  | some k ↦ k ∷ marked_lines ls
]

abbrev pub map_outcome : {A B : Type 0} → (A → B) → Outcome A → Outcome B
map_outcome f (done a) = done (f a)
map_outcome f (failed e) = failed e

-- `marked_keys`
unfoldable pub marked_keys : Faults → Node → Outcome (List MarkedKey)
unfolding read_existing
marked_keys faults target = map_outcome (λ s. marked_lines (lines s)) (read_existing faults target)

abbrev pub has_key : Text → KeyLine → Bool
has_key key_b64 k = equal k.key_b64 key_b64

-- The loop of `ensure_line`: the comment of the first line that holds the key.
unfoldable pub find_key : Text → List Text → Option Text
find_key key_b64 [] = none
find_key key_b64 (l ∷ ls) = elim (parse_line l) [
  | none ↦ find_key key_b64 ls
  | some k ↦ if has_key key_b64 k then some k.comment else find_key key_b64 ls
]

-- The line feed that the last line may lack.
unfoldable pub terminated : Text → Text
unfolding ends_with_newline
terminated s = if not (is_empty s) && not (ends_with_newline s) then s ++ (b'\n' ∷ []) else s

-- `format!("{key_type} {key_b64} {comment}\n")`, without the line feed.
unfoldable pub entry : Text → Text → Text → Text
entry key_type key_b64 comment = key_type ++ (b' ' ∷ (key_b64 ++ (b' ' ∷ comment)))

abbrev pub updated : Text → Text → Text
updated content line = terminated content ++ (line ++ (b'\n' ∷ []))

-- The kept lines of `remove_marked`, each with a line feed.
unfoldable pub kept_text : (MarkedKey → Bool) → List Text → Text
kept_text filter [] = []
kept_text filter (l ∷ ls) =
    let rest = kept_text filter ls in
    let kept = l ++ (b'\n' ∷ rest) in
    elim (marked_key l) [ none ↦ kept | some k ↦ if filter k then rest else kept ]

-- The keys that `remove_marked` takes out.
unfoldable pub removed_keys : (MarkedKey → Bool) → List Text → List MarkedKey
removed_keys filter [] = []
removed_keys filter (l ∷ ls) =
    let rest = removed_keys filter ls in
    elim (marked_key l) [ none ↦ rest | some k ↦ if filter k then k ∷ rest else rest ]

module _ (faults : Faults) where
  abbrev pub reading : Fs Text
  reading d = (read_existing faults d.target, d)

  pub append_key : Text → Text → Option Text → Fs AddOutcome
  append_key content line (some comment) = pure (already_present comment)
  append_key content line none = do write_atomically faults (updated content line); pure added

  -- `ensure_line`
  unfoldable pub ensure_line : Text → Text → Text → Fs AddOutcome
  unfolding append_key
  ensure_line key_type key_b64 comment = do
    content ← reading
    append_key content (entry key_type key_b64 comment) (find_key key_b64 (lines content))

  rewrite_kept : Text → List MarkedKey → Fs (List MarkedKey)
  rewrite_kept kept [] = pure []
  rewrite_kept kept (k ∷ removed) = do write_atomically faults kept; pure (k ∷ removed)

  -- `remove_marked`
  unfoldable pub remove_marked : (MarkedKey → Bool) → Fs (List MarkedKey)
  unfolding rewrite_kept
  remove_marked filter = do
    content ← reading
    rewrite_kept (kept_text filter (lines content)) (removed_keys filter (lines content))
