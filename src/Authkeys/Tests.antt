-- ===== src/Authkeys/Tests.antt =====
-- The theorems on authorized_keys at a file whose last line has no line feed.
use mpx_cli.Prelude.{
  ◌≡◌, refl, true, none, some, [], ◌∷◌, ◌++◌, map, inr, ◌⊎◌, arith, equal, List, All,
}
use mpx_cli.Text.Utf8.{Text, as_bytes, from_utf8}
use mpx_cli.Text.Codes.{codes}
use mpx_cli.Text.Lines.{lines}
use mpx_cli.Text.Fields.{is_whitespace}
use mpx_cli.Text.Words.{IsWord}
use mpx_cli.Authkeys.Disk.{
  Disk, Faults, other, done, failed, absent, file, symlink, write_atomically,
}
use mpx_cli.Authkeys.Line.{MarkedKey, is_key_type, parse_line, marked_key}
use mpx_cli.Authkeys.Parse.{IsKeyType, IsOptions, parse_line-entry, parse_line-options}
use mpx_cli.Authkeys.Parse
use mpx_cli.Authkeys.Replace.{
  no_faults, Replaced, write_atomically-Replaced, write_atomically_failed,
  write_atomically-no_faults,
}
use mpx_cli.Authkeys.Enroll.{
  Holds, IsEntry, ensure_line_added, ensure_line_twice, ensure_line-no_faults,
}
use mpx_cli.Authkeys.Kept.{rows, seen, keys_in, taken, left}
use mpx_cli.Authkeys.Revoke.{remove_marked_lem}
use mpx_cli.Authkeys.RoundTrip.{
  marker, enrolled, has_id, marked_keys-ensure_line, remove_marked-ensure_line,
}
use mpx_cli.Authkeys.Store.{Request, enroll, revoke, IsRequest, replay}
use mpx_cli.Authkeys.Refines.{requests, Refined, replay-Refined}
use mpx_cli.Authkeys.History.{foreign, IsMarked, IsDistinct, foreign-replay, IsDistinct-replay}
use mpx_cli.Authkeys.{
  added, already_present, find_key, terminated, entry, updated, ensure_line, append_key,
  read_existing, remove_marked, removed_keys, marked_keys,
}

abbrev key_type : Text
key_type = codes "ssh-rsa"

abbrev id : Text
id = codes "a1"

abbrev device : Text
device = codes "pi"

abbrev comment : Text
comment = marker id device

abbrev key_b64 : Text
key_b64 = codes "BB"

key_type-IsKeyType : IsKeyType key_type
unfolding is_key_type is_whitespace
key_type-IsKeyType = record {
  word = record { ink = ground arith; ne_nil = λ e. cc e };
  plain = ground arith;
  known = refl;
}

key_b64-IsWord : IsWord key_b64
unfolding is_whitespace
key_b64-IsWord = record { ink = ground arith; ne_nil = λ e. cc e }

comment-IsWord : IsWord comment
unfolding is_whitespace
comment-IsWord = record { ink = ground arith; ne_nil = λ e. cc e }

new_line-IsEntry : IsEntry key_type key_b64 comment
unfolding entry
new_line-IsEntry = record {
  key_type = key_type-IsKeyType;
  key_b64 = key_b64-IsWord;
  comment = comment-IsWord;
  line = ground arith;
  chars = ground arith;
}

-- An old key, without a line feed behind it.
abbrev old : Text
old = codes "ssh-rsa A me"

abbrev before : Disk
before = record { dir = some 0o755; target = file (as_bytes old) 0o644; scratch = absent }

before-Holds : Holds before old
before-Holds = record { chars = ground arith; node = inr (0o644, refl) }

abbrev after : Disk
after = (ensure_line no_faults key_type key_b64 comment before).1

bound : ensure_line no_faults key_type key_b64 comment before ≡ (done added, after)
unfolding ensure_line append_key read_existing find_key lines parse_line entry from_utf8 as_bytes
    is_whitespace equal write_atomically
bound = refl

ensure_line_added_example :
    (find_key key_b64 (lines old) ≡ none)
    × Holds after (updated old (entry key_type key_b64 comment))
    × (map parse_line (lines (updated old (entry key_type key_b64 comment)))
        ≡ map parse_line (lines old)
          ++ some (record { key_type = key_type; key_b64 = key_b64; comment = comment }) ∷ [])
ensure_line_added_example =
    ensure_line_added no_faults before key_type key_b64 comment old refl before-Holds
      new_line-IsEntry bound

ensure_line_twice_example :
    ensure_line no_faults key_type key_b64 (codes "x") after
    ≡ (done (already_present comment), after)
ensure_line_twice_example =
    ensure_line_twice no_faults no_faults before old key_type key_b64 comment key_type (codes "x")
      refl refl before-Holds new_line-IsEntry bound

ensure_line-no_faults_example :
    ((c' : Text) × (find_key key_b64 (lines old) ≡ some c')
      × (ensure_line no_faults key_type key_b64 comment before
          ≡ (done (already_present c'), before)))
    ⊎ ((d' : Disk) × (ensure_line no_faults key_type key_b64 comment before ≡ (done added, d')))
ensure_line-no_faults_example =
    ensure_line-no_faults before old key_type key_b64 comment before-Holds

-- The disk on which a rename fails.
abbrev rename_fails : Faults
rename_fails = record no_faults { rename = true }

abbrev kept_disk : Disk
kept_disk = record before { dir = some 0o755 }

failing : ensure_line rename_fails key_type key_b64 comment before ≡ (failed other, kept_disk)
unfolding ensure_line append_key read_existing find_key lines parse_line entry from_utf8 as_bytes
    is_whitespace equal write_atomically
failing = refl

marked_keys-ensure_line_example :
    marked_keys no_faults after.target
    ≡ done (keys_in (seen old) ++ enrolled key_type key_b64 id device ∷ [])
marked_keys-ensure_line_example =
    marked_keys-ensure_line no_faults no_faults before old key_type key_b64 id device refl refl
      before-Holds new_line-IsEntry (refl, (refl, tt)) bound

abbrev revoked : Disk
revoked = (remove_marked no_faults (has_id id) after).1

none_before : taken (has_id id) (seen old) ≡ []
unfolding lines marked_key parse_line is_whitespace equal
none_before = refl

abbrev the_key : MarkedKey
the_key = enrolled key_type key_b64 id device

revoking : remove_marked no_faults (has_id id) after ≡ (done (the_key ∷ []), revoked)
unfolding remove_marked ensure_line append_key read_existing find_key lines parse_line marked_key
    entry from_utf8 as_bytes is_whitespace equal write_atomically terminated removed_keys
revoking = refl

remove_marked-ensure_line_example :
    (the_key ∷ [] ≡ the_key ∷ []) × ((s' : Text) × Holds revoked s' × (seen s' ≡ seen old))
remove_marked-ensure_line_example =
    remove_marked-ensure_line no_faults no_faults before old key_type key_b64 id device refl refl
      before-Holds new_line-IsEntry (refl, (refl, tt)) bound none_before revoking

abbrev with_key : Text
with_key = updated old (entry key_type key_b64 comment)

after-Holds : Holds after with_key
after-Holds =
    (ensure_line_added no_faults before key_type key_b64 comment old refl before-Holds
      new_line-IsEntry bound).1

remove_marked_lem_example :
    (the_key ∷ [] ≡ taken (has_id id) (seen with_key))
    × ((s' : Text) × Holds revoked s' × (seen s' ≡ left (has_id id) (seen with_key)))
remove_marked_lem_example =
    remove_marked_lem no_faults (has_id id) after with_key refl after-Holds revoking

not_revoking : remove_marked rename_fails (has_id id) after ≡ (failed other, after)
unfolding remove_marked ensure_line append_key read_existing find_key lines parse_line marked_key
    entry from_utf8 as_bytes is_whitespace equal write_atomically terminated removed_keys
not_revoking = refl

-- `e="a b"`
abbrev options : Text
options = codes "e=\"a b\""

options-IsOptions : IsOptions options
unfolding is_key_type is_whitespace
options-IsOptions = record {
  quoting =
      Parse.Quoting.plain _ (refl, refl)
        (Parse.Quoting.plain _ (refl, refl)
          (Parse.Quoting.opening _ refl (
            Parse.Quoting.inside _ refl refl (
              Parse.Quoting.inside _ refl refl (
                Parse.Quoting.inside _ refl refl
                  (Parse.Quoting.closing _ refl Parse.Quoting.done))))));
  no_key = refl;
  no_comment = refl;
  inked = refl;
}

parse_line-options_example :
    parse_line (options ++ (b' ' ∷ entry key_type key_b64 comment))
    ≡ some (record { key_type = key_type; key_b64 = key_b64; comment = comment })
parse_line-options_example =
    parse_line-options options key_type key_b64 comment options-IsOptions key_type-IsKeyType
      key_b64-IsWord comment-IsWord

-- A scratch path that someone has put a link at, in a missing directory.
abbrev planted : Disk
planted = record { dir = none; target = absent; scratch = symlink (codes "/etc/passwd") }

write_atomically-no_faults_example :
    write_atomically no_faults old planted
    ≡ (done tt, record { dir = some 0o700; target = file (as_bytes old) 0o600; scratch = absent })
write_atomically-no_faults_example = write_atomically-no_faults old planted

write_atomically-Replaced_example :
    Replaced old planted
      (record { dir = some 0o700; target = file (as_bytes old) 0o600; scratch = absent })
write_atomically-Replaced_example =
    write_atomically-Replaced no_faults old planted (write_atomically-no_faults old planted)

abbrev sync_fails : Faults
sync_fails = record no_faults { sync = true }

abbrev cleaned_up : Disk
cleaned_up = (write_atomically sync_fails old before).1

not_written : write_atomically sync_fails old before ≡ (failed other, cleaned_up)
unfolding write_atomically
not_written = refl

write_atomically_failed_example :
    (cleaned_up.target ≡ before.target)
    × ((sync_fails.remove ≡ true)
        ⊎ (cleaned_up.scratch ≡ absent)
        ⊎ ((before.dir ≡ none) × (cleaned_up.scratch ≡ before.scratch)))
write_atomically_failed_example = write_atomically_failed sync_fails old before not_written

-- A bind whose rename fails, the bind again, and the revocation.
abbrev history : List (Faults × Request)
history =
    (rename_fails, enroll key_type key_b64 comment)
    ∷ (no_faults, enroll key_type key_b64 comment)
    ∷ (no_faults, revoke (has_id id))
    ∷ []

history-IsRequest : All IsRequest (requests history)
history-IsRequest = (new_line-IsEntry, (new_line-IsEntry, (tt, tt)))

history-IsMarked : All IsMarked (requests history)
unfolding mpx_cli.Text.Codes.strip_prefix
history-IsMarked = (refl, (refl, (tt, tt)))

old-IsDistinct : IsDistinct (rows old)
unfolding lines parse_line is_whitespace equal
old-IsDistinct = (refl, tt)

replay-Refined_example : Refined old (requests history) (replay history before)
replay-Refined_example = replay-Refined history before old before-Holds history-IsRequest

foreign-replay_example :
    (s' : Text) × Holds (replay history before).1 s' × (foreign (rows s') ≡ foreign (rows old))
foreign-replay_example =
    foreign-replay history before old before-Holds history-IsRequest history-IsMarked

IsDistinct-replay_example : (s' : Text) × Holds (replay history before).1 s' × IsDistinct (rows s')
IsDistinct-replay_example =
    IsDistinct-replay history before old before-Holds history-IsRequest old-IsDistinct
