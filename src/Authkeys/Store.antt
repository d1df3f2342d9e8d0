-- ===== src/Authkeys/Store.antt =====
-- authorized_keys as a store of rows: what enrolling and revoking promise, with no text and no disk.
use mpx_cli.Prelude.{◌≡◌, Bool, Option, none, some, List, [], ◌∷◌, ◌++◌, map}
use mpx_cli.Text.Utf8.{Text}
use mpx_cli.Authkeys.Disk.{Disk, Faults, IoError, Outcome, done, failed}
use mpx_cli.Authkeys.Line.{MarkedKey, KeyLine}
use mpx_cli.Authkeys.Kept.{Row, seen_row, taken, left_rows}
use mpx_cli.Authkeys.Enroll.{IsEntry, find_in}
use mpx_cli.Authkeys.{AddOutcome, added, already_present, entry, ensure_line, remove_marked}

pub data Request : Type 0 where
  enroll : Text → Text → Text → Request
  revoke : (MarkedKey → Bool) → Request

pub data Reply : Type 0 where
  enrolled : AddOutcome → Reply
  revoked : List MarkedKey → Reply
  refused : IoError → Reply

-- A key that mpx enrolls is well-formed.
abbrev pub IsRequest : Request → Type 0
IsRequest (enroll t k c) = IsEntry t k c
IsRequest (revoke f) = Unit

abbrev pub parsed : Row → Option KeyLine
parsed r = r.1

abbrev pub new_row : Text → Text → Text → Row
new_row t k c = (entry t k c, some (record { key_type = t; key_b64 = k; comment = c }))

-- A key goes behind the rows, unless a row holds it.
abbrev pub put_key : Row → Option Text → List Row → Reply × List Row
put_key new (some comment) rs = (enrolled (already_present comment), rs)
put_key new none rs = (enrolled added, rs ++ new ∷ [])

-- The promise: what a request answers, and the rows behind it.
abbrev pub serve : Request → List Row → Reply × List Row
serve (enroll t k c) rs = put_key (new_row t k c) (find_in k (map parsed rs)) rs
serve (revoke f) rs = (revoked (taken f (map seen_row rs)), left_rows f rs)

-- A session of the store: each request is answered as promised, or refused with nothing changed.
pub data Session : List Row → List Request → List Reply → List Row → Type 0 where
  end : (rs : List Row) → Session rs [] [] rs
  served :
      {rs rs' rs'' : List Row} (q : Request) (r : Reply) {qs : List Request} {ps : List Reply}
      → serve q rs ≡ (r, rs')
      → Session rs' qs ps rs''
      → Session rs (q ∷ qs) (r ∷ ps) rs''
  turned_down :
      {rs rs'' : List Row} (q : Request) (e : IoError) {qs : List Request} {ps : List Reply}
      → Session rs qs ps rs''
      → Session rs (q ∷ qs) (refused e ∷ ps) rs''

-- The same requests on the disk, each with the calls that fail under it.
abbrev pub enroll_reply : Outcome AddOutcome → Reply
enroll_reply (done o) = enrolled o
enroll_reply (failed e) = refused e

abbrev pub revoke_reply : Outcome (List MarkedKey) → Reply
revoke_reply (done ks) = revoked ks
revoke_reply (failed e) = refused e

abbrev pub call : Faults → Request → Disk → Reply × Disk
call faults (enroll t k c) d = let (r, d') = ensure_line faults t k c d in (enroll_reply r, d')
call faults (revoke f) d = let (r, d') = remove_marked faults f d in (revoke_reply r, d')

unfoldable pub replay : List (Faults × Request) → Disk → List Reply × Disk
replay [] d = ([], d)
replay ((faults, q) ∷ qs) d =
    let (r, d') = call faults q d in let (rs, d'') = replay qs d' in (r ∷ rs, d'')
