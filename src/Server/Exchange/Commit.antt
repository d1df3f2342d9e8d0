-- ===== src/Server/Exchange/Commit.antt =====
-- The steps of `exchange` from the key that the peer sent to the end, judged.
use mpx_cli.Prelude.{
  ℕ, ◌<◌, ◌≡◌, refl, ap₂, sym, ◌∙◌, Bool, true, false, not, Option, none, some, List, [], ◌∷◌,
  if◌then◌else◌, leb, leb-false,
}
use mpx_cli.Text.Utf8.{Text}
use mpx_cli.Text.Codes.{codes}
use mpx_cli.Text.Fields.{split_whitespace}
use mpx_cli.Frame.Io.{Result, ok, err, panic, Io, follow, ◌>>=◌}
use mpx_cli.Authkeys.Disk.{Disk, Outcome, done, failed}
use mpx_cli.Authkeys.{AddOutcome, added, already_present, ensure_line}
use mpx_cli.Authkeys.Enroll.{ensure_line_failed}
use mpx_cli.Server.Conn.{Crates, Conn, phase_deadline}
use mpx_cli.Server.Exchange.Quiet.{Same, Same-trans, Quiet}
use mpx_cli.Server.Exchange.Verdict.{
  Commit, Verdict, refuse-Verdict, acknowledge-Verdict, comment_of, target-Same,
}
use mpx_cli.Server.Exchange.Heard.{until, Request, after_answer}
use mpx_cli.Server.Exchange

module _ (crates : Crates) (config : Exchange.SessionConfig) (ret : Bool) where
  -- The verdict on a step from `b` whose last part runs from `d`.
  abbrev pub Judged : Conn → Io Conn Exchange.ConnectionResult → Conn → Type 0
  Judged b m d = Verdict crates config ret b (m d).0 (m d).1

  -- The first half of a step leaves the file alone, so an error there does.
  pub Judged-bind {ℓ} :
      {A : Type ℓ} (b d : Conn) (m : Io Conn A) (f : A → Io Conn Exchange.ConnectionResult)
      → Same b d
      → Quiet m
      → ((a : A) → (m d).0 ≡ ok a → Same b (m d).1 → Judged b (f a) (m d).1)
      → Judged b (m >>= f) d
  Judged-bind {A} b d m f s q h = go (m d).0 refl (Same-trans s (q.at d))
    where
      go :
          (r : Result A)
          → (m d).0 ≡ r
          → Same b (m d).1
          → Verdict crates config ret b (follow r f (m d).1).0 (follow r f (m d).1).1
      go (ok a) p t = h a p t
      go (err x) p t = target-Same t
      go panic p t = tt

  pub Judged-required {ℓ} :
      {A : Type ℓ} (b d : Conn) (o : Option A) (f : A → Io Conn Exchange.ConnectionResult)
      → d.disk.target ≡ b.disk.target
      → ((a : A) → o ≡ some a → Judged b (f a) d)
      → Judged b (Exchange.required o >>= f) d
  Judged-required b d none f s h = s
  Judged-required b d (some a) f s h = h a refl

  pub Judged-deadline :
      (b d : Conn) (budget : ℕ) (f : ℕ → Io Conn Exchange.ConnectionResult)
      → Judged b (f (until crates config d budget)) d
      → Judged b (phase_deadline config.deadline budget >>= f) d
  unfolding phase_deadline
  Judged-deadline b d budget f j = j

  refused :
      (b d : Conn) (message : Text) (result : Exchange.ConnectionResult)
      → d.disk.target ≡ b.disk.target
      → ((e : Conn) → e.disk.target ≡ b.disk.target → Verdict crates config ret b (ok result) e)
      → Judged b (Exchange.refuse crates config message result) d
  refused b d message result = refuse-Verdict crates config ret b d message result

  -- The steps of a connection from `b` whose peer asks at `e` for a key.
  module _ (device : Text) (key : crates.Key) (b e : Conn)
      (request : Request crates config ret b device key e) (same : Same b e)
      (ed25519 : Exchange.contains (codes "ed25519") (crates.algorithm key) ≡ true) where
    -- The state after the operator's answer.
    abbrev d : Conn
    d = after_answer crates config device e

    abbrev comment : Text
    comment = Exchange.comment_for crates config device

    disk-Same : d.disk.target ≡ b.disk.target
    disk-Same = target-Same same

    module _ (asked_in_time : e.now < config.deadline) (answer : b.answer ≡ true)
        (in_time : d.now < config.deadline) where
      store-Judged :
          (canonical t k : Text) (rest : List Text)
          → crates.to_openssh key ≡ some canonical
          → split_whitespace canonical ≡ t ∷ k ∷ rest
          → Judged b
              (Exchange.store_key crates config t k comment >>= λ o.
                Exchange.after_store crates config device comment o)
              d
      unfolding Exchange.store_key Exchange.after_store
      store-Judged canonical t k rest printed fields =
          go (ensure_line e.faults t k comment e.disk).0 (ensure_line e.faults t k comment e.disk).1
            refl
        where
          committed :
              (o : AddOutcome) (x : Disk) (good : Bool) (c' : Conn)
              → ensure_line e.faults t k comment e.disk ≡ (done o, x)
              → c'.disk ≡ x
              → Exchange.is_ok
                  (Exchange.send_done crates config true (comment_of o comment))
                  (record d { disk = x })
                ≡ (ok good, c')
              → Commit crates config ret device (comment_of o comment) good b c'
          committed o x good c' stored kept told = record {
            key = key;
            asking = e;
            request = request;
            ed25519 = ed25519;
            asked_in_time = asked_in_time;
            answer = answer;
            asked = same.asked;
            in_time = in_time;
            canonical = canonical;
            printed = printed;
            key_type = t;
            key_b64 = k;
            rest = rest;
            fields = fields;
            outcome = o;
            disk = x;
            stored =
                ap₂ (λ faults disk. ensure_line faults t k comment disk) (sym same.faults)
                  (sym same.disk)
                ∙ stored;
            reported = refl;
            told = told;
            kept = kept;
          }

          go :
              (o : Outcome AddOutcome) (x : Disk)
              → ensure_line e.faults t k comment e.disk ≡ (o, x)
              → Judged b
                  (Exchange.after_store crates config device comment o)
                  (record d { disk = x })
          go (done added) x stored =
              acknowledge-Verdict crates config ret b _ device comment
                (λ good c' kept. committed added x good c' stored kept)
          go (done (already_present existing)) x stored =
              acknowledge-Verdict crates config ret b _ device existing
                (λ good c' kept. committed (already_present existing) x good c' stored kept)
          go (failed y) x stored =
              refused b _ _ Exchange.ignored
                (ensure_line_failed e.faults e.disk t k comment stored ∙ disk-Same) (λ c p. p)

      fields-Judged :
          (canonical : Text) (fields : List Text)
          → crates.to_openssh key ≡ some canonical
          → split_whitespace canonical ≡ fields
          → Judged b
              (Exchange.key_fields crates config fields >>= λ f.
                Exchange.store_key crates config f.0 f.1 comment >>= λ o.
                Exchange.after_store crates config device comment o)
              d
      unfolding Exchange.key_fields
      fields-Judged canonical [] printed words = disk-Same
      fields-Judged canonical (t ∷ []) printed words = disk-Same
      fields-Judged canonical (t ∷ k ∷ rest) printed words =
          store-Judged canonical t k rest printed words

      enroll_key-Judged : Judged b (Exchange.enroll_key crates config device key) d
      unfolding Exchange.enroll_key
      enroll_key-Judged =
          Judged-required b d (crates.to_openssh key) _ disk-Same
            (λ canonical printed. fields-Judged canonical (split_whitespace canonical) printed refl)

    last_check-Judged :
        (late : Bool)
        → (late ≡ false → d.now < config.deadline)
        → e.now < config.deadline
        → b.answer ≡ true
        → Judged b (Exchange.last_check crates config device key late) d
    unfolding Exchange.last_check
    last_check-Judged true in_time asked_in_time answer =
        refused b d _ Exchange.ignored disk-Same (λ c p. p)
    last_check-Judged false in_time asked_in_time answer =
        enroll_key-Judged asked_in_time answer (in_time refl)

    answered-Judged :
        (yes_no : Bool)
        → e.now < config.deadline
        → b.answer ≡ yes_no
        → Judged b (Exchange.answered crates config device key yes_no) d
    unfolding Exchange.answered Exchange.expired
    answered-Judged false asked_in_time answer =
        refused b d _ Exchange.declined disk-Same (λ c p. (p, answer, request.credential))
    answered-Judged true asked_in_time answer =
        last_check-Judged (leb config.deadline d.now) (leb-false config.deadline d.now)
          asked_in_time answer

    first_check-Judged :
        (late : Bool)
        → (late ≡ false → e.now < config.deadline)
        → Judged b (Exchange.first_check crates config device key late) e
    unfolding Exchange.first_check Exchange.confirm
    first_check-Judged true in_time = refused b e _ Exchange.ignored (target-Same same) (λ c p. p)
    first_check-Judged false in_time = answered-Judged e.answer (in_time refl) (sym same.answer)

  pub accept_key-Judged :
      (device : Text) (key : Option crates.Key) (b e : Conn)
      → Same b e
      → ((k : crates.Key) → key ≡ some k → Request crates config ret b device k e)
      → Judged b (Exchange.accept_key crates config device key) e
  unfolding Exchange.accept_key Exchange.expired
  accept_key-Judged device none b e s request =
      refused b e _ Exchange.ignored (target-Same s) (λ c p. p)
  accept_key-Judged device (some key) b e s request =
      go (Exchange.contains (codes "ed25519") (crates.algorithm key)) refl
    where
      go :
          (ed25519 : Bool)
          → Exchange.contains (codes "ed25519") (crates.algorithm key) ≡ ed25519
          → Judged b
              (if not ed25519
                then Exchange.refuse crates config
                    (codes "only ed25519 keys are accepted")
                    Exchange.ignored
                else (Exchange.expired crates config >>= λ late.
                    Exchange.first_check crates config device key late))
              e
      go false p = refused b e _ Exchange.ignored (target-Same s) (λ c p. p)
      go true p =
          first_check-Judged device key b e (request key refl) s p (leb config.deadline e.now)
            (leb-false config.deadline e.now)
