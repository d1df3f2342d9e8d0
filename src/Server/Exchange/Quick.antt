-- ===== src/Server/Exchange/Quick.antt =====
-- The steps of a handshake that the operator takes no part in, with the time that they take.
use mpx_cli.Prelude.{
  ℕ, ◌-◌, ◌≤◌, length, leb, ap, ◌≡◌, refl, Bool, true, false, List, [], ◌∷◌, arith, Bytes,
}
use Prim.Native.Nat.{max}
use mpx_cli.Text.Utf8.{Text}
use mpx_cli.Text.Fields.{split_whitespace}
use mpx_cli.Authkeys.Disk.{Outcome, done, failed}
use mpx_cli.Authkeys.{AddOutcome, added, already_present}
use mpx_cli.Frame.Io.{Io, read_frame, write_frame, read_body}
use mpx_cli.Frame.Channel.{Channel, seal_s2c}
use mpx_cli.Frame.Value.{Value}
use mpx_cli.Server.Conn.{
  Crates, Conn, Segment, segment_bytes, receive, read_exact, read_by, write_step, write_all,
  write_to, phase_deadline,
}
use mpx_cli.Server.Exchange.{
  SessionConfig, ignore, is_ok, decode, open_frame, send, send_done, done_body, refuse, authorize,
  expired, set_channel, key_fields, store_key, comment_for, acknowledge, after_store, enroll_key,
  last_check, answered,
}
use mpx_cli.Server.Exchange.Timed.{
  total, Timed, Timed-refl, Timed-trans, Quick, Quick-pure, Quick-fail, Quick-required, Quick-bind,
  quick_rules,
}

-- A read ends at its deadline, or at once where the deadline has passed.
receive-time :
    (deadline : ℕ) (closed : Bool) (n now : ℕ) (segments : List Segment)
    → let t = (receive deadline closed n now segments).1 in (now ≤ t) × (t ≤ max deadline now)
unfolding receive
receive-time deadline closed n now [] = ground arith
receive-time deadline closed n now (s ∷ rest) =
    ground
      (arith, receive-time deadline closed (n - length (segment_bytes s)) (max now s.arrives) rest)

module _ (limit : ℕ) where
  Quick-read_exact : (deadline n : ℕ) → deadline ≤ limit → Quick limit (read_exact deadline n)
  unfolding read_exact
  Quick-read_exact deadline n h = record {
    at = λ c.
        let (later, bound) = receive-time deadline c.closed n c.now c.inbound in
        record {
          later = later;
          writes = omega arith;
          bound = omega (arith, bound, h);
          answer_time = refl;
        };
  }

  pub Quick-read_by : (deadline : ℕ) → deadline ≤ limit → Quick limit (read_by deadline)
  unfolding read_by read_frame read_body
  Quick-read_by deadline h = search (quick_rules, λ (n : ℕ). Quick-read_exact deadline n h)

  Quick-write_all : (bs : Bytes) → Quick limit (write_all bs)
  unfolding write_all write_step
  Quick-write_all bs = record { at = λ c. step c c.writes refl }
    where
      step :
          (c : Conn) (ws : List (Bool × ℕ)) → ws ≡ c.writes → Timed limit c (write_step bs ws c).1
      step c [] e = record {
        later = omega arith;
        writes = omega arith;
        bound = omega arith;
        answer_time = refl;
      }
      step c ((true, time) ∷ ws) e = record {
        later = omega arith;
        writes = omega (arith, ap total e);
        bound = omega (arith, ap total e);
        answer_time = refl;
      }
      step c ((false, time) ∷ ws) e = record {
        later = omega arith;
        writes = omega (arith, ap total e);
        bound = omega (arith, ap total e);
        answer_time = refl;
      }

  Quick-write_to : (frame : Bytes) → Quick limit (write_to frame)
  unfolding write_to write_frame
  Quick-write_to frame = search (quick_rules, Quick-write_all)

  pub Quick-ignore : (m : Io Conn (Unit {0})) → Quick limit m → Quick limit (ignore m)
  Quick-ignore m p = record { at = λ c. p.at c }

  pub Quick-is_ok : (m : Io Conn (Unit {0})) → Quick limit m → Quick limit (is_ok m)
  Quick-is_ok m p = record { at = λ c. p.at c }

  -- A change of the other fields takes no time.
  Timed-fields :
      (c c' : Conn)
      → c'.now ≡ c.now
      → c'.writes ≡ c.writes
      → c'.answer_time ≡ c.answer_time
      → Timed limit c c'
  Timed-fields c c' n w a = record {
    later = omega (arith, n);
    writes = omega (arith, ap total w);
    bound = omega (arith, n, ap total w);
    answer_time = a;
  }

  pub Quick-phase_deadline : (expiry budget : ℕ) → Quick limit (phase_deadline expiry budget)
  unfolding phase_deadline
  Quick-phase_deadline expiry budget = record { at = λ c. Timed-refl limit c }

  module _ (crates : Crates) (config : SessionConfig) where
    pub Quick-decode : (bs : Bytes) → Quick limit (decode crates config bs)
    unfolding decode
    Quick-decode bs = search quick_rules

    pub Quick-open_frame : (sealed : Bytes) → Quick limit (open_frame crates config sealed)
    unfolding open_frame
    Quick-open_frame sealed = record { at = λ c. Timed-fields c _ refl refl refl }

    pub Quick-set_channel : (ch : Channel) → Quick limit (set_channel crates config ch)
    unfolding set_channel
    Quick-set_channel ch = record { at = λ c. Timed-fields c _ refl refl refl }

    pub Quick-send : (body : Value) → Quick limit (send crates config body)
    unfolding send
    Quick-send body = record {
      at = λ c.
          let s = seal_s2c crates.ciphers c.channel (crates.cbor.to_bytes body) in
          Timed-trans limit (Timed-fields c (record c { channel = s.1 }) refl refl refl)
            ((Quick-write_to s.0).at (record c { channel = s.1 }));
    }

    pub Quick-send_done : (good : Bool) (s : Text) → Quick limit (send_done crates config good s)
    unfolding send_done
    Quick-send_done good s = Quick-send (done_body crates config good s)

    pub Quick-refuse {ℓ} :
        {A : Type ℓ} (message : Text) (result : A)
        → Quick limit (refuse crates config message result)
    unfolding refuse
    Quick-refuse message result =
        Quick-bind limit _ _ (Quick-ignore _ (Quick-send_done false message))
          (λ u. Quick-pure limit result)

    pub Quick-authorize :
        (mode : Text) (proof epub : Bytes) (pin_retired : Bool)
        → Quick limit (authorize crates config mode proof epub pin_retired)
    unfolding authorize
    Quick-authorize mode proof epub pin_retired = search (quick_rules, Quick-refuse)

    Quick-store_key : (t k comment : Text) → Quick limit (store_key crates config t k comment)
    unfolding store_key
    Quick-store_key t k comment = record { at = λ c. Timed-fields c _ refl refl refl }

    Quick-key_fields : (words : List Text) → Quick limit (key_fields crates config words)
    unfolding key_fields
    Quick-key_fields [] = Quick-fail limit _
    Quick-key_fields (t ∷ []) = Quick-fail limit _
    Quick-key_fields (t ∷ k ∷ rest) = Quick-pure limit _

    Quick-acknowledge :
        (device comment : Text) → Quick limit (acknowledge crates config device comment)
    unfolding acknowledge
    Quick-acknowledge device comment =
        Quick-bind limit _ _ (Quick-is_ok _ (Quick-send_done true comment))
          (λ a. Quick-pure limit _)

    Quick-after_store :
        (device comment : Text) (o : Outcome AddOutcome)
        → Quick limit (after_store crates config device comment o)
    unfolding after_store
    Quick-after_store device comment (done added) = Quick-acknowledge device comment
    Quick-after_store device comment (done (already_present old)) = Quick-acknowledge device old
    Quick-after_store device comment (failed e) = Quick-refuse _ _

    Quick-enroll_key :
        (device : Text) (key : crates.Key) → Quick limit (enroll_key crates config device key)
    unfolding enroll_key
    Quick-enroll_key device key =
        Quick-bind limit _ _ (Quick-required limit (crates.to_openssh key)) (λ canonical.
          Quick-bind limit _ _ (Quick-key_fields (split_whitespace canonical)) (λ fields.
            Quick-bind limit _ _
              (Quick-store_key fields.0 fields.1 (comment_for crates config device))
              (λ stored. Quick-after_store device (comment_for crates config device) stored)))

    pub Quick-answered :
        (device : Text) (key : crates.Key) (yes_no : Bool)
        → Quick limit (answered crates config device key yes_no)
    unfolding answered last_check expired
    Quick-answered device key false = Quick-refuse _ _
    Quick-answered device key true = record { at = λ c. (last (leb config.deadline c.now)).at c }
      where
        last : (late : Bool) → Quick limit (last_check crates config device key late)
        last true = Quick-refuse _ _
        last false = Quick-enroll_key device key
