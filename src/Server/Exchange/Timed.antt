-- ===== src/Server/Exchange/Timed.antt =====
-- How long the steps of a handshake take: reads end at a deadline, writes take what they take.
use mpx_cli.Prelude.{
  ℕ, ◌+◌, ◌≤◌, ◌≡◌, refl, ◌∙◌, Bool, true, false, Option, none, some, List, [], ◌∷◌, arith,
  if◌then◌else◌,
}
use Prim.Native.Nat.{max}
use mpx_cli.Frame.Io.{Result, ok, err, panic, FrameError, Io, pure, fail, lift, follow, ◌>>=◌}
use mpx_cli.Server.Conn.{Conn}
use mpx_cli.Server.Exchange.{required}

-- The time that the coming writes take together.
abbrev pub total : List (Bool × ℕ) → ℕ
total [] = 0
total ((good, time) ∷ ws) = time + total ws

-- A step that reads until `limit` at most.
pub record Timed (limit : ℕ) (c c' : Conn) : Type 0 where
  pub later : c.now ≤ c'.now
  pub writes : total c'.writes ≤ total c.writes
  pub bound : c'.now + total c'.writes ≤ max limit c.now + total c.writes
  pub answer_time : c'.answer_time ≡ c.answer_time

module _ (limit : ℕ) where
  pub Timed-refl : (c : Conn) → Timed limit c c
  Timed-refl c = record {
    later = omega arith;
    writes = omega arith;
    bound = omega arith;
    answer_time = refl;
  }

  pub Timed-trans : {c d e : Conn} → Timed limit c d → Timed limit d e → Timed limit c e
  Timed-trans p q = record {
    later = omega (arith, p.later, q.later);
    writes = omega (arith, p.writes, q.writes);
    bound = omega (arith, p.bound, q.bound, p.writes);
    answer_time = q.answer_time ∙ p.answer_time;
  }

  pub record Quick {ℓ} {A : Type ℓ} (m : Io Conn A) : Type ℓ where
    pub at : (c : Conn) → Timed limit c (m c).1

  module _ {ℓ} {A : Type ℓ} where
    pub Quick-pure : (a : A) → Quick (pure {S = Conn} a)
    Quick-pure a = record { at = λ c. Timed-refl c }

    pub Quick-lift : (r : Result A) → Quick (lift {S = Conn} r)
    Quick-lift r = record { at = λ c. Timed-refl c }

    pub Quick-fail : (e : FrameError) → Quick (fail {S = Conn} {A = A} e)
    Quick-fail e = record { at = λ c. Timed-refl c }

    pub Quick-required : (o : Option A) → Quick (required o)
    Quick-required none = record { at = λ c. Timed-refl c }
    Quick-required (some a) = record { at = λ c. Timed-refl c }

    pub Quick-if : (b : Bool) (m n : Io Conn A) → Quick m → Quick n → Quick (if b then m else n)
    Quick-if true m n p q = p
    Quick-if false m n p q = q

  module _ {ℓ κ} {A : Type ℓ} {B : Type κ} where
    Quick-follow : (r : Result A) (f : A → Io Conn B) → ((a : A) → Quick (f a)) → Quick (follow r f)
    Quick-follow (ok a) f h = record { at = λ c. (h a).at c }
    Quick-follow (err e) f h = record { at = λ c. Timed-refl c }
    Quick-follow panic f h = record { at = λ c. Timed-refl c }

    pub Quick-bind :
        (m : Io Conn A) (f : A → Io Conn B) → Quick m → ((a : A) → Quick (f a)) → Quick (m >>= f)
    Quick-bind m f p h = record {
      at = λ c. Timed-trans (p.at c) ((Quick-follow (m c).0 f h).at (m c).1);
    }

pub ruleset quick_rules = (Quick-pure, Quick-fail, Quick-lift, Quick-required, Quick-if, Quick-bind)
