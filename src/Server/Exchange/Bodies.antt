-- ===== src/Server/Exchange/Bodies.antt =====
-- What `exchange` of src/server.rs can send, and that sending it does not panic.
use mpx_cli.Prelude.{◌^◌, ◌≤◌, ◌<◌, ◌≡◌, true, false, ◌++◌, length, Bytes}
use mpx_cli.Text.Utf8.{Text}
use mpx_cli.Text.Codes.{codes}
use mpx_cli.Frame.Io.{Result, ok, err, panic, Io}
use mpx_cli.Frame.Channel.{nonce, seal_s2c}
use mpx_cli.Frame.Value.{Value}
use mpx_cli.Authkeys.Disk.{Faults, Node, Disk, IoError, done}
use mpx_cli.Authkeys.{already_present, ensure_line}
use mpx_cli.Server.Conn.{Crates, Conn}
use mpx_cli.Server.Exchange
use mpx_cli.Server.Exchange.Fine.{IsValue, Fine, Fine-pure, Fine-bind, Fine-write_to}

module _ (crates : Crates) (config : Exchange.SessionConfig) where
  -- What a connection can send while authorized_keys is `target`.
  pub data IsBody (target : Node) : Value → Type 0 where
    offered : IsBody target (Exchange.offer_body crates config)
    refused :
        (message : Text)
        → length message ≤ 64
        → IsBody target (Exchange.done_body crates config false message)
    unwritten :
        (e : IoError)
        → IsBody target (
            Exchange.done_body crates config false
              (codes "could not write authorized_keys: " ++ crates.error_text e))
    acknowledged :
        (device : Text)
        → IsBody target
            (Exchange.done_body crates config true (Exchange.comment_for crates config device))
    known :
        (faults : Faults) (d : Disk) (t k comment existing : Text)
        → d.target ≡ target
        → (ensure_line faults t k comment d).0 ≡ done (already_present existing)
        → IsBody target (Exchange.done_body crates config true existing)

  -- Each of these is sealed in a frame whose length a `u32` holds.
  abbrev pub Fits : Node → Type 0
  Fits target =
      (v : Value)
      → IsBody target v
      → (key n : Bytes) → length (crates.ciphers.encrypt key n (crates.cbor.to_bytes v)) < 2 ^ 32

module _ (crates : Crates) (config : Exchange.SessionConfig) (b : Conn)
    (fits : Fits crates config b.disk.target) where
  -- `d` is the connection that a step compares with, which is `b` until the key is stored.
  module _ (d : Conn) where
    pub Fine-send :
        (v : Value) → IsBody crates config b.disk.target v → Fine d (Exchange.send crates config v)
    unfolding Exchange.send seal_s2c
    Fine-send v p = record {
      at = λ c l. (Fine-write_to d _ (fits v p c.channel.s2c (nonce c.channel.seq_s2c))).at _ l;
    }

    ignore-Fine : (m : Io Conn (Unit {0})) → Fine d m → Fine d (Exchange.ignore m)
    ignore-Fine m p = record { at = λ c l. let (v, k) = p.at c l in (dropped-IsValue (m c).0 v, k) }
      where
        dropped-IsValue : (r : Result (Unit {0})) → IsValue r → IsValue (Exchange.dropped r)
        dropped-IsValue (ok u) v = tt
        dropped-IsValue (err e) v = tt
        dropped-IsValue panic v = v

    is_ok-Fine : (m : Io Conn (Unit {0})) → Fine d m → Fine d (Exchange.is_ok m)
    is_ok-Fine m p = record {
      at = λ c l. let (v, k) = p.at c l in (succeeded-IsValue (m c).0 v, k);
    }
      where
        succeeded-IsValue : (r : Result (Unit {0})) → IsValue r → IsValue (Exchange.succeeded r)
        succeeded-IsValue (ok u) v = tt
        succeeded-IsValue (err e) v = tt
        succeeded-IsValue panic v = v

    pub Fine-refuse {ℓ} :
        {A : Type ℓ} (message : Text) (result : A)
        → IsBody crates config b.disk.target (Exchange.done_body crates config false message)
        → Fine d (Exchange.refuse crates config message result)
    unfolding Exchange.refuse Exchange.send_done
    Fine-refuse message result p =
        Fine-bind d _ _ (ignore-Fine _ (Fine-send _ p)) (λ u. Fine-pure d result)

    pub Fine-acknowledge :
        (device comment : Text)
        → IsBody crates config b.disk.target (Exchange.done_body crates config true comment)
        → Fine d (Exchange.acknowledge crates config device comment)
    unfolding Exchange.acknowledge Exchange.send_done
    Fine-acknowledge device comment p =
        Fine-bind d _ _ (is_ok-Fine _ (Fine-send _ p)) (λ good. Fine-pure d _)
