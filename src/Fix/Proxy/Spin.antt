-- ===== src/Fix/Proxy/Spin.antt =====
-- A release build relays an endless run of empty messages where the length of a message wraps to 0.
use blackswan_harness.Prelude.{
  ℕ, zero, suc, ◌+◌, ◌%◌, Bool, true, false, Bool-cases, Bytes, some, [], ok, panic, Outcome-cases,
  ◌≡◌, ◌≢◌, refl, ap, ◌∙◌, inl, inr, arith,
}
use blackswan_harness.Prelude.Decimal.{parse_decimal}
use blackswan_harness.Core.Adapter.{
  Direction, InterceptAction, forward, discard, mutate, delay, ProtocolAdapter,
}
use blackswan_harness.Fix.Fields.{soh}
use blackswan_harness.Prelude.Scan.{Lacks}
use blackswan_harness.Fix.Framing.{find_complete_message, usize_mod, checksum_trailer_len}
use blackswan_harness.Fix.Framing.Shape.{tagged, counted, header_len}
use blackswan_harness.Fix.Framing.Faults.{find_complete_message-overflows}
use blackswan_harness.Fix.Proxy.{
  Sink, waiting, spinning, Relay, decide, perform, relay_message, drain, unwrap_or_forward,
}

module _ {A D : Type 0} (ops : ProtocolAdapter A) (sink : Sink D) (direction : Direction)
    (enabled : ℕ → Bool) (good : (s : Bytes) (d : D) → (sink.write_all s d).0 ≡ true)
    (calm : (a : A)
      → (ops.intercept (record { bytes = []; direction = direction }) a).0 ≢ panic) where
  perform-good :
      (action : InterceptAction) (m : Bytes) (d : D)
      → (perform false ops sink direction enabled action m d).0 ≡ true
  unfolding perform
  perform-good forward m d = good m d
  perform-good discard m d = refl
  perform-good (mutate bytes) m d = good bytes d
  perform-good (delay ns) m d = good m (sink.sleep ns d)

  relay_message-empty :
      (r : Relay A D) → (relay_message false ops sink direction enabled [] r).0 ≡ waiting
  unfolding relay_message decide unwrap_or_forward
  relay_message-empty r = elim (Bool-cases (enabled r.loads)) [
    | inr off ↦ rw (off, relay_message, decide, off, perform-good forward [] r.dst) refl
    | inl on ↦
        elim (Outcome-cases
          (ops.intercept (record { bytes = []; direction = direction }) r.adapter).0) [
            | inl (action, e) ↦
                rw (on, relay_message, e, decide, on, perform-good action [] r.dst) refl
            | inr (inl (x, e)) ↦
                rw (on, relay_message, e, decide, on, perform-good forward [] r.dst) refl
            | inr (inr e) ↦ absurd (calm r.adapter e)
          ]
  ]

  drain_zero :
      (f : ℕ) (buf : Bytes) (r : Relay A D)
      → find_complete_message false buf ≡ ok (some 0)
      → (drain false ops sink direction enabled f buf r).0 ≡ spinning
  unfolding drain
  drain_zero zero buf r e = refl
  drain_zero (suc f) buf r e =
      let sent = relay_message false ops sink direction enabled [] r in
      rw (e, drain, relay_message-empty r) (drain_zero f buf sent.1 e)

  -- Without overflow checks, a declared length that brings the length of the whole message to exactly
  -- 2 ^ 64 keeps the relay's loop over its buffer busy for ever, whatever fuel it is given and whether
  -- the proxy is enabled or not: the message found has no bytes, and none is taken from the buffer.
  -- It is assumed that every write succeeds and that the adapter does not panic on an empty message.
  pub drain-spins :
      (f : ℕ) (begin digits tail : Bytes) (n : ℕ) (r : Relay A D)
      → Lacks soh begin
      → Lacks soh digits
      → parse_decimal usize_mod digits ≡ some n
      → header_len begin digits + n + checksum_trailer_len ≡ usize_mod
      → (drain false ops sink direction enabled f (tagged begin (counted digits tail)) r).0
        ≡ spinning
  drain-spins f begin digits tail n r hb hd e full =
      let wraps : (header_len begin digits + n + checksum_trailer_len) % usize_mod ≡ 0 =
        omega (arith, full) in
      let found =
        (find_complete_message-overflows begin digits tail n hb hd e (omega (arith, full))
          (omega (arith, wraps))).1 in
      drain_zero f (tagged begin (counted digits tail)) r (found ∙ ap (λ m. ok (some m)) wraps)
