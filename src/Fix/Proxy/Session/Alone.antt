-- ===== src/Fix/Proxy/Session/Alone.antt =====
-- What the two threads of a session have to do with each other.
use blackswan_harness.Prelude.{
  ℕ, Bool, true, false, Bytes, Option-cases, take, ◌≡◌, refl, sym, ◌∙◌, ◌⊎◌, Outcome, subst, inl,
  inr,
}
use blackswan_harness.Core.Error.{HarnessError}
use blackswan_harness.Core.Adapter.{InterceptAction, Direction, inbound, outbound, ProtocolAdapter}
use blackswan_harness.Fix.Proxy.{Sink, relay_message, decide, unwrap_or_forward}
use blackswan_harness.Fix.Proxy.Session.{
  Half, handled, Move, reads, handles, panics, Moves, still, then_moves, Session, Steps, started,
  outbound_moves, inbound_moves,
}

abbrev answer :
    {A : Type 0} → ProtocolAdapter A → Direction → Bytes → A → Outcome HarnessError InterceptAction
answer ops d bytes a = (ops.intercept (record { bytes = bytes; direction = d }) a).0

abbrev next : {A : Type 0} → ProtocolAdapter A → Direction → Bytes → A → A
next ops d bytes a = (ops.intercept (record { bytes = bytes; direction = d }) a).1

-- Inbound messages do not change the adapter, and what it answers to them does not depend on the
-- outbound ones.
pub record IsOneWay {A : Type 0} (ops : ProtocolAdapter A) : Type 0 where
  pub quiet : (bytes : Bytes) (a : A) → next ops inbound bytes a ≡ a
  pub unseen :
      (bytes sent : Bytes) (a : A)
      → answer ops inbound bytes (next ops outbound sent a) ≡ answer ops inbound bytes a

module _ {A D : Type 0} (checks : Bool) (ops : ProtocolAdapter A) (sink : Sink D) where
  -- The adapter behind a step is as it was, or as a message has left it.
  handled-adapter :
      (d : Direction) (on : Bool) (len : ℕ) (a : A) (h : Half D)
      → ((handled checks ops sink d on len a h).0 ≡ a)
        ⊎ ((handled checks ops sink d on len a h).0 ≡ next ops d (take len h.buf) a)
  unfolding handled relay_message decide
  handled-adapter d false len a h = inl refl
  handled-adapter d true len a h =
      elim (Option-cases (unwrap_or_forward (answer ops d (take len h.buf) a))) [
        | inl e ↦ inr (rw (handled, relay_message, decide, e))
        | inr (action, e) ↦ inr (rw (handled, relay_message, decide, e))
      ]

  handled-half :
      (d : Direction) (on : Bool) (len : ℕ) (a a' : A) (h : Half D)
      → answer ops d (take len h.buf) a ≡ answer ops d (take len h.buf) a'
      → (handled checks ops sink d on len a h).1 ≡ (handled checks ops sink d on len a' h).1
  unfolding handled relay_message decide
  handled-half d false len a a' h same = refl
  handled-half d true len a a' h same =
      elim (Option-cases (unwrap_or_forward (answer ops d (take len h.buf) a'))) [
        | inl e ↦ rw (handled, relay_message, decide, same, e)
        | inr (action, e) ↦ rw (handled, relay_message, decide, same, e)
      ]

  -- Two states that answer alike to every inbound message.
  abbrev Alike : A → A → Type 0
  Alike a b = (bytes : Bytes) → answer ops inbound bytes a ≡ answer ops inbound bytes b

  module _ (one_way : IsOneWay ops) where
    Alike-outbound :
        {a : A} {h : Half D} {a' : A} {h' : Half D} (b : A)
        → Move checks ops sink outbound a h a' h'
        → Alike a b
        → Alike a' b
    Alike-outbound b (reads round on none_found) alike = alike
    Alike-outbound b (panics on broken) alike = alike
    Alike-outbound {a} {h} b (handles on len going found) alike = λ bytes.
        elim (handled-adapter outbound on len a h) [
          | inl same ↦ rw same (alike bytes)
          | inr left ↦ rw left (one_way.unseen bytes (take len h.buf) a ∙ alike bytes)
        ]

    -- An inbound step is one with any state that answers alike, and leaves both as they are.
    Move-alone :
        {a : A} {h : Half D} {a' : A} {h' : Half D} (b : A)
        → Move checks ops sink inbound a h a' h'
        → Alike a b
        → (a' ≡ a) × Move checks ops sink inbound b h b h'
    Move-alone b (reads round on none_found) alike = (refl, reads round on none_found)
    Move-alone b (panics on broken) alike = (refl, panics on broken)
    Move-alone {a} {h} b (handles on len going found) alike =
        let kept : (c : A) → (handled checks ops sink inbound on len c h).0 ≡ c = λ c.
          elim (handled-adapter inbound on len c h) [
            | inl same ↦ same
            | inr left ↦ left ∙ one_way.quiet (take len h.buf) c
          ] in
        (
          kept a,
          subst
              (λ (c : A).
                Move checks ops sink inbound b h c (handled checks ops sink inbound on len a h).1)
              (kept b)
              (subst
                (λ (k : Half D).
                  Move checks ops sink inbound b h (handled checks ops sink inbound on len b h).0 k)
                (sym (handled-half inbound on len a b h (alike (take len h.buf))))
                (handles on len going found)),
        )

    session-Alike :
        (s s' : Session A D)
        → Steps checks ops sink s s'
        → Alike s'.adapter s.adapter
          × Moves checks ops sink outbound s.adapter s.to_upstream s'.adapter s'.to_upstream
          × Moves checks ops sink inbound s.adapter s.to_client s.adapter s'.to_client
    session-Alike s s' started = (λ bytes. refl, still, still)
    session-Alike s s' (outbound_moves before move) =
        let (alike, out, back) = session-Alike s _ before in
        (Alike-outbound s.adapter move alike, then_moves out move, back)
    session-Alike s s' (inbound_moves {a} {a'} {o} before move) =
        let (alike, out, back) = session-Alike s _ before in
        let (same, alone) = Move-alone s.adapter move alike in
        (
          rw same alike,
          subst (λ (c : A). Moves checks ops sink outbound s.adapter s.to_upstream c o) (sym same)
              out,
          then_moves back alone,
        )

-- Where inbound messages do not change the adapter, and its answers to them do not depend on outbound
-- ones, each thread of a session goes, in any interleaving of the two, through steps that it could
-- make with nothing else going on: the outbound one with the adapter of the session, and the
-- inbound one with the adapter as it was at the beginning.
pub session-alone :
    {A D : Type 0} (checks : Bool) (ops : ProtocolAdapter A) (sink : Sink D) (s s' : Session A D)
    → IsOneWay ops
    → Steps checks ops sink s s'
    → Moves checks ops sink outbound s.adapter s.to_upstream s'.adapter s'.to_upstream
      × Moves checks ops sink inbound s.adapter s.to_client s.adapter s'.to_client
session-alone checks ops sink s s' one_way run =
    let (_, out, back) = session-Alike checks ops sink one_way s s' run in (out, back)
