-- ===== src/Fix/Proxy/Session.antt =====
-- crates/adapters/src/fix/proxy.rs, `run_session`: the two threads of a session, as a step
-- relation. The halves of a session share the adapter and nothing else that they change; each goes
-- through its loop on its own, and a step of one thread is a read with the test of `shutdown`
-- before it, or one message. Its load of `enabled` finds what it finds. What a thread does with one
-- message is one step, since of it only the call of the adapter touches what is shared, and
-- adapters change no more than an atomic. Cloning the streams and joining the threads are not
-- modelled.
pub mod Alone
pub mod OneWay
pub mod Relayed
mod Tests
use blackswan_harness.Prelude.{
  ℕ, Bool, true, false, Bytes, Option, none, some, take, drop, Outcome, ok, err, panic, [], ◌++◌,
  ◌≡◌, ◌⊎◌,
}
use blackswan_harness.Core.Adapter.{Direction, inbound, outbound, ProtocolAdapter}
use blackswan_harness.Fix.Message.{ParseError}
use blackswan_harness.Fix.Framing.{find_complete_message}
use blackswan_harness.Fix.Proxy.{
  ReadResult, closed, timed_out, failed, got, Sink, End, waiting, returned, died, Relay,
  relay_message,
}

-- What a thread has of its own: its buffer, the stream that it writes to, and whether it goes on.
pub record Half (D : Type 0) : Type 0 where
  pub buf : Bytes
  pub dst : D
  pub end : End

-- The threads as they are started.
unfoldable pub opened : {D : Type 0} → D → Half D
opened dst = record { buf = []; dst = dst; end = waiting }

-- Behind a round's test of `shutdown` and its read.
unfoldable pub woken : {D : Type 0} → Bool × ReadResult → Half D → Half D
woken (true, read) h = record h { end = returned }
woken (false, closed) h = record h { end = returned }
woken (false, failed) h = record h { end = returned }
woken (false, timed_out) h = h
woken (false, got chunk) h = record h { buf = h.buf ++ chunk }

module _ {A D : Type 0} (checks : Bool) (ops : ProtocolAdapter A) (sink : Sink D)
    (direction : Direction) where
  -- Behind a message of so many bytes.
  unfoldable pub handled : Bool → ℕ → A → Half D → A × Half D
  handled on len a h =
      let (end, r) =
        relay_message checks ops sink direction (λ n. on) (take len h.buf)
          (record { adapter = a; dst = h.dst; loads = 0 }) in
      (r.adapter, record { buf = drop len h.buf; dst = r.dst; end = end })

  -- One step of a thread, on the adapter and its half.
  pub data Move : A → Half D → A → Half D → Type 0 where
    reads :
        {a : A} {h : Half D} (round : Bool × ReadResult)
        → h.end ≡ waiting
        → (find_complete_message checks h.buf ≡ ok none)
          ⊎ ((e : ParseError) × (find_complete_message checks h.buf ≡ err e))
        → Move a h a (woken round h)
    handles :
        {a : A} {h : Half D} (on : Bool) (len : ℕ)
        → h.end ≡ waiting
        → find_complete_message checks h.buf ≡ ok (some len)
        → Move a h (handled on len a h).0 (handled on len a h).1
    panics :
        {a : A} {h : Half D}
        → h.end ≡ waiting
        → find_complete_message checks h.buf ≡ panic
        → Move a h a (record h { end = died })

  -- Steps of a thread with nothing else going on.
  pub data Moves (a : A) (h : Half D) : A → Half D → Type 0 where
    still : Moves a h a h
    then_moves :
        {a' a'' : A} {h' h'' : Half D} → Moves a h a' h' → Move a' h' a'' h'' → Moves a h a'' h''

pub record Session (A D : Type 0) : Type 0 where
  pub adapter : A
  pub to_upstream : Half D
  pub to_client : Half D

-- Any interleaving of the two threads.
pub data Steps {A D : Type 0} (checks : Bool) (ops : ProtocolAdapter A) (sink : Sink D)
    (s : Session A D) : Session A D → Type 0 where
  started : Steps checks ops sink s s
  outbound_moves :
      {a a' : A} {o o' i : Half D}
      → Steps checks ops sink s (record { adapter = a; to_upstream = o; to_client = i })
      → Move checks ops sink outbound a o a' o'
      → Steps checks ops sink s (record { adapter = a'; to_upstream = o'; to_client = i })
  inbound_moves :
      {a a' : A} {o i i' : Half D}
      → Steps checks ops sink s (record { adapter = a; to_upstream = o; to_client = i })
      → Move checks ops sink inbound a i a' i'
      → Steps checks ops sink s (record { adapter = a'; to_upstream = o; to_client = i' })
