-- ===== src/Fix/Injector.antt =====
-- crates/adapters/src/fix/injector.rs, and of crates/adapters/src/fix/proxy.rs the proxy that it
-- owns: its record, `start`, `stop` and the thread that accepts connections. Sockets and threads
-- belong to the host, which is a parameter.
pub mod Cycle
pub mod Restart
mod Tests
use blackswan_harness.Prelude.{
  ℕ, suc, Bool, true, false, if◌then◌else◌, Text, codes, ◌++◌, Outcome, ok, err, panic, ◌>>=◌, List,
  [], ◌∷◌, ◌≡◌, ◌≢◌, refl, Bool-cases, inl, inr,
}
use blackswan_harness.Core.Error.{HarnessError, arm_failed}
use blackswan_harness.Core.Fault.{FaultContext, FaultInjector, IsFaultInjector}

-- What the proxy asks of the host: binding an address (the error is its text), starting the accept
-- thread on the listener, and waiting for that thread's end.
pub record Host (W : Type 0) : Type 0 where
  pub bind : Text → W → Outcome Text (Unit {0}) × W
  pub spawn : W → W
  pub join : W → W

-- `FixProxy`; `running` says whether `handle` holds a thread. `enabled` and `shutdown` are shared with
-- that thread.
pub record FixProxy : Type 0 where
  pub listen_addr : Text
  pub upstream_addr : Text
  pub enabled : Bool
  pub running : Bool
  pub shutdown : Bool

unfoldable pub new_proxy : Text → Text → FixProxy
new_proxy listen_addr upstream_addr = record {
  listen_addr = listen_addr;
  upstream_addr = upstream_addr;
  enabled = false;
  running = false;
  shutdown = false;
}

-- `format!("binding {}: {e}", …)`.
pub binding_failed : Text → Text → HarnessError
binding_failed addr e =
    arm_failed (codes "fix-proxy") (codes "binding " ++ (addr ++ (codes ": " ++ e)))

-- What the accept thread sees in one round: a connection, with whether the upstream could be dialled,
-- no connection yet, or an error.
pub data AcceptResult : Type 0 where
  accepted : Bool → AcceptResult
  would_block failed : AcceptResult

-- The accept thread over its rounds, each with the value that its load of `shutdown` finds: how many
-- sessions it has run.
pub accept_loop : List (Bool × AcceptResult) → ℕ
accept_loop [] = 0
accept_loop ((true, answer) ∷ rounds) = 0
accept_loop ((false, accepted true) ∷ rounds) = suc (accept_loop rounds)
accept_loop ((false, accepted false) ∷ rounds) = accept_loop rounds
accept_loop ((false, would_block) ∷ rounds) = accept_loop rounds
accept_loop ((false, failed) ∷ rounds) = 0

pub record FixFaultInjector : Type 0 where
  pub id : Text
  pub proxy : FixProxy
  pub armed : Bool

unfoldable pub new : Text → Text → Text → FixFaultInjector
unfolding new_proxy
new id listen_addr upstream_addr = record {
  id = id;
  proxy = new_proxy listen_addr upstream_addr;
  armed = false;
}

module _ {W : Type 0} (host : Host W) where
  unfoldable pub start : FixProxy → W → Outcome HarnessError (Unit {0}) × FixProxy × W
  start p w =
      let (bound, w') = host.bind p.listen_addr w in
      if p.running then (ok tt, p, w) else elim bound [
        | ok _ ↦ (ok tt, record p { running = true }, host.spawn w')
        | err e ↦ (err (binding_failed p.listen_addr e), p, w')
        | panic ↦ (panic, p, w')
      ]

  unfoldable pub stop : FixProxy → W → FixProxy × W
  stop p w =
      let told = record p { shutdown = true } in
      if p.running then (record told { running = false }, host.join w) else (told, w)

  unfoldable pub arm :
      FaultContext → FixFaultInjector → W → Outcome HarnessError (Unit {0}) × FixFaultInjector × W
  arm ctx i w =
      let (started, p, w') = start i.proxy w in
      elim started [
        | ok _ ↦ (ok tt, record i { proxy = record p { enabled = true }; armed = true }, w')
        | err e ↦ (err e, record i { proxy = p }, w')
        | panic ↦ (panic, record i { proxy = p }, w')
      ]

  unfoldable pub disarm :
      FixFaultInjector → W → Outcome HarnessError (Unit {0}) × FixFaultInjector × W
  disarm i w = (ok tt, record i { proxy = record i.proxy { enabled = false }; armed = false }, w)

  unfoldable pub fix_fault_injector : FaultInjector W FixFaultInjector
  fix_fault_injector = record {
    id = λ i. i.id;
    arm = arm;
    disarm = disarm;
    is_armed = λ i. i.armed;
  }
