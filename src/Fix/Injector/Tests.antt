-- ===== src/Fix/Injector/Tests.antt =====
-- A host that counts the threads that it starts.
use blackswan_harness.Prelude.{ℕ, suc, Bool, true, false, codes, ok, List, [], ◌∷◌, ◌≡◌, refl, All}
use blackswan_harness.Core.Clock.{system_clock}
use blackswan_harness.Core.Fault.{FaultContext}
use blackswan_harness.Fix.Injector.{
  Host, new, AcceptResult, accepted, accept_loop, start, stop, FixFaultInjector,
}
use blackswan_harness.Fix.Injector.Cycle.{cycle, enabled-armed}
use blackswan_harness.Fix.Injector.Restart.{restarted-serves_none}

abbrev counting : Host ℕ
counting = record { bind = λ addr w. (ok tt, w); spawn = λ w. suc w; join = λ w. w }

abbrev context : FaultContext
context = record { clock = system_clock; seed = 7 }

abbrev calls : List Bool
calls = true ∷ false ∷ true ∷ true ∷ []

flags_agree :
    let i = (cycle counting context calls (new (codes "fix") (codes "a:1") (codes "b:2")) 0).0 in
    i.proxy.enabled ≡ i.armed
flags_agree = enabled-armed counting context calls (codes "fix") (codes "a:1") (codes "b:2") 0

abbrev attached : FixFaultInjector
attached = record {
  id = codes "fix";
  proxy = record {
    listen_addr = codes "a:1";
    upstream_addr = codes "b:2";
    enabled = true;
    running = true;
    shutdown = false;
  };
  armed = true;
}

abbrev visits : List (Bool × AcceptResult)
visits = (true, accepted true) ∷ (true, accepted true) ∷ []

told :
    let (stopped, w') = stop counting attached.proxy 1 in
    All (λ (round : Bool × AcceptResult). round.0 ≡ (start counting stopped w').1.shutdown) visits
unfolding stop start
told = (refl, (refl, tt))

restarted-serves_none_example : accept_loop visits ≡ 0
restarted-serves_none_example = restarted-serves_none counting attached.proxy 1 visits told
