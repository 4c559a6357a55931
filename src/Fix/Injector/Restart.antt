-- ===== src/Fix/Injector/Restart.antt =====
-- A proxy that has been stopped.
use blackswan_harness.Prelude.{
  Bool, true, false, Bool-cases, Outcome-cases, List, [], ◌∷◌, ◌≡◌, refl, inl, inr, All,
}
use blackswan_harness.Fix.Injector.{Host, FixProxy, AcceptResult, accept_loop, start, stop}

told_to_stop :
    (rounds : List (Bool × AcceptResult))
    → All (λ round. round.0 ≡ true) rounds
    → accept_loop rounds ≡ 0
unfolding accept_loop
told_to_stop [] h = refl
told_to_stop ((true, answer) ∷ rounds) h = refl
told_to_stop ((false, answer) ∷ rounds) h = cc h.0

module _ {W : Type 0} (host : Host W) where
  start-shutdown : (p : FixProxy) (w : W) → (start host p w).1.shutdown ≡ p.shutdown
  unfolding start
  start-shutdown p w = elim (Bool-cases p.running) [
    | inl e ↦ rw (e, start) refl
    | inr e ↦ elim (Outcome-cases (host.bind p.listen_addr w).0) [
      | inl (_, k) ↦ rw (e, k, start) refl
      | inr (inl (_, k)) ↦ rw (e, k, start) refl
      | inr (inr k) ↦ rw (e, k, start) refl
    ]
  ]

  stop-shutdown : (p : FixProxy) (w : W) → (stop host p w).0.shutdown ≡ true
  unfolding stop
  stop-shutdown p w = elim (Bool-cases p.running) [
    | inl e ↦ rw (e, stop) refl
    | inr e ↦ rw (e, stop) refl
  ]

  -- A proxy that is started after a stop serves no session: whatever its accept thread would see, if
  -- the thread's loads of `shutdown` find what `start` has left there, it ends at once.
  pub restarted-serves_none :
      (p : FixProxy) (w : W) (rounds : List (Bool × AcceptResult))
      → (let (stopped, w') = stop host p w in
          All
            (λ (round : Bool × AcceptResult). round.0 ≡ (start host stopped w').1.shutdown)
            rounds)
      → accept_loop rounds ≡ 0
  restarted-serves_none p w rounds h =
      let (stopped, w') = stop host p w in
      told_to_stop rounds (rw (start-shutdown stopped w', stop-shutdown p w) at h)
