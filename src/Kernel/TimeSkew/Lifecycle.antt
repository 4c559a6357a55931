-- ===== src/Kernel/TimeSkew/Lifecycle.antt =====
-- The child of a time skew injector.
use blackswan_harness.Prelude.{
  true, false, Text, codes, ◌++◌, Outcome, ok, err, Outcome-cases, none, some, Option-cases, List,
  [], ◌∷◌, ◌≡◌, ◌⊎◌, refl, inl, inr,
}
use blackswan_harness.Core.Error.{HarnessError, disarm_failed}
use blackswan_harness.Core.Fault.{FaultContext, IsFaultInjector, IsIdempotent}
use blackswan_harness.Kernel.TimeSkew.{
  Spawn, Processes, Child, take_stdout, TimeSkewInjector, offsets_buf, arm, kill_child, end_child,
  disarm, is_armed, time_skew_injector,
}

List-cases : {A : Type 0} (l : List A) → (l ≡ []) ⊎ ((a : A) × (as' : List A) × (l ≡ a ∷ as'))
List-cases [] = inl refl
List-cases (a ∷ l) = inr (a, l, refl)

module _ {W P : Type 0} (host : Processes W P) where
  arm-contract :
      (ctx : FaultContext) (i : TimeSkewInjector P) (w : W)
      → ((arm host ctx i w).0 ≡ ok tt → is_armed host (arm host ctx i w).1 ≡ true)
        × ((arm host ctx i w).1.id ≡ i.id)
  unfolding arm is_armed
  arm-contract ctx i w = elim (Option-cases i.child) [
    | inr (child, e) ↦ rw (e, arm, is_armed, e) ((λ h. refl), refl)
    | inl e ↦ elim (List-cases i.argv) [
      | inl k ↦ rw (e, arm, k) ((λ h. cc), refl)
      | inr (program, args, k) ↦
          let command : Spawn = record {
            program = program;
            args = args;
            offsets = offsets_buf i.monotonic_offset_secs i.boottime_offset_secs;
            piped = i.capture_stdout;
          } in
          elim (Outcome-cases (host.spawn command w).0) [
            | inl (child, s) ↦ rw (e, arm, k, s) ((λ h. refl), refl)
            | inr (inl (_, s)) ↦ rw (e, arm, k, s) ((λ h. cc), refl)
            | inr (inr s) ↦ rw (e, arm, k, s) ((λ h. cc), refl)
          ]
    ]
  ]

  disarm-contract :
      (i : TimeSkewInjector P) (w : W)
      → (is_armed host (disarm host i w).1 ≡ false) × ((disarm host i w).1.id ≡ i.id)
  unfolding disarm is_armed
  disarm-contract i w = elim (Option-cases i.child) [
    | inl e ↦ rw (e, disarm, is_armed, e) (refl, refl)
    | inr (child, e) ↦ rw (e, disarm) (refl, refl)
  ]

  -- The time skew injector meets what the runner relies on (IsFaultInjector), whatever the host's
  -- calls return.
  pub time_skew_injector-IsFaultInjector : IsFaultInjector (time_skew_injector host)
  unfolding time_skew_injector
  time_skew_injector-IsFaultInjector = record {
    armed = λ ctx i w. (arm-contract ctx i w).0;
    disarmed = λ i w h. (disarm-contract i w).0;
    id-arm = λ ctx i w. (arm-contract ctx i w).1;
    id-disarm = λ i w. (disarm-contract i w).1;
  }

  arm-same :
      (ctx : FaultContext) (i j : TimeSkewInjector P) (w : W)
      → i ≡ j
      → is_armed host i ≡ true
      → (arm host ctx i w).1 ≡ j
  unfolding arm is_armed
  arm-same ctx i j w same on = elim (Option-cases i.child) [
    | inr (child, e) ↦ rw (e, arm) same
    | inl e ↦ cc (rw (e, is_armed) at on)
  ]

  disarm-same :
      (i j : TimeSkewInjector P) (w : W) → i ≡ j → is_armed host i ≡ false → (disarm host i w).1 ≡ j
  unfolding disarm is_armed
  disarm-same i j w same off = elim (Option-cases i.child) [
    | inl e ↦ rw (e, disarm) same
    | inr (child, e) ↦ cc (rw (e, is_armed) at off)
  ]

  pub time_skew_injector-IsIdempotent : IsIdempotent (time_skew_injector host)
  unfolding time_skew_injector
  time_skew_injector-IsIdempotent = record {
    rearmed = λ ctx ctx' i w w' h.
        arm-same ctx' (arm host ctx i w).1 (arm host ctx i w).1 w' refl
          ((arm-contract ctx i w).0 h);
    redisarmed = λ i w w' h.
        disarm-same (disarm host i w).1 (disarm host i w).1 w' refl (disarm-contract i w).0;
  }

  kill_child-fails :
      (id why : Text) (child : P) (w w' : W)
      → host.kill child w ≡ (err why, w')
      → kill_child host id child w
        ≡ (err (disarm_failed id (codes "killing skewed process: " ++ why)), w')
  unfolding kill_child
  kill_child-fails id why child w w' failed = rw (failed, kill_child, failed) refl

  kill_fails :
      (id why : Text) (child : P) (w w1 w2 : W)
      → host.try_wait child w ≡ (ok none, w1)
      → host.kill child w1 ≡ (err why, w2)
      → end_child host id child w
        ≡ (err (disarm_failed id (codes "killing skewed process: " ++ why)), w2)
  unfolding end_child
  kill_fails id why child w w1 w2 alive failed =
      rw (alive, end_child, alive) (kill_child-fails id why child w1 w2 failed)

  disarm-eq :
      (i : TimeSkewInjector P) (child : P) (r : Outcome HarnessError (Unit {0})) (w w' : W)
      → i.child ≡ some child
      → end_child host i.id child w ≡ (r, w')
      → disarm host i w ≡ (r, record i { child = none }, w')
  unfolding disarm
  disarm-eq i child r w w' e k = rw (e, disarm, k) refl

  -- A disarm whose kill of a running child fails returns the error, and the injector has lost the
  -- child: it reports that it is not armed, and another disarm succeeds without a call to the host.
  pub disarm-loses_child :
      (i : TimeSkewInjector P) (child : P) (why : Text) (w w1 w2 : W)
      → i.child ≡ some child
      → host.try_wait child w ≡ (ok none, w1)
      → host.kill child w1 ≡ (err why, w2)
      → let (r, i', w') = disarm host i w in
        (r ≡ err (disarm_failed i.id (codes "killing skewed process: " ++ why)))
        × (is_armed host i' ≡ false)
        × ((disarm host i' w').0 ≡ ok tt)
        × ((disarm host i' w').2 ≡ w2)
  unfolding disarm is_armed
  disarm-loses_child i child why w w1 w2 e alive failed =
      let k = kill_fails i.id why child w w1 w2 alive failed in
      rw (disarm-eq i child _ w w2 e k) (refl, refl, refl, refl)

-- Taking the output of the child neither starts nor loses one.
is_armed-take_stdout :
    {W P O : Type 0} (host : Processes W P) (child : Child P O) (i : TimeSkewInjector P)
    → is_armed host (take_stdout child i).1 ≡ is_armed host i
unfolding is_armed take_stdout
is_armed-take_stdout host child i = elim (Option-cases i.child) [
  | inl e ↦ rw (e, take_stdout, is_armed, e)
  | inr (c, e) ↦ rw (e, take_stdout, is_armed)
]
