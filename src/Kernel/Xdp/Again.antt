-- ===== src/Kernel/Xdp/Again.antt =====
-- The XDP injectors armed or disarmed twice.
use blackswan_harness.Prelude.{
  ℕ, Bool, true, false, Outcome, ok, err, panic, Outcome-cases, Option, none, some, Option-cases,
  ◌≡◌, refl, sym, ap, ◌∙◌, inl, inr,
}
use blackswan_harness.Core.Error.{HarnessError}
use blackswan_harness.Core.Fault.{FaultContext, IsIdempotent}
use blackswan_harness.Kernel.Bpf.{word, Aya, set_map}
use blackswan_harness.Kernel.Xdp.{
  XdpProgram, XdpInjector, ensure_loaded, toggle_to, arm, disarm, xdp_injector,
}
use blackswan_harness.Kernel.Xdp.Contract.{arm-armed, disarm-armed}

module _ {W B C : Type 0} (aya : Aya W B) (xdp : XdpProgram C) where
  toggle_to-same :
      (on : Bool) (bpf : B) (value : ℕ) (i : XdpInjector B C) (w : W)
      → i.armed ≡ on
      → (toggle_to aya xdp on bpf value i w).1 ≡ i
  unfolding toggle_to
  toggle_to-same on bpf value i w h =
      elim (Outcome-cases (set_map aya bpf i.id xdp.toggle (word value) w).0) [
        | inl (_, e) ↦ rw (e, toggle_to) (ap (λ (a : Bool). record i { armed = a }) (sym h))
        | inr (inl (_, e)) ↦ rw (e, toggle_to) refl
        | inr (inr e) ↦ rw (e, toggle_to) refl
      ]

  toggle_to-bpf :
      (on : Bool) (bpf : B) (value : ℕ) (i : XdpInjector B C) (w : W)
      → (toggle_to aya xdp on bpf value i w).1.bpf ≡ i.bpf
  unfolding toggle_to
  toggle_to-bpf on bpf value i w =
      elim (Outcome-cases (set_map aya bpf i.id xdp.toggle (word value) w).0) [
        | inl (_, e) ↦ rw (e, toggle_to) refl
        | inr (inl (_, e)) ↦ rw (e, toggle_to) refl
        | inr (inr e) ↦ rw (e, toggle_to) refl
      ]

  arm-bpf :
      (ctx : FaultContext) (i : XdpInjector B C) (w : W)
      → (arm aya xdp ctx i w).0 ≡ ok tt
      → (b : B) × ((arm aya xdp ctx i w).1.bpf ≡ some b)
  unfolding arm
  arm-bpf ctx i w h = elim (Outcome-cases (ensure_loaded aya xdp i w).0) [
    | inr (inl (_, e)) ↦ cc (rw (e, arm) at h)
    | inr (inr e) ↦ cc (rw (e, arm) at h)
    | inl (_, e) ↦ elim (Option-cases (ensure_loaded aya xdp i w).1.bpf) [
      | inl k ↦ cc (rw (e, k, arm) at h)
      | inr (bpf, k) ↦ (bpf, rw (e, k, arm, toggle_to-bpf true bpf) k)
    ]
  ]

  ensure_loaded-same :
      (i j : XdpInjector B C) (w : W) (b : B)
      → i ≡ j
      → i.bpf ≡ some b
      → ensure_loaded aya xdp i w ≡ (ok tt, j, w)
  unfolding ensure_loaded
  ensure_loaded-same i j w b same e =
      rw (e, ensure_loaded) (ap (λ (k : XdpInjector B C). (ok tt, k, w)) same)

  Called : Type 0
  Called = Outcome HarnessError (Unit {0}) × XdpInjector B C × W

  -- What follows the lookup of the object.
  toggled : XdpInjector B C → W → Option B → Called
  unfolding Called
  toggled i w o = elim o [
    | none ↦ (panic, i, w)
    | some bpf ↦ toggle_to aya xdp true bpf (xdp.armed_value i.config) i w
  ]

  arm-same :
      (ctx : FaultContext) (i : XdpInjector B C) (w : W) (b : B)
      → i.bpf ≡ some b
      → i.armed ≡ true
      → (arm aya xdp ctx i w).1 ≡ i
  unfolding arm toggled Called
  arm-same ctx i w b e on =
      let behind : Called → Called = λ c. elim c.0 [
        | err x ↦ (err x, c.1, c.2)
        | panic ↦ (panic, c.1, c.2)
        | ok _ ↦ toggled c.1 c.2 c.1.bpf
      ] in
      let whole : arm aya xdp ctx i w ≡ toggle_to aya xdp true b (xdp.armed_value i.config) i w =
        ap behind (ensure_loaded-same i i w b refl e) ∙ ap (toggled i w) e in
      ap (λ (c : Called). c.1) whole ∙ toggle_to-same true b (xdp.armed_value i.config) i w on

  disarm-same : (i : XdpInjector B C) (w : W) → i.armed ≡ false → (disarm aya xdp i w).1 ≡ i
  unfolding disarm Called
  disarm-same i w off =
      let off_again : XdpInjector B C = record i { armed = false } in
      let same : off_again ≡ i = ap (λ (a : Bool). record i { armed = a }) (sym off) in
      let called : Option B → Called = λ o. elim o [
        | none ↦ (ok tt, off_again, w)
        | some bpf ↦ toggle_to aya xdp false bpf 0 i w
      ] in
      elim (Option-cases i.bpf) [
        | inl e ↦ ap (λ (o : Option B). (called o).1) e ∙ same
        | inr (bpf, e) ↦ ap (λ (o : Option B). (called o).1) e ∙ toggle_to-same false bpf 0 i w off
      ]

  pub xdp_injector-IsIdempotent : IsIdempotent (xdp_injector aya xdp)
  unfolding xdp_injector
  xdp_injector-IsIdempotent = record {
    rearmed = λ ctx ctx' i w w' h.
        let (b, e) = arm-bpf ctx i w h in
        arm-same ctx' (arm aya xdp ctx i w).1 w' b e (arm-armed aya xdp ctx i w h);
    redisarmed = λ i w w' h. disarm-same (disarm aya xdp i w).1 w' (disarm-armed aya xdp i w h);
  }
