-- ===== src/Kernel/Xdp/Panics.antt =====
-- The `expect` behind the loading of the object does not fire.
use blackswan_harness.Prelude.{
  ℕ, Bool, true, false, Bool-cases, Text, ok, panic, Outcome-cases, none, Option-cases, List, [],
  ◌∷◌, ◌≡◌, ◌≢◌, inl, inr,
}
use blackswan_harness.Core.Fault.{FaultContext}
use blackswan_harness.Kernel.Bpf.{MapValue, word, Aya, then_call, set_map, load_and_attach}
use blackswan_harness.Kernel.Xdp.{
  XdpProgram, XdpInjector, write_settings, ensure_loaded, toggle_to, arm, disarm,
}

-- No call of `aya` panics.
pub record NeverPanics {W B : Type 0} (aya : Aya W B) : Type 0 where
  pub load : (object : Text) (w : W) → (aya.load object w).0 ≢ panic
  pub as_xdp : (program : Text) (b : B) → aya.as_xdp program b ≢ panic
  pub load_program : (program : Text) (b : B) (w : W) → (aya.load_program program b w).0 ≢ panic
  pub attach : (program iface : Text) (b : B) (w : W) → (aya.attach program iface b w).0 ≢ panic
  pub as_array : (name : Text) (value : MapValue) (b : B) → aya.as_array name value b ≢ panic
  pub set : (name : Text) (value : MapValue) (b : B) (w : W) → (aya.set name value b w).0 ≢ panic

module _ {W B C : Type 0} (aya : Aya W B) (xdp : XdpProgram C) (calm : NeverPanics aya) where
  set_map-ne-panic :
      (bpf : B) (id name : Text) (value : MapValue) (w : W)
      → (set_map aya bpf id name value w).0 ≢ panic
  unfolding set_map
  set_map-ne-panic bpf id name value w h = elim (Bool-cases (aya.has_map name bpf)) [
    | inr e ↦ cc (rw (e, set_map) at h)
    | inl e ↦ elim (Outcome-cases (aya.as_array name value bpf)) [
      | inr (inr k) ↦ calm.as_array name value bpf k
      | inr (inl (_, k)) ↦ cc (rw (e, k, set_map) at h)
      | inl (_, k) ↦ elim (Outcome-cases (aya.set name value bpf w).0) [
        | inr (inr l) ↦ calm.set name value bpf w l
        | inr (inl (_, l)) ↦ cc (rw (e, k, l, set_map) at h)
        | inl (_, l) ↦ cc (rw (e, k, l, set_map) at h)
      ]
    ]
  ]

  load_and_attach-ne-panic :
      (id object program iface : Text) (w : W)
      → (load_and_attach aya id object program iface w).0 ≢ panic
  unfolding load_and_attach
  load_and_attach-ne-panic id object program iface w h =
      elim (Outcome-cases (aya.load object w).0) [
        | inr (inr e) ↦ calm.load object w e
        | inr (inl (_, e)) ↦ cc (rw (e, load_and_attach) at h)
        | inl (bpf, e) ↦ elim (Bool-cases (aya.has_program program bpf)) [
          | inr k ↦ cc (rw (e, then_call, k) at h)
          | inl k ↦ elim (Outcome-cases (aya.as_xdp program bpf)) [
            | inr (inr l) ↦ calm.as_xdp program bpf l
            | inr (inl (_, l)) ↦ cc (rw (e, then_call, k, l) at h)
            | inl (_, l) ↦
                let w1 = (aya.load object w).1 in
                elim (Outcome-cases (aya.load_program program bpf w1).0) [
                  | inr (inr m) ↦ calm.load_program program bpf w1 m
                  | inr (inl (_, m)) ↦ cc (rw (e, then_call, k, l, m) at h)
                  | inl (_, m) ↦
                      let w2 = (aya.load_program program bpf w1).1 in
                      elim (Outcome-cases (aya.attach program iface bpf w2).0) [
                        | inr (inr n) ↦ calm.attach program iface bpf w2 n
                        | inr (inl (_, n)) ↦ cc (rw (e, then_call, k, l, m, n) at h)
                        | inl (_, n) ↦ cc (rw (e, then_call, k, l, m, n) at h)
                      ]
                ]
          ]
        ]
      ]

  write_settings-ne-panic :
      (bpf : B) (id : Text) (settings : List (Text × MapValue)) (w : W)
      → (write_settings aya xdp bpf id settings w).0 ≢ panic
  unfolding write_settings
  write_settings-ne-panic bpf id [] w h = cc
  write_settings-ne-panic bpf id ((name, value) ∷ rest) w h =
      elim (Outcome-cases (set_map aya bpf id name value w).0) [
        | inl (_, e) ↦ write_settings-ne-panic bpf id rest _ (rw (e, write_settings) at h)
        | inr (inl (_, e)) ↦ cc (rw (e, write_settings) at h)
        | inr (inr e) ↦ set_map-ne-panic bpf id name value w e
      ]

  toggle_to-ne-panic :
      (on : Bool) (bpf : B) (value : ℕ) (i : XdpInjector B C) (w : W)
      → (toggle_to aya xdp on bpf value i w).0 ≢ panic
  unfolding toggle_to
  toggle_to-ne-panic on bpf value i w h =
      elim (Outcome-cases (set_map aya bpf i.id xdp.toggle (word value) w).0) [
        | inl (_, e) ↦ cc (rw (e, toggle_to) at h)
        | inr (inl (_, e)) ↦ cc (rw (e, toggle_to) at h)
        | inr (inr e) ↦ set_map-ne-panic bpf i.id xdp.toggle (word value) w e
      ]

  -- Loading does not panic, and where it succeeds there is an object.
  ensure_loaded-bpf :
      (i : XdpInjector B C) (w : W)
      → ((ensure_loaded aya xdp i w).0 ≢ panic)
        × ((ensure_loaded aya xdp i w).0 ≡ ok tt → (ensure_loaded aya xdp i w).1.bpf ≢ none)
  unfolding ensure_loaded
  ensure_loaded-bpf i w = elim (Option-cases i.bpf) [
    | inr (b, e) ↦ rw (e, ensure_loaded, e) ((λ h. cc), λ h k. cc)
    | inl e ↦ elim (Outcome-cases (load_and_attach aya i.id xdp.object xdp.program i.iface w).0) [
      | inl (bpf, k) ↦
          rw (e, k, ensure_loaded)
            (write_settings-ne-panic bpf i.id (xdp.settings i.config) _, λ h l. cc)
      | inr (inl (_, k)) ↦ rw (e, k, ensure_loaded) ((λ h. cc), λ h l. cc)
      | inr (inr k) ↦ absurd (load_and_attach-ne-panic i.id xdp.object xdp.program i.iface w k)
    ]
  ]

  -- If no call of `aya` panics, neither an arm nor a disarm of an XDP injector does: an arm that
  -- comes to its `expect` has an object.
  pub arm-ne-panic :
      (ctx : FaultContext) (i : XdpInjector B C) (w : W)
      → ((arm aya xdp ctx i w).0 ≢ panic) × ((disarm aya xdp i w).0 ≢ panic)
  unfolding arm disarm
  arm-ne-panic ctx i w = (
    λ h. elim (Outcome-cases (ensure_loaded aya xdp i w).0) [
      | inr (inl (_, e)) ↦ cc (rw (e, arm) at h)
      | inr (inr e) ↦ (ensure_loaded-bpf i w).0 e
      | inl (_, e) ↦ elim (Option-cases (ensure_loaded aya xdp i w).1.bpf) [
        | inl k ↦ (ensure_loaded-bpf i w).1 e k
        | inr (bpf, k) ↦ toggle_to-ne-panic true bpf _ _ _ (rw (e, k, arm) at h)
      ]
    ],
    λ h. elim (Option-cases i.bpf) [
      | inl e ↦ cc (rw (e, disarm) at h)
      | inr (bpf, e) ↦ toggle_to-ne-panic false bpf 0 i w (rw (e, disarm) at h)
    ],
  )
