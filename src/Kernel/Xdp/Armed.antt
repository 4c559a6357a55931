-- ===== src/Kernel/Xdp/Armed.antt =====
-- What an arm and a disarm that succeed have done.
use blackswan_harness.Prelude.{
  ℕ, Bool, true, false, Text, Outcome, ok, err, panic, Outcome-cases, none, some, ◌≡◌, refl, inl,
  inr, ap, List, ◌∷◌,
}
use blackswan_harness.Core.Error.{HarnessError}
use blackswan_harness.Core.Fault.{FaultContext}
use blackswan_harness.Kernel.Bpf.{MapValue, word, Aya, set_map, load_and_attach}
use blackswan_harness.Kernel.Xdp.{
  XdpProgram, XdpInjector, new, write_settings, ensure_loaded, toggle_to, arm, disarm,
}

module _ {W B C : Type 0} (aya : Aya W B) (xdp : XdpProgram C) where
  pub write_settings-ok :
      (b : B) (id name : Text) (value : MapValue) (rest : List (Text × MapValue)) (w : W)
      → (write_settings aya xdp b id ((name, value) ∷ rest) w).0 ≡ ok tt
      → let call = set_map aya b id name value w in
        (call.0 ≡ ok tt)
        × ((write_settings aya xdp b id rest call.1).0 ≡ ok tt)
        × ((write_settings aya xdp b id ((name, value) ∷ rest) w).1
            ≡ (write_settings aya xdp b id rest call.1).1)
  unfolding write_settings
  write_settings-ok b id name value rest w h =
      elim (Outcome-cases (set_map aya b id name value w).0) [
        | inl (_, e) ↦ (e, rw (e, write_settings) at h, rw (e, write_settings) refl)
        | inr (inl (_, e)) ↦ cc (rw (e, write_settings) at h)
        | inr (inr e) ↦ cc (rw (e, write_settings) at h)
      ]

  pub toggle_to-world :
      (on : Bool) (b : B) (value : ℕ) (i : XdpInjector B C) (w : W)
      → (toggle_to aya xdp on b value i w).0 ≡ ok tt
      → let call = set_map aya b i.id xdp.toggle (word value) w in
        (call.0 ≡ ok tt)
        × (toggle_to aya xdp on b value i w ≡ (ok tt, record i { armed = on }, call.1))
  unfolding toggle_to
  toggle_to-world on b value i w h =
      elim (Outcome-cases (set_map aya b i.id xdp.toggle (word value) w).0) [
        | inl (_, e) ↦ (e, rw (e, toggle_to) refl)
        | inr (inl (_, e)) ↦ cc (rw (e, toggle_to) at h)
        | inr (inr e) ↦ cc (rw (e, toggle_to) at h)
      ]

  module _ (ctx : FaultContext) (id iface : Text) (config : C) (w : W) where
    abbrev pub armed_with : B → XdpInjector B C
    armed_with b = record { id = id; iface = iface; config = config; bpf = some b; armed = true }

    -- The three parts of a first arm.
    abbrev pub load_part : Outcome HarnessError B × W
    load_part = load_and_attach aya id xdp.object xdp.program iface w

    abbrev pub settings_part : B → Outcome HarnessError (Unit {0}) × W
    settings_part b = write_settings aya xdp b id (xdp.settings config) load_part.1

    abbrev pub toggle_part : B → Outcome HarnessError (Unit {0}) × W
    toggle_part b = set_map aya b id xdp.toggle (word (xdp.armed_value config)) (settings_part b).1

    abbrev loaded_with : B → XdpInjector B C
    loaded_with b = record (armed_with b) { armed = false }

    ensure_new :
        (b : B)
        → load_part.0 ≡ ok b
        → ensure_loaded aya xdp (new id iface config) w
          ≡ ((settings_part b).0, loaded_with b, (settings_part b).1)
    unfolding ensure_loaded new
    ensure_new b e = rw (e, ensure_loaded) refl

    -- What follows the loading, in `arm`.
    abbrev behind_load :
        Outcome HarnessError (Unit {0}) × XdpInjector B C × W
        → Outcome HarnessError (Unit {0}) × XdpInjector B C × W
    behind_load (r, i', w') = elim r [
      | err e ↦ (err e, i', w')
      | panic ↦ (panic, i', w')
      | ok _ ↦ elim i'.bpf [
        | none ↦ (panic, i', w')
        | some bpf ↦ toggle_to aya xdp true bpf (xdp.armed_value i'.config) i' w'
      ]
    ]

    arm-ensured :
        (r : Outcome HarnessError (Unit {0})) (b : B) (v : W)
        → ensure_loaded aya xdp (new id iface config) w ≡ (r, loaded_with b, v)
        → arm aya xdp ctx (new id iface config) w ≡ behind_load (r, loaded_with b, v)
    unfolding arm
    arm-ensured r b v e = ap behind_load e

    arm-loads : (arm aya xdp ctx (new id iface config) w).0 ≡ ok tt → (b : B) × (load_part.0 ≡ ok b)
    unfolding arm ensure_loaded new
    arm-loads h = elim (Outcome-cases load_part.0) [
      | inl (b, e) ↦ (b, e)
      | inr (inl (x, e)) ↦
          let failed : (ensure_loaded aya xdp (new id iface config) w).0 ≡ err x =
            rw (e, ensure_loaded) refl in
          cc (rw (failed, arm) at h)
      | inr (inr e) ↦
          let failed : (ensure_loaded aya xdp (new id iface config) w).0 ≡ panic =
            rw (e, ensure_loaded) refl in
          cc (rw (failed, arm) at h)
    ]

    pub arm_new-ok :
        (arm aya xdp ctx (new id iface config) w).0 ≡ ok tt
        → (b : B) × ((load_part.0 ≡ ok b)
            × ((settings_part b).0 ≡ ok tt)
            × ((toggle_part b).0 ≡ ok tt)
            × (arm aya xdp ctx (new id iface config) w ≡ (ok tt, armed_with b, (toggle_part b).1)))
    arm_new-ok h =
        let (b, e) = arm-loads h in
        let whole = arm-ensured _ b _ (ensure_new b e) in
        elim (Outcome-cases (settings_part b).0) [
          | inr (inl (_, k)) ↦ cc (rw (whole, k) at h)
          | inr (inr k) ↦ cc (rw (whole, k) at h)
          | inl (_, k) ↦
              let h' = rw (whole, k) at h in
              let (done, last) =
                toggle_to-world true b (xdp.armed_value config) (loaded_with b) (settings_part b).1
                  h' in
              (b, (e, k, done, rw (whole, k) last))
        ]

    -- A disarm behind it writes the toggle alone.
    pub disarm_armed-ok :
        (b : B) (v : W)
        → (disarm aya xdp (armed_with b) v).0 ≡ ok tt
        → let call = set_map aya b id xdp.toggle (word 0) v in
          (call.0 ≡ ok tt)
          × (disarm aya xdp (armed_with b) v
              ≡ (ok tt, record (armed_with b) { armed = false }, call.1))
    unfolding disarm
    disarm_armed-ok b v h = toggle_to-world false b 0 (armed_with b) v h
