-- ===== src/Kernel/Xdp/Retry.antt =====
-- An arm that is tried again.
use blackswan_harness.Prelude.{true, false, Text, ok, err, some, ◌≡◌, refl}
use blackswan_harness.Core.Error.{HarnessError}
use blackswan_harness.Core.Fault.{FaultContext}
use blackswan_harness.Kernel.Bpf.{word, Aya, set_map, load_and_attach}
use blackswan_harness.Kernel.Xdp.{
  XdpProgram, XdpInjector, new, write_settings, ensure_loaded, toggle_to, arm,
}

module _ {W B C : Type 0} (aya : Aya W B) (xdp : XdpProgram C) (ctx : FaultContext)
    (id iface : Text) (config : C) where
  abbrev loaded_only : B → XdpInjector B C
  loaded_only bpf = record {
    id = id;
    iface = iface;
    config = config;
    bpf = some bpf;
    armed = false;
  }

  ensure_loaded-fails :
      (bpf : B) (e : HarnessError) (w w1 w2 : W)
      → load_and_attach aya id xdp.object xdp.program iface w ≡ (ok bpf, w1)
      → write_settings aya xdp bpf id (xdp.settings config) w1 ≡ (err e, w2)
      → ensure_loaded aya xdp (new id iface config) w ≡ (err e, loaded_only bpf, w2)
  unfolding ensure_loaded new
  ensure_loaded-fails bpf e w w1 w2 loaded failed = rw (loaded, ensure_loaded, loaded, failed) refl

  arm-fails :
      (bpf : B) (e : HarnessError) (w w1 w2 : W)
      → load_and_attach aya id xdp.object xdp.program iface w ≡ (ok bpf, w1)
      → write_settings aya xdp bpf id (xdp.settings config) w1 ≡ (err e, w2)
      → arm aya xdp ctx (new id iface config) w ≡ (err e, loaded_only bpf, w2)
  unfolding arm
  arm-fails bpf e w w1 w2 loaded failed =
      let k = ensure_loaded-fails bpf e w w1 w2 loaded failed in rw (k, arm, k) refl

  toggle_to-ok :
      (bpf : B) (w2 w3 : W)
      → set_map aya bpf id xdp.toggle (word (xdp.armed_value config)) w2 ≡ (ok tt, w3)
      → toggle_to aya xdp true bpf (xdp.armed_value config) (loaded_only bpf) w2
        ≡ (ok tt, record (loaded_only bpf) { armed = true }, w3)
  unfolding toggle_to
  toggle_to-ok bpf w2 w3 toggled = rw (toggled, toggle_to, toggled) refl

  arm-toggles :
      (bpf : B) (w2 w3 : W)
      → set_map aya bpf id xdp.toggle (word (xdp.armed_value config)) w2 ≡ (ok tt, w3)
      → arm aya xdp ctx (loaded_only bpf) w2
        ≡ (ok tt, record (loaded_only bpf) { armed = true }, w3)
  unfolding arm ensure_loaded
  arm-toggles bpf w2 w3 toggled = toggle_to-ok bpf w2 w3 toggled

  -- Where the first arm of a new injector loads and attaches its program, but fails to write a
  -- setting, it returns that error; and a second arm, whose write of the toggle succeeds, reports
  -- success and leaves the injector armed, with the toggle as its only write: the settings are not
  -- written again.
  pub retried-unconfigured :
      (bpf : B) (e : HarnessError) (w w1 w2 w3 : W)
      → load_and_attach aya id xdp.object xdp.program iface w ≡ (ok bpf, w1)
      → write_settings aya xdp bpf id (xdp.settings config) w1 ≡ (err e, w2)
      → set_map aya bpf id xdp.toggle (word (xdp.armed_value config)) w2 ≡ (ok tt, w3)
      → let (r, i, w') = arm aya xdp ctx (new id iface config) w in
        (r ≡ err e)
        × (i.armed ≡ false)
        × ((arm aya xdp ctx i w').0 ≡ ok tt)
        × ((arm aya xdp ctx i w').1.armed ≡ true)
        × ((arm aya xdp ctx i w').2 ≡ w3)
  retried-unconfigured bpf e w w1 w2 w3 loaded failed toggled =
      let first = arm-fails bpf e w w1 w2 loaded failed in
      let second = arm-toggles bpf w2 w3 toggled in
      rw (first, second) (refl, refl, refl, refl, refl)
