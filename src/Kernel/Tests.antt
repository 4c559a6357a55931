-- ===== src/Kernel/Tests.antt =====
-- A kernel that logs what is written to its maps, with one write that fails, and a host whose kills
-- fail.
use blackswan_harness.Prelude.{
  panic, ◌≢◌, ℕ, zero, suc, true, false, Text, codes, Outcome, ok, err, none, some, [], ◌∷◌, ◌≡◌,
  refl,
}
use blackswan_harness.Core.Error.{arm_failed, disarm_failed}
use blackswan_harness.Core.Clock.{system_clock}
use blackswan_harness.Core.Fault.{FaultContext}
use blackswan_harness.Kernel.Bpf.{word, Aya, set_map, load_and_attach}
use blackswan_harness.Kernel.Xdp
use blackswan_harness.Kernel.Xdp.{new, corrupt, Corruption, write_settings, xdp_injector, arm}
use blackswan_harness.Kernel.Xdp.Panics.{NeverPanics, arm-ne-panic}
use blackswan_harness.Kernel.Xdp.Retry.{retried-unconfigured}
use blackswan_harness.Kernel.TimeSkew.{Processes, TimeSkewInjector, pos, is_armed, disarm}
use blackswan_harness.Kernel.TimeSkew.Lifecycle.{disarm-loses_child}

-- The world counts the writes; the first one fails.
abbrev set_later : ℕ → Outcome Text (Unit {0}) × ℕ
set_later zero = (err (codes "busy"), 1)
set_later (suc w) = (ok tt, suc (suc w))

abbrev busy : Aya ℕ (Unit {0})
busy = record {
  load = λ object w. (ok tt, w);
  has_program = λ program b. true;
  as_xdp = λ program b. ok tt;
  load_program = λ program b w. (ok tt, w);
  attach = λ program iface b w. (ok tt, w);
  has_map = λ name b. true;
  as_array = λ name value b. ok tt;
  set = λ name value b w. set_later w;
}

abbrev context : FaultContext
context = record { clock = system_clock; seed = 7 }

abbrev config : Corruption
config = record { corrupt_every_n = 3; offset = 40; mask = 255 }

attached :
    load_and_attach busy (codes "x") corrupt.object corrupt.program (codes "eth0") 0 ≡ (ok tt, 0)
unfolding load_and_attach
attached = refl

refused :
    write_settings busy corrupt tt (codes "x") (corrupt.settings config) 0
    ≡ (err (arm_failed (codes "x") (codes "busy")), 1)
unfolding write_settings set_map
refused = refl

toggled : set_map busy tt (codes "x") corrupt.toggle (word 3) 1 ≡ (ok tt, 2)
unfolding set_map
toggled = refl

retried-unconfigured_example :
    let (r, i, w') = arm busy corrupt context (new (codes "x") (codes "eth0") config) 0 in
    (r ≡ err (arm_failed (codes "x") (codes "busy")))
    × (i.armed ≡ false)
    × ((arm busy corrupt context i w').0 ≡ ok tt)
    × ((arm busy corrupt context i w').1.armed ≡ true)
    × ((arm busy corrupt context i w').2 ≡ 2)
retried-unconfigured_example =
    retried-unconfigured busy corrupt context (codes "x") (codes "eth0") config tt
      (arm_failed (codes "x") (codes "busy")) 0 0 1 2 attached refused toggled

set_later-ne-panic : (w : ℕ) → (set_later w).0 ≢ panic
set_later-ne-panic zero h = cc
set_later-ne-panic (suc w) h = cc

busy-NeverPanics : NeverPanics busy
busy-NeverPanics = record {
  load = λ object w h. cc;
  as_xdp = λ program b h. cc;
  load_program = λ program b w h. cc;
  attach = λ program iface b w h. cc;
  as_array = λ name value b h. cc;
  set = λ name value b w. set_later-ne-panic w;
}

busy-ne-panic :
    ((arm busy corrupt context (new (codes "x") (codes "eth0") config) 0).0 ≢ panic)
    × ((Xdp.disarm busy corrupt (new (codes "x") (codes "eth0") config) 0).0 ≢ panic)
busy-ne-panic =
    arm-ne-panic busy corrupt busy-NeverPanics context (new (codes "x") (codes "eth0") config) 0

abbrev stubborn : Processes ℕ ℕ
stubborn = record {
  spawn = λ command w. (ok 5, w);
  try_wait = λ child w. (ok none, w);
  kill = λ child w. (err (codes "EPERM"), suc w);
  wait = λ child w. w;
}

abbrev running : TimeSkewInjector ℕ
running = record {
  id = codes "skew";
  argv = codes "sleep" ∷ [];
  monotonic_offset_secs = pos 60;
  boottime_offset_secs = pos 60;
  capture_stdout = false;
  child = some 5;
}

disarm-loses_child_example :
    let (r, i', w') = disarm stubborn running 0 in
    (r ≡ err (disarm_failed (codes "skew") (codes "killing skewed process: EPERM")))
    × (is_armed stubborn i' ≡ false)
    × ((disarm stubborn i' w').0 ≡ ok tt)
    × ((disarm stubborn i' w').2 ≡ 1)
disarm-loses_child_example =
    disarm-loses_child stubborn running 5 (codes "EPERM") 0 0 1 refl refl refl
