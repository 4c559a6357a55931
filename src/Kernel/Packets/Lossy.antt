-- ===== src/Kernel/Packets/Lossy.antt =====
-- The packet loss injector and its program together: how many packets are lost once it is armed.
use native.Mathlib.Nat.{mod-eq_of_lt, div-add-mod', eq_of_mul-eq-mul_right}
use blackswan_harness.Prelude.{
  ℕ, zero, suc, ◌+◌, ◌/◌, ◌%◌, ◌<◌, bytes_eq, Text, codes, ok, some, ◌≡◌, refl, ◌∙◌, ap, arith,
}
use blackswan_harness.Core.Clock.{u64_mod}
use blackswan_harness.Core.Fault.{FaultContext}
use blackswan_harness.Kernel.Bpf.{MapValue, word, Aya}
use blackswan_harness.Kernel.Bpf.Maps.{
  HoldsMaps, as_word, set_map-written, set_map-apart, load_and_attach-fresh,
}
use blackswan_harness.Kernel.Xdp.{pktloss, XdpInjector, new, write_settings, arm, disarm}
use blackswan_harness.Kernel.Xdp.Armed.{arm_new-ok, disarm_armed-ok, armed_with, load_part}
use blackswan_harness.Kernel.Packets.{LossMaps, xdp_pktloss}
use blackswan_harness.Kernel.Packets.Loss.{drops, drops-count}

abbrev pub loss_view : {W B : Type 0} → (Text → B → W → MapValue) → B → W → LossMaps
loss_view cell b w = record {
  drop_every_n = as_word (cell (codes "drop_every_n") b w);
  packet_count = as_word (cell (codes "packet_count") b w);
}

-- From a counter of zero, the packets lost are the multiples of the modulus.
drops-div :
    (k n : ℕ) → 0 < n → k < u64_mod → drops k record { drop_every_n = n; packet_count = 0 } ≡ k / n
drops-div k n h fits =
    let count =
      drops-count k record { drop_every_n = n; packet_count = 0 } h (omega (arith, fits)) in
    let none : 0 % n ≡ 0 = mod-eq_of_lt h in
    let whole : 0 + k ≡ k = omega arith in
    let count' = rw (none, whole) at count in
    eq_of_mul-eq-mul_right n h _ (k / n) (omega (arith, count', div-add-mod' k n))

drops-off : (k count : ℕ) → drops k record { drop_every_n = 0; packet_count = count } ≡ 0
unfolding drops xdp_pktloss
drops-off zero count = refl
drops-off (suc k) count = omega (arith, drops-off k count)

module _ {W B : Type 0} (aya : Aya W B) (cell : Text → B → W → MapValue)
    (holds : HoldsMaps aya cell) (ctx : FaultContext) (id iface : Text) (n : ℕ) (w : W) where
  abbrev pub armed_injector : XdpInjector B ℕ
  armed_injector = (arm aya pktloss ctx (new id iface n) w).1

  abbrev pub armed_world : W
  armed_world = (arm aya pktloss ctx (new id iface n) w).2

  view-arm :
      (arm aya pktloss ctx (new id iface n) w).0 ≡ ok tt
      → (b : B) × ((armed_injector ≡ armed_with aya pktloss ctx id iface n w b)
          × (loss_view cell b armed_world ≡ record { drop_every_n = n; packet_count = 0 }))
  unfolding write_settings bytes_eq
  view-arm armed =
      let (b, (e, k, t, whole)) = arm_new-ok aya pktloss ctx id iface n w armed in
      let loaded = (load_part aya pktloss ctx id iface n w).1 in
      let fresh =
        (load_and_attach-fresh aya cell holds id pktloss.object pktloss.program iface
          (codes "packet_count") b w e).0 in
      let modulus = set_map-written aya cell holds b id (codes "drop_every_n") (word n) loaded t in
      let count =
        set_map-apart aya cell holds b id (codes "drop_every_n") (codes "packet_count") (word n)
          loaded t refl in
      (
        b,
        (
          ap (λ t. t.1) whole,
          ap (λ t. loss_view cell b t.2) whole ∙ rw (modulus, count, fresh) refl,
        ),
      )

  -- With a modulus other than 0, a first arm that succeeds has the program lose, of the first `k`
  -- packets, one for every multiple of the modulus, `k` being below 2^64. Behind a disarm that
  -- succeeds it loses none.
  pub armed-loses :
      (k : ℕ)
      → 0 < n
      → k < u64_mod
      → (arm aya pktloss ctx (new id iface n) w).0 ≡ ok tt
      → (disarm aya pktloss armed_injector armed_world).0 ≡ ok tt
      → (b : B) × ((armed_injector.bpf ≡ some b)
          × (drops k (loss_view cell b armed_world) ≡ k / n)
          × (drops k (loss_view cell b (disarm aya pktloss armed_injector armed_world).2) ≡ 0))
  armed-loses k h fits armed disarmed =
      let (b, (same, maps)) = view-arm armed in
      let (done, whole) =
        disarm_armed-ok aya pktloss ctx id iface n w b armed_world (rw same at disarmed) in
      let zero =
        set_map-written aya cell holds b id (codes "drop_every_n") (word 0) armed_world done in
      (b, (rw same refl, rw maps (drops-div k n h fits), rw (same, whole, zero) (drops-off k _)))
