-- ===== src/Kernel/Packets/Garbled.antt =====
-- The corruption injector and its program together: what becomes of a row of frames once it is armed.
use Prim.Native.Nat.{bit_xor}
use native.Mathlib.Nat.{mod-eq_of_lt}
use blackswan_harness.Prelude.{
  ℕ, zero, suc, ◌+◌, ◌%◌, ◌^◌, ◌<◌, ◌==◌, false, Bool-cases, if◌then◌else◌, bytes_eq, Bytes, Text,
  codes, ok, some, List, [], ◌∷◌, ◌++◌, length, take, drop, map, ◌≡◌, refl, ◌∙◌, ap, inl, inr,
  arith,
}
use blackswan_harness.Core.Clock.{u64_mod}
use blackswan_harness.Core.Fault.{FaultContext}
use blackswan_harness.Kernel.Bpf.{MapValue, word, Aya, set_map}
use blackswan_harness.Kernel.Bpf.Maps.{
  HoldsMaps, as_word, set_map-written, set_map-apart, load_and_attach-fresh,
}
use blackswan_harness.Kernel.Xdp.{
  Corruption, corrupt, XdpInjector, new, write_settings, arm, disarm,
}
use blackswan_harness.Kernel.Xdp.Armed.{
  write_settings-ok, arm_new-ok, disarm_armed-ok, armed_with, load_part,
}
use blackswan_harness.Kernel.Packets.{Verdict, xdp_pass, CorruptMaps, xor_at, xdp_corrupt}

-- The program on frames that arrive in a row.
unfoldable pub corrupted : CorruptMaps → List Bytes → List (Verdict × Bytes)
corrupted m [] = []
corrupted m (f ∷ fs) = let (verdict, f', m') = xdp_corrupt m f in (verdict, f') ∷ corrupted m' fs

abbrev pub flip_first : ℕ → Bytes → Bytes
flip_first mask [] = []
flip_first mask (b ∷ rest) = bit_xor b mask ∷ rest

-- The frame with the bits of a mask flipped in one byte, if it has that byte.
unfoldable pub flipped : ℕ → ℕ → Bytes → Bytes
flipped offset mask f = take offset f ++ flip_first mask (drop offset f)

-- Every frame passes, and of those behind `k` others every one whose number is a multiple of the
-- modulus has a byte flipped, at the offset cut to twelve bits.
unfoldable pub garbled : Corruption → ℕ → List Bytes → List (Verdict × Bytes)
garbled c k [] = []
garbled c k (f ∷ fs) =
    (xdp_pass, if (k + 1) % c.corrupt_every_n == 0 then flipped (c.offset % 2 ^ 12) c.mask f else f)
    ∷ garbled c (k + 1) fs

xor_at-flipped : (off mask : ℕ) (f : Bytes) → xor_at off mask f ≡ flipped off mask f
unfolding xor_at flipped
xor_at-flipped zero mask [] = refl
xor_at-flipped (suc off) mask [] = refl
xor_at-flipped zero mask (b ∷ f) = refl
xor_at-flipped (suc off) mask (b ∷ f) = ap (λ l. b ∷ l) (xor_at-flipped off mask f)

abbrev counted : Corruption → ℕ → CorruptMaps
counted c k = record {
  corrupt_every_n = c.corrupt_every_n;
  corrupt_offset = c.offset;
  corrupt_mask = c.mask;
  packet_count = k;
}

corrupted-garbled :
    (c : Corruption) (k : ℕ) (fs : List Bytes)
    → 0 < c.corrupt_every_n
    → c.mask < 2 ^ 8
    → k + length fs < u64_mod
    → corrupted (counted c k) fs ≡ garbled c k fs
unfolding corrupted garbled xdp_corrupt
corrupted-garbled c k [] h byte fits = refl
corrupted-garbled c k (f ∷ fs) h byte fits =
    let on : (c.corrupt_every_n == 0) ≡ false = ground arith in
    let next : (k + 1) % u64_mod ≡ k + 1 = mod-eq_of_lt (omega (arith, fits)) in
    let whole : c.mask % 2 ^ 8 ≡ c.mask = mod-eq_of_lt byte in
    let rest = corrupted-garbled c (k + 1) fs h byte (omega (arith, fits)) in
    elim (Bool-cases ((k + 1) % c.corrupt_every_n == 0)) [
      | inl hit ↦ rw (on, next, hit, whole, xor_at-flipped (c.offset % 2 ^ 12) c.mask f, rest)
      | inr miss ↦ rw (on, next, miss, rest)
    ]

corrupted-off :
    (offset mask count : ℕ) (fs : List Bytes)
    → corrupted
        record {
          corrupt_every_n = 0;
          corrupt_offset = offset;
          corrupt_mask = mask;
          packet_count = count;
        }
        fs
      ≡ map (λ f. (xdp_pass, f)) fs
unfolding corrupted xdp_corrupt
corrupted-off offset mask count [] = refl
corrupted-off offset mask count (f ∷ fs) =
    ap (λ l. (xdp_pass, f) ∷ l) (corrupted-off offset mask count fs)

abbrev pub corrupt_view : {W B : Type 0} → (Text → B → W → MapValue) → B → W → CorruptMaps
corrupt_view cell b w = record {
  corrupt_every_n = as_word (cell (codes "corrupt_every_n") b w);
  corrupt_offset = as_word (cell (codes "corrupt_offset") b w);
  corrupt_mask = as_word (cell (codes "corrupt_mask") b w);
  packet_count = as_word (cell (codes "packet_count") b w);
}

abbrev every : Text
every = codes "corrupt_every_n"

abbrev offset_map : Text
offset_map = codes "corrupt_offset"

abbrev mask_map : Text
mask_map = codes "corrupt_mask"

abbrev count_map : Text
count_map = codes "packet_count"

module _ {W B : Type 0} (aya : Aya W B) (cell : Text → B → W → MapValue)
    (holds : HoldsMaps aya cell) where
  view-settings :
      (b : B) (id : Text) (c : Corruption) (w : W)
      → as_word (cell count_map b w) ≡ 0
      → let settings = write_settings aya corrupt b id (corrupt.settings c) w in
        let done = set_map aya b id every (word c.corrupt_every_n) settings.1 in
        settings.0 ≡ ok tt → done.0 ≡ ok tt → corrupt_view cell b done.1 ≡ counted c 0
  unfolding bytes_eq write_settings
  view-settings b id c w fresh set on =
      let (set1, more, last) =
        write_settings-ok aya corrupt b id offset_map (word c.offset) ((mask_map, word c.mask) ∷ [])
          w set in
      let w1 = (set_map aya b id offset_map (word c.offset) w).1 in
      let (set2, _, last2) = write_settings-ok aya corrupt b id mask_map (word c.mask) [] w1 more in
      let w2 = (set_map aya b id mask_map (word c.mask) w1).1 in
      let world : (write_settings aya corrupt b id (corrupt.settings c) w).1 ≡ w2 = last ∙ last2 in
      let on' : (set_map aya b id every (word c.corrupt_every_n) w2).0 ≡ ok tt = rw world at on in
      let apart1 = λ (other : Text) (e : bytes_eq offset_map other ≡ false).
        set_map-apart aya cell holds b id offset_map other (word c.offset) w set1 e in
      let apart2 = λ (other : Text) (e : bytes_eq mask_map other ≡ false).
        set_map-apart aya cell holds b id mask_map other (word c.mask) w1 set2 e in
      let apart3 = λ (other : Text) (e : bytes_eq every other ≡ false).
        set_map-apart aya cell holds b id every other (word c.corrupt_every_n) w2 on' e in
      let n = set_map-written aya cell holds b id every (word c.corrupt_every_n) w2 on' in
      let o =
        apart3 offset_map refl
        ∙ apart2 offset_map refl
        ∙ set_map-written aya cell holds b id offset_map (word c.offset) w set1 in
      let m =
        apart3 mask_map refl ∙ set_map-written aya cell holds b id mask_map (word c.mask) w1 set2 in
      let k = apart3 count_map refl ∙ apart2 count_map refl ∙ apart1 count_map refl in
      rw world (rw (n, o, m, k, fresh) refl)

  module _ (ctx : FaultContext) (id iface : Text) (c : Corruption) (w : W) where
    abbrev pub armed_injector : XdpInjector B Corruption
    armed_injector = (arm aya corrupt ctx (new id iface c) w).1

    abbrev pub armed_world : W
    armed_world = (arm aya corrupt ctx (new id iface c) w).2

    view-arm :
        (arm aya corrupt ctx (new id iface c) w).0 ≡ ok tt
        → (b : B) × ((armed_injector ≡ armed_with aya corrupt ctx id iface c w b)
            × (corrupt_view cell b armed_world ≡ counted c 0))
    view-arm armed =
        let (b, (e, k, t, whole)) = arm_new-ok aya corrupt ctx id iface c w armed in
        let loaded = (load_part aya corrupt ctx id iface c w).1 in
        let fresh =
          (load_and_attach-fresh aya cell holds id corrupt.object corrupt.program iface count_map b
            w e).0 in
        (
          b,
          (
            ap (λ t. t.1) whole,
            ap (λ t. corrupt_view cell b t.2) whole ∙ view-settings b id c loaded fresh k t,
          ),
        )

    -- With a modulus other than 0 and a mask of one byte, a first arm that succeeds makes the
    -- program pass on every frame of a row shorter than 2^64, each of the multiples of the modulus
    -- with the bits of the mask flipped in the byte at the offset, cut to twelve bits, if it has
    -- that byte, and the others as they are. Behind a disarm that succeeds all are passed on as
    -- they are.
    pub armed-garbles :
        (fs : List Bytes)
        → 0 < c.corrupt_every_n
        → c.mask < 2 ^ 8
        → length fs < u64_mod
        → (arm aya corrupt ctx (new id iface c) w).0 ≡ ok tt
        → (disarm aya corrupt armed_injector armed_world).0 ≡ ok tt
        → (b : B) × ((armed_injector.bpf ≡ some b)
            × (corrupted (corrupt_view cell b armed_world) fs ≡ garbled c 0 fs)
            × (corrupted (corrupt_view cell b (disarm aya corrupt armed_injector armed_world).2) fs
                ≡ map (λ f. (xdp_pass, f)) fs))
    armed-garbles fs h byte fits armed disarmed =
        let (b, (same, maps)) = view-arm armed in
        let (done, whole) =
          disarm_armed-ok aya corrupt ctx id iface c w b armed_world (rw same at disarmed) in
        let none = set_map-written aya cell holds b id every (word 0) armed_world done in
        (
          b,
          (
            rw same refl,
            rw maps (corrupted-garbled c 0 fs h byte (omega (arith, fits))),
            rw (same, whole, none) (corrupted-off _ _ _ fs),
          ),
        )
