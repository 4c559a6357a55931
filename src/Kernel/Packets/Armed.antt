-- ===== src/Kernel/Packets/Armed.antt =====
-- The partition injector and its program together: what the program finds in its maps once the
-- injector is armed, and what it does to frames.
use blackswan_harness.Prelude.{
  ℕ, ◌<◌, ◌^◌, false, Bytes, bytes_eq, Text, codes, ok, some, [], ◌∷◌, ◌≡◌, refl, ◌∙◌, ap,
}
use blackswan_harness.Core.Fault.{FaultContext}
use blackswan_harness.Kernel.Bpf.{MapValue, word, bytes16, Aya, set_map}
use blackswan_harness.Kernel.Bpf.Maps.{
  HoldsMaps, zeros16, as_word, as_octets, set_map-written, set_map-apart, load_and_attach-fresh,
}
use blackswan_harness.Kernel.Xdp.{
  IpAddr, v4, v6, Partition, partition, from_ne_bytes, source_setting, XdpInjector, new,
  write_settings, arm, disarm,
}
use blackswan_harness.Kernel.Xdp.Armed.{
  write_settings-ok, arm_new-ok, disarm_armed-ok, armed_with, load_part,
}
use blackswan_harness.Kernel.Packets.{xdp_pass}
use blackswan_harness.Kernel.Packets.Partition.{PartitionMaps, xdp_partition}
use blackswan_harness.Kernel.Packets.Wire.{Frame, frame_bytes}
use blackswan_harness.Kernel.Packets.Wire.Expected.{IsFrame}
use blackswan_harness.Kernel.Packets.Wire.Exact.{xdp_partition-expected}
use blackswan_harness.Kernel.Packets.Peer.{
  armed_maps, HasOctets, IsIpAddr, cut_verdict, expected-cut_verdict, octets_size,
}

-- The maps as the program reads them.
abbrev pub view : {W B : Type 0} → (Text → B → W → MapValue) → B → W → PartitionMaps
view cell b w = record {
  enabled = as_word (cell (codes "partition_enabled") b w);
  src_ip = as_word (cell (codes "partition_src_ip") b w);
  src_ip6 = as_octets (cell (codes "partition_src_ip6") b w);
  src_port = as_word (cell (codes "partition_src_port") b w);
}

abbrev port : Text
port = codes "partition_src_port"

abbrev toggle : Text
toggle = codes "partition_enabled"

off-passes :
    (m : PartitionMaps) (frame : Bytes) → m.enabled ≡ 0 → xdp_partition m frame ≡ some xdp_pass
unfolding xdp_partition
off-passes m frame e = rw e refl

module _ {W B : Type 0} (aya : Aya W B) (cell : Text → B → W → MapValue)
    (holds : HoldsMaps aya cell) where
  -- The source address under its name, the port and the toggle are written; the map of the other
  -- family is not.
  cells-written :
      (b : B) (id name unset : Text) (value : MapValue) (src_port : ℕ) (w : W)
      → bytes_eq port name ≡ false
      → bytes_eq toggle name ≡ false
      → bytes_eq name unset ≡ false
      → bytes_eq port unset ≡ false
      → bytes_eq toggle unset ≡ false
      → let settings =
          write_settings aya partition b id ((name, value) ∷ (port, word src_port) ∷ []) w in
        let done = set_map aya b id toggle (word 1) settings.1 in
        settings.0 ≡ ok tt
        → done.0 ≡ ok tt
        → (cell name b done.1 ≡ value)
          × (cell unset b done.1 ≡ cell unset b w)
          × (cell port b done.1 ≡ word src_port)
          × (cell toggle b done.1 ≡ word 1)
  unfolding bytes_eq write_settings
  cells-written b id name unset value src_port w p1 p2 p3 p4 p5 set on =
      let (set1, more, last) =
        write_settings-ok aya partition b id name value ((port, word src_port) ∷ []) w set in
      let w1 = (set_map aya b id name value w).1 in
      let (set2, _, last2) = write_settings-ok aya partition b id port (word src_port) [] w1 more in
      let w2 = (set_map aya b id port (word src_port) w1).1 in
      let world : (write_settings aya partition b id ((name, value) ∷ (port, word src_port) ∷ [])
            w).1
          ≡ w2 =
        last ∙ last2 in
      let on' : (set_map aya b id toggle (word 1) w2).0 ≡ ok tt = rw world at on in
      let apart3 = λ (other : Text) (e : bytes_eq toggle other ≡ false).
        set_map-apart aya cell holds b id toggle other (word 1) w2 on' e in
      let apart2 = λ (other : Text) (e : bytes_eq port other ≡ false).
        set_map-apart aya cell holds b id port other (word src_port) w1 set2 e in
      rw world (
        apart3 name p2 ∙ apart2 name p1 ∙ set_map-written aya cell holds b id name value w set1,
        apart3 unset p5
            ∙ apart2 unset p4
            ∙ set_map-apart aya cell holds b id name unset value w set1 p3,
        apart3 port refl ∙ set_map-written aya cell holds b id port (word src_port) w1 set2,
        set_map-written aya cell holds b id toggle (word 1) w2 on',
      )

  Zeros : B → W → Type 0
  Zeros b w = (name : Text) → (as_word (cell name b w) ≡ 0) × (as_octets (cell name b w) ≡ zeros16)

  view-settings :
      (b : B) (id : Text) (ip : IpAddr) (src_port : ℕ) (w : W)
      → Zeros b w
      → let settings =
          write_settings aya partition b id (source_setting ip ∷ (port, word src_port) ∷ []) w in
        let done = set_map aya b id toggle (word 1) settings.1 in
        settings.0 ≡ ok tt
        → done.0 ≡ ok tt
        → view cell b done.1 ≡ armed_maps record { src_ip = ip; src_port = src_port }
  unfolding bytes_eq Zeros
  view-settings b id (v4 a1 a2 a3 a4) src_port w zeros set on =
      let (a, u, q, t) =
        cells-written b id (codes "partition_src_ip") (codes "partition_src_ip6")
          (word (from_ne_bytes a1 a2 a3 a4)) src_port w refl refl refl refl refl set on in
      rw (a, u, q, t, (zeros (codes "partition_src_ip6")).1) refl
  view-settings b id (v6 octets) src_port w zeros set on =
      let (a, u, q, t) =
        cells-written b id (codes "partition_src_ip6") (codes "partition_src_ip") (bytes16 octets)
          src_port w refl refl refl refl refl set on in
      rw (a, u, q, t, (zeros (codes "partition_src_ip")).0) refl

  module _ (ctx : FaultContext) (id iface : Text) (c : Partition) (w : W) where
    abbrev pub armed_injector : XdpInjector B Partition
    armed_injector = (arm aya partition ctx (new id iface c) w).1

    abbrev pub armed_world : W
    armed_world = (arm aya partition ctx (new id iface c) w).2

    -- Behind a first arm that succeeds, the program finds the peer of the injector in its maps.
    view-arm :
        (arm aya partition ctx (new id iface c) w).0 ≡ ok tt
        → (b : B) × ((armed_injector ≡ armed_with aya partition ctx id iface c w b)
            × (view cell b armed_world ≡ armed_maps c))
    unfolding Zeros
    view-arm armed =
        let (b, (e, k, t, whole)) = arm_new-ok aya partition ctx id iface c w armed in
        let loaded = (load_part aya partition ctx id iface c w).1 in
        let zeros = λ (name : Text).
          load_and_attach-fresh aya cell holds id partition.object partition.program iface name b w
            e in
        let written = view-settings b id c.src_ip c.src_port loaded zeros k t in
        (b, (ap (λ t. t.1) whole, ap (λ t. view cell b t.2) whole ∙ written))

    disarm-passes :
        (b : B) (v : W) (frame : Bytes)
        → (disarm aya partition (armed_with aya partition ctx id iface c w b) v).0 ≡ ok tt
        → xdp_partition
            (view cell b (disarm aya partition (armed_with aya partition ctx id iface c w b) v).2)
            frame
          ≡ some xdp_pass
    disarm-passes b v frame h =
        let (done, whole) = disarm_armed-ok aya partition ctx id iface c w b v h in
        let zero = set_map-written aya cell holds b id toggle (word 0) v done in
        off-passes _ frame (rw whole (ap as_word zero))

    -- A first arm that succeeds, for a peer whose address and port are in range, makes the program
    -- give every well-formed frame the verdict of the configuration: to drop what comes from the
    -- peer or, in the other family, from the unspecified address. After a disarm that succeeds the
    -- frame passes.
    pub armed-cuts :
        (f : Frame)
        → IsFrame f
        → HasOctets f.network
        → IsIpAddr c.src_ip
        → c.src_port < 2 ^ 16
        → (arm aya partition ctx (new id iface c) w).0 ≡ ok tt
        → (disarm aya partition armed_injector armed_world).0 ≡ ok tt
        → (b : B) × ((armed_injector.bpf ≡ some b)
            × (xdp_partition (view cell b armed_world) (frame_bytes f) ≡ some (cut_verdict c f))
            × (xdp_partition
                  (view cell b (disarm aya partition armed_injector armed_world).2)
                  (frame_bytes f)
                ≡ some xdp_pass))
    armed-cuts f wf wn wi small armed disarmed =
        let (b, (whole, maps)) = view-arm armed in
        let off = disarm-passes b armed_world (frame_bytes f) (rw whole at disarmed) in
        (
          b,
          (
            rw whole refl,
            rw maps (
                xdp_partition-expected (armed_maps c) f wf (octets_size c wi)
                ∙ ap some (expected-cut_verdict c f wi small wn)),
            rw whole off,
          ),
        )
