-- ===== src/Kernel/Packets/Wire/Exact.antt =====
-- The verdict of the partition program on every well-formed frame.
use blackswan_harness.Prelude.{
  ℕ, ◌==◌, ltb, ltb-eq-false, lt→ltb, true, false, Bool-cases, if◌then◌else◌, Bytes, ◌++◌,
  append_assoc, length, length-append, some, ◌≡◌, refl, All, subst, sym, ◌∙◌, inl, inr, arith, List,
  [],
}
use blackswan_harness.Kernel.Packets.{xdp_pass}
use blackswan_harness.Kernel.Packets.Partition.{
  PartitionMaps, be16, past, by_proto, untag, xdp_partition,
}
use blackswan_harness.Kernel.Packets.Wire.{
  word16, Network, ip4, ip6, other, ethertype, network_bytes, kind, behind, Frame, frame_bytes,
}
use blackswan_harness.Kernel.Packets.Wire.Access.{past-false}
use blackswan_harness.Kernel.Packets.Wire.Ports.{be16-head}
use blackswan_harness.Kernel.Packets.Wire.Datagram4.{ipv4-hit}
use blackswan_harness.Kernel.Packets.Wire.Datagram6.{ipv6-hit}
use blackswan_harness.Kernel.Packets.Wire.Tags.{Stands, Refused, untag-Stands}
use blackswan_harness.Kernel.Packets.Wire.Expected.{
  IsTag, IsNetwork, IsFrame, hit, drop_if, expected,
}

unknown :
    (m : PartitionMaps) (frame : Bytes) (l3 kind : ℕ) (raw : Bytes)
    → IsNetwork (other kind raw)
    → by_proto m frame kind l3 ≡ some (drop_if (hit m (other kind raw)))
unfolding by_proto hit
unknown m frame l3 kind raw (apart4, apart6, _, _) =
    let differs4 : (kind == 2048) ≡ false = ground (arith, apart4) in
    let differs6 : (kind == 34525) ≡ false = ground (arith, apart6) in rw (differs4, differs6) refl

by_proto-hit :
    (m : PartitionMaps) (frame front : Bytes) (net : Network)
    → frame ≡ front ++ network_bytes net
    → length m.src_ip6 ≡ 16
    → IsNetwork net
    → by_proto m frame (ethertype net) (length front) ≡ some (drop_if (hit m net))
unfolding by_proto
by_proto-hit m frame front (ip4 h) e octets w = rw e (ipv4-hit m front h w)
by_proto-hit m frame front (ip6 h) e octets w = rw e (ipv6-hit m front h octets w)
by_proto-hit m frame front (other kind raw) e octets w = unknown m frame (length front) kind raw w

by_proto-tag :
    (m : PartitionMaps) (frame : Bytes) (tpid l3 : ℕ)
    → IsTag tpid
    → by_proto m frame tpid l3 ≡ some xdp_pass
unfolding by_proto
by_proto-tag m frame tpid l3 (inl e) = rw e refl
by_proto-tag m frame tpid l3 (inr e) = rw e refl

-- Behind the ethernet header.
untagged-expected :
    (m : PartitionMaps) (frame front : Bytes) (tags : List (ℕ × ℕ)) (net : Network)
    → frame ≡ front ++ behind tags net
    → All (λ tag. IsTag tag.0) tags
    → IsNetwork net
    → length m.src_ip6 ≡ 16
    → untag 2 frame (kind tags net) (length front) (by_proto m frame)
      ≡ some (if ltb 2 (length tags) then xdp_pass else drop_if (hit m net))
unfolding Stands Refused
untagged-expected m frame front tags net e tagged w octets =
    elim (untag-Stands 2 frame front tags net (by_proto m frame) e tagged w) [
      | inl (at, (few, there, r)) ↦
          let all_off : ltb 2 (length tags) ≡ false = ltb-eq-false 2 (length tags) few in
          rw all_off (r ∙ by_proto-hit m frame at net there octets w)
      | inr (tpid, l3, many, tag, r) ↦
          let left : ltb 2 (length tags) ≡ true = lt→ltb 2 (length tags) many in
          rw left (r ∙ by_proto-tag m frame tpid l3 tag)
    ]

-- On every well-formed frame, cut off nowhere, the program gives the expected verdict, if the map
-- of the IPv6 address holds sixteen bytes.
pub xdp_partition-expected :
    (m : PartitionMaps) (f : Frame)
    → IsFrame f
    → length m.src_ip6 ≡ 16
    → xdp_partition m (frame_bytes f) ≡ some (expected m f)
unfolding xdp_partition expected frame_bytes
xdp_partition-expected m f w octets = elim (Bool-cases (m.enabled == 0)) [
  | inl off ↦ rw off refl
  | inr on ↦
      let next = kind f.tags f.network in
      let rest = behind f.tags f.network in
      let front = f.macs ++ word16 next [] in
      let split : f.macs ++ word16 next rest ≡ front ++ rest =
        sym (append_assoc f.macs (word16 next []) rest) in
      let far : length front ≡ 14 =
        omega (arith, length-append f.macs (word16 next []), w.macs_size) in
      let roomy : past (f.macs ++ word16 next rest) 14 ≡ false =
        past-false (f.macs ++ word16 next rest) 14
          (omega (arith, length-append f.macs (word16 next rest), w.macs_size)) in
      let read =
        subst (λ i. be16 (f.macs ++ word16 next rest) i ≡ some next) w.macs_size
          (be16-head f.macs next rest) in
      let verdict =
        untagged-expected m (f.macs ++ word16 next rest) front f.tags f.network split w.tagged
          w.network octets in
      rw (on, roomy, read) (rw far at verdict)
]
