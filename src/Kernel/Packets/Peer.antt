-- ===== src/Kernel/Packets/Peer.antt =====
-- Which frames the configuration of a partition injector cuts off, by the frame's parts.
use blackswan_harness.Prelude.{
  ℕ, ◌%◌, ◌^◌, ◌<◌, ◌==◌, ltb, Bool, false, Bool-cases, ◌||◌, ◌&&◌, if◌then◌else◌, bytes_eq, length,
  Option, none, some, ◌≡◌, refl, inl, inr, arith,
}
use blackswan_harness.Kernel.Bpf.Maps.{zeros16}
use blackswan_harness.Kernel.Xdp.{IpAddr, v4, v6, Partition, from_ne_bytes}
use blackswan_harness.Kernel.Packets.{Verdict, xdp_pass}
use blackswan_harness.Kernel.Packets.Partition.{PartitionMaps}
use blackswan_harness.Kernel.Packets.Wire.{
  Segment, Body4, first4, later4, Body6, whole, first6, later6, Network, ip4, ip6, other, Frame,
}
use blackswan_harness.Kernel.Packets.Wire.Expected.{
  hit, port_hit, body_hit4, body_hit6, drop_if, expected,
}

abbrev pub source : Network → Option IpAddr
source (ip4 h) = some (v4 h.a h.b h.c h.d)
source (ip6 h) = some (v6 h.source)
source (other kind raw) = none

-- The source port of TCP or UDP, which stands in a first fragment alone.
abbrev pub segment_port : Segment → Option ℕ
segment_port s = if s.proto == 17 || s.proto == 6 then some s.port else none

abbrev pub source_port : Network → Option ℕ
source_port (ip4 h) = elim h.body [ first4 s ↦ segment_port s | later4 _ _ _ ↦ none ]
source_port (ip6 h) = elim h.body [
  | whole s ↦ segment_port s
  | first6 _ _ _ s ↦ segment_port s
  | later6 _ _ _ _ _ _ ↦ none
]
source_port (other kind raw) = none

-- A source is the peer itself or, in the family that the peer does not have, the unspecified address,
-- 0.0.0.0 or ::.
unfoldable pub cut_off : IpAddr → IpAddr → Bool
cut_off (v4 a b c d) (v4 a' b' c' d') = (a' == a) && ((b' == b) && ((c' == c) && (d' == d)))
cut_off (v4 a b c d) (v6 octets) = bytes_eq octets zeros16
cut_off (v6 want) (v4 a b c d) = (a == 0) && ((b == 0) && ((c == 0) && (d == 0)))
cut_off (v6 want) (v6 octets) = bytes_eq octets want

abbrev is_port : ℕ → Option ℕ → Bool
is_port port none = false
is_port port (some p) = p == port

abbrev is_cut : IpAddr → Option IpAddr → Bool
is_cut peer none = false
is_cut peer (some s) = cut_off peer s

unfoldable pub cuts : Partition → Network → Bool
cuts c net =
    is_cut c.src_ip (source net) && ((c.src_port == 0) || is_port c.src_port (source_port net))

-- The program sees through two tags.
unfoldable pub cut_verdict : Partition → Frame → Verdict
cut_verdict c f = if ltb 2 (length f.tags) then xdp_pass else drop_if (cuts c f.network)

abbrev pub IsOctet : ℕ → Type 0
IsOctet a = a < 256

abbrev pub IsIpAddr : IpAddr → Type 0
IsIpAddr (v4 a b c d) = IsOctet a × IsOctet b × IsOctet c × IsOctet d
IsIpAddr (v6 octets) = length octets ≡ 16

ne_bytes_eq :
    (a b c d a' b' c' d' : ℕ)
    → IsIpAddr (v4 a b c d)
    → IsIpAddr (v4 a' b' c' d')
    → (from_ne_bytes a' b' c' d' == from_ne_bytes a b c d)
      ≡ ((a' == a) && ((b' == b) && ((c' == c) && (d' == d))))
unfolding from_ne_bytes
ne_bytes_eq a b c d a' b' c' d' h k = ground (arith, h, k)

ne_bytes_zero :
    (a b c d : ℕ)
    → (from_ne_bytes a b c d == 0) ≡ ((a == 0) && ((b == 0) && ((c == 0) && (d == 0))))
unfolding from_ne_bytes
ne_bytes_zero a b c d = ground arith

-- The maps of an armed injector: the address of the other family stays at zeros.
abbrev pub armed_maps : Partition → PartitionMaps
armed_maps c = record {
  enabled = 1;
  src_ip = elim c.src_ip [ v4 a b c d ↦ from_ne_bytes a b c d | v6 octets ↦ 0 ];
  src_ip6 = elim c.src_ip [ v4 a b c d ↦ zeros16 | v6 octets ↦ octets ];
  src_port = c.src_port;
}

segment-port :
    (m : PartitionMaps) (s : Segment)
    → m.src_port < 2 ^ 16
    → port_hit m s ≡ is_port m.src_port (segment_port s)
segment-port m s small =
    let whole : m.src_port % 2 ^ 16 ≡ m.src_port = omega (arith, small) in
    elim (Bool-cases (s.proto == 17 || s.proto == 6)) [
      | inl e ↦ rw (e, whole) refl
      | inr e ↦ rw e refl
    ]

body4-port :
    (m : PartitionMaps) (body : Body4)
    → m.src_port < 2 ^ 16
    → body_hit4 m body
      ≡ is_port m.src_port (elim body [ first4 s ↦ segment_port s | later4 _ _ _ ↦ none ])
body4-port m (first4 s) small = segment-port m s small
body4-port m (later4 offset proto raw) small = refl

body6-port :
    (m : PartitionMaps) (body : Body6)
    → m.src_port < 2 ^ 16
    → body_hit6 m body
      ≡ is_port m.src_port (elim body [
        | whole s ↦ segment_port s
        | first6 _ _ _ s ↦ segment_port s
        | later6 _ _ _ _ _ _ ↦ none
      ])
body6-port m (whole s) small = segment-port m s small
body6-port m (first6 reserved flags ident s) small = segment-port m s small
body6-port m (later6 reserved flags ident offset proto raw) small = refl

abbrev pub HasOctets : Network → Type 0
HasOctets (ip4 h) = IsIpAddr (v4 h.a h.b h.c h.d)
HasOctets (ip6 h) = Unit {0}
HasOctets (other kind raw) = Unit {0}

hit-cuts :
    (ip : IpAddr) (port : ℕ) (net : Network)
    → IsIpAddr ip
    → port < 2 ^ 16
    → HasOctets net
    → let c : Partition = record { src_ip = ip; src_port = port } in
      hit (armed_maps c) net ≡ cuts c net
unfolding hit cuts cut_off
hit-cuts (v4 a b c d) port (ip4 h) wi small wn =
    rw
      (
        ne_bytes_eq a b c d h.a h.b h.c h.d wi wn,
        body4-port (armed_maps record { src_ip = v4 a b c d; src_port = port }) h.body small,
      )
      refl
hit-cuts (v4 a b c d) port (ip6 h) wi small wn =
    rw (body6-port (armed_maps record { src_ip = v4 a b c d; src_port = port }) h.body small) refl
hit-cuts (v6 want) port (ip4 h) wi small wn =
    rw
      (
        ne_bytes_zero h.a h.b h.c h.d,
        body4-port (armed_maps record { src_ip = v6 want; src_port = port }) h.body small,
      )
      refl
hit-cuts (v6 want) port (ip6 h) wi small wn =
    rw (body6-port (armed_maps record { src_ip = v6 want; src_port = port }) h.body small) refl
hit-cuts (v4 a b c d) port (other kind raw) wi small wn = refl
hit-cuts (v6 want) port (other kind raw) wi small wn = refl

-- The verdict that the maps of an armed injector lead to is that of its configuration.
pub expected-cut_verdict :
    (c : Partition) (f : Frame)
    → IsIpAddr c.src_ip
    → c.src_port < 2 ^ 16
    → HasOctets f.network
    → expected (armed_maps c) f ≡ cut_verdict c f
unfolding expected cut_verdict
expected-cut_verdict c f wi small wn = rw (hit-cuts c.src_ip c.src_port f.network wi small wn) refl

pub octets_size : (c : Partition) → IsIpAddr c.src_ip → length (armed_maps c).src_ip6 ≡ 16
octets_size c w = size c.src_ip c.src_port w
  where
    size :
        (ip : IpAddr) (port : ℕ)
        → IsIpAddr ip
        → length (armed_maps record { src_ip = ip; src_port = port }).src_ip6 ≡ 16
    size (v4 a b c d) port w = refl
    size (v6 octets) port w = w
