-- ===== src/Kernel/Packets/Wire.antt =====
-- The frames that crates/kernel/bpf/xdp_partition.c takes apart, put together: Ethernet with any
-- number of 802.1Q or 802.1ad tags, IPv4 with options, IPv6 with at most one fragment header, and
-- the ports of TCP and UDP. Next to them stands what should happen to a frame, by its parts and not
-- by its bytes.
pub mod Expected
pub mod Access
pub mod Ports
pub mod Tags
pub mod Datagram4
pub mod Datagram6
pub mod Exact
use blackswan_harness.Prelude.{
  ℕ, zero, suc, ◌+◌, ◌*◌, ◌/◌, ◌%◌, ◌^◌, ◌≤◌, ◌<◌, ◌==◌, ltb, Bool, true, false, ◌||◌, ◌&&◌,
  if◌then◌else◌, Bytes, bytes_eq, List, [], ◌∷◌, ◌++◌, length, All, ◌≡◌, ◌≢◌, ◌⊎◌,
}
use blackswan_harness.Kernel.Xdp.{IpAddr, v4, v6, from_ne_bytes}
use blackswan_harness.Kernel.Packets.{Verdict, xdp_pass, xdp_drop}
use blackswan_harness.Kernel.Packets.Partition.{PartitionMaps}

-- A field of two bytes in network order.
abbrev pub word16 : ℕ → Bytes → Bytes
word16 v rest = v / 256 ∷ v % 256 ∷ rest

-- What follows the network header: a protocol, its first field, which is the source port of TCP and of
-- UDP, and the rest.
pub record Segment : Type 0 where
  pub proto : ℕ
  pub port : ℕ
  pub rest : Bytes

abbrev pub segment_bytes : Segment → Bytes
segment_bytes s = word16 s.port s.rest

-- The first fragment of a datagram, or a later one, which begins with no ports.
pub data Body4 : Type 0 where
  first4 : Segment → Body4
  later4 : ℕ → ℕ → Bytes → Body4

pub record Ip4 : Type 0 where
  pub tos : ℕ
  pub total : ℕ
  pub ident : ℕ
  pub flags : ℕ
  pub ttl : ℕ
  pub checksum : ℕ
  pub a : ℕ
  pub b : ℕ
  pub c : ℕ
  pub d : ℕ
  pub dest : Bytes
  pub words : ℕ
  pub options : Bytes
  pub body : Body4

-- The offset, the protocol and the bytes of a body.
abbrev pub offset4 : Body4 → ℕ
offset4 (first4 s) = 0
offset4 (later4 offset proto raw) = offset

abbrev pub proto4 : Body4 → ℕ
proto4 (first4 s) = s.proto
proto4 (later4 offset proto raw) = proto

abbrev pub bytes4 : Body4 → Bytes
bytes4 (first4 s) = segment_bytes s
bytes4 (later4 offset proto raw) = raw

unfoldable pub ip4_bytes : Ip4 → Bytes
ip4_bytes h =
    (4 * 16 + (5 + h.words))
    ∷ h.tos
    ∷ word16 h.total (
        word16 h.ident (
          word16 (h.flags * 2 ^ 13 + offset4 h.body) (
            h.ttl
            ∷ proto4 h.body
            ∷ word16 h.checksum
                (h.a ∷ h.b ∷ h.c ∷ h.d ∷ (h.dest ++ (h.options ++ bytes4 h.body))))))

-- The body of IPv6: without a fragment header, or behind one.
pub data Body6 : Type 0 where
  whole : Segment → Body6
  first6 : ℕ → ℕ → Bytes → Segment → Body6
  later6 : ℕ → ℕ → Bytes → ℕ → ℕ → Bytes → Body6

abbrev pub next6 : Body6 → ℕ
next6 (whole s) = s.proto
next6 (first6 reserved flags ident s) = 44
next6 (later6 reserved flags ident offset proto raw) = 44

abbrev pub bytes6 : Body6 → Bytes
bytes6 (whole s) = segment_bytes s
bytes6 (first6 reserved flags ident s) =
    s.proto ∷ reserved ∷ word16 flags (ident ++ segment_bytes s)
bytes6 (later6 reserved flags ident offset proto raw) =
    proto ∷ reserved ∷ word16 (offset * 2 ^ 3 + flags) (ident ++ raw)

pub record Ip6 : Type 0 where
  pub version : ℕ
  pub flow : ℕ
  pub payload_len : ℕ
  pub hops : ℕ
  pub source : Bytes
  pub dest : Bytes
  pub body : Body6

unfoldable pub ip6_bytes : Ip6 → Bytes
ip6_bytes h = word16 h.version (
    word16 h.flow
      (word16 h.payload_len (next6 h.body ∷ h.hops ∷ (h.source ++ (h.dest ++ bytes6 h.body)))))

pub data Network : Type 0 where
  ip4 : Ip4 → Network
  ip6 : Ip6 → Network
  other : ℕ → Bytes → Network

abbrev pub ethertype : Network → ℕ
ethertype (ip4 h) = 2048
ethertype (ip6 h) = 34525
ethertype (other kind raw) = kind

abbrev pub network_bytes : Network → Bytes
network_bytes (ip4 h) = ip4_bytes h
network_bytes (ip6 h) = ip6_bytes h
network_bytes (other kind raw) = raw

-- Tags from the outside in, each with its identifier and its control information.
pub record Frame : Type 0 where
  pub macs : Bytes
  pub tags : List (ℕ × ℕ)
  pub network : Network

abbrev pub kind : List (ℕ × ℕ) → Network → ℕ
kind [] net = ethertype net
kind ((tpid, tci) ∷ tags) net = tpid

abbrev pub behind : List (ℕ × ℕ) → Network → Bytes
behind [] net = network_bytes net
behind ((tpid, tci) ∷ tags) net = word16 tci (word16 (kind tags net) (behind tags net))

unfoldable pub frame_bytes : Frame → Bytes
frame_bytes f = f.macs ++ word16 (kind f.tags f.network) (behind f.tags f.network)
