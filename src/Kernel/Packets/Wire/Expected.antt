-- ===== src/Kernel/Packets/Wire/Expected.antt =====
-- What the partition program should do with a frame, by the frame's parts.
use blackswan_harness.Prelude.{
  ℕ, ◌*◌, ◌%◌, ◌^◌, ◌≤◌, ◌<◌, ◌==◌, ltb, Bool, false, ◌||◌, ◌&&◌, if◌then◌else◌, bytes_eq, length,
  All, ◌≡◌, ◌≢◌, ◌⊎◌,
}
use blackswan_harness.Kernel.Xdp.{from_ne_bytes}
use blackswan_harness.Kernel.Packets.{Verdict, xdp_pass, xdp_drop}
use blackswan_harness.Kernel.Packets.Partition.{PartitionMaps}
use blackswan_harness.Kernel.Packets.Wire.{
  Segment, Body4, first4, later4, Ip4, Body6, whole, first6, later6, Ip6, Network, ip4, ip6, other,
  Frame,
}

-- UDP has a header of 8 bytes and TCP one of 20, the port included.
abbrev pub min_rest : ℕ → ℕ
min_rest proto = if proto == 17 then 6 else if proto == 6 then 18 else 0

abbrev pub HasRoom : Segment → Type 0
HasRoom s = min_rest s.proto ≤ length s.rest

abbrev pub IsBody4 : Body4 → Type 0
IsBody4 (first4 s) = HasRoom s
IsBody4 (later4 offset proto raw) = (0 < offset) × (offset < 2 ^ 13)

pub record IsIp4 (h : Ip4) : Type 0 where
  pub dest_size : length h.dest ≡ 4
  pub few_words : h.words ≤ 10
  pub options_size : length h.options ≡ h.words * 4
  pub body : IsBody4 h.body

abbrev pub IsBody6 : Body6 → Type 0
IsBody6 (whole s) = (s.proto ≢ 44) × HasRoom s
IsBody6 (first6 reserved flags ident s) = (flags < 8) × (length ident ≡ 4) × HasRoom s
IsBody6 (later6 reserved flags ident offset proto raw) =
    (flags < 8) × (length ident ≡ 4) × (0 < offset)

pub record IsIp6 (h : Ip6) : Type 0 where
  pub source_size : length h.source ≡ 16
  pub dest_size : length h.dest ≡ 16
  pub body : IsBody6 h.body

abbrev pub IsTag : ℕ → Type 0
IsTag tpid = (tpid ≡ 33024) ⊎ (tpid ≡ 34984)

abbrev pub IsNetwork : Network → Type 0
IsNetwork (ip4 h) = IsIp4 h
IsNetwork (ip6 h) = IsIp6 h
IsNetwork (other kind raw) = (kind ≢ 2048) × (kind ≢ 34525) × (kind ≢ 33024) × (kind ≢ 34984)

pub record IsFrame (f : Frame) : Type 0 where
  pub macs_size : length f.macs ≡ 12
  pub tagged : All (λ tag. IsTag tag.0) f.tags
  pub network : IsNetwork f.network

-- A segment comes from the port that is cut off.
abbrev pub port_hit : PartitionMaps → Segment → Bool
port_hit m s = (s.proto == 17 || s.proto == 6) && (s.port == m.src_port % 2 ^ 16)

abbrev pub body_hit4 : PartitionMaps → Body4 → Bool
body_hit4 m (first4 s) = port_hit m s
body_hit4 m (later4 offset proto raw) = false

abbrev pub body_hit6 : PartitionMaps → Body6 → Bool
body_hit6 m (whole s) = port_hit m s
body_hit6 m (first6 reserved flags ident s) = port_hit m s
body_hit6 m (later6 reserved flags ident offset proto raw) = false

-- The source address is that of the maps and, where a port is set, the segment comes from it.
unfoldable pub hit : PartitionMaps → Network → Bool
hit m (ip4 h) =
    (from_ne_bytes h.a h.b h.c h.d == m.src_ip) && ((m.src_port == 0) || body_hit4 m h.body)
hit m (ip6 h) = bytes_eq h.source m.src_ip6 && ((m.src_port == 0) || body_hit6 m h.body)
hit m (other kind raw) = false

abbrev pub drop_if : Bool → Verdict
drop_if b = if b then xdp_drop else xdp_pass

-- A frame with more than two tags is passed on.
unfoldable pub expected : PartitionMaps → Frame → Verdict
expected m f =
    if m.enabled == 0
    then xdp_pass
    else if ltb 2 (length f.tags)
    then xdp_pass
    else drop_if (hit m f.network)
