-- ===== src/Kernel/Packets/Partition.antt =====
-- crates/kernel/bpf/xdp_partition.c: the program that drops the packets of one peer. A pointer is an
-- offset from `data`, and a read outside the frame has no result. The host is little-endian, as
-- `from_ne_bytes` has it. A check that passes the frame ends the program, so what follows it is an
-- argument or stands under it.
use blackswan_harness.Prelude.{
  ℕ, zero, suc, ◌+◌, ◌*◌, ◌/◌, ◌%◌, ◌^◌, ◌==◌, ltb, Bool, true, false, ◌||◌, not, if◌then◌else◌,
  Bytes, [], ◌∷◌, length, Option, none, some,
}
use blackswan_harness.Kernel.Xdp.{from_ne_bytes}
use blackswan_harness.Kernel.Packets.{Verdict, xdp_pass, xdp_drop}

-- The maps of the program.
pub record PartitionMaps : Type 0 where
  pub enabled : ℕ
  pub src_ip : ℕ
  pub src_ip6 : Bytes
  pub src_port : ℕ

infixl 5 ◌>>=◌
abbrev pub ◌>>=◌ : {A B : Type 0} → Option A → (A → Option B) → Option B
none >>= rest = none
some x >>= rest = rest x

unfoldable pub get_elem? : Bytes → ℕ → Option ℕ
get_elem? [] i = none
get_elem? (b ∷ frame) zero = some b
get_elem? (b ∷ frame) (suc i) = get_elem? frame i

-- Two bytes in network order, and four in the order of the host.
unfoldable pub be16 : Bytes → ℕ → Option ℕ
be16 frame i = do high ← get_elem? frame i; low ← get_elem? frame (i + 1); some (high * 256 + low)

unfoldable pub ne32 : Bytes → ℕ → Option ℕ
ne32 frame i = do
  a ← get_elem? frame i
  b ← get_elem? frame (i + 1)
  c ← get_elem? frame (i + 2)
  d ← get_elem? frame (i + 3)
  some (from_ne_bytes a b c d)

-- `p > data_end`.
abbrev pub past : Bytes → ℕ → Bool
past frame p = ltb (length frame) p

-- The source port, or none where the C function gives -1.
unfoldable pub extract_src_port : Bytes → ℕ → ℕ → Option (Option ℕ)
extract_src_port frame l4 proto =
    if proto == 17
    then (if past frame (l4 + 8) then some none else do port ← be16 frame l4; some (some port))
    else if proto == 6
    then (if past frame (l4 + 20) then some none else do port ← be16 frame l4; some (some port))
    else some none

abbrev pub compare_port : PartitionMaps → Option ℕ → Verdict
compare_port m none = xdp_pass
compare_port m (some port) = if port == m.src_port % 2 ^ 16 then xdp_drop else xdp_pass

unfoldable pub match_port : PartitionMaps → Bytes → ℕ → ℕ → Option Verdict
match_port m frame l4 proto = do port ← extract_src_port frame l4 proto; some (compare_port m port)

-- Behind the comparison of the addresses, and behind that of the port with 0.
unfoldable pub ipv4_port : PartitionMaps → Bytes → ℕ → ℕ → Option Verdict
ipv4_port m frame l3 l4 = do
  frag_off ← be16 frame (l3 + 6)
  if not (frag_off % 2 ^ 13 == 0)
      then some xdp_pass
      else do protocol ← get_elem? frame (l3 + 9); match_port m frame l4 protocol

unfoldable pub ipv4 : PartitionMaps → Bytes → ℕ → Option Verdict
ipv4 m frame l3 = if past frame (l3 + 20) then some xdp_pass else do
  first ← get_elem? frame l3
  let ihl = first % 2 ^ 4
  if ltb ihl 5 then some xdp_pass else if past frame (l3 + ihl * 4) then some xdp_pass else do
    saddr ← ne32 frame (l3 + 12)
    if not (saddr == m.src_ip)
        then some xdp_pass
        else if m.src_port == 0
        then some xdp_drop
        else ipv4_port m frame l3 (l3 + ihl * 4)

-- The loop over the bytes of the address, which ends at the first that differs.
unfoldable pub ip6_matches : Bytes → ℕ → Bytes → Option Bool
ip6_matches frame i [] = some true
ip6_matches frame i (b ∷ want) = do
  a ← get_elem? frame i
  if a == b then ip6_matches frame (i + 1) want else some false

-- At most one fragment header.
unfoldable pub ipv6_port : PartitionMaps → Bytes → ℕ → ℕ → Option Verdict
ipv6_port m frame l4 nexthdr =
    if not (nexthdr == 44)
    then match_port m frame l4 nexthdr
    else if past frame (l4 + 8)
    then some xdp_pass
    else do
      frag_off_and_flags ← be16 frame (l4 + 2)
      if not (frag_off_and_flags / 2 ^ 3 == 0)
          then some xdp_pass
          else do inner ← get_elem? frame l4; match_port m frame (l4 + 8) inner

unfoldable pub ipv6 : PartitionMaps → Bytes → ℕ → Option Verdict
ipv6 m frame l3 = if past frame (l3 + 40) then some xdp_pass else do
  matches ← ip6_matches frame (l3 + 8) m.src_ip6
  if not matches
      then some xdp_pass
      else if m.src_port == 0
      then some xdp_drop
      else do nexthdr ← get_elem? frame (l3 + 6); ipv6_port m frame (l3 + 40) nexthdr

-- ETH_P_8021Q and ETH_P_8021AD.
abbrev pub is_vlan : ℕ → Bool
is_vlan h_proto = (h_proto == 33024) || (h_proto == 34984)

-- Up to so many tags; the source writes the two out.
unfoldable pub untag : ℕ → Bytes → ℕ → ℕ → (ℕ → ℕ → Option Verdict) → Option Verdict
untag zero frame h_proto l3 rest = rest h_proto l3
untag (suc tags) frame h_proto l3 rest =
    if not (is_vlan h_proto)
    then rest h_proto l3
    else if past frame (l3 + 4)
    then some xdp_pass
    else do encapsulated ← be16 frame (l3 + 2); untag tags frame encapsulated (l3 + 4) rest

unfoldable pub by_proto : PartitionMaps → Bytes → ℕ → ℕ → Option Verdict
by_proto m frame h_proto l3 =
    if h_proto == 2048
    then ipv4 m frame l3
    else if h_proto == 34525
    then ipv6 m frame l3
    else some xdp_pass

unfoldable pub xdp_partition : PartitionMaps → Bytes → Option Verdict
xdp_partition m frame =
    if m.enabled == 0
    then some xdp_pass
    else if past frame 14
    then some xdp_pass
    else do h_proto ← be16 frame 12; untag 2 frame h_proto 14 (by_proto m frame)
