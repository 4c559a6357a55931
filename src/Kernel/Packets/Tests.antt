-- ===== src/Kernel/Packets/Tests.antt =====
-- Runs of the XDP programs.
use blackswan_harness.Prelude.{
  ◌≢◌, ◌≤◌, ℕ, some, ◌++◌, ◌+◌, ◌*◌, ◌%◌, ◌^◌, Bytes, [], ◌∷◌, ◌≡◌, refl, arith,
}
use blackswan_harness.Kernel.Packets.{
  Verdict, xdp_drop, LossMaps, CorruptMaps, xdp_pass, xdp_pktloss, xdp_corrupt, xor_at,
}
use blackswan_harness.Kernel.Xdp.{from_ne_bytes}
use blackswan_harness.Kernel.Packets.Corrupted.{SameBut, xdp_corrupt-SameBut}
use blackswan_harness.Kernel.Packets.Partition.{
  PartitionMaps, xdp_partition, by_proto, ipv4, ipv4_port, untag, match_port, extract_src_port,
  be16, ne32, get_elem?,
}
use blackswan_harness.Kernel.Packets.Reads.{xdp_partition-returns}
use blackswan_harness.Kernel.Packets.Spared.{FromPeer, xdp_partition-FromPeer}
use blackswan_harness.Kernel.Packets.Loss.{drops, drops-count}

abbrev every_third : LossMaps
every_third = record { drop_every_n = 3; packet_count = 4 }

three_lost : drops 9 every_third ≡ 3
unfolding drops xdp_pktloss
three_lost = refl

three_lost-count : drops 9 every_third * 3 + (4 + 9) % 3 ≡ 9 + 4 % 3
three_lost-count = drops-count 9 every_third (omega arith) (omega arith)

-- An offset of 4097 is masked to 1.
abbrev second_byte : CorruptMaps
second_byte = record {
  corrupt_every_n = 2;
  corrupt_offset = 4097;
  corrupt_mask = 255;
  packet_count = 1;
}

abbrev frame : Bytes
frame = 7 ∷ 15 ∷ 9 ∷ []

flipped : (xdp_corrupt second_byte frame).1 ≡ 7 ∷ 240 ∷ 9 ∷ []
unfolding xdp_corrupt xor_at
flipped = refl

corrupted_frame :
    ((xdp_corrupt second_byte frame).0 ≡ xdp_pass)
    × SameBut (4097 % 2 ^ 12) frame (xdp_corrupt second_byte frame).1
corrupted_frame = xdp_corrupt-SameBut second_byte frame

-- The peer 10.0.0.7, port 9000, and a frame of it with one tag.
abbrev peer : PartitionMaps
peer = record {
  enabled = 1;
  src_ip = 117440522;
  src_ip6 = 0 ∷ 0 ∷ 0 ∷ 0 ∷ 0 ∷ 0 ∷ 0 ∷ 0 ∷ 0 ∷ 0 ∷ 0 ∷ 0 ∷ 0 ∷ 0 ∷ 0 ∷ 0 ∷ [];
  src_port = 9000;
}

abbrev macs : Bytes
macs = 0 ∷ 0 ∷ 0 ∷ 0 ∷ 0 ∷ 0 ∷ 0 ∷ 0 ∷ 0 ∷ 0 ∷ 0 ∷ 0 ∷ []

-- An IPv4 header with a fragment field and an address, and a UDP header with a source port.
abbrev datagram : ℕ → ℕ → ℕ → ℕ → Bytes
datagram frag last high low =
    69 ∷ 0 ∷ 0 ∷ 28 ∷ 0 ∷ 0 ∷ 0 ∷ frag ∷ 64 ∷ 17 ∷ 0 ∷ 0 ∷ 10 ∷ 0 ∷ 0 ∷ last ∷ 10 ∷ 0 ∷ 0 ∷ 1 ∷ high
    ∷ low ∷ 0 ∷ 53 ∷ 0 ∷ 8 ∷ 0 ∷ 0 ∷ []

abbrev tagged_frame : ℕ → ℕ → ℕ → ℕ → Bytes
tagged_frame frag last high low = macs ++ (129 ∷ 0 ∷ 0 ∷ 5 ∷ 8 ∷ 0 ∷ datagram frag last high low)

from_peer : xdp_partition peer (tagged_frame 0 7 35 40) ≡ some xdp_drop
unfolding xdp_partition by_proto ipv4 ipv4_port untag match_port extract_src_port be16 ne32
    get_elem? from_ne_bytes
from_peer = refl

from_other_port : xdp_partition peer (tagged_frame 0 7 35 41) ≡ some xdp_pass
unfolding xdp_partition by_proto ipv4 ipv4_port untag match_port extract_src_port be16 ne32
    get_elem? from_ne_bytes
from_other_port = refl

from_other_host : xdp_partition peer (tagged_frame 0 8 35 40) ≡ some xdp_pass
unfolding xdp_partition by_proto ipv4 ipv4_port untag match_port extract_src_port be16 ne32
    get_elem? from_ne_bytes
from_other_host = refl

later_fragment : xdp_partition peer (tagged_frame 1 7 35 40) ≡ some xdp_pass
unfolding xdp_partition by_proto ipv4 ipv4_port untag match_port extract_src_port be16 ne32
    get_elem? from_ne_bytes
later_fragment = refl

xdp_partition-returns_example :
    (verdict : Verdict) × (xdp_partition peer (tagged_frame 0 7 35 40) ≡ some verdict)
xdp_partition-returns_example = xdp_partition-returns peer (tagged_frame 0 7 35 40) (omega arith)

tagged_frame-FromPeer :
    (peer.enabled ≢ 0)
    × ((tags : ℕ) × (tags ≤ 2) × FromPeer peer (tagged_frame 0 7 35 40) (14 + 4 * tags))
tagged_frame-FromPeer = xdp_partition-FromPeer peer (tagged_frame 0 7 35 40) from_peer
