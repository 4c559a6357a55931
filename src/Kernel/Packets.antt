-- ===== src/Kernel/Packets.antt =====
-- crates/kernel/bpf/xdp_pktloss.c and xdp_corrupt.c: the two programs that count packets; the
-- third, which does not, is in the child Partition. Each map is an array of one entry, of which a
-- lookup never fails. A frame is what lies between `data` and `data_end`.
pub mod Loss
pub mod Corrupted
pub mod Partition
pub mod Reads
pub mod Spared
pub mod Wire
pub mod Peer
pub mod Armed
pub mod Lossy
pub mod Garbled
mod Tests
mod Runs
use Prim.Native.Nat.{bit_xor}
use blackswan_harness.Prelude.{ℕ, zero, suc, ◌+◌, ◌%◌, ◌^◌, ◌==◌, if◌then◌else◌, Bytes, [], ◌∷◌}
use blackswan_harness.Core.Clock.{u64_mod}

pub data Verdict : Type 0 where
  xdp_pass xdp_drop : Verdict

-- The maps of xdp_pktloss.c.
pub record LossMaps : Type 0 where
  pub drop_every_n : ℕ
  pub packet_count : ℕ

-- `__sync_fetch_and_add(count, 1) + 1`.
abbrev next_count : ℕ → ℕ
next_count count = (count + 1) % u64_mod

unfoldable pub xdp_pktloss : LossMaps → Verdict × LossMaps
xdp_pktloss m =
    let c = next_count m.packet_count in
    if m.drop_every_n == 0 then (xdp_pass, m) else (
      (if c % m.drop_every_n == 0 then xdp_drop else xdp_pass),
      record { drop_every_n = m.drop_every_n; packet_count = c },
    )

-- The maps of xdp_corrupt.c.
pub record CorruptMaps : Type 0 where
  pub corrupt_every_n : ℕ
  pub corrupt_offset : ℕ
  pub corrupt_mask : ℕ
  pub packet_count : ℕ

-- `*byte ^= mask`, if the byte lies in the frame.
pub xor_at : ℕ → ℕ → Bytes → Bytes
xor_at off mask [] = []
xor_at zero mask (b ∷ frame) = bit_xor b mask ∷ frame
xor_at (suc off) mask (b ∷ frame) = b ∷ xor_at off mask frame

unfoldable pub xdp_corrupt : CorruptMaps → Bytes → Verdict × Bytes × CorruptMaps
xdp_corrupt m frame =
    let c = next_count m.packet_count in
    let counted = record m { packet_count = c } in
    if m.corrupt_every_n == 0
    then (xdp_pass, frame, m)
    else if c % m.corrupt_every_n == 0
    then (xdp_pass, xor_at (m.corrupt_offset % 2 ^ 12) (m.corrupt_mask % 2 ^ 8) frame, counted)
    else (xdp_pass, frame, counted)
