-- ===== src/Kernel/Packets/Corrupted.antt =====
-- crates/kernel/bpf/xdp_corrupt.c: what happens to a frame.
use blackswan_harness.Prelude.{
  ℕ, zero, suc, ◌%◌, ◌^◌, ◌==◌, Bytes, [], ◌∷◌, length, take, drop, Bool-cases, ◌≡◌, refl, ap, inl,
  inr,
}
use blackswan_harness.Kernel.Packets.{xdp_pass, CorruptMaps, next_count, xor_at, xdp_corrupt}

-- Of as many bytes, those but the one at an offset are the same.
pub SameBut : ℕ → Bytes → Bytes → Type 0
SameBut off before after =
    (length after ≡ length before)
    × (take off after ≡ take off before)
    × (drop (suc off) after ≡ drop (suc off) before)

xor_at-SameBut : (off mask : ℕ) (frame : Bytes) → SameBut off frame (xor_at off mask frame)
unfolding SameBut xor_at
xor_at-SameBut off mask [] = (refl, refl, refl)
xor_at-SameBut zero mask (b ∷ frame) = (refl, refl, refl)
xor_at-SameBut (suc off) mask (b ∷ frame) =
    let (sizes, fronts, backs) = xor_at-SameBut off mask frame in
    (ap suc sizes, ap (λ bs. b ∷ bs) fronts, backs)

SameBut-refl : (off : ℕ) (frame : Bytes) → SameBut off frame frame
unfolding SameBut
SameBut-refl off frame = (refl, refl, refl)

-- Whatever the maps hold, a frame is passed on with its length and with every byte but the one at
-- the offset masked to twelve bits.
pub xdp_corrupt-SameBut :
    (m : CorruptMaps) (frame : Bytes)
    → ((xdp_corrupt m frame).0 ≡ xdp_pass)
      × SameBut (m.corrupt_offset % 2 ^ 12) frame (xdp_corrupt m frame).1
unfolding xdp_corrupt
xdp_corrupt-SameBut m frame =
    let off = m.corrupt_offset % 2 ^ 12 in
    elim (Bool-cases (m.corrupt_every_n == 0)) [
      | inl none ↦ rw none (refl, SameBut-refl off frame)
      | inr some_n ↦ elim (Bool-cases (next_count m.packet_count % m.corrupt_every_n == 0)) [
        | inl hit ↦ rw (some_n, hit) (refl, xor_at-SameBut off (m.corrupt_mask % 2 ^ 8) frame)
        | inr passed ↦ rw (some_n, passed) (refl, SameBut-refl off frame)
      ]
    ]
