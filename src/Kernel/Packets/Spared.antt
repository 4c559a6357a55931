-- ===== src/Kernel/Packets/Spared.antt =====
-- crates/kernel/bpf/xdp_partition.c: whose packets the partition program drops.
use blackswan_harness.Prelude.{
  ◌≤◌, subst, ℕ, zero, suc, ◌+◌, ◌*◌, ◌%◌, ◌^◌, ◌==◌, ==_iff, ltb, Bool, true, false, not,
  if◌then◌else◌, Bytes, Option, none, some, ◌≡◌, ◌≢◌, ◌⊎◌, refl, ap, inl, inr, arith,
}
use blackswan_harness.Kernel.Packets.{Verdict, xdp_pass, xdp_drop}
use blackswan_harness.Kernel.Packets.Partition.{
  PartitionMaps, ◌>>=◌, get_elem?, be16, ne32, past, ipv4_port, ipv4, ip6_matches, ipv6, untag,
  by_proto, xdp_partition,
}

-- In a header at the offset, what is the source address of IPv4 or that of IPv6 is the peer's.
pub FromPeer : PartitionMaps → Bytes → ℕ → Type 0
FromPeer m frame l3 =
    (ne32 frame (l3 + 12) ≡ some m.src_ip) ⊎ (ip6_matches frame (l3 + 8) m.src_ip6 ≡ some true)

-- A drop has a reason.
Because : Type 0 → Option Verdict → Type 0
Because P r = r ≡ some xdp_drop → P

pass-Because : (P : Type 0) → Because P (some xdp_pass)
unfolding Because
pass-Because P e = cc

reason-Because : (P : Type 0) (r : Option Verdict) → P → Because P r
unfolding Because
reason-Because P r h e = h

not-false : (b : Bool) → not b ≡ false → b ≡ true
not-false true e = refl
not-false false e = cc

==-true : (a b : ℕ) → not (a == b) ≡ false → a ≡ b
==-true a b e = (==_iff a b).0 (not-false (a == b) e)

-- A check that passes the frame, what follows a read, and either of two parts of the program.
skip-Because :
    (P : Type 0) (b : Bool) (s : Option Verdict)
    → Because P s
    → Because P (if b then some xdp_pass else s)
skip-Because P true s h = pass-Because P
skip-Because P false s h = h

guard-Because :
    (P : Type 0) (b : Bool) (s : Option Verdict)
    → (b ≡ false → P)
    → Because P (if b then some xdp_pass else s)
guard-Because P true s h = pass-Because P
guard-Because P false s h = reason-Because P s (h refl)

bind-Because :
    (P : Type 0) {A : Type 0} (r : Option A) (rest : A → Option Verdict)
    → ((a : A) → Because P (rest a))
    → Because P (r >>= rest)
unfolding Because
bind-Because P none rest h e = cc
bind-Because P (some a) rest h e = h a e

either-Because :
    (P : Type 0) (b : Bool) (r s : Option Verdict)
    → Because P r
    → Because P s
    → Because P (if b then r else s)
either-Because P true r s h k = h
either-Because P false r s h k = k

-- The comparisons with the peer's address.
saddr-Because :
    (P : Type 0) (r : Option ℕ) (want : ℕ) (s : Option Verdict)
    → (r ≡ some want → P)
    → Because P (r >>= λ saddr. if not (saddr == want) then some xdp_pass else s)
unfolding Because
saddr-Because P none want s h e = cc
saddr-Because P (some a) want s h e =
    guard-Because P (not (a == want)) s (λ same. h (ap some (==-true a want same))) e

matches-Because :
    (P : Type 0) (r : Option Bool) (s : Option Verdict)
    → (r ≡ some true → P)
    → Because P (r >>= λ matches. if not matches then some xdp_pass else s)
unfolding Because
matches-Because P none s h e = cc
matches-Because P (some matches) s h e =
    guard-Because P (not matches) s (λ same. h (ap some (not-false matches same))) e

ipv4-Because :
    (m : PartitionMaps) (frame : Bytes) (l3 : ℕ) → Because (FromPeer m frame l3) (ipv4 m frame l3)
unfolding ipv4 FromPeer
ipv4-Because m frame l3 =
    let P = FromPeer m frame l3 in
    skip-Because P (past frame (l3 + 20)) _ (
      bind-Because P (get_elem? frame l3) _ (λ first.
        let l4 = l3 + first % 2 ^ 4 * 4 in
        skip-Because P (ltb (first % 2 ^ 4) 5) _ (
          skip-Because P (past frame l4) _ (
            saddr-Because P (ne32 frame (l3 + 12)) m.src_ip
              (if m.src_port == 0 then some xdp_drop else ipv4_port m frame l3 l4)
              (λ same. inl same)))))

ipv6-Because :
    (m : PartitionMaps) (frame : Bytes) (l3 : ℕ) → Because (FromPeer m frame l3) (ipv6 m frame l3)
unfolding ipv6 FromPeer
ipv6-Because m frame l3 =
    let P = FromPeer m frame l3 in
    skip-Because P _ _
      (matches-Because P (ip6_matches frame (l3 + 8) m.src_ip6) _ (λ same. inr same))

-- Behind so many tags the offset has moved by four bytes for each.
untag-Because :
    (P : Type 0) (tags : ℕ) (frame : Bytes) (h_proto l3 : ℕ) (rest : ℕ → ℕ → Option Verdict)
    → ((p j : ℕ) → j ≤ tags → Because P (rest p (l3 + 4 * j)))
    → Because P (untag tags frame h_proto l3 rest)
unfolding untag
untag-Because P zero frame h_proto l3 rest h =
    let start : l3 + 4 * 0 ≡ l3 = omega arith in
    subst (λ l. Because P (rest h_proto l)) start (h h_proto 0 (omega arith))
untag-Because P (suc tags) frame h_proto l3 rest h =
    let start : l3 + 4 * 0 ≡ l3 = omega arith in
    let further : (j : ℕ) → l3 + 4 * suc j ≡ l3 + 4 + 4 * j = λ j. omega arith in
    either-Because P _ _ _
      (subst (λ l. Because P (rest h_proto l)) start (h h_proto 0 (omega arith)))
      (skip-Because P _ _ (
        bind-Because P _ _ (λ encapsulated.
          untag-Because P tags frame encapsulated (l3 + 4) rest (λ p j below.
            subst (λ l. Because P (rest p l)) (further j) (h p (suc j) (omega (arith, below)))))))

by_proto-Because :
    (m : PartitionMaps) (frame : Bytes) (h_proto l3 : ℕ)
    → Because (FromPeer m frame l3) (by_proto m frame h_proto l3)
unfolding by_proto
by_proto-Because m frame h_proto l3 =
    let P = FromPeer m frame l3 in
    either-Because P _ _ _ (ipv4-Because m frame l3)
      (either-Because P _ _ _ (ipv6-Because m frame l3) (pass-Because P))

partition-enabled :
    (m : PartitionMaps) (frame : Bytes) → Because (m.enabled ≢ 0) (xdp_partition m frame)
unfolding xdp_partition
partition-enabled m frame =
    guard-Because (m.enabled ≢ 0) (m.enabled == 0) _ (λ on. ground (arith, on))

partition-FromPeer :
    (m : PartitionMaps) (frame : Bytes)
    → Because ((tags : ℕ) × (tags ≤ 2) × FromPeer m frame (14 + 4 * tags)) (xdp_partition m frame)
unfolding xdp_partition Because
partition-FromPeer m frame =
    let P = (tags : ℕ) × (tags ≤ 2) × FromPeer m frame (14 + 4 * tags) in
    skip-Because P (m.enabled == 0) _ (
      skip-Because P (past frame 14) _ (
        bind-Because P (be16 frame 12) _ (λ h_proto.
          untag-Because P 2 frame h_proto 14 (by_proto m frame)
            (λ p j below e. (j, below, by_proto-Because m frame p (14 + 4 * j) e)))))

-- A frame that the program drops has met an enabled program, and behind at most two tags, in
-- the place of the source address of IPv4 or of IPv6, stands the peer's.
pub xdp_partition-FromPeer :
    (m : PartitionMaps) (frame : Bytes)
    → xdp_partition m frame ≡ some xdp_drop
    → (m.enabled ≢ 0) × ((tags : ℕ) × (tags ≤ 2) × FromPeer m frame (14 + 4 * tags))
unfolding Because
xdp_partition-FromPeer m frame e = (partition-enabled m frame e, partition-FromPeer m frame e)
