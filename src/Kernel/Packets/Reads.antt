-- ===== src/Kernel/Packets/Reads.antt =====
-- crates/kernel/bpf/xdp_partition.c: where the partition program reads.
use blackswan_harness.Prelude.{
  ℕ, zero, suc, ◌+◌, ◌<◌, ◌≤◌, ◌==◌, ltb-false, Bool, true, false, Bool-cases, if◌then◌else◌, Bytes,
  [], ◌∷◌, length, Option, none, some, ◌≡◌, refl, inl, inr, arith,
}
use blackswan_harness.Kernel.Packets.{Verdict, xdp_pass, xdp_drop}
use blackswan_harness.Kernel.Packets.Partition.{
  PartitionMaps, ◌>>=◌, get_elem?, be16, ne32, past, extract_src_port, match_port, ipv4_port, ipv4,
  ip6_matches, ipv6_port, ipv6, untag, by_proto, xdp_partition,
}

-- A computation all of whose reads lie in the frame.
Reads : {A : Type 0} → Option A → Type 0
Reads {A} r = (a : A) × (r ≡ some a)

some-Reads : {A : Type 0} (a : A) → Reads (some a)
unfolding Reads
some-Reads a = (a, refl)

>>=-Reads :
    {A B : Type 0} (r : Option A) (rest : A → Option B)
    → Reads r
    → ((a : A) → Reads (rest a))
    → Reads (r >>= rest)
unfolding Reads
>>=-Reads r rest (a, e) h = rw e (h a)

-- What stands behind a check that passes the frame has room for its header.
past-Reads :
    {A : Type 0} (frame : Bytes) (end : ℕ) (r s : Option A)
    → Reads r
    → (end ≤ length frame → Reads s)
    → Reads (if past frame end then r else s)
past-Reads frame end r s h k = elim (Bool-cases (past frame end)) [
  | inl e ↦ rw e h
  | inr e ↦ rw e (k (ltb-false (length frame) end e))
]

if-Reads : {A : Type 0} (b : Bool) (r s : Option A) → Reads r → Reads s → Reads (if b then r else s)
if-Reads true r s h k = h
if-Reads false r s h k = k

get_elem?-Reads : (frame : Bytes) (i : ℕ) → i < length frame → Reads (get_elem? frame i)
unfolding Reads get_elem?
get_elem?-Reads [] i h = absurd (omega (arith, h))
get_elem?-Reads (b ∷ frame) zero h = (b, refl)
get_elem?-Reads (b ∷ frame) (suc i) h = get_elem?-Reads frame i (omega (arith, h))

be16-Reads : (frame : Bytes) (i : ℕ) → i + 2 ≤ length frame → Reads (be16 frame i)
unfolding be16
be16-Reads frame i h =
    >>=-Reads _ _ (get_elem?-Reads frame i (omega (arith, h)))
      (λ a. >>=-Reads _ _ (get_elem?-Reads frame (i + 1) (omega (arith, h))) (λ b. some-Reads _))

ne32-Reads : (frame : Bytes) (i : ℕ) → i + 4 ≤ length frame → Reads (ne32 frame i)
unfolding ne32
ne32-Reads frame i h = >>=-Reads _ _ (get_elem?-Reads frame i (omega (arith, h))) (λ a.
    >>=-Reads _ _ (get_elem?-Reads frame (i + 1) (omega (arith, h))) (λ b.
      >>=-Reads _ _ (get_elem?-Reads frame (i + 2) (omega (arith, h))) (λ c.
        >>=-Reads _ _ (get_elem?-Reads frame (i + 3) (omega (arith, h))) (λ d. some-Reads _))))

match_port-Reads :
    (m : PartitionMaps) (frame : Bytes) (l4 proto : ℕ) → Reads (match_port m frame l4 proto)
unfolding match_port extract_src_port
match_port-Reads m frame l4 proto =
    >>=-Reads _ _
      (if-Reads _ _ _
        (past-Reads frame (l4 + 8) _ _ (some-Reads none) (λ room.
          >>=-Reads _ _ (be16-Reads frame l4 (omega (arith, room)))
            (λ port. some-Reads (some port))))
        (if-Reads _ _ _
          (past-Reads frame (l4 + 20) _ _ (some-Reads none) (λ room.
            >>=-Reads _ _ (be16-Reads frame l4 (omega (arith, room)))
              (λ port. some-Reads (some port))))
          (some-Reads none)))
      (λ port. some-Reads _)

ipv4_port-Reads :
    (m : PartitionMaps) (frame : Bytes) (l3 l4 : ℕ)
    → l3 + 20 ≤ length frame
    → Reads (ipv4_port m frame l3 l4)
unfolding ipv4_port
ipv4_port-Reads m frame l3 l4 h =
    >>=-Reads _ _ (be16-Reads frame (l3 + 6) (omega (arith, h))) (λ frag_off.
      if-Reads _ _ _ (some-Reads xdp_pass) (
        >>=-Reads _ _ (get_elem?-Reads frame (l3 + 9) (omega (arith, h)))
          (λ protocol. match_port-Reads m frame l4 protocol)))

ipv4-Reads : (m : PartitionMaps) (frame : Bytes) (l3 : ℕ) → Reads (ipv4 m frame l3)
unfolding ipv4
ipv4-Reads m frame l3 = past-Reads frame (l3 + 20) _ _ (some-Reads xdp_pass) (λ room.
    >>=-Reads _ _ (get_elem?-Reads frame l3 (omega (arith, room))) (λ first.
      if-Reads _ _ _ (some-Reads xdp_pass) (
        if-Reads _ _ _ (some-Reads xdp_pass) (
          >>=-Reads _ _ (ne32-Reads frame (l3 + 12) (omega (arith, room))) (λ saddr.
            if-Reads _ _ _ (some-Reads xdp_pass)
              (if-Reads _ _ _ (some-Reads xdp_drop) (ipv4_port-Reads m frame l3 _ room)))))))

ip6_matches-Reads :
    (frame : Bytes) (i : ℕ) (want : Bytes)
    → i + length want ≤ length frame
    → Reads (ip6_matches frame i want)
unfolding ip6_matches
ip6_matches-Reads frame i [] h = some-Reads true
ip6_matches-Reads frame i (b ∷ want) h =
    >>=-Reads _ _ (get_elem?-Reads frame i (omega (arith, h))) (λ a.
      if-Reads (a == b) _ _ (ip6_matches-Reads frame (i + 1) want (omega (arith, h)))
        (some-Reads false))

ipv6_port-Reads :
    (m : PartitionMaps) (frame : Bytes) (l4 nexthdr : ℕ) → Reads (ipv6_port m frame l4 nexthdr)
unfolding ipv6_port
ipv6_port-Reads m frame l4 nexthdr = if-Reads _ _ _ (match_port-Reads m frame l4 nexthdr) (
    past-Reads frame (l4 + 8) _ _ (some-Reads xdp_pass) (λ room.
      >>=-Reads _ _ (be16-Reads frame (l4 + 2) (omega (arith, room))) (λ frag_off.
        if-Reads _ _ _ (some-Reads xdp_pass) (
          >>=-Reads _ _ (get_elem?-Reads frame l4 (omega (arith, room)))
            (λ inner. match_port-Reads m frame (l4 + 8) inner)))))

ipv6-Reads :
    (m : PartitionMaps) (frame : Bytes) (l3 : ℕ) → length m.src_ip6 ≤ 16 → Reads (ipv6 m frame l3)
unfolding ipv6
ipv6-Reads m frame l3 h = past-Reads frame (l3 + 40) _ _ (some-Reads xdp_pass) (λ room.
    >>=-Reads _ _ (ip6_matches-Reads frame (l3 + 8) m.src_ip6 (omega (arith, room, h))) (λ matches.
      if-Reads _ _ _ (some-Reads xdp_pass) (
        if-Reads _ _ _ (some-Reads xdp_drop) (
          >>=-Reads _ _ (get_elem?-Reads frame (l3 + 6) (omega (arith, room)))
            (λ nexthdr. ipv6_port-Reads m frame (l3 + 40) nexthdr)))))

untag-Reads :
    (tags : ℕ) (frame : Bytes) (h_proto l3 : ℕ) (rest : ℕ → ℕ → Option Verdict)
    → ((p l : ℕ) → Reads (rest p l))
    → Reads (untag tags frame h_proto l3 rest)
unfolding untag
untag-Reads zero frame h_proto l3 rest h = h h_proto l3
untag-Reads (suc tags) frame h_proto l3 rest h = if-Reads _ _ _ (h h_proto l3) (
    past-Reads frame (l3 + 4) _ _ (some-Reads xdp_pass) (λ room.
      >>=-Reads _ _ (be16-Reads frame (l3 + 2) (omega (arith, room)))
        (λ encapsulated. untag-Reads tags frame encapsulated (l3 + 4) rest h)))

by_proto-Reads :
    (m : PartitionMaps) (frame : Bytes) (h_proto l3 : ℕ)
    → length m.src_ip6 ≤ 16
    → Reads (by_proto m frame h_proto l3)
unfolding by_proto
by_proto-Reads m frame h_proto l3 h =
    if-Reads _ _ _ (ipv4-Reads m frame l3)
      (if-Reads _ _ _ (ipv6-Reads m frame l3 h) (some-Reads xdp_pass))

-- If the map of the IPv6 address holds at most sixteen bytes, the program has a verdict on every
-- frame, where a read outside the frame would leave it without one.
pub xdp_partition-returns :
    (m : PartitionMaps) (frame : Bytes)
    → length m.src_ip6 ≤ 16
    → (verdict : Verdict) × (xdp_partition m frame ≡ some verdict)
unfolding Reads xdp_partition
xdp_partition-returns m frame h = if-Reads _ _ _ (some-Reads xdp_pass) (
    past-Reads frame 14 _ _ (some-Reads xdp_pass) (λ room.
      >>=-Reads _ _ (be16-Reads frame 12 room) (λ h_proto.
        untag-Reads 2 frame h_proto 14 (by_proto m frame) (λ p l. by_proto-Reads m frame p l h))))
