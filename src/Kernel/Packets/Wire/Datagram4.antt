-- ===== src/Kernel/Packets/Wire/Datagram4.antt =====
-- The verdicts on IPv4 and IPv6.
use blackswan_harness.Prelude.{
  ℕ, ◌+◌, ◌*◌, ◌%◌, ◌^◌, ◌==◌, ltb, true, false, Bytes, ◌∷◌, ◌++◌, append_assoc, length,
  length-append, some, ◌≡◌, refl, ap, ◌∙◌, arith,
}
use blackswan_harness.Kernel.Xdp.{from_ne_bytes}
use blackswan_harness.Kernel.Packets.Partition.{
  PartitionMaps, get_elem?, be16, ne32, past, ipv4_port, ipv4,
}
use blackswan_harness.Kernel.Packets.Wire.{
  word16, Body4, first4, later4, offset4, proto4, bytes4, Ip4, ip4_bytes, ip4,
}
use blackswan_harness.Kernel.Packets.Wire.Access.{
  get_elem?-head, get_elem?-behind, be16-behind, ne32-behind, word16-read, past-false,
}
use blackswan_harness.Kernel.Packets.Wire.Expected.{drop_if, IsBody4, IsIp4, body_hit4, hit}
use blackswan_harness.Kernel.Packets.Wire.Ports.{match_port-segment, compared}

-- The reads of a header, wherever it stands.
ip4_first :
    (front : Bytes) (h : Ip4)
    → get_elem? (front ++ ip4_bytes h) (length front) ≡ some (4 * 16 + (5 + h.words))
unfolding ip4_bytes
ip4_first front h = get_elem?-head front _ _

ip4_saddr :
    (front : Bytes) (h : Ip4)
    → ne32 (front ++ ip4_bytes h) (length front + 12) ≡ some (from_ne_bytes h.a h.b h.c h.d)
unfolding ip4_bytes get_elem? ne32
ip4_saddr front h = ne32-behind front (ip4_bytes h) 12

ip4_frag :
    (front : Bytes) (h : Ip4)
    → be16 (front ++ ip4_bytes h) (length front + 6) ≡ some (h.flags * 2 ^ 13 + offset4 h.body)
unfolding ip4_bytes get_elem? be16
ip4_frag front h =
    let read = be16-behind front (ip4_bytes h) 6 in
    read ∙ ap some (word16-read (h.flags * 2 ^ 13 + offset4 h.body))

ip4_proto :
    (front : Bytes) (h : Ip4)
    → get_elem? (front ++ ip4_bytes h) (length front + 9) ≡ some (proto4 h.body)
unfolding ip4_bytes get_elem?
ip4_proto front h = get_elem?-behind front (ip4_bytes h) 9

-- The header with its options, and its length.
header4 : Ip4 → Bytes
header4 h =
    (4 * 16 + (5 + h.words))
    ∷ h.tos
    ∷ word16 h.total (
        word16 h.ident (
          word16 (h.flags * 2 ^ 13 + offset4 h.body) (
            h.ttl
            ∷ proto4 h.body
            ∷ word16 h.checksum (h.a ∷ h.b ∷ h.c ∷ h.d ∷ (h.dest ++ h.options)))))

length-header4 : (h : Ip4) → IsIp4 h → length (header4 h) ≡ (5 + h.words) * 4
unfolding header4
length-header4 h w = omega (arith, length-append h.dest h.options, w.dest_size, w.options_size)

ip4_split : (front : Bytes) (h : Ip4) → front ++ ip4_bytes h ≡ (front ++ header4 h) ++ bytes4 h.body
unfolding ip4_bytes header4
ip4_split front h =
    rw
      (
        append_assoc front (header4 h) (bytes4 h.body),
        append_assoc h.dest h.options (bytes4 h.body),
      )
      refl

-- The part of the program behind the addresses, where the header is read as it was written.
ports4 :
    (m : PartitionMaps) (frame : Bytes) (l3 : ℕ) (front : Bytes) (flags : ℕ) (body : Body4)
    → be16 frame (l3 + 6) ≡ some (flags * 2 ^ 13 + offset4 body)
    → get_elem? frame (l3 + 9) ≡ some (proto4 body)
    → frame ≡ front ++ bytes4 body
    → IsBody4 body
    → ipv4_port m frame l3 (length front) ≡ some (drop_if (body_hit4 m body))
unfolding ipv4_port
ports4 m frame l3 front flags (first4 s) frag proto split room =
    let whole_one : ((flags * 2 ^ 13 + 0) % 2 ^ 13 == 0) ≡ true = ground arith in
    let ports = match_port-segment m front s room in rw (frag, whole_one, proto, split) ports
ports4 m frame l3 front flags (later4 offset proto raw) frag next split (more, small) =
    let later : ((flags * 2 ^ 13 + offset) % 2 ^ 13 == 0) ≡ false = ground arith in
    rw (frag, later) refl

-- A datagram of IPv4, behind a front.
pub ipv4-hit :
    (m : PartitionMaps) (front : Bytes) (h : Ip4)
    → IsIp4 h
    → ipv4 m (front ++ ip4_bytes h) (length front) ≡ some (drop_if (hit m (ip4 h)))
unfolding ipv4 hit
ipv4-hit m front h w =
    let frame = front ++ ip4_bytes h in
    let size = ap length (ip4_split front h) in
    let sizes = length-append (front ++ header4 h) (bytes4 h.body) in
    let front_size = length-append front (header4 h) in
    let header_size = length-header4 h w in
    let roomy : past frame (length front + 20) ≡ false =
      past-false frame (length front + 20) (omega (arith, size, sizes, front_size, header_size)) in
    let words_read : (4 * 16 + (5 + h.words)) % 2 ^ 4 ≡ 5 + h.words = omega (arith, w.few_words) in
    let enough : ltb (5 + h.words) 5 ≡ false = ground arith in
    let l4 : length front + (5 + h.words) * 4 ≡ length (front ++ header4 h) =
      omega (arith, front_size, header_size) in
    let roomier : past frame (length (front ++ header4 h)) ≡ false =
      past-false frame _ (omega (arith, size, sizes)) in
    let ports =
      ports4 m frame (length front) (front ++ header4 h) h.flags h.body (ip4_frag front h)
        (ip4_proto front h) (ip4_split front h) w.body in
    rw (roomy, ip4_first front h, words_read, enough, l4, roomier, ip4_saddr front h)
      (compared (from_ne_bytes h.a h.b h.c h.d == m.src_ip) (m.src_port == 0) (body_hit4 m h.body) _
        ports)
