-- ===== src/Kernel/Packets/Wire/Datagram6.antt =====
-- The verdict on IPv6.
use blackswan_harness.Prelude.{
  ℕ, ◌+◌, ◌*◌, ◌/◌, ◌^◌, ◌==◌, Bool, true, false, ◌&&◌, not, if◌then◌else◌, Bytes, bytes_eq, [],
  ◌∷◌, ◌++◌, append_assoc, length, length-append, some, ◌≡◌, ◌≢◌, refl, sym, ap, ◌∙◌, arith,
}
use blackswan_harness.Kernel.Packets.{xdp_pass}
use blackswan_harness.Kernel.Packets.Partition.{
  PartitionMaps, get_elem?, be16, past, match_port, ip6_matches, ipv6_port, ipv6,
}
use blackswan_harness.Kernel.Packets.Wire.{
  Segment, segment_bytes, word16, Body6, whole, first6, later6, next6, bytes6, Ip6, ip6_bytes, ip6,
}
use blackswan_harness.Kernel.Packets.Wire.Access.{
  get_elem?-head, get_elem?-behind, be16-behind, word16-read, past-false,
}
use blackswan_harness.Kernel.Packets.Wire.Expected.{
  HasRoom, port_hit, drop_if, IsBody6, IsIp6, body_hit6, hit,
}
use blackswan_harness.Kernel.Packets.Wire.Ports.{match_port-segment, compared}

-- The comparison of an address with one of its length.
ip6_matches-bytes_eq :
    (frame front source rest want : Bytes)
    → frame ≡ front ++ (source ++ rest)
    → length source ≡ length want
    → ip6_matches frame (length front) want ≡ some (bytes_eq source want)
unfolding ip6_matches bytes_eq
ip6_matches-bytes_eq frame front [] rest [] e h = refl
ip6_matches-bytes_eq frame front [] rest (b ∷ want) e h = absurd (omega (arith, h))
ip6_matches-bytes_eq frame front (a ∷ source) rest [] e h = absurd (omega (arith, h))
ip6_matches-bytes_eq frame front (a ∷ source) rest (b ∷ want) e h =
    let front' = front ++ (a ∷ []) in
    let shorter : length source ≡ length want = omega (arith, h) in
    let split = e ∙ sym (append_assoc front (a ∷ []) (source ++ rest)) in
    let size : length front + 1 ≡ length front' = omega (arith, length-append front (a ∷ [])) in
    let ind = ip6_matches-bytes_eq frame front' source rest want split shorter in
    let read : get_elem? frame (length front) ≡ some a =
      rw e (get_elem?-head front a (source ++ rest)) in
    rw (read, size, ind) (both (a == b) (bytes_eq source want))
  where
    both : (x y : Bool) → (if x then some y else some false) ≡ some (x && y)
    both true y = refl
    both false y = refl

-- The header up to the source address, and the whole of it.
start6 : Ip6 → Bytes
start6 h = word16 h.version (word16 h.flow (word16 h.payload_len (next6 h.body ∷ h.hops ∷ [])))

header6 : Ip6 → Bytes
header6 h = start6 h ++ (h.source ++ h.dest)

length-header6 : (h : Ip6) → IsIp6 h → length (header6 h) ≡ 40
unfolding header6 start6
length-header6 h w = omega (arith, length-append h.source h.dest, w.source_size, w.dest_size)

ip6_split : (front : Bytes) (h : Ip6) → front ++ ip6_bytes h ≡ (front ++ header6 h) ++ bytes6 h.body
unfolding ip6_bytes header6 start6
ip6_split front h =
    rw
      (append_assoc front (header6 h) (bytes6 h.body), append_assoc h.source h.dest (bytes6 h.body))
      refl

ip6_start :
    (front : Bytes) (h : Ip6)
    → front ++ ip6_bytes h ≡ (front ++ start6 h) ++ (h.source ++ (h.dest ++ bytes6 h.body))
unfolding ip6_bytes start6
ip6_start front h = rw (append_assoc front (start6 h) (h.source ++ (h.dest ++ bytes6 h.body))) refl

ip6_next :
    (front : Bytes) (h : Ip6)
    → get_elem? (front ++ ip6_bytes h) (length front + 6) ≡ some (next6 h.body)
unfolding ip6_bytes get_elem?
ip6_next front h = get_elem?-behind front (ip6_bytes h) 6

ip6_source :
    (m : PartitionMaps) (front : Bytes) (h : Ip6)
    → length h.source ≡ length m.src_ip6
    → ip6_matches (front ++ ip6_bytes h) (length front + 8) m.src_ip6
      ≡ some (bytes_eq h.source m.src_ip6)
unfolding start6
ip6_source m front h size =
    let start : length front + 8 ≡ length (front ++ start6 h) =
      omega (arith, length-append front (start6 h)) in
    rw start (
      ip6_matches-bytes_eq _ (front ++ start6 h) h.source (h.dest ++ bytes6 h.body) m.src_ip6
        (ip6_start front h) size)

unfragmented :
    (m : PartitionMaps) (frame front : Bytes) (s : Segment)
    → frame ≡ front ++ segment_bytes s
    → s.proto ≢ 44
    → HasRoom s
    → ipv6_port m frame (length front) s.proto ≡ some (drop_if (port_hit m s))
unfolding ipv6_port
unfragmented m frame front s split apart room =
    let other : (s.proto == 44) ≡ false = ground (arith, apart) in
    rw (other, split) (match_port-segment m front s room)

-- The field of two bytes behind two others.
field :
    (front : Bytes) (a b v : ℕ) (rest : Bytes)
    → be16 (front ++ (a ∷ b ∷ word16 v rest)) (length front + 2) ≡ some v
unfolding be16 get_elem?
field front a b v rest = be16-behind front (a ∷ b ∷ word16 v rest) 2 ∙ ap some (word16-read v)

-- Behind a fragment header the program stops at an offset that is not 0, and else goes on.
fragment6 :
    (m : PartitionMaps) (frame front : Bytes) (next reserved v : ℕ) (ident t : Bytes)
    → frame ≡ front ++ (next ∷ reserved ∷ word16 v (ident ++ t))
    → length ident ≡ 4
    → let front' = front ++ (next ∷ reserved ∷ word16 v ident) in
      (frame ≡ front' ++ t)
      × (ipv6_port m frame (length front) 44 ≡ (
          if not (v / 2 ^ 3 == 0) then some xdp_pass else match_port m frame (length front') next))
unfolding ipv6_port
fragment6 m frame front next reserved v ident t e size =
    let front' = front ++ (next ∷ reserved ∷ word16 v ident) in
    let split : frame ≡ front' ++ t =
      e ∙ sym (append_assoc front (next ∷ reserved ∷ word16 v ident) t) in
    let front_size = length-append front (next ∷ reserved ∷ word16 v ident) in
    let far : length front + 8 ≡ length front' = omega (arith, front_size, size) in
    let roomy : past frame (length front') ≡ false =
      past-false frame (length front') (omega (arith, ap length split, length-append front' t)) in
    let offset : be16 frame (length front + 2) ≡ some v =
      rw e (field front next reserved v (ident ++ t)) in
    let inner : get_elem? frame (length front) ≡ some next = rw e (get_elem?-head front next _) in
    (split, rw (far, roomy, offset, inner) refl)

-- The part of the program behind the addresses, where the header is read as it was written.
ports6 :
    (m : PartitionMaps) (frame front : Bytes) (body : Body6)
    → frame ≡ front ++ bytes6 body
    → IsBody6 body
    → ipv6_port m frame (length front) (next6 body) ≡ some (drop_if (body_hit6 m body))
ports6 m frame front (whole s) split (apart, room) = unfragmented m frame front s split apart room
ports6 m frame front (first6 reserved flags ident s) e (small, size, room) =
    let (split, ports) =
      fragment6 m frame front s.proto reserved flags ident (segment_bytes s) e size in
    let first : (flags / 2 ^ 3 == 0) ≡ true = ground (arith, small) in
    let front' = front ++ (s.proto ∷ reserved ∷ word16 flags ident) in
    rw (ports, first, split) (match_port-segment m front' s room)
ports6 m frame front (later6 reserved flags ident offset proto raw) e (small, size, more) =
    let (split, ports) =
      fragment6 m frame front proto reserved (offset * 2 ^ 3 + flags) ident raw e size in
    let later : ((offset * 2 ^ 3 + flags) / 2 ^ 3 == 0) ≡ false = ground (arith, small, more) in
    rw (ports, later) refl

-- A datagram of IPv6, behind a front.
pub ipv6-hit :
    (m : PartitionMaps) (front : Bytes) (h : Ip6)
    → length m.src_ip6 ≡ 16
    → IsIp6 h
    → ipv6 m (front ++ ip6_bytes h) (length front) ≡ some (drop_if (hit m (ip6 h)))
unfolding ipv6 hit
ipv6-hit m front h octets w =
    let frame = front ++ ip6_bytes h in
    let split = ip6_split front h in
    let far : length front + 40 ≡ length (front ++ header6 h) =
      omega (arith, length-append front (header6 h), length-header6 h w) in
    let roomy : past frame (length (front ++ header6 h)) ≡ false =
      past-false frame (length (front ++ header6 h))
        (omega (arith, ap length split, length-append (front ++ header6 h) (bytes6 h.body))) in
    let source = ip6_source m front h (omega (arith, octets, w.source_size)) in
    let ports = ports6 m frame (front ++ header6 h) h.body split w.body in
    rw (far, roomy, source, ip6_next front h)
      (compared (bytes_eq h.source m.src_ip6) (m.src_port == 0) (body_hit6 m h.body) _ ports)
