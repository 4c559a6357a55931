-- ===== src/Kernel/Packets/Wire/Ports.antt =====
-- The source port behind a network header.
use blackswan_harness.Prelude.{
  ℕ, ◌%◌, Bool, true, false, ◌||◌, ◌&&◌, if◌then◌else◌, Bytes, ◌∷◌, ◌++◌, length, length-append,
  Option, some, not, ◌≡◌, refl, arith,
}
use blackswan_harness.Kernel.Packets.{Verdict, xdp_pass, xdp_drop}
use blackswan_harness.Kernel.Packets.Partition.{
  PartitionMaps, get_elem?, be16, extract_src_port, match_port,
}
use blackswan_harness.Kernel.Packets.Wire.{Segment, segment_bytes, word16}
use blackswan_harness.Kernel.Packets.Wire.Access.{get_elem?-head, get_elem?-behind, word16-read}
use blackswan_harness.Kernel.Packets.Wire.Expected.{HasRoom, port_hit, drop_if}

-- The first field behind a front.
pub be16-head :
    (front : Bytes) (v : ℕ) (rest : Bytes) → be16 (front ++ word16 v rest) (length front) ≡ some v
unfolding be16 get_elem?
be16-head front v rest =
    rw
      (
        get_elem?-head front _ (v % 256 ∷ rest),
        get_elem?-behind front (word16 v rest) 1,
        word16-read v,
      )
      refl

pub match_port-segment :
    (m : PartitionMaps) (front : Bytes) (s : Segment)
    → HasRoom s
    → match_port m (front ++ segment_bytes s) (length front) s.proto ≡ some (drop_if (port_hit m s))
unfolding match_port extract_src_port
match_port-segment m front s room =
    let read = be16-head front s.port s.rest in
    let size = length-append front (segment_bytes s) in ground (arith, read, size)

-- The two comparisons of the program: of the addresses, and of the port with 0.
pub compared :
    (same any_port hit : Bool) (r : Option Verdict)
    → r ≡ some (drop_if hit)
    → (if not same then some xdp_pass else if any_port then some xdp_drop else r)
      ≡ some (drop_if (same && (any_port || hit)))
compared false any_port hit r h = refl
compared true true hit r h = refl
compared true false hit r h = h
