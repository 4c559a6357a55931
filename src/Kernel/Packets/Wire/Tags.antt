-- ===== src/Kernel/Packets/Wire/Tags.antt =====
-- The tags in front of a network header.
use blackswan_harness.Prelude.{
  ℕ, zero, suc, ◌+◌, ◌≤◌, ◌<◌, true, false, Bytes, List, [], ◌∷◌, ◌++◌, append_assoc, length,
  length-append, All, Option, some, ◌≡◌, ◌⊎◌, refl, sym, ap, ◌∙◌, inl, inr, arith,
}
use blackswan_harness.Kernel.Packets.{Verdict}
use blackswan_harness.Kernel.Packets.Partition.{get_elem?, be16, past, is_vlan, untag}
use blackswan_harness.Kernel.Packets.Wire.{
  word16, Network, ip4, ip6, other, ethertype, network_bytes, kind, behind,
}
use blackswan_harness.Kernel.Packets.Wire.Access.{be16-behind, word16-read, past-false}
use blackswan_harness.Kernel.Packets.Wire.Expected.{IsTag, IsNetwork}

IsTag-is_vlan : (tpid : ℕ) → IsTag tpid → is_vlan tpid ≡ true
IsTag-is_vlan tpid (inl e) = rw e refl
IsTag-is_vlan tpid (inr e) = rw e refl

untagged : (net : Network) → IsNetwork net → is_vlan (ethertype net) ≡ false
untagged (ip4 h) w = refl
untagged (ip6 h) w = refl
untagged (other kind raw) (_, _, apart, apart') = ground (arith, apart, apart')

-- One tag is taken off: the next kind stands two bytes on, and what is behind it four bytes on.
untag-tag :
    (n : ℕ) (frame front : Bytes) (tpid tci next : ℕ) (t : Bytes) (rest : ℕ → ℕ → Option Verdict)
    → frame ≡ front ++ word16 tci (word16 next t)
    → IsTag tpid
    → let front' = front ++ word16 tci (word16 next []) in
      (frame ≡ front' ++ t)
      × (untag (suc n) frame tpid (length front) rest ≡ untag n frame next (length front') rest)
unfolding untag be16 get_elem?
untag-tag n frame front tpid tci next t rest e tag =
    let front' = front ++ word16 tci (word16 next []) in
    let split : frame ≡ front' ++ t =
      e ∙ sym (append_assoc front (word16 tci (word16 next [])) t) in
    let far : length front + 4 ≡ length front' =
      omega (arith, length-append front (word16 tci (word16 next []))) in
    let roomy : past frame (length front') ≡ false =
      past-false frame (length front') (omega (arith, ap length split, length-append front' t)) in
    let read : be16 frame (length front + 2) ≡ some next =
      rw e (be16-behind front (word16 tci (word16 next t)) 2 ∙ ap some (word16-read next)) in
    (split, rw (IsTag-is_vlan tpid tag, far, roomy, read) refl)

-- Where the program stands behind the tags: at the network header, if there are no more of them
-- than it takes off, and else at one more tag.
unfoldable pub Stands :
    ℕ → Bytes → List (ℕ × ℕ) → Network → Option Verdict → (ℕ → ℕ → Option Verdict) → Type 0
Stands n frame tags net r rest =
    (front : Bytes) × ((length tags ≤ n)
      × (frame ≡ front ++ network_bytes net)
      × (r ≡ rest (ethertype net) (length front)))

unfoldable pub Refused : ℕ → List (ℕ × ℕ) → Option Verdict → (ℕ → ℕ → Option Verdict) → Type 0
Refused n tags r rest = (tpid l3 : ℕ) × (n < length tags) × (IsTag tpid) × (r ≡ rest tpid l3)

pub untag-Stands :
    (n : ℕ) (frame front : Bytes) (tags : List (ℕ × ℕ)) (net : Network)
    (rest : ℕ → ℕ → Option Verdict)
    → frame ≡ front ++ behind tags net
    → All (λ tag. IsTag tag.0) tags
    → IsNetwork net
    → let r = untag n frame (kind tags net) (length front) rest in
      Stands n frame tags net r rest ⊎ Refused n tags r rest
unfolding untag Stands Refused
untag-Stands zero frame front [] net rest e tagged w = inl (front, (omega arith, e, refl))
untag-Stands (suc n) frame front [] net rest e tagged w =
    inl (front, (omega arith, e, rw (untagged net w) refl))
untag-Stands zero frame front ((tpid, tci) ∷ tags) net rest e (tag, tagged) w =
    inr (tpid, length front, omega arith, tag, refl)
untag-Stands (suc n) frame front ((tpid, tci) ∷ tags) net rest e (tag, tagged) w =
    let front' = front ++ word16 tci (word16 (kind tags net) []) in
    let (split, step) =
      untag-tag n frame front tpid tci (kind tags net) (behind tags net) rest e tag in
    elim (untag-Stands n frame front' tags net rest split tagged w) [
      | inl (at, (few, there, r)) ↦ inl (at, (omega (arith, few), there, step ∙ r))
      | inr (tpid', l3, many, tag', r) ↦ inr (tpid', l3, omega (arith, many), tag', step ∙ r)
    ]
