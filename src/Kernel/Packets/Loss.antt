-- ===== src/Kernel/Packets/Loss.antt =====
-- crates/kernel/bpf/xdp_pktloss.c: how many packets of a row are lost.
use native.Mathlib.Nat.{mod-lt, mod_self, mod-eq_of_lt, mod-add-mod}
use blackswan_harness.Prelude.{
  ℕ, zero, suc, ◌+◌, ◌*◌, ◌%◌, ◌<◌, ◌==◌, ltb, ltb→lt, ltb-false, Bool, false, Bool-cases,
  if◌then◌else◌, ◌≡◌, ◌⊎◌, refl, ap, ◌∙◌, sym, subst, inl, inr, arith,
}
use blackswan_harness.Core.Clock.{u64_mod}
use blackswan_harness.Kernel.Packets.{Verdict, xdp_pass, xdp_drop, LossMaps, xdp_pktloss}

abbrev lost : Verdict → ℕ
lost xdp_pass = 0
lost xdp_drop = 1

-- Of so many packets in a row, the ones that are dropped.
unfoldable pub drops : ℕ → LossMaps → ℕ
drops zero m = 0
drops (suc k) m = let (verdict, m') = xdp_pktloss m in lost verdict + drops k m'

-- The next number either is divisible or leaves one more.
next-mod :
    (c n : ℕ)
    → 0 < n
    → (((c + 1) % n ≡ 0) × (c % n + 1 ≡ n))
      ⊎ (((c + 1) % n ≡ c % n + 1) × (((c + 1) % n == 0) ≡ false))
next-mod c n h =
    let small : c % n < n = mod-lt c h in
    let step : (c + 1) % n ≡ (c % n + 1) % n = sym (mod-add-mod c n 1) in
    elim (Bool-cases (ltb (c % n + 1) n)) [
      | inl below ↦
          let more : (c + 1) % n ≡ c % n + 1 = step ∙ mod-eq_of_lt (ltb→lt (c % n + 1) n below) in
          let rest : ((c + 1) % n == 0) ≡ false = ground arith in inr (more, rest)
      | inr above ↦
          let full : c % n + 1 ≡ n = omega (arith, ltb-false (c % n + 1) n above) in
          inl (step ∙ ap (λ x. x % n) full ∙ mod_self n, full)
    ]

maps_of : ℕ → ℕ → LossMaps
maps_of n c = record { drop_every_n = n; packet_count = c }

abbrev verdict_of : Bool → Verdict
verdict_of divisible = if divisible then xdp_drop else xdp_pass

drops-suc :
    (k n c : ℕ)
    → 0 < n
    → c + 1 < u64_mod
    → drops (suc k) (maps_of n c)
      ≡ lost (verdict_of ((c + 1) % n == 0)) + drops k (maps_of n (c + 1))
unfolding drops xdp_pktloss maps_of
drops-suc k n c h fits =
    let on : (n == 0) ≡ false = ground arith in
    let counted : (c + 1) % u64_mod ≡ c + 1 = mod-eq_of_lt fits in rw (on, counted) refl

count_lost : (d n t k r : ℕ) → d * n + t ≡ k + 0 → r + 1 ≡ n → (1 + d) * n + t ≡ suc k + r
count_lost d n t k r e full =
    let more : (1 + d) * n ≡ n + d * n = omega arith in omega (arith, e, full, more)

count_passed : (d n t k r : ℕ) → d * n + t ≡ k + (r + 1) → (0 + d) * n + t ≡ suc k + r
count_passed d n t k r e = let same : (0 + d) ≡ d = omega arith in rw same (omega (arith, e))

drops-from :
    (k n c : ℕ) → 0 < n → c + k < u64_mod → drops k (maps_of n c) * n + (c + k) % n ≡ k + c % n
unfolding drops
drops-from zero n c h fits = let none : c + 0 ≡ c = omega arith in rw none (omega arith)
drops-from (suc k) n c h fits =
    let ind = drops-from k n (c + 1) h (omega (arith, fits)) in
    let shift : (c + 1) + k ≡ c + suc k = omega arith in
    let ind' = subst (λ t. drops k (maps_of n (c + 1)) * n + t % n ≡ k + (c + 1) % n) shift ind in
    elim (next-mod c n h) [
      | inl (divides, full) ↦
          let nothing_left =
            subst (λ r. drops k (maps_of n (c + 1)) * n + (c + suc k) % n ≡ k + r) divides ind' in
          rw (drops-suc k n c h (omega (arith, fits)), divides)
            (count_lost (drops k (maps_of n (c + 1))) n ((c + suc k) % n) k (c % n) nothing_left
              full)
      | inr (more, apart) ↦
          let one_left =
            subst (λ r. drops k (maps_of n (c + 1)) * n + (c + suc k) % n ≡ k + r) more ind' in
          rw (drops-suc k n c h (omega (arith, fits)), apart)
            (count_passed (drops k (maps_of n (c + 1))) n ((c + suc k) % n) k (c % n) one_left)
    ]

-- With a modulus of the loss other than zero and a counter that does not wrap around, the packets
-- lost out of `k`, times the modulus, and what the counter leaves over at the end make up `k` and
-- what it left over at the start.
pub drops-count :
    (k : ℕ) (m : LossMaps)
    → 0 < m.drop_every_n
    → m.packet_count + k < u64_mod
    → drops k m * m.drop_every_n + (m.packet_count + k) % m.drop_every_n
      ≡ k + m.packet_count % m.drop_every_n
unfolding maps_of
drops-count k m = drops-from k m.drop_every_n m.packet_count
