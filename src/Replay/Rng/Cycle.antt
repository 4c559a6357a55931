-- ===== src/Replay/Rng/Cycle.antt =====
-- The states that a generator comes to.
use blackswan_harness.Prelude.{ℕ, zero, suc, ◌+◌, ◌*◌, ◌%◌, ◌<◌, ◌≡◌, ◌↔◌, ap, sym, ◌∙◌, arith}
use blackswan_harness.Core.Clock.{u64_mod}
use blackswan_harness.Replay.Rng.{DeterministicRng, gamma, next_u64}

-- The generator after `n` draws.
unfoldable pub draws : ℕ → DeterministicRng → DeterministicRng
draws zero rng = rng
draws (suc n) rng = (next_u64 (draws n rng)).1

state-draws :
    (n : ℕ) (rng : DeterministicRng)
    → rng.state < u64_mod
    → (draws n rng).state ≡ (rng.state + n * gamma) % u64_mod
unfolding draws next_u64
state-draws zero rng h = omega arith
state-draws (suc n) rng h = omega (arith, state-draws n rng h)

-- An odd increment goes through all the residues.
same_residue :
    (s n m : ℕ)
    → ((s + n * gamma) % u64_mod ≡ (s + m * gamma) % u64_mod) ↔ (n % u64_mod ≡ m % u64_mod)
same_residue s n m = (λ h. omega arith, λ h. omega arith)

-- From any seed of 64 bits, the generators after `n` and after `m` draws are the same exactly when
-- `n` and `m` are the same modulo `2 ^ 64`: no state comes back before all `2 ^ 64` of them have
-- been.
pub draws_iff :
    (n m : ℕ) (rng : DeterministicRng)
    → rng.state < u64_mod
    → (draws n rng ≡ draws m rng) ↔ (n % u64_mod ≡ m % u64_mod)
draws_iff n m rng h =
    let at_n = state-draws n rng h in
    let at_m = state-draws m rng h in
    let residue = same_residue rng.state n m in
    (
      λ same. residue.0 (sym at_n ∙ ap (λ (r : DeterministicRng). r.state) same ∙ at_m),
      λ same. ap (λ (s : ℕ). record { state = s }) (at_n ∙ residue.1 same ∙ sym at_m),
    )
