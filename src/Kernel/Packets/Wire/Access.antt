-- ===== src/Kernel/Packets/Wire/Access.antt =====
-- Reads behind a front of known length.
use blackswan_harness.Prelude.{
  ℕ, ◌+◌, ◌*◌, ◌/◌, ◌%◌, ◌≤◌, false, ltb-eq-false, Bytes, [], ◌∷◌, ◌++◌, length, some, ◌≡◌, refl,
  arith,
}
use native.Mathlib.Nat.{suc-add}
use blackswan_harness.Kernel.Packets.Partition.{get_elem?, be16, ne32, past}

pub get_elem?-behind :
    (front p : Bytes) (i : ℕ) → get_elem? (front ++ p) (length front + i) ≡ get_elem? p i
unfolding get_elem?
get_elem?-behind [] p i = let none : 0 + i ≡ i = omega arith in rw none refl
get_elem?-behind (b ∷ front) p i = rw (suc-add (length front) i) (get_elem?-behind front p i)

pub get_elem?-head :
    (front : Bytes) (b : ℕ) (p : Bytes) → get_elem? (front ++ (b ∷ p)) (length front) ≡ some b
unfolding get_elem?
get_elem?-head [] b p = refl
get_elem?-head (a ∷ front) b p = get_elem?-head front b p

step_by :
    (front p : Bytes) (i k : ℕ)
    → get_elem? (front ++ p) (length front + i + k) ≡ get_elem? p (i + k)
step_by front p i k =
    let apart : length front + i + k ≡ length front + (i + k) = omega arith in
    rw apart (get_elem?-behind front p (i + k))

pub be16-behind : (front p : Bytes) (i : ℕ) → be16 (front ++ p) (length front + i) ≡ be16 p i
unfolding be16
be16-behind front p i = rw (get_elem?-behind front p i, step_by front p i 1) refl

pub ne32-behind : (front p : Bytes) (i : ℕ) → ne32 (front ++ p) (length front + i) ≡ ne32 p i
unfolding ne32
ne32-behind front p i =
    rw (get_elem?-behind front p i, step_by front p i 1, step_by front p i 2, step_by front p i 3)
      refl

-- A field of two bytes is read as it was written.
pub word16-read : (v : ℕ) → v / 256 * 256 + v % 256 ≡ v
word16-read v = omega arith

-- A check that a part has room passes where it has.
pub past-false : (frame : Bytes) (p : ℕ) → p ≤ length frame → past frame p ≡ false
past-false frame p h = ltb-eq-false (length frame) p h
