-- ===== src/Prelude/Scan.antt =====
-- What the code uses of byte slices: `position`, `starts_with` and `split`, with their laws.
use blackswan_harness.Prelude.{
  ℕ, zero, suc, ◌<◌, Bool, true, false, ◌&&◌, ◌==◌, if◌then◌else◌, Bytes, Option, none, some, List,
  [], ◌∷◌, ◌++◌, ◌≡◌, ◌≢◌, refl, ap, ◌∙◌, inl, inr, arith, Bool-cases, Option-cases, ==_iff,
  append_assoc, length, length-append, drop, All,
}

-- `s.iter().position(|&c| c == b)`.
unfoldable pub position : ℕ → Bytes → Option ℕ
position b [] = none
position b (c ∷ s) =
    let further = position b s in
    if c == b then some 0 else elim further [ none ↦ none | some i ↦ some (suc i) ]

unfoldable pub starts_with : Bytes → Bytes → Bool
starts_with s [] = true
starts_with [] (p ∷ ps) = false
starts_with (c ∷ s) (p ∷ ps) = c == p && starts_with s ps

cons_head : ℕ → List Bytes → List Bytes
cons_head c [] = (c ∷ []) ∷ []
cons_head c (p ∷ ps) = (c ∷ p) ∷ ps

-- `s.split(|&c| c == b)`.
unfoldable pub split : ℕ → Bytes → List Bytes
unfolding cons_head
split b [] = [] ∷ []
split b (c ∷ s) = let rest = split b s in if c == b then [] ∷ rest else cons_head c rest

abbrev pub Lacks : ℕ → Bytes → Type 0
Lacks b = All (λ c. c ≢ b)

pub position-Lacks : (b : ℕ) (s t : Bytes) → Lacks b s → position b (s ++ b ∷ t) ≡ some (length s)
unfolding position
position-Lacks b [] t h = ground arith
position-Lacks b (c ∷ s) t h = ground (arith, position-Lacks b s t h.1)

-- Where a byte is found, the text falls into what is before it and what is behind it.
pub position_cut :
    (b : ℕ) (s : Bytes) (i : ℕ)
    → position b s ≡ some i
    → (before behind : Bytes) × (s ≡ before ++ b ∷ behind) × (length before ≡ i) × Lacks b before
unfolding position
position_cut b [] i h = cc
position_cut b (c ∷ s) i h = elim (Bool-cases (c == b)) [
  | inl here ↦ ([], s, ap (λ x. x ∷ s) ((==_iff c b).0 here), cc (rw here at h), tt)
  | inr other ↦ elim (Option-cases (position b s)) [
    | inl e ↦ cc (rw (other, e) at h)
    | inr (k, e) ↦
        let (before, behind, split, len, lacks) = position_cut b s k e in
        (
          c ∷ before,
          behind,
          ap (λ l. c ∷ l) split,
          ap suc len ∙ cc (rw (other, e) at h),
          ((λ x. cc ((==_iff c b).1 x)), lacks),
        )
  ]
]

pub position-append :
    (b : ℕ) (s t : Bytes) (i : ℕ) → position b s ≡ some i → position b (s ++ t) ≡ some i
position-append b s t i h =
    let (before, behind, split, len, lacks) = position_cut b s i h in
    rw (split, append_assoc) (position-Lacks b before (behind ++ t) lacks ∙ ap some len)

pub position-lt : (b : ℕ) (s : Bytes) (i : ℕ) → position b s ≡ some i → i < length s
position-lt b s i h =
    let (before, behind, split, len, lacks) = position_cut b s i h in
    rw split (omega (arith, len, length-append before (b ∷ behind)))

pub split-Lacks : (b : ℕ) (s t : Bytes) → Lacks b s → split b (s ++ b ∷ t) ≡ s ∷ split b t
unfolding split
split-Lacks b [] t h = ground arith
split-Lacks b (c ∷ s) t h = ground (arith, split-Lacks b s t h.1)

pub Lacks-drop : (b n : ℕ) (s : Bytes) → Lacks b s → Lacks b (drop n s)
Lacks-drop b zero s h = h
Lacks-drop b (suc n) [] h = tt
Lacks-drop b (suc n) (c ∷ s) h = Lacks-drop b n s h.1

All-Lacks-cons_head :
    (b c : ℕ) (ps : List Bytes) → c ≢ b → All (Lacks b) ps → All (Lacks b) (cons_head c ps)
unfolding cons_head
All-Lacks-cons_head b c [] h hs = ((h, tt), tt)
All-Lacks-cons_head b c (p ∷ ps) h hs = ((h, hs.0), hs.1)

pub All-Lacks-split : (b : ℕ) (s : Bytes) → All (Lacks b) (split b s)
unfolding split
All-Lacks-split b [] = (tt, tt)
All-Lacks-split b (c ∷ s) = elim (Bool-cases (c == b)) [
  | inl e ↦ rw e (tt, All-Lacks-split b s)
  | inr e ↦
      rw e (All-Lacks-cons_head b c (split b s) (λ x. cc ((==_iff c b).1 x)) (All-Lacks-split b s))
]

cons_head-cons :
    (c : ℕ) (ps : List Bytes) → (p : Bytes) × (qs : List Bytes) × (cons_head c ps ≡ p ∷ qs)
unfolding cons_head
cons_head-cons c [] = (c ∷ [], [], refl)
cons_head-cons c (p ∷ ps) = (c ∷ p, ps, refl)

split_some : (b : ℕ) (s : Bytes) → (p : Bytes) × (ps : List Bytes) × (split b s ≡ p ∷ ps)
unfolding split
split_some b [] = ([], [], refl)
split_some b (c ∷ s) = elim (Bool-cases (c == b)) [
  | inl e ↦ ([], split b s, rw e)
  | inr e ↦ rw e (cons_head-cons c (split b s))
]

-- The first piece of a text that does not begin with a separator begins like the text.
pub split-cons :
    (b c : ℕ) (s : Bytes)
    → (c == b) ≡ false
    → (p : Bytes) × (ps : List Bytes) × (split b s ≡ p ∷ ps) × (split b (c ∷ s) ≡ (c ∷ p) ∷ ps)
unfolding split cons_head
split-cons b c s h = let (p, ps, e) = split_some b s in (p, ps, e, rw (h, e))
