-- ===== src/Kernel/Objects/Compiled.antt =====
-- What a build that ends well has compiled, by the calls of `clang` that it has made.
use blackswan_harness.Prelude.{
  Bool, true, false, Bool-cases, bytes_eq, Text, codes, ok, Outcome-cases, Option, none, some,
  Option-cases, List, [], ◌∷◌, ◌++◌, ◌≡◌, ◌≢◌, refl, sym, ap, subst, ◌⊎◌, inl, inr,
}
use blackswan_harness.Kernel.Objects.{
  BuildHost, file_stem, clang_args, is_c, compile, compile_all, last_dot, extension,
}

abbrev pub Among : {A : Type 0} → A → List A → Type 0
Among x [] = ⊥
Among x (y ∷ ys) = (x ≡ y) ⊎ Among x ys

-- A call of `clang`, and whether it succeeded, if it could be run.
abbrev pub Call : Type 0
Call = List Text × Option Bool

-- The calls of `clang` that a world has seen, the latest first.
pub record Logs {W : Type 0} (host : BuildHost W) (calls : W → List Call) : Type 0 where
  pub ran :
      (args : List Text) (w : W)
      → calls (host.clang args w).1 ≡ (args, (host.clang args w).0) ∷ calls w
  pub asked : (w : W) → calls (host.multiarch w).1 ≡ calls w
  pub listed : (w : W) → calls (host.read_dir w).1 ≡ calls w

-- The compilation of the C file of a stem to the object of the same stem.
abbrev pub compilation : (define multiarch out_dir stem : Text) → List Text
compilation define multiarch out_dir stem =
    codes "-O2"
    ∷ codes "-target"
    ∷ codes "bpf"
    ∷ (codes "-D" ++ define)
    ∷ codes "-I/usr/include/bpf"
    ∷ (codes "-I/usr/include/" ++ multiarch)
    ∷ codes "-c"
    ∷ (codes "bpf/" ++ (stem ++ codes ".c"))
    ∷ codes "-o"
    ∷ (out_dir ++ (codes "/" ++ (stem ++ codes ".o")))
    ∷ []

-- The architecture of a target triple is what is in front of its first part.
abbrev pub IsArch : Text → Text → Type 0
IsArch target arch = (target ≡ arch) ⊎ ((rest : Text) × (target ≡ arch ++ b'-' ∷ rest))

-- The macro of an architecture.
abbrev pub Names : Text → Text → Type 0
Names arch define =
    ((arch ≡ codes "x86_64") × (define ≡ codes "__TARGET_ARCH_x86"))
    ⊎ ((arch ≡ codes "aarch64") × (define ≡ codes "__TARGET_ARCH_arm64"))

-- The directory of headers that `dpkg-architecture` gives, or else that of the architecture.
abbrev pub Multiarch : {W : Type 0} → BuildHost W → W → Text → Text → Type 0
Multiarch host w arch dir =
    ((host.multiarch w).0 ≡ some dir)
    ⊎ (((host.multiarch w).0 ≡ none) × (dir ≡ arch ++ codes "-linux-gnu"))

last_dot-stem : (stem : Text) → last_dot (stem ++ codes ".c") ≡ some (stem, codes "c")
unfolding last_dot
last_dot-stem [] = refl
last_dot-stem (b ∷ s) = rw (last_dot-stem s) refl

pub is_c-stem : (stem : Text) → stem ≢ [] → is_c (stem ++ codes ".c") ≡ true
unfolding extension bytes_eq
is_c-stem [] h = absurd (h refl)
is_c-stem (b ∷ s) h = rw (is_c, last_dot-stem (b ∷ s)) refl

pub file_stem-stem : (stem : Text) → stem ≢ [] → file_stem (stem ++ codes ".c") ≡ stem
unfolding file_stem
file_stem-stem [] h = absurd (h refl)
file_stem-stem (b ∷ s) h = rw (file_stem, last_dot-stem (b ∷ s)) refl

module _ {W : Type 0} (host : BuildHost W) (calls : W → List Call) (logs : Logs host calls)
    (define multiarch out_dir : Text) where
  -- A compilation that succeeds is the latest call.
  compile-call :
      (name : Text) (w : W)
      → let (r, w') = compile host define multiarch out_dir name w in
        r ≡ ok tt → Among (clang_args define multiarch out_dir name, some true) (calls w')
  unfolding compile
  compile-call name w h =
      let args = clang_args define multiarch out_dir name in
      elim (Option-cases (host.clang args w).0) [
        | inl e ↦ cc (rw (e, compile) at h)
        | inr (true, e) ↦ rw (e, compile) (rw (logs.ran args w) (inl (ap (λ s. (args, s)) (sym e))))
        | inr (false, e) ↦ cc (rw (e, compile) at h)
      ]

  -- What has been called stays called.
  compile-keeps :
      (call : Call) (name : Text) (w : W)
      → Among call (calls w)
      → Among call (calls (compile host define multiarch out_dir name w).1)
  unfolding compile
  compile-keeps call name w h =
      let args = clang_args define multiarch out_dir name in
      let kept : Among call (calls (host.clang args w).1) = rw (logs.ran args w) (inr h) in
      elim (Option-cases (host.clang args w).0) [
        | inl e ↦ rw (e, compile) kept
        | inr (true, e) ↦ rw (e, compile) kept
        | inr (false, e) ↦ rw (e, compile) kept
      ]

  compile_all-keeps :
      (call : Call) (entries : List (Option Text)) (w : W)
      → Among call (calls w)
      → Among call (calls (compile_all host define multiarch out_dir entries w).1)
  unfolding compile_all
  compile_all-keeps call [] w h = h
  compile_all-keeps call (none ∷ entries) w h = h
  compile_all-keeps call (some name ∷ entries) w h =
      let next = (compile host define multiarch out_dir name w).1 in
      let kept = compile-keeps call name w h in
      elim (Bool-cases (is_c name)) [
        | inr other ↦ rw (other, compile_all) (compile_all-keeps call entries w h)
        | inl c ↦ elim (Outcome-cases (compile host define multiarch out_dir name w).0) [
          | inl (_, e) ↦ rw (c, compile_all, e) (compile_all-keeps call entries next kept)
          | inr (inl (_, e)) ↦ rw (c, compile_all, e) kept
          | inr (inr e) ↦ rw (c, compile_all, e) kept
        ]
      ]

  pub compile_all-calls :
      (name : Text) (entries : List (Option Text)) (w : W)
      → is_c name ≡ true
      → Among (some name) entries
      → (compile_all host define multiarch out_dir entries w).0 ≡ ok tt
      → Among
          (clang_args define multiarch out_dir name, some true)
          (calls (compile_all host define multiarch out_dir entries w).1)
  unfolding compile_all
  compile_all-calls name [] w c at h = absurd at
  compile_all-calls name (none ∷ entries) w c at h = cc
  compile_all-calls name (some other ∷ entries) w c at h =
      let next = (compile host define multiarch out_dir other w).1 in
      elim (Bool-cases (is_c other)) [
        | inr no_c ↦ elim at [
          | inl same ↦ let same' : name ≡ other = cc (same) in cc (no_c, c, ap is_c same')
          | inr later ↦
              rw (no_c, compile_all)
                (compile_all-calls name entries w c later (rw (no_c, compile_all) at h))
        ]
        | inl is ↦ elim (Outcome-cases (compile host define multiarch out_dir other w).0) [
          | inr (inl (_, e)) ↦ cc (rw (is, compile_all, e) at h)
          | inr (inr e) ↦ cc (rw (is, compile_all, e) at h)
          | inl (_, e) ↦ elim at [
            | inr later ↦
                rw (is, compile_all, e)
                  (compile_all-calls name entries next c later (rw (is, compile_all, e) at h))
            | inl same ↦
                let same' : other ≡ name = cc (same) in
                let called =
                  subst (λ n. Among (clang_args define multiarch out_dir n, some true) (calls next))
                    same' (compile-call other w e) in
                rw (is, compile_all, e) (compile_all-keeps _ entries next called)
          ]
        ]
      ]
