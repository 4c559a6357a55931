-- ===== src/Kernel/Objects/Built.antt =====
-- The whole build script of the kernel crate: what a build that ends well has compiled, and with which
-- options.
use blackswan_harness.Prelude.{
  ℕ, ◌==◌, ==_iff, true, Bool-cases, bytes_eq, bytes_eq_iff, Text, codes, ok, err, panic, Option,
  none, some, List, [], ◌∷◌, ◌++◌, ◌≡◌, ◌≢◌, refl, sym, ap, subst, ◌∙◌, ◌⊎◌, inl, inr,
}
use blackswan_harness.Prelude.Scan.{split, split-cons}
use blackswan_harness.Kernel.Objects.{
  BuildHost, Panicking, then_run, expect, target_arch, bpf_arch_define, fallback_dir, multiarch_dir,
  clang_args, compile_all, main,
}
use blackswan_harness.Kernel.Objects.Compiled.{
  Among, Call, Logs, compilation, IsArch, Names, Multiarch, is_c-stem, file_stem-stem,
  compile_all-calls,
}

-- The first piece of a text is the text, or it ends at a separator.
split-head :
    (b : ℕ) (s p : Text) (ps : List Text)
    → split b s ≡ p ∷ ps
    → (s ≡ p) ⊎ ((rest : Text) × (s ≡ p ++ b ∷ rest))
unfolding split
split-head b [] p ps h = inl cc
split-head b (c ∷ s) p ps h = elim (Bool-cases (c == b)) [
  | inl e ↦
      let empty : [] ≡ p = cc (rw e at h) in
      let same : c ≡ b = (==_iff c b).0 e in inr (s, cc (ap (λ q. q ++ b ∷ s) empty))
  | inr e ↦
      let (q, qs, e1, e2) = split-cons b c s e in
      let head : c ∷ q ≡ p = cc (h, e2) in
      elim (split-head b s q qs e1) [
        | inl same ↦ inl cc
        | inr (rest, same) ↦ inr (rest, ap (λ t. c ∷ t) same ∙ ap (λ t. t ++ b ∷ rest) head)
      ]
]

target_arch-IsArch : (target arch : Text) → target_arch target ≡ ok arch → IsArch target arch
target_arch-IsArch target arch h = elim (list-cases (split b'-' target)) [
  | inl e ↦ cc (rw (e, target_arch) at h)
  | inr (p, ps, e) ↦
      let same : p ≡ arch = cc (rw (e, target_arch) at h) in
      subst (IsArch target) same (split-head b'-' target p ps e)
]
  where
    list-cases : (xs : List Text) → (xs ≡ []) ⊎ ((p : Text) × (ps : List Text) × (xs ≡ p ∷ ps))
    list-cases [] = inl refl
    list-cases (p ∷ ps) = inr (p, ps, refl)

bpf_arch_define-Names : (arch define : Text) → bpf_arch_define arch ≡ ok define → Names arch define
bpf_arch_define-Names arch define h = elim (Bool-cases (bytes_eq arch (codes "x86_64"))) [
  | inl e ↦ inl ((bytes_eq_iff _ _).0 e, cc (rw e at h))
  | inr other ↦ elim (Bool-cases (bytes_eq arch (codes "aarch64"))) [
    | inl e ↦ inr ((bytes_eq_iff _ _).0 e, cc (rw (other, e) at h))
    | inr e ↦ cc (rw (other, e) at h)
  ]
]

fallback_dir-gnu : (arch dir : Text) → fallback_dir arch ≡ ok dir → dir ≡ arch ++ codes "-linux-gnu"
fallback_dir-gnu arch dir h = elim (Bool-cases (bytes_eq arch (codes "x86_64"))) [
  | inl e ↦
      let same : codes "x86_64-linux-gnu" ≡ dir = cc (rw e at h) in
      rw ((bytes_eq_iff _ _).0 e) (sym same)
  | inr other ↦ elim (Bool-cases (bytes_eq arch (codes "aarch64"))) [
    | inl e ↦
        let same : codes "aarch64-linux-gnu" ≡ dir = cc (rw (other, e) at h) in
        rw ((bytes_eq_iff _ _).0 e) (sym same)
    | inr e ↦ cc (rw (other, e) at h)
  ]
]

multiarch_dir-Multiarch :
    {W : Type 0} (host : BuildHost W) (w : W) (arch dir : Text) (asked : Option Text)
    → (host.multiarch w).0 ≡ asked
    → multiarch_dir arch asked ≡ ok dir
    → Multiarch host w arch dir
multiarch_dir-Multiarch host w arch dir (some d) e h = inl cc
multiarch_dir-Multiarch host w arch dir none e h = inr (e, fallback_dir-gnu arch dir h)

clang_args-stem :
    (define multiarch out_dir stem : Text)
    → stem ≢ []
    → clang_args define multiarch out_dir (stem ++ codes ".c")
      ≡ compilation define multiarch out_dir stem
unfolding clang_args
clang_args-stem define multiarch out_dir stem h = rw (clang_args, file_stem-stem stem h) refl

-- A step that is followed by success has a value, from which the rest goes on.
then_run-ok :
    {W A C : Type 0} (r : Panicking A) (w : W) (k : A → Panicking C × W) {c : C}
    → (then_run r w k).0 ≡ ok c
    → (a : A) × (r ≡ ok a) × ((k a).0 ≡ ok c) × (then_run r w k ≡ k a)
then_run-ok (ok a) w k h = (a, refl, h, refl)
then_run-ok (err e) w k h = cc
then_run-ok panic w k h = cc

expect-ok : {A : Type 0} (o : Option A) (a : A) → expect o ≡ ok a → o ≡ some a
expect-ok none a h = cc
expect-ok (some b) a h = cc

some-inj : {A : Type 0} {a b : A} → some a ≡ some b → a ≡ b
some-inj h = cc

-- A build that ends well, where the directory lists the same entries whenever it is read and the
-- calls of `clang` are logged: for each name that is listed with the extension c behind a stem that
-- is not empty, `clang` has been called and has succeeded, with -O2, the target bpf, the macro of
-- the architecture, both directories of headers, the file of that name in bpf, and the object of
-- its stem in OUT_DIR. The architecture is the first part of TARGET and the macro its own; the
-- second directory is the one that `dpkg-architecture` gives, or else that of the architecture.
pub main-Compiled :
    {W : Type 0} (host : BuildHost W) (calls : W → List Call)
    → Logs host calls
    → (entries : List (Option Text)) (stem : Text) (w : W)
    → ((v : W) → (host.read_dir v).0 ≡ some entries)
    → Among (some (stem ++ codes ".c")) entries
    → stem ≢ []
    → (main host w).0 ≡ ok tt
    → (out_dir target arch define dir : Text) × (host.var (codes "OUT_DIR") ≡ some out_dir)
      × (host.var (codes "TARGET") ≡ some target)
      × IsArch target arch
      × Names arch define
      × Multiarch host w arch dir
      × Among (compilation define dir out_dir stem, some true) (calls (main host w).1)
unfolding main
main-Compiled host calls logs entries stem w lists at named h =
    let (out_dir, out, h1, e1) = then_run-ok (expect (host.var (codes "OUT_DIR"))) w _ h in
    let (target, tgt, h2, e2) = then_run-ok (expect (host.var (codes "TARGET"))) w _ h1 in
    let (arch, is_arch, h3, e3) = then_run-ok (target_arch target) w _ h2 in
    let (define, names, h4, e4) = then_run-ok (bpf_arch_define arch) w _ h3 in
    let w1 = (host.multiarch w).1 in
    let (dir, dirs, h5, e5) = then_run-ok (multiarch_dir arch (host.multiarch w).0) w1 _ h4 in
    let w2 = (host.read_dir w1).1 in
    let (listed, e, h6, e6) = then_run-ok (expect (host.read_dir w1).0) w2 _ h5 in
    let same : entries ≡ listed = some-inj (sym (lists w1) ∙ expect-ok _ listed e) in
    let called =
      compile_all-calls host calls logs define dir out_dir (stem ++ codes ".c") listed w2
        (is_c-stem stem named) (subst (Among (some (stem ++ codes ".c"))) same at) h6 in
    let whole = e1 ∙ e2 ∙ e3 ∙ e4 ∙ e5 ∙ e6 in
    (
      out_dir,
      target,
      arch,
      define,
      dir,
      expect-ok _ out_dir out,
      expect-ok _ target tgt,
      target_arch-IsArch target arch is_arch,
      bpf_arch_define-Names arch define names,
      multiarch_dir-Multiarch host w arch dir _ refl dirs,
      subst (λ r. Among (compilation define dir out_dir stem, some true) (calls r.1)) (sym whole)
          (subst
            (λ args.
              Among (args, some true) (calls (compile_all host define dir out_dir listed w2).1))
            (clang_args-stem define dir out_dir stem named) called),
    )
