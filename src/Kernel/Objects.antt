-- ===== src/Kernel/Objects.antt =====
-- crates/kernel/build.rs: the build script, which compiles every C program of the directory bpf to
-- an object that the injectors include. The environment, `dpkg-architecture`, the directory and
-- `clang` are parameters. The line that it prints for cargo is left out.
pub mod Built
pub mod Compiled
mod Tests
use blackswan_harness.Prelude.{
  ℕ, ◌==◌, Bool, true, false, if◌then◌else◌, Text, bytes_eq, codes, Outcome, ok, err, panic, Option,
  none, some, List, [], ◌∷◌, ◌++◌,
}
use blackswan_harness.Prelude.Scan.{split}

-- What the script acts through. `multiarch` is the trimmed output of `dpkg-architecture`, where that
-- runs and ends well; `read_dir` gives the names of the files of bpf, as far as they can be read; and
-- `clang` gives whether it succeeds, if it can be run.
pub record BuildHost (W : Type 0) : Type 0 where
  pub var : Text → Option Text
  pub multiarch : W → Option Text × W
  pub read_dir : W → Option (List (Option Text)) × W
  pub clang : List Text → W → Option Bool × W

abbrev pub Panicking : Type 0 → Type 0
Panicking A = Outcome (Unit {0}) A

-- `expect`.
abbrev expect : {A : Type 0} → Option A → Panicking A
expect none = panic
expect (some a) = ok a

-- The text up to the last dot and behind it.
unfoldable pub last_dot : Text → Option (Text × Text)
last_dot [] = none
last_dot (b ∷ s) = elim (last_dot s) [
  | some (before, after) ↦ some (b ∷ before, after)
  | none ↦ if b == b'.' then some ([], s) else none
]

-- `Path::extension` and `Path::file_stem` of a name: a dot in front begins no extension.
unfoldable pub extension : Text → Option Text
extension name = elim (last_dot name) [
  | none ↦ none
  | some ([], after) ↦ none
  | some (b ∷ before, after) ↦ some after
]

unfoldable pub file_stem : Text → Text
file_stem name = elim (last_dot name) [
  | none ↦ name
  | some ([], after) ↦ name
  | some (b ∷ before, after) ↦ b ∷ before
]

-- The part of the target triple in front of the first dash.
abbrev pub target_arch : Text → Panicking Text
target_arch target = elim (split b'-' target) [ [] ↦ panic | arch ∷ rest ↦ ok arch ]

abbrev pub bpf_arch_define : Text → Panicking Text
bpf_arch_define arch =
    if bytes_eq arch (codes "x86_64")
    then ok (codes "__TARGET_ARCH_x86")
    else if bytes_eq arch (codes "aarch64")
    then ok (codes "__TARGET_ARCH_arm64")
    else panic

-- The conventional directory, where `dpkg-architecture` gives none.
abbrev pub fallback_dir : Text → Panicking Text
fallback_dir arch =
    if bytes_eq arch (codes "x86_64")
    then ok (codes "x86_64-linux-gnu")
    else if bytes_eq arch (codes "aarch64")
    then ok (codes "aarch64-linux-gnu")
    else panic

abbrev pub multiarch_dir : Text → Option Text → Panicking Text
multiarch_dir arch (some dir) = ok dir
multiarch_dir arch none = fallback_dir arch

-- The arguments of `clang` for a C file of the directory.
unfoldable pub clang_args : Text → Text → Text → Text → List Text
clang_args define multiarch out_dir name =
    codes "-O2"
    ∷ codes "-target"
    ∷ codes "bpf"
    ∷ (codes "-D" ++ define)
    ∷ codes "-I/usr/include/bpf"
    ∷ (codes "-I/usr/include/" ++ multiarch)
    ∷ codes "-c"
    ∷ (codes "bpf/" ++ name)
    ∷ codes "-o"
    ∷ (out_dir ++ (codes "/" ++ (file_stem name ++ codes ".o")))
    ∷ []

abbrev pub is_c : Text → Bool
is_c name = elim (extension name) [ none ↦ false | some e ↦ bytes_eq e (codes "c") ]

module _ {W : Type 0} (host : BuildHost W) (define multiarch out_dir : Text) where
  -- One call of `clang`, which must succeed.
  unfoldable pub compile : Text → W → Panicking (Unit {0}) × W
  compile name w =
      let (status, w') = host.clang (clang_args define multiarch out_dir name) w in
      elim status [ none ↦ (panic, w') | some true ↦ (ok tt, w') | some false ↦ (panic, w') ]

  unfoldable pub compile_all : List (Option Text) → W → Panicking (Unit {0}) × W
  compile_all [] w = (ok tt, w)
  compile_all (none ∷ entries) w = (panic, w)
  compile_all (some name ∷ entries) w =
      if is_c name
      then (let (r, w') = compile name w in
          elim r [ ok _ ↦ compile_all entries w' | err e ↦ (err e, w') | panic ↦ (panic, w') ])
      else compile_all entries w

-- A panic in front of the rest of the script.
abbrev pub then_run : {W A C : Type 0} → Panicking A → W → (A → Panicking C × W) → Panicking C × W
then_run (ok a) w k = k a
then_run (err e) w k = (err e, w)
then_run panic w k = (panic, w)

unfoldable pub main : {W : Type 0} → BuildHost W → W → Panicking (Unit {0}) × W
main host w = then_run (expect (host.var (codes "OUT_DIR"))) w λ out_dir.
    then_run (expect (host.var (codes "TARGET"))) w λ target.
      then_run (target_arch target) w λ arch. then_run (bpf_arch_define arch) w λ define.
        let (dir, w') = host.multiarch w in
        then_run (multiarch_dir arch dir) w' λ multiarch.
          let (listed, w'') = host.read_dir w' in
          then_run (expect listed) w''
            λ entries. compile_all host define multiarch out_dir entries w''
