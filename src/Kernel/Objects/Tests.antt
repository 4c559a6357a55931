-- ===== src/Kernel/Objects/Tests.antt =====
-- A build of the programs of the repository, and the objects that the injectors include.
use blackswan_harness.Prelude.{
  true, if◌then◌else◌, Text, bytes_eq, codes, ok, panic, Option, none, some, List, [], ◌∷◌, ◌≡◌,
  refl, ap, ◌++◌, inl, inr,
}
use blackswan_harness.Prelude.Scan.{split}
use blackswan_harness.Kernel.Xdp.{pktloss, corrupt, partition}
use blackswan_harness.Kernel.Objects.{
  BuildHost, main, compile, compile_all, file_stem, extension, last_dot, clang_args,
}
use blackswan_harness.Kernel.Objects.Compiled.{
  Among, Call, Logs, compilation, IsArch, Names, Multiarch,
}
use blackswan_harness.Kernel.Objects.Built.{main-Compiled}

abbrev sources : List (Option Text)
sources =
    some (codes "README.md")
    ∷ some (codes "xdp_corrupt.c")
    ∷ some (codes "xdp_partition.c")
    ∷ some (codes "xdp_pktloss.c")
    ∷ []

abbrev variables : Text → Text → Option Text
variables target name =
    if bytes_eq name (codes "OUT_DIR")
    then some (codes "/out")
    else if bytes_eq name (codes "TARGET")
    then some target
    else none

-- The world is the list of the calls of `clang`, all of which succeed.
abbrev builder : Text → BuildHost (List Call)
builder target = record {
  var = variables target;
  multiarch = λ w. (none, w);
  read_dir = λ w. (some sources, w);
  clang = λ args w. (some true, (args, some true) ∷ w);
}

abbrev arm_call : Text → Call
arm_call stem = (
  compilation (codes "__TARGET_ARCH_arm64") (codes "aarch64-linux-gnu") (codes "/out") stem,
  some true,
)

three_compiled : main (builder (codes "aarch64-unknown-linux-gnu")) [] ≡ (
  ok tt,
  arm_call (codes "xdp_pktloss")
      ∷ arm_call (codes "xdp_partition")
      ∷ arm_call (codes "xdp_corrupt")
      ∷ [],
)
unfolding main compile_all compile clang_args file_stem extension last_dot bytes_eq split
three_compiled = refl

unsupported : main (builder (codes "riscv64gc-unknown-linux-gnu")) [] ≡ (panic, [])
unfolding main bytes_eq split
unsupported = refl

builder-Logs : (target : Text) → Logs (builder target) (λ w. w)
builder-Logs target = record { ran = λ args w. refl; asked = λ w. refl; listed = λ w. refl }

main-Compiled_example :
    let host = builder (codes "aarch64-unknown-linux-gnu") in
    (out_dir target arch define dir : Text) × (host.var (codes "OUT_DIR") ≡ some out_dir)
    × (host.var (codes "TARGET") ≡ some target)
    × IsArch target arch
    × Names arch define
    × Multiarch host [] arch dir
    × Among (compilation define dir out_dir (codes "xdp_pktloss"), some true) (main host []).1
main-Compiled_example =
    main-Compiled (builder (codes "aarch64-unknown-linux-gnu")) (λ w. w)
      (builder-Logs (codes "aarch64-unknown-linux-gnu")) sources (codes "xdp_pktloss") []
      (λ v. refl) (inr (inr (inr (inl refl)))) (λ e. cc e) (ap (λ r. r.0) three_compiled)

-- The objects have the names under which the injectors include them.
object_names :
    (file_stem (codes "xdp_pktloss.c") ++ codes ".o" ≡ pktloss.object)
    × (file_stem (codes "xdp_corrupt.c") ++ codes ".o" ≡ corrupt.object)
    × (file_stem (codes "xdp_partition.c") ++ codes ".o" ≡ partition.object)
unfolding file_stem last_dot
object_names = (refl, refl, refl)
