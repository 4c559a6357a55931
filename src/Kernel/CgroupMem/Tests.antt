-- ===== src/Kernel/CgroupMem/Tests.antt =====
-- A limit on a v1 hierarchy, on a machine that lists its files.
use blackswan_harness.Prelude.{true, if◌then◌else◌, Text, codes, List, [], ◌∷◌, ◌⊎◌, inl, inr}
use blackswan_harness.Core.Clock.{system_clock}
use blackswan_harness.Core.Fault.{FaultContext}
use blackswan_harness.Kernel.Files.{Files, FilePath, path_eq}
use blackswan_harness.Kernel.CgroupMem.{CgroupInjector, hard, new}

abbrev Machine : Type 0
Machine = List (FilePath × Text)

abbrev read_file : FilePath → Machine → Text ⊎ Text
read_file p [] = inl (codes "not found")
read_file p ((q, t) ∷ w) = if path_eq q p then inr t else read_file p w

-- Every file is there, so the hierarchy is v1; what is written is kept.
abbrev files : Files Machine
files = record {
  exists = λ p w. true;
  read_to_string = read_file;
  create_dir_all = λ p w. (inr tt, w);
  write = λ p t w. (inr tt, (p, t) ∷ w);
}

abbrev plain : FilePath → Text → Text
plain p t = t

abbrev context : FaultContext
context = record { clock = system_clock; seed = 7 }

abbrev limiter : CgroupInjector
limiter = new (codes "oms") 42 8388608 hard
