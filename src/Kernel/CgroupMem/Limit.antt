-- ===== src/Kernel/CgroupMem/Limit.antt =====
-- The limit file of a cgroup injector.
use blackswan_harness.Prelude.{Bool, Text, some, inr, ◌≡◌}
use blackswan_harness.Core.Fault.Reach.{Reach}
use blackswan_harness.Kernel.Files.{Files, FilePath, join}
use blackswan_harness.Kernel.CgroupMem.{CgroupInjector, Setup}
use blackswan_harness.Kernel.CgroupMem.Made.{Made}

module _ {W : Type 0} (files : Files W) where
  -- What a successful call leaves: the flag, and what the limit file shows of a text.
  abbrev pub Leaves : (FilePath → Text → Text) → Bool → Setup → Text → CgroupInjector × W → Type 0
  Leaves shown on s t (i, w) =
      (i.armed ≡ on)
      × (i.setup ≡ some s)
      × (files.read_to_string (join s.path s.limit_file) w
          ≡ inr (shown (join s.path s.limit_file) t))
