-- ===== src/Kernel/CgroupMem.antt =====
-- crates/kernel/src/cgroup_mem.rs: memory pressure on a process by the limit of a cgroup.
pub mod Made
pub mod Limit
pub mod Contract
pub mod Again
mod Tests
use blackswan_harness.Prelude.{
  ℕ, ◌==◌, Bool, true, false, ◌&&◌, ◌||◌, not, if◌then◌else◌, Text, codes, Option, none, some,
  Outcome, ok, err, panic, ◌>>=◌, List, [], ◌∷◌, ◌++◌, ◌⊎◌, inl, inr,
}
use blackswan_harness.Prelude.Decimal.{to_string}
use blackswan_harness.Prelude.Scan.{split}
use blackswan_harness.Core.Error.{HarnessError, arm_failed, disarm_failed, io}
use blackswan_harness.Core.Fault.{FaultContext, FaultInjector}
use blackswan_harness.Kernel.Files.{
  Files, FilePath, join, parent, path_eq, display, strip_prefix, trim_slashes, lift_io,
}

pub data PressureMode : Type 0 where
  hard soft : PressureMode

-- `setup`: the directory of the cgroup, the name of the limit file, and what lifts the limit.
pub record Setup : Type 0 where
  pub path : FilePath
  pub limit_file : Text
  pub unlimited : Text

pub record CgroupInjector : Type 0 where
  pub id : Text
  pub pid : ℕ
  pub limit_bytes : ℕ
  pub mode : PressureMode
  pub setup : Option Setup
  pub armed : Bool

unfoldable pub new : Text → ℕ → ℕ → PressureMode → CgroupInjector
new id pid limit_bytes mode = record {
  id = id;
  pid = pid;
  limit_bytes = limit_bytes;
  mode = mode;
  setup = none;
  armed = false;
}

abbrev v1_root : FilePath
v1_root = codes "sys" ∷ codes "fs" ∷ codes "cgroup" ∷ codes "memory" ∷ []

abbrev cgroup_root : FilePath
cgroup_root = codes "sys" ∷ codes "fs" ∷ codes "cgroup" ∷ []

abbrev unified_root : FilePath
unified_root = codes "sys" ∷ codes "fs" ∷ codes "cgroup" ∷ codes "unified" ∷ []

abbrev proc_self_cgroup : FilePath
proc_self_cgroup = codes "proc" ∷ codes "self" ∷ codes "cgroup" ∷ []

abbrev v1_limit : Text
v1_limit = codes "memory.limit_in_bytes"

abbrev v2_limit : Text
v2_limit = codes "memory.max"

abbrev newline : ℕ
newline = 10

-- `str::lines`, less an empty last line, which has no prefix: a line may end in a carriage return.
drop_return : Text → Text
drop_return [] = []
drop_return (c ∷ []) = if c == 13 then [] else c ∷ []
drop_return (c ∷ d ∷ s) = c ∷ drop_return (d ∷ s)

-- `find_map` over the lines.
find_v2 : List Text → Option Text
find_v2 [] = none
find_v2 (line ∷ lines) = elim (strip_prefix (drop_return line) (codes "0::")) [
  | none ↦ find_v2 lines
  | some path ↦ some path
]

-- The file that limits, and what lifts the limit, by the version of the hierarchy and the mode.
pub limit_of : Bool → PressureMode → Text × Text
limit_of true hard = (v1_limit, codes "9223372036854775807")
limit_of true soft = (codes "memory.soft_limit_in_bytes", codes "9223372036854775807")
limit_of false hard = (v2_limit, codes "max")
limit_of false soft = (codes "memory.high", codes "max")

is_mount_root : FilePath → Bool
is_mount_root p = path_eq cgroup_root p || path_eq unified_root p

-- Where the cgroup is made: beside the given one in v2, if that is no mount root, and in it otherwise.
pub parent_dir : Bool → FilePath → FilePath
unfolding is_mount_root
parent_dir is_v1 subtree =
    if is_v1 || is_mount_root subtree
    then subtree
    else elim (parent subtree) [ none ↦ subtree | some p ↦ p ]

module _ {W : Type 0} (files : Files W) where
  -- The part of `locate_subtree` behind the v2 entry.
  pub locate_v2 : Text → Text → W → Outcome HarnessError FilePath
  locate_v2 id v2_path w =
      if files.exists (join cgroup_root (codes "cgroup.controllers")) w
        && files.exists (join (join cgroup_root v2_path) v2_limit) w
      then ok (join cgroup_root v2_path)
      else if files.exists (join (join unified_root v2_path) v2_limit) w
      then ok (join unified_root v2_path)
      else err
          (arm_failed id (codes "no usable memory controller on either v1 or v2 cgroup hierarchy"))

  pub locate_subtree : Text → W → Outcome HarnessError FilePath
  unfolding find_v2
  locate_subtree id w =
      if files.exists (join v1_root v1_limit) w
      then ok v1_root
      else (lift_io io (files.read_to_string proc_self_cgroup w) >>= λ our_cgroup.
          elim (find_v2 (split newline our_cgroup)) [
            | none ↦ err (arm_failed id (codes "no v2 cgroup entry in /proc/self/cgroup"))
            | some v2_path ↦ locate_v2 id (trim_slashes v2_path) w
          ])

  -- A call that writes, with its error as an `ArmFailed` behind a text, and what comes next.
  abbrev then_write :
      {C : Type 0}
      → (Text → HarnessError)
      → (Text ⊎ Unit {0}) × W
      → (W → Outcome HarnessError C × W)
      → Outcome HarnessError C × W
  then_write f (inl e, w) k = (err (f e), w)
  then_write f (inr _, w) k = k w

  -- The best-effort write of `cgroup.subtree_control`, whose result is dropped.
  pub delegate : Bool → FilePath → FilePath → Text → W → W
  delegate is_v1 parent child limit_file w =
      if not is_v1 && not (files.exists (join child limit_file) w)
      then (files.write (join parent (codes "cgroup.subtree_control")) (codes "+memory") w).1
      else w

  -- `ensure_setup` behind `locate_subtree`: the cgroup is made and the process moved into it.
  pub set_up : CgroupInjector → FilePath → W → Outcome HarnessError Setup × W
  set_up i subtree w =
      let is_v1 = files.exists (join subtree v1_limit) w in
      let (limit_file, unlimited) = limit_of is_v1 i.mode in
      let parent = parent_dir is_v1 subtree in
      let child = join parent (codes "blackswan-" ++ i.id) in
      then_write
        (λ e. arm_failed i.id (codes "creating cgroup " ++ (display child ++ (codes ": " ++ e))))
        (files.create_dir_all child w)
        λ w.
          then_write
            (λ e.
              arm_failed i.id
                (codes "moving pid " ++ (to_string i.pid ++ (codes " into cgroup: " ++ e))))
            (files.write (join child (codes "cgroup.procs")) (to_string i.pid)
              (delegate is_v1 parent child limit_file w))
            λ w. (ok (record { path = child; limit_file = limit_file; unlimited = unlimited }), w)

  pub ensure_setup : CgroupInjector → W → Outcome HarnessError (Unit {0}) × CgroupInjector × W
  ensure_setup i w = elim i.setup [
    | some _ ↦ (ok tt, i, w)
    | none ↦ elim (locate_subtree i.id w) [
      | err e ↦ (err e, i, w)
      | panic ↦ (panic, i, w)
      | ok subtree ↦
          let (r, w') = set_up i subtree w in
          elim r [
            | ok setup ↦ (ok tt, record i { setup = some setup }, w')
            | err e ↦ (err e, i, w')
            | panic ↦ (panic, i, w')
          ]
    ]
  ]

  -- The write of the limit; `expect("just set up above")` panics where there is no cgroup.
  pub write_limit : CgroupInjector → W → Outcome HarnessError (Unit {0}) × CgroupInjector × W
  write_limit i w = elim i.setup [
    | none ↦ (panic, i, w)
    | some s ↦
        let (r, w') = files.write (join s.path s.limit_file) (to_string i.limit_bytes) w in
        elim r [
          | inl e ↦ (
            err (arm_failed i.id (codes "writing " ++ (s.limit_file ++ (codes ": " ++ e)))),
            i,
            w',
          )
          | inr _ ↦ (ok tt, record i { armed = true }, w')
        ]
  ]

  pub arm : FaultContext → CgroupInjector → W → Outcome HarnessError (Unit {0}) × CgroupInjector × W
  arm ctx i w =
      let (r, i', w') = ensure_setup i w in
      elim r [ ok _ ↦ write_limit i' w' | err e ↦ (err e, i', w') | panic ↦ (panic, i', w') ]

  pub disarm : CgroupInjector → W → Outcome HarnessError (Unit {0}) × CgroupInjector × W
  disarm i w = elim i.setup [
    | none ↦ (ok tt, record i { armed = false }, w)
    | some s ↦
        let (r, w') = files.write (join s.path s.limit_file) s.unlimited w in
        elim r [
          | inl e ↦ (
            err (disarm_failed i.id (codes "writing " ++ (s.limit_file ++ (codes ": " ++ e)))),
            i,
            w',
          )
          | inr _ ↦ (ok tt, record i { armed = false }, w')
        ]
  ]

  unfoldable pub cgroup_injector : FaultInjector W CgroupInjector
  cgroup_injector = record { id = λ i. i.id; arm = arm; disarm = disarm; is_armed = λ i. i.armed }
