-- ===== src/Kernel/CgroupMem/Made.antt =====
-- What a cgroup injector keeps of what it was made with, through every call.
use blackswan_harness.Prelude.{
  ℕ, Bool, Text, codes, ◌++◌, Outcome, ok, Outcome-cases, some, Option-cases, sum-cases, inl, inr,
  ◌≡◌, refl, ap, sym, subst,
}
use blackswan_harness.Prelude.Decimal.{to_string}
use blackswan_harness.Core.Error.{HarnessError}
use blackswan_harness.Core.Fault.{FaultContext}
use blackswan_harness.Kernel.Files.{Files, FilePath, join}
use blackswan_harness.Kernel.CgroupMem.{
  CgroupInjector, PressureMode, Setup, v1_limit, parent_dir, delegate, then_write, limit_of, set_up,
  locate_subtree, ensure_setup, write_limit, arm, disarm,
}

-- The file and what lifts its limit are those of one version of the hierarchy.
abbrev pub IsPaired : PressureMode → Setup → Type 0
IsPaired mode s =
    (is_v1 : Bool) × ((s.limit_file ≡ (limit_of is_v1 mode).0)
      × (s.unlimited ≡ (limit_of is_v1 mode).1))

-- What an injector was made with, which no call changes.
pub record Made (id : Text) (limit_bytes : ℕ) (mode : PressureMode) (i : CgroupInjector)
    : Type 0 where
  pub name : i.id ≡ id
  pub limit : i.limit_bytes ≡ limit_bytes
  pub kind : i.mode ≡ mode
  pub paired : (s : Setup) → i.setup ≡ some s → IsPaired mode s

ok-inj : {A : Type 0} {a b : A} → ◌≡◌ {A = Outcome HarnessError A} (ok a) (ok b) → a ≡ b
ok-inj h = cc

some-inj : {A : Type 0} {a b : A} → some a ≡ some b → a ≡ b
some-inj h = cc

module _ {W : Type 0} (files : Files W) where
  set_up-IsPaired :
      (i : CgroupInjector) (subtree : FilePath) (w : W) (s : Setup)
      → (set_up files i subtree w).0 ≡ ok s
      → IsPaired i.mode s
  unfolding set_up
  set_up-IsPaired i subtree w s h =
      let is_v1 = files.exists (join subtree v1_limit) w in
      let parent = parent_dir is_v1 subtree in
      let child = join parent (codes "blackswan-" ++ i.id) in
      let made = files.create_dir_all child w in
      let moved =
        files.write (join child (codes "cgroup.procs")) (to_string i.pid)
          (delegate files is_v1 parent child (limit_of is_v1 i.mode).0 made.1) in
      elim (sum-cases made.0) [
        | inl (_, e) ↦ cc (rw (e, set_up, then_write) at h)
        | inr (_, e) ↦ elim (sum-cases moved.0) [
          | inl (_, k) ↦ cc (rw (e, set_up, then_write, k, then_write) at h)
          | inr (_, k) ↦
              let same = ok-inj (rw (e, set_up, then_write, k, then_write) at h) in
              (
                is_v1,
                (
                  sym (ap (λ (s : Setup). s.limit_file) same),
                  sym (ap (λ (s : Setup). s.unlimited) same),
                ),
              )
        ]
      ]

  pub ensure_setup-Made :
      {id : Text} {limit_bytes : ℕ} {mode : PressureMode} (i : CgroupInjector) (w : W)
      → Made id limit_bytes mode i
      → Made id limit_bytes mode (ensure_setup files i w).1
  unfolding ensure_setup
  ensure_setup-Made {mode} i w m = elim (Option-cases i.setup) [
    | inr (_, e) ↦ rw (e, ensure_setup) m
    | inl e ↦ elim (Outcome-cases (locate_subtree files i.id w)) [
      | inr (inl (_, k)) ↦ rw (e, k, ensure_setup) m
      | inr (inr k) ↦ rw (e, k, ensure_setup) m
      | inl (subtree, k) ↦ elim (Outcome-cases (set_up files i subtree w).0) [
        | inr (inl (_, l)) ↦ rw (e, k, l, ensure_setup) m
        | inr (inr l) ↦ rw (e, k, l, ensure_setup) m
        | inl (s, l) ↦
            rw (e, k, l, ensure_setup)
              (record {
                name = m.name;
                limit = m.limit;
                kind = m.kind;
                paired = λ t h.
                    subst (λ (t : Setup). IsPaired mode t) (some-inj h)
                      (subst (λ (kind : PressureMode). IsPaired kind s) m.kind
                        (set_up-IsPaired i subtree w s l));
              })
      ]
    ]
  ]

  write_limit-Made :
      {id : Text} {limit_bytes : ℕ} {mode : PressureMode} (i : CgroupInjector) (w : W)
      → Made id limit_bytes mode i
      → Made id limit_bytes mode (write_limit files i w).1
  unfolding write_limit
  write_limit-Made i w m = elim (Option-cases i.setup) [
    | inl e ↦ rw (e, write_limit) m
    | inr (s, e) ↦
        elim (sum-cases (files.write (join s.path s.limit_file) (to_string i.limit_bytes) w).0) [
          | inl (_, k) ↦ rw (e, write_limit, k) m
          | inr (_, k) ↦
              rw (e, write_limit, k)
                (record { name = m.name; limit = m.limit; kind = m.kind; paired = m.paired })
        ]
  ]

  pub arm-Made :
      {id : Text} {limit_bytes : ℕ} {mode : PressureMode} (ctx : FaultContext) (i : CgroupInjector)
      (w : W)
      → Made id limit_bytes mode i
      → Made id limit_bytes mode (arm files ctx i w).1
  unfolding arm
  arm-Made ctx i w m = elim (Outcome-cases (ensure_setup files i w).0) [
    | inl (_, e) ↦ rw (e, arm) (write_limit-Made _ _ (ensure_setup-Made i w m))
    | inr (inl (_, e)) ↦ rw (e, arm) (ensure_setup-Made i w m)
    | inr (inr e) ↦ rw (e, arm) (ensure_setup-Made i w m)
  ]

  pub disarm-Made :
      {id : Text} {limit_bytes : ℕ} {mode : PressureMode} (i : CgroupInjector) (w : W)
      → Made id limit_bytes mode i
      → Made id limit_bytes mode (disarm files i w).1
  unfolding disarm
  disarm-Made i w m = elim (Option-cases i.setup) [
    | inl e ↦
        rw (e, disarm) (record { name = m.name; limit = m.limit; kind = m.kind; paired = m.paired })
    | inr (s, e) ↦ elim (sum-cases (files.write (join s.path s.limit_file) s.unlimited w).0) [
      | inl (_, k) ↦ rw (e, disarm, k) m
      | inr (_, k) ↦
          rw (e, disarm, k)
            (record { name = m.name; limit = m.limit; kind = m.kind; paired = m.paired })
    ]
  ]

  pub ensure_setup-some :
      (i : CgroupInjector) (w : W)
      → (ensure_setup files i w).0 ≡ ok tt
      → (s : Setup) × ((ensure_setup files i w).1.setup ≡ some s)
  unfolding ensure_setup
  ensure_setup-some i w h = elim (Option-cases i.setup) [
    | inr (s, e) ↦ (s, rw (e, ensure_setup) e)
    | inl e ↦ elim (Outcome-cases (locate_subtree files i.id w)) [
      | inr (inl (_, k)) ↦ cc (rw (e, k, ensure_setup) at h)
      | inr (inr k) ↦ cc (rw (e, k, ensure_setup) at h)
      | inl (subtree, k) ↦ elim (Outcome-cases (set_up files i subtree w).0) [
        | inr (inl (_, l)) ↦ cc (rw (e, k, l, ensure_setup) at h)
        | inr (inr l) ↦ cc (rw (e, k, l, ensure_setup) at h)
        | inl (s, l) ↦ (s, rw (e, k, l, ensure_setup) refl)
      ]
    ]
  ]
