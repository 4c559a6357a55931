-- ===== src/Kernel/Bpf.antt =====
-- crates/kernel/src/bpf_util.rs: writing a value into a map of a loaded object. The crate `aya` is a
-- parameter; its errors are the texts that they display.
pub mod Maps
use blackswan_harness.Prelude.{
  ℕ, Bool, true, false, Bytes, Text, codes, ◌++◌, Outcome, ok, err, panic,
}
use blackswan_harness.Core.Error.{HarnessError, arm_failed}

-- What an array map holds: a `u32`, or 16 bytes.
pub data MapValue : Type 0 where
  word : ℕ → MapValue
  bytes16 : Bytes → MapValue

-- The calls of `aya`, on the type `B` of loaded objects: loading an object, looking a program up,
-- reading it as an XDP program, loading and attaching it to an interface, looking a map up, reading it
-- as an array of the values' type, and setting index 0.
pub record Aya (W B : Type 0) : Type 0 where
  pub load : Text → W → Outcome Text B × W
  pub has_program : Text → B → Bool
  pub as_xdp : Text → B → Outcome Text (Unit {0})
  pub load_program : Text → B → W → Outcome Text (Unit {0}) × W
  pub attach : Text → Text → B → W → Outcome Text (Unit {0}) × W
  pub has_map : Text → B → Bool
  pub as_array : Text → MapValue → B → Outcome Text (Unit {0})
  pub set : Text → MapValue → B → W → Outcome Text (Unit {0}) × W

-- The next call, if this one has succeeded; its error becomes an `ArmFailed` of the injector.
abbrev pub then_call :
    {W A C : Type 0}
    → Text
    → Outcome Text A × W
    → (A → W → Outcome HarnessError C × W)
    → Outcome HarnessError C × W
then_call id (r, w) k = elim r [
  | ok a ↦ k a w
  | err e ↦ (err (arm_failed id e), w)
  | panic ↦ (panic, w)
]

module _ {W B : Type 0} (aya : Aya W B) where
  -- `set_u32_map` and `set_bytes16_map`, by the kind of the value.
  unfoldable pub set_map : B → Text → Text → MapValue → W → Outcome HarnessError (Unit {0}) × W
  set_map bpf injector_id map_name value w = elim (aya.has_map map_name bpf) [
    | false ↦ (err (arm_failed injector_id (codes "no map named " ++ map_name)), w)
    | true ↦
        then_call injector_id (aya.as_array map_name value bpf, w)
          λ _ w. then_call injector_id (aya.set map_name value bpf w) λ _ w. (ok tt, w)
  ]

  -- Loading an object and attaching its program, up to where the object is kept.
  unfoldable pub load_and_attach : Text → Text → Text → Text → W → Outcome HarnessError B × W
  load_and_attach id object program iface w = then_call id (aya.load object w) λ bpf w.
      elim (aya.has_program program bpf) [
        | false ↦
            (err (arm_failed id (codes "no program named " ++ (program ++ codes " in object"))), w)
        | true ↦
            then_call id (aya.as_xdp program bpf, w)
              λ _ w.
                then_call id (aya.load_program program bpf w)
                  λ _ w. then_call id (aya.attach program iface bpf w) λ _ w. (ok bpf, w)
      ]
