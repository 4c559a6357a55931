-- ===== src/Kernel/Xdp.antt =====
-- crates/kernel/src/xdp_pktloss.rs, xdp_corrupt.rs and xdp_partition.rs. The three files have one
-- shape: an object is loaded and attached once, its fixed settings are written, and arming and
-- disarming write one map. What differs is a record, `XdpProgram`.
pub mod Contract
pub mod Again
pub mod Retry
pub mod Armed
pub mod Panics
use blackswan_harness.Prelude.{
  ℕ, ◌+◌, ◌*◌, Bool, true, false, Bytes, Text, codes, Option, none, some, Outcome, ok, err, panic,
  List, [], ◌∷◌,
}
use blackswan_harness.Core.Error.{HarnessError}
use blackswan_harness.Core.Fault.{FaultContext, FaultInjector}
use blackswan_harness.Kernel.Bpf.{MapValue, word, bytes16, Aya, set_map, load_and_attach}

-- The object and the program, the settings that loading writes, in order, and the map that arming
-- writes, with its value.
pub record XdpProgram (C : Type 0) : Type 0 where
  pub object : Text
  pub program : Text
  pub settings : C → List (Text × MapValue)
  pub toggle : Text
  pub armed_value : C → ℕ

-- An injector; `config` holds the fields that differ.
pub record XdpInjector (B C : Type 0) : Type 0 where
  pub id : Text
  pub iface : Text
  pub config : C
  pub bpf : Option B
  pub armed : Bool

unfoldable pub new : {B C : Type 0} → Text → Text → C → XdpInjector B C
new id iface config = record { id = id; iface = iface; config = config; bpf = none; armed = false }

-- `XdpPacketLossInjector`: its field is `drop_every_n`.
abbrev pub pktloss : XdpProgram ℕ
pktloss = record {
  object = codes "xdp_pktloss.o";
  program = codes "xdp_pktloss";
  settings = λ drop_every_n. [];
  toggle = codes "drop_every_n";
  armed_value = λ drop_every_n. drop_every_n;
}

pub record Corruption : Type 0 where
  pub corrupt_every_n : ℕ
  pub offset : ℕ
  pub mask : ℕ

-- `XdpCorruptionInjector`.
abbrev pub corrupt : XdpProgram Corruption
corrupt = record {
  object = codes "xdp_corrupt.o";
  program = codes "xdp_corrupt";
  settings =
      λ c. (codes "corrupt_offset", word c.offset) ∷ (codes "corrupt_mask", word c.mask) ∷ [];
  toggle = codes "corrupt_every_n";
  armed_value = λ c. c.corrupt_every_n;
}

-- `IpAddr`, by its octets.
pub data IpAddr : Type 0 where
  v4 : ℕ → ℕ → ℕ → ℕ → IpAddr
  v6 : Bytes → IpAddr

pub record Partition : Type 0 where
  pub src_ip : IpAddr
  pub src_port : ℕ

-- `u32::from_ne_bytes` on a little-endian host.
unfoldable pub from_ne_bytes : ℕ → ℕ → ℕ → ℕ → ℕ
from_ne_bytes a b c d = a + 256 * (b + 256 * (c + 256 * d))

abbrev pub source_setting : IpAddr → Text × MapValue
source_setting (v4 a b c d) = (codes "partition_src_ip", word (from_ne_bytes a b c d))
source_setting (v6 octets) = (codes "partition_src_ip6", bytes16 octets)

-- `XdpPartitionInjector`.
abbrev pub partition : XdpProgram Partition
partition = record {
  object = codes "xdp_partition.o";
  program = codes "xdp_partition";
  settings = λ c. source_setting c.src_ip ∷ (codes "partition_src_port", word c.src_port) ∷ [];
  toggle = codes "partition_enabled";
  armed_value = λ c. 1;
}

module _ {W B C : Type 0} (aya : Aya W B) (xdp : XdpProgram C) where
  -- The writes of the settings, up to the first that fails.
  unfoldable pub write_settings :
      B → Text → List (Text × MapValue) → W → Outcome HarnessError (Unit {0}) × W
  write_settings bpf id [] w = (ok tt, w)
  write_settings bpf id ((map_name, value) ∷ rest) w =
      let (r, w') = set_map aya bpf id map_name value w in
      elim r [ ok _ ↦ write_settings bpf id rest w' | err e ↦ (err e, w') | panic ↦ (panic, w') ]

  -- The object is kept before the settings are written.
  unfoldable pub ensure_loaded :
      XdpInjector B C → W → Outcome HarnessError (Unit {0}) × XdpInjector B C × W
  ensure_loaded i w = elim i.bpf [
    | some _ ↦ (ok tt, i, w)
    | none ↦
        let (r, w') = load_and_attach aya i.id xdp.object xdp.program i.iface w in
        elim r [
          | err e ↦ (err e, i, w')
          | panic ↦ (panic, i, w')
          | ok bpf ↦
              let (s, w'') = write_settings bpf i.id (xdp.settings i.config) w' in
              (s, record i { bpf = some bpf }, w'')
        ]
  ]

  -- The write of the toggle behind `armed`, on the object if there is one.
  unfoldable pub toggle_to :
      Bool → B → ℕ → XdpInjector B C → W → Outcome HarnessError (Unit {0}) × XdpInjector B C × W
  toggle_to on bpf value i w =
      let (r, w') = set_map aya bpf i.id xdp.toggle (word value) w in
      elim r [
        | ok _ ↦ (ok tt, record i { armed = on }, w')
        | err e ↦ (err e, i, w')
        | panic ↦ (panic, i, w')
      ]

  -- `expect("just loaded above")` panics where there is no object.
  unfoldable pub arm :
      FaultContext → XdpInjector B C → W → Outcome HarnessError (Unit {0}) × XdpInjector B C × W
  arm ctx i w =
      let (r, i', w') = ensure_loaded i w in
      elim r [
        | err e ↦ (err e, i', w')
        | panic ↦ (panic, i', w')
        | ok _ ↦ elim i'.bpf [
          | none ↦ (panic, i', w')
          | some bpf ↦ toggle_to true bpf (xdp.armed_value i'.config) i' w'
        ]
      ]

  unfoldable pub disarm :
      XdpInjector B C → W → Outcome HarnessError (Unit {0}) × XdpInjector B C × W
  disarm i w = elim i.bpf [
    | none ↦ (ok tt, record i { armed = false }, w)
    | some bpf ↦ toggle_to false bpf 0 i w
  ]

  unfoldable pub xdp_injector : FaultInjector W (XdpInjector B C)
  xdp_injector = record { id = λ i. i.id; arm = arm; disarm = disarm; is_armed = λ i. i.armed }
