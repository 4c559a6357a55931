-- ===== src/Cli/Main/Tests/Fixture.antt =====
-- A machine whose only file system is that of the traces, and two configs.
use blackswan_harness.Cli.Main.Tests.Codec.{codec, decode, decode-encode}
use blackswan_harness.Prelude.{
  bytes_eq, List, if◌then◌else◌, ℕ, true, false, Bytes, Text, codes, bytes_eq_refl, ok, none, [],
  ◌∷◌, ◌≡◌, ap, subst, ◌⊎◌, inl, inr,
}
use blackswan_harness.Core.Scenario.{ScenarioStep, StepAction, arm, disarm}
use blackswan_harness.Replay.Trace.Store.{Disk, ReadsBack}
use blackswan_harness.Cli.Config.{Config, InjectorConfig, fix_silent_reject, time_skew}
use blackswan_harness.Cli.Build.{Hosts}
use blackswan_harness.Kernel.TimeSkew.{pos}
use blackswan_harness.Cli.Main.Execute.{Shell}

-- The files, the last written first.
abbrev pub Machine : Type 0
Machine = List (Text × Bytes)

abbrev pub read_file : Text → Machine → Text ⊎ Bytes
read_file path [] = inl (codes "not found")
read_file path ((p, b) ∷ w) = if bytes_eq p path then inr b else read_file path w

abbrev pub disk : Disk Machine
disk = record {
  create = λ path w. (inr tt, (path, []) ∷ w);
  write_all = λ path b w. (inr tt, (path, b) ∷ w);
  read = read_file;
}

-- Every call but those of the file system of the cgroups succeeds.
abbrev pub hosts : Hosts Machine (Unit {0}) (Unit {0})
hosts = record {
  aya = record {
    load = λ object w. (ok tt, w);
    has_program = λ program b. true;
    as_xdp = λ program b. ok tt;
    load_program = λ program b w. (ok tt, w);
    attach = λ program iface b w. (ok tt, w);
    has_map = λ name b. true;
    as_array = λ name value b. ok tt;
    set = λ name value b w. (ok tt, w);
  };
  files = record {
    exists = λ path w. false;
    read_to_string = λ path w. inl (codes "not found");
    create_dir_all = λ path w. (inl (codes "denied"), w);
    write = λ path text w. (inl (codes "denied"), w);
  };
  processes = record {
    spawn = λ command w. (ok tt, w);
    try_wait = λ child w. (ok none, w);
    kill = λ child w. (ok tt, w);
    wait = λ child w. w;
  };
  host = record { bind = λ addr w. (ok tt, w); spawn = λ w. w; join = λ w. w };
}

abbrev pub shell : Config → Shell Machine
shell cfg = record {
  read_to_string = λ path w. inr (codes "toml");
  from_toml = λ text. inr cfg;
  debug = λ e. codes "error";
  json = codec;
  disk = disk;
  sleep = λ ns w. w;
}

written : {s u : Bytes} → ◌≡◌ {A = Text ⊎ Text} (inr s) (inr u) → s ≡ u
written h = cc

pub reads_back : ReadsBack codec disk
reads_back = record {
  parsed = λ t s h. ap inr (subst (λ (s : Bytes). decode s ≡ t) (written h) (decode-encode t));
  written = λ path b w h k. rw (bytes_eq_refl path);
}

abbrev pub reject : Text
reject = codes "reject"

abbrev pub launch : Text
launch = codes "launch"

abbrev pub reject_config : InjectorConfig
reject_config = fix_silent_reject (codes "a:1") (codes "b:2")

abbrev pub step_at : ℕ → Text → StepAction → ScenarioStep
step_at at_ns fault_id action = record { at_ns = at_ns; fault_id = fault_id; action = action }

-- A proxy that is armed and disarmed.
abbrev pub clean : Config
clean = record {
  name = codes "demo";
  seed = 7;
  injectors = (reject, reject_config) ∷ [];
  schedule = step_at 10 reject arm ∷ step_at 25 reject disarm ∷ [];
}

-- The proxy is armed when the launch of a process fails, since none is given.
abbrev pub failing : Config
failing = record {
  name = codes "demo";
  seed = 7;
  injectors = (reject, reject_config) ∷ (launch, time_skew [] (pos 5) (pos 5)) ∷ [];
  schedule = step_at 10 reject arm ∷ step_at 20 launch arm ∷ step_at 30 reject disarm ∷ [];
}
