-- ===== src/Lib.antt =====
-- A model of blackswan-harness, a fault-injection harness for trading systems, with the theorems
-- that make its parts correct.
--
-- The program. A scenario is a list of timed steps that arm and disarm named faults. It is
-- validated into a schedule (crates/replay/src/schedule.rs), a scheduler hands out the steps that
-- are due as a virtual clock advances (scheduler.rs), and a runner calls the fault injectors and
-- records what fired in a trace (runner.rs, trace.rs). The binary (crates/cli/src) reads a
-- scenario and its injectors from a file, runs it, and saves its trace or compares it with an
-- earlier one. An injector is any implementation of a trait (crates/core/src/fault.rs): XDP
-- programs, memory limits of cgroups, processes with skewed clocks (crates/kernel/src), and FIX
-- faults; the FIX injector owns a TCP proxy that cuts both byte streams into messages and asks an
-- adapter what to do with each (crates/adapters/src/fix).
--
-- The files.
-- - Prelude: shared names, lists, texts as lists of character codes, decimal numbers, and
--   `Outcome`, a value, an error or a panic.
-- - Core: crates/core/src. A trait is a record of functions over a type of states, and a type for
--   the world outside the program where its methods act on it.
-- - Replay.Schedule, Replay.Scheduler, Replay.Trace, Replay.Runner, Replay.Rng: crates/replay/src.
--   The loop of `run_inner` takes fuel; its termination theorem says how much is enough. A
--   `HashMap` is an association list.
-- - Fix.Fields, Fix.Message, Fix.Framing, Fix.Adapters, Fix.Proxy, Fix.Injector:
--   crates/adapters/src/fix. Framing and the relay have a flag for a build with overflow checks.
--   The loop of the relay over its buffer has one unit of fuel more than the buffer has bytes:
--   with overflow checks every message takes bytes away, and without them only a message of no
--   bytes does not. Fix.Proxy.Delivered describes what goes on message by message, and
--   Fix.Adapters.Stream and Limited put the faults through the relay.
-- - Kernel.Bpf, Kernel.Xdp, Kernel.TimeSkew, Kernel.CgroupMem: crates/kernel/src (bpf_util.rs, the
--   three xdp files, time_skew.rs, cgroup_mem.rs). Kernel.Files is the file system and the paths,
--   as cgroup_mem.rs uses them. Kernel.Packets: the C programs of crates/kernel/bpf, on one frame
--   at a time, with their maps as the state; a read outside the frame has no result.
--   Kernel.Packets.Wire puts the same frames together from their parts, and Kernel.Packets.Peer
--   says what a configuration cuts off; Armed, Lossy and Garbled run an injector and its program
--   together. Kernel.Objects is crates/kernel/build.rs, the build script, with `clang` and its
--   other commands as parameters.
-- - Cli.Config, Cli.Build, Cli.Main: crates/cli/src. A boxed injector is a sum of the injectors. A
--   command gives a report: how the process ends, what it prints, and the injectors and the world
--   that it leaves. Its fuel is that of the runner.
--
-- Machine integers are natural numbers with the wrap-around written out. Errors carry their texts.
-- What other threads do is given to the relay as the values that its loads find, and what the
-- network does as the results of its reads; in Fix.Proxy.Session the two threads of a session take
-- steps in any order. Sockets, threads, sleeps, processes, files and the crate aya are parameters.
--
-- Not modelled: what the drop of an injector itself does, and what other crates do, which are
-- parameters: the parsing of the command line, of TOML and of JSON, and the derived `Debug` of
-- errors.
pub mod Prelude
pub mod Core
pub mod Replay
pub mod Fix
pub mod Kernel
pub mod Cli
