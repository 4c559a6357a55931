-- ===== src/Kernel/Packets/Runs.antt =====
-- A kernel that keeps the maps of one object as a list of writes, the latest first, and the two
-- injectors at work in it.
use blackswan_harness.Prelude.{
  ℕ, ◌/◌, true, if◌then◌else◌, bytes_eq, bytes_eq_refl, Text, codes, ok, some, List, [], ◌∷◌, ◌≡◌,
  refl, inl, arith, Bytes, map,
}
use blackswan_harness.Core.Clock.{system_clock}
use blackswan_harness.Core.Fault.{FaultContext}
use blackswan_harness.Kernel.Bpf.{MapValue, word, Aya, set_map, load_and_attach}
use blackswan_harness.Kernel.Bpf.Maps.{HoldsMaps}
use blackswan_harness.Kernel.Xdp.{
  XdpInjector, Partition, partition, pktloss, Corruption, corrupt, v4, new, arm, disarm,
  ensure_loaded, toggle_to, write_settings,
}
use blackswan_harness.Kernel.Packets.Garbled.{
  corrupt_view, corrupted, garbled, flipped, armed-garbles,
}
use blackswan_harness.Kernel.Packets.{xdp_pass, xdp_drop}
use blackswan_harness.Kernel.Packets.Partition.{xdp_partition}
use blackswan_harness.Kernel.Packets.Loss.{drops}
use blackswan_harness.Kernel.Packets.Wire.{first4, ip4, Frame, frame_bytes}
use blackswan_harness.Kernel.Packets.Wire.Expected.{IsFrame, expected}
use blackswan_harness.Kernel.Packets.Wire.Exact.{xdp_partition-expected}
use blackswan_harness.Kernel.Packets.Peer.{armed_maps, cut_verdict, cuts, cut_off}
use blackswan_harness.Kernel.Packets.Armed.{view, armed-cuts}
use blackswan_harness.Kernel.Packets.Lossy.{loss_view, armed-loses}

abbrev Maps : Type 0
Maps = List (Text × MapValue)

look : Text → Maps → MapValue
look name [] = word 0
look name ((key, value) ∷ maps) = if bytes_eq key name then value else look name maps

abbrev maps_kernel : Aya Maps (Unit {0})
maps_kernel = record {
  load = λ object w. (ok tt, []);
  has_program = λ program b. true;
  as_xdp = λ program b. ok tt;
  load_program = λ program b w. (ok tt, w);
  attach = λ program iface b w. (ok tt, w);
  has_map = λ name b. true;
  as_array = λ name value b. ok tt;
  set = λ name value b w. (ok tt, (name, value) ∷ w);
}

abbrev cell : Text → Unit {0} → Maps → MapValue
cell name b w = look name w

maps_kernel-HoldsMaps : HoldsMaps maps_kernel cell
unfolding look
maps_kernel-HoldsMaps = record {
  fresh = λ object name b w h. (refl, refl);
  loaded = λ program name b w. refl;
  attached = λ program iface name b w. refl;
  written = λ name value b w h. rw (bytes_eq_refl name) refl;
  apart = λ name other value b w h. rw h refl;
}

abbrev context : FaultContext
context = record { clock = system_clock; seed = 7 }

-- The peer 10.0.0.7, port 9000.
abbrev exchange : Partition
exchange = record { src_ip = v4 10 0 0 7; src_port = 9000 }

-- A UDP datagram of that peer behind one tag.
abbrev quote : Frame
quote = record {
  macs = 2 ∷ 0 ∷ 0 ∷ 0 ∷ 0 ∷ 1 ∷ 2 ∷ 0 ∷ 0 ∷ 0 ∷ 0 ∷ 2 ∷ [];
  tags = (33024, 5) ∷ [];
  network = ip4 record {
    tos = 0;
    total = 28;
    ident = 1;
    flags = 2;
    ttl = 64;
    checksum = 0;
    a = 10;
    b = 0;
    c = 0;
    d = 7;
    dest = 10 ∷ 0 ∷ 0 ∷ 1 ∷ [];
    words = 0;
    options = [];
    body = first4 record { proto = 17; port = 9000; rest = 0 ∷ 53 ∷ 0 ∷ 8 ∷ 0 ∷ 0 ∷ [] };
  };
}

quote-IsFrame : IsFrame quote
quote-IsFrame = record {
  macs_size = refl;
  tagged = (inl refl, tt);
  network = record {
    dest_size = refl;
    few_words = omega arith;
    options_size = refl;
    body = omega arith;
  };
}

quote_cut : cut_verdict exchange quote ≡ xdp_drop
unfolding cut_verdict cuts cut_off
quote_cut = refl

xdp_partition-expected_example :
    xdp_partition (armed_maps exchange) (frame_bytes quote)
    ≡ some (expected (armed_maps exchange) quote)
xdp_partition-expected_example =
    xdp_partition-expected (armed_maps exchange) quote quote-IsFrame refl

cut : (arm maps_kernel partition context (new (codes "cut") (codes "eth0") exchange) []).0 ≡ ok tt
unfolding arm new ensure_loaded toggle_to write_settings set_map load_and_attach
cut = refl

abbrev cutter : XdpInjector (Unit {0}) Partition
cutter = (arm maps_kernel partition context (new (codes "cut") (codes "eth0") exchange) []).1

abbrev after_cut : Maps
after_cut = (arm maps_kernel partition context (new (codes "cut") (codes "eth0") exchange) []).2

mended : (disarm maps_kernel partition cutter after_cut).0 ≡ ok tt
unfolding arm disarm new ensure_loaded toggle_to write_settings set_map load_and_attach
mended = refl

armed-cuts_example :
    (b : Unit {0}) × ((cutter.bpf ≡ some b)
      × (xdp_partition (view cell b after_cut) (frame_bytes quote)
          ≡ some (cut_verdict exchange quote))
      × (xdp_partition
            (view cell b (disarm maps_kernel partition cutter after_cut).2)
            (frame_bytes quote)
          ≡ some xdp_pass))
armed-cuts_example =
    armed-cuts maps_kernel cell maps_kernel-HoldsMaps context (codes "cut") (codes "eth0") exchange
      [] quote quote-IsFrame (omega arith, omega arith, omega arith, omega arith)
      (omega arith, omega arith, omega arith, omega arith) (omega arith) cut mended

abbrev loser : XdpInjector (Unit {0}) ℕ
loser = (arm maps_kernel pktloss context (new (codes "loss") (codes "eth0") 4) []).1

abbrev after_loss : Maps
after_loss = (arm maps_kernel pktloss context (new (codes "loss") (codes "eth0") 4) []).2

lossy : (arm maps_kernel pktloss context (new (codes "loss") (codes "eth0") 4) []).0 ≡ ok tt
unfolding arm new ensure_loaded toggle_to write_settings set_map load_and_attach
lossy = refl

lossless : (disarm maps_kernel pktloss loser after_loss).0 ≡ ok tt
unfolding arm disarm new ensure_loaded toggle_to write_settings set_map load_and_attach
lossless = refl

armed-loses_example :
    (b : Unit {0}) × ((loser.bpf ≡ some b)
      × (drops 10 (loss_view cell b after_loss) ≡ 10 / 4)
      × (drops 10 (loss_view cell b (disarm maps_kernel pktloss loser after_loss).2) ≡ 0))
armed-loses_example =
    armed-loses maps_kernel cell maps_kernel-HoldsMaps context (codes "loss") (codes "eth0") 4 [] 10
      (omega arith) (omega arith) lossy lossless

abbrev bursts : Corruption
bursts = record { corrupt_every_n = 2; offset = 1; mask = 255 }

abbrev frames : List Bytes
frames = (1 ∷ 2 ∷ []) ∷ (3 ∷ 4 ∷ []) ∷ (5 ∷ []) ∷ (6 ∷ []) ∷ []

-- The second frame has its second byte flipped; the fourth has none.
row_garbled :
    garbled bursts 0 frames
    ≡ (xdp_pass, 1 ∷ 2 ∷ [])
      ∷ (xdp_pass, 3 ∷ 251 ∷ [])
      ∷ (xdp_pass, 5 ∷ [])
      ∷ (xdp_pass, 6 ∷ [])
      ∷ []
unfolding garbled flipped
row_garbled = refl

abbrev garbler : XdpInjector (Unit {0}) Corruption
garbler = (arm maps_kernel corrupt context (new (codes "flip") (codes "eth0") bursts) []).1

abbrev after_garbling : Maps
after_garbling = (arm maps_kernel corrupt context (new (codes "flip") (codes "eth0") bursts) []).2

garbling : (arm maps_kernel corrupt context (new (codes "flip") (codes "eth0") bursts) []).0 ≡ ok tt
unfolding arm new ensure_loaded toggle_to write_settings set_map load_and_attach
garbling = refl

cleared : (disarm maps_kernel corrupt garbler after_garbling).0 ≡ ok tt
unfolding arm disarm new ensure_loaded toggle_to write_settings set_map load_and_attach
cleared = refl

armed-garbles_example :
    (b : Unit {0}) × ((garbler.bpf ≡ some b)
      × (corrupted (corrupt_view cell b after_garbling) frames ≡ garbled bursts 0 frames)
      × (corrupted
            (corrupt_view cell b (disarm maps_kernel corrupt garbler after_garbling).2)
            frames
          ≡ map (λ f. (xdp_pass, f)) frames))
armed-garbles_example =
    armed-garbles maps_kernel cell maps_kernel-HoldsMaps context (codes "flip") (codes "eth0")
      bursts [] frames (omega arith) (omega arith) (omega arith) garbling cleared
