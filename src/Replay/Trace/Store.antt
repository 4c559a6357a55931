-- ===== src/Replay/Trace/Store.antt =====
-- crates/replay/src/trace.rs: `save` and `load`. The crate `serde_json` and the file system are
-- parameters; an error is the text that it displays.
use blackswan_harness.Prelude.{Bytes, Text, Outcome, ok, err, ◌⊎◌, inl, inr, sum-cases, ◌≡◌, ◌∙◌}
use blackswan_harness.Core.Error.{HarnessError, invalid_scenario, io}
use blackswan_harness.Replay.Trace.{Trace}

-- `to_string_pretty` and `from_slice`, at traces.
pub record Json : Type 0 where
  pub to_string_pretty : Trace → Text ⊎ Text
  pub from_slice : Bytes → Text ⊎ Trace

-- `File::create`, `write_all` on the file that it has made, and `fs::read`. A path is a text.
pub record Disk (W : Type 0) : Type 0 where
  pub create : Text → W → (Text ⊎ Unit {0}) × W
  pub write_all : Text → Bytes → W → (Text ⊎ Unit {0}) × W
  pub read : Text → W → Text ⊎ Bytes

-- What is relied on: what was printed is read back, and a new file holds what was written.
pub record ReadsBack {W : Type 0} (json : Json) (disk : Disk W) : Type 0 where
  pub parsed : (t : Trace) (s : Text) → json.to_string_pretty t ≡ inr s → json.from_slice s ≡ inr t
  pub written :
      (path : Text) (b : Bytes) (w : W)
      → (disk.create path w).0 ≡ inr tt
      → (disk.write_all path b (disk.create path w).1).0 ≡ inr tt
      → disk.read path (disk.write_all path b (disk.create path w).1).1 ≡ inr b

module _ {W : Type 0} (json : Json) (disk : Disk W) where
  unfoldable pub save : Trace → Text → W → Outcome HarnessError (Unit {0}) × W
  save t path w = elim (json.to_string_pretty t) [
    | inl e ↦ (err (invalid_scenario e), w)
    | inr s ↦
        let (made, w') = disk.create path w in
        let (done, w'') = disk.write_all path s w' in
        elim made [
          | inl e ↦ (err (io e), w')
          | inr _ ↦ elim done [ inl e ↦ (err (io e), w'') | inr _ ↦ (ok tt, w'') ]
        ]
  ]

  pub load : Text → W → Outcome HarnessError Trace
  load path w = elim (disk.read path w) [
    | inl e ↦ err (io e)
    | inr b ↦ elim (json.from_slice b) [ inl e ↦ err (invalid_scenario e) | inr t ↦ ok t ]
  ]

  -- A trace that was saved is what is loaded, wherever the file still reads the same.
  pub load-save :
      (t : Trace) (path path' : Text) (w v : W)
      → ReadsBack json disk
      → (save t path w).0 ≡ ok tt
      → disk.read path' v ≡ disk.read path (save t path w).1
      → load path' v ≡ ok t
  unfolding save load
  load-save t path path' w v laws h same = elim (sum-cases (json.to_string_pretty t)) [
    | inl (_, e) ↦ cc (rw (e, save) at h)
    | inr (s, e) ↦ elim (sum-cases (disk.create path w).0) [
      | inl (_, k) ↦ cc (rw (e, k, save) at h)
      | inr (_, k) ↦ elim (sum-cases (disk.write_all path s (disk.create path w).1).0) [
        | inl (_, l) ↦ cc (rw (e, k, l, save) at h)
        | inr (_, l) ↦
            let read : disk.read path' v ≡ inr s =
              (rw (e, k, l, save) at same) ∙ laws.written path s w k l in
            rw (read, load, laws.parsed t s e)
      ]
    ]
  ]
