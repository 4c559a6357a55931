-- ===== src/Kernel/Bpf/Maps.antt =====
-- What the code relies on of the maps of an object that `aya` has loaded.
use blackswan_harness.Prelude.{
  ℕ, false, Bool-cases, Bytes, bytes_eq, Text, Outcome, ok, Outcome-cases, [], ◌∷◌, ◌≡◌, refl, ap,
  ◌∙◌, inl, inr,
}
use blackswan_harness.Core.Error.{HarnessError}
use blackswan_harness.Kernel.Bpf.{MapValue, word, bytes16, Aya, then_call, set_map, load_and_attach}

abbrev pub zeros16 : Bytes
zeros16 = 0 ∷ 0 ∷ 0 ∷ 0 ∷ 0 ∷ 0 ∷ 0 ∷ 0 ∷ 0 ∷ 0 ∷ 0 ∷ 0 ∷ 0 ∷ 0 ∷ 0 ∷ 0 ∷ []

-- A map's value as a program reads it: as a number, and as sixteen bytes.
abbrev pub as_word : MapValue → ℕ
as_word (word n) = n
as_word (bytes16 octets) = 0

abbrev pub as_octets : MapValue → Bytes
as_octets (word n) = zeros16
as_octets (bytes16 octets) = octets

-- Index 0 of a map of an object, which the program in the kernel reads: an array starts out as
-- zeros, a write that succeeds sets its map and no other, and loading the program and attaching it
-- set none.
pub record HoldsMaps {W B : Type 0} (aya : Aya W B) (cell : Text → B → W → MapValue) : Type 0 where
  pub fresh :
      (object name : Text) (b : B) (w : W)
      → (aya.load object w).0 ≡ ok b
      → let v = cell name b (aya.load object w).1 in (as_word v ≡ 0) × (as_octets v ≡ zeros16)
  pub loaded :
      (program name : Text) (b : B) (w : W)
      → cell name b (aya.load_program program b w).1 ≡ cell name b w
  pub attached :
      (program iface name : Text) (b : B) (w : W)
      → cell name b (aya.attach program iface b w).1 ≡ cell name b w
  pub written :
      (name : Text) (value : MapValue) (b : B) (w : W)
      → (aya.set name value b w).0 ≡ ok tt
      → cell name b (aya.set name value b w).1 ≡ value
  pub apart :
      (name other : Text) (value : MapValue) (b : B) (w : W)
      → bytes_eq name other ≡ false
      → cell other b (aya.set name value b w).1 ≡ cell other b w

module _ {W B : Type 0} (aya : Aya W B) where
  pub set_map-ok :
      (b : B) (id name : Text) (value : MapValue) (w : W)
      → (set_map aya b id name value w).0 ≡ ok tt
      → ((aya.set name value b w).0 ≡ ok tt)
        × ((set_map aya b id name value w).1 ≡ (aya.set name value b w).1)
  unfolding set_map
  set_map-ok b id name value w h = elim (Bool-cases (aya.has_map name b)) [
    | inl e ↦ elim (Outcome-cases (aya.as_array name value b)) [
      | inl (_, k) ↦ elim (Outcome-cases (aya.set name value b w).0) [
        | inl (_, s) ↦ (s, rw (e, set_map, k, s) refl)
        | inr (inl (_, s)) ↦ cc (rw (e, set_map, k, s) at h)
        | inr (inr s) ↦ cc (rw (e, set_map, k, s) at h)
      ]
      | inr (inl (_, k)) ↦ cc (rw (e, set_map, k) at h)
      | inr (inr k) ↦ cc (rw (e, set_map, k) at h)
    ]
    | inr e ↦ cc (rw (e, set_map) at h)
  ]

  -- The calls behind the lookup of the program.
  attach_found : Text → Text → Text → B → W → Outcome HarnessError B × W
  attach_found id program iface bpf w =
      then_call id (aya.as_xdp program bpf, w)
        λ _ w.
          then_call id (aya.load_program program bpf w)
            λ _ w. then_call id (aya.attach program iface bpf w) λ _ w. (ok bpf, w)

  attach_found-ok :
      (id program iface : Text) (bpf b : B) (w : W)
      → (attach_found id program iface bpf w).0 ≡ ok b
      → (bpf ≡ b)
        × ((attach_found id program iface bpf w).1
            ≡ (aya.attach program iface bpf (aya.load_program program bpf w).1).1)
  unfolding attach_found
  attach_found-ok id program iface bpf b w h = elim (Outcome-cases (aya.as_xdp program bpf)) [
    | inr (inl (_, e)) ↦ cc (rw (e, attach_found) at h)
    | inr (inr e) ↦ cc (rw (e, attach_found) at h)
    | inl (_, e) ↦ elim (Outcome-cases (aya.load_program program bpf w).0) [
      | inr (inl (_, k)) ↦ cc (rw (e, k, attach_found) at h)
      | inr (inr k) ↦ cc (rw (e, k, attach_found) at h)
      | inl (_, k) ↦
          elim (Outcome-cases (aya.attach program iface bpf (aya.load_program program bpf w).1).0) [
            | inr (inl (_, s)) ↦ cc (rw (e, k, s, attach_found) at h)
            | inr (inr s) ↦ cc (rw (e, k, s, attach_found) at h)
            | inl (_, s) ↦
                let same : bpf ≡ b = cc (rw (e, k, s, attach_found) at h) in
                (same, rw (e, k, s, attach_found) refl)
          ]
    ]
  ]

  pub load_and_attach-ok :
      (id object program iface : Text) (b : B) (w : W)
      → (load_and_attach aya id object program iface w).0 ≡ ok b
      → let w1 = (aya.load object w).1 in
        let w2 = (aya.load_program program b w1).1 in
        ((aya.load object w).0 ≡ ok b)
        × ((load_and_attach aya id object program iface w).1 ≡ (aya.attach program iface b w2).1)
  unfolding load_and_attach attach_found
  load_and_attach-ok id object program iface b w h = elim (Outcome-cases (aya.load object w).0) [
    | inr (inl (_, e)) ↦ cc (rw (e, load_and_attach) at h)
    | inr (inr e) ↦ cc (rw (e, load_and_attach) at h)
    | inl (bpf, e) ↦ elim (Bool-cases (aya.has_program program bpf)) [
      | inr k ↦ cc (rw (e, load_and_attach, then_call, k) at h)
      | inl k ↦
          let h' = rw (e, load_and_attach, then_call, k) at h in
          let (same, last) = attach_found-ok id program iface bpf b (aya.load object w).1 h' in
          (
            e ∙ ap ok same,
            rw (e, load_and_attach, then_call, k)
                (last
                  ∙ ap
                      (λ (b : B).
                        (aya.attach program iface b
                          (aya.load_program program b (aya.load object w).1).1).1)
                      same),
          )
    ]
  ]

-- The same of the calls of the injectors.
module _ {W B : Type 0} (aya : Aya W B) (cell : Text → B → W → MapValue)
    (holds : HoldsMaps aya cell) where
  pub set_map-written :
      (b : B) (id name : Text) (value : MapValue) (w : W)
      → (set_map aya b id name value w).0 ≡ ok tt
      → cell name b (set_map aya b id name value w).1 ≡ value
  set_map-written b id name value w h =
      let (done, same) = set_map-ok aya b id name value w h in
      rw same (holds.written name value b w done)

  pub set_map-apart :
      (b : B) (id name other : Text) (value : MapValue) (w : W)
      → (set_map aya b id name value w).0 ≡ ok tt
      → bytes_eq name other ≡ false
      → cell other b (set_map aya b id name value w).1 ≡ cell other b w
  set_map-apart b id name other value w h differ =
      let (done, same) = set_map-ok aya b id name value w h in
      rw same (holds.apart name other value b w differ)

  pub load_and_attach-fresh :
      (id object program iface name : Text) (b : B) (w : W)
      → (load_and_attach aya id object program iface w).0 ≡ ok b
      → let v = cell name b (load_and_attach aya id object program iface w).1 in
        (as_word v ≡ 0) × (as_octets v ≡ zeros16)
  load_and_attach-fresh id object program iface name b w h =
      let (done, same) = load_and_attach-ok aya id object program iface b w h in
      let w1 = (aya.load object w).1 in
      let kept =
        holds.attached program iface name b (aya.load_program program b w1).1
        ∙ holds.loaded program name b w1 in
      rw (same, kept) (holds.fresh object name b w done)
