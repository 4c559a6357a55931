-- ===== src/Fix/Adapters/Calm.antt =====
-- The price mutation does not panic on what framing gives it.
use blackswan_harness.Prelude.{
  ℕ, true, not, ◌||◌, Bool-cases, Bytes, [], length, take, take-append, append-nil, panic,
  Outcome-cases, ◌≡◌, ◌≢◌, sym, ap, subst, ◌∙◌, inl, inr,
}
use blackswan_harness.Core.Adapter.{Direction, is_inbound}
use blackswan_harness.Fix.Fields.{tag_price, tag_msg_type, msg_type_execution_report}
use blackswan_harness.Fix.Message.{has, parse, set_field}
use blackswan_harness.Fix.Message.Safe.{parse-ne-panic}
use blackswan_harness.Fix.Framing.Frames.{framed-ne-panic}
use blackswan_harness.Fix.Framing.Whole.{IsFramed}
use blackswan_harness.Fix.Adapters.{PriceMutation, has_price, price_mutation_intercept}

framed-set_field : (m : Bytes) (tag : ℕ) (v : Bytes) → IsFramed m → set_field m tag v ≢ panic
framed-set_field m tag v framed =
    let whole : take (length m) m ≡ m =
      ap (take (length m)) (sym (append-nil m)) ∙ take-append m [] in
    subst (λ x. set_field x tag v ≢ panic) whole (framed-ne-panic true m (length m) tag v framed)

pub price_mutation-calm :
    (m : Bytes) (direction : Direction) (a : PriceMutation)
    → IsFramed m
    → price_mutation_intercept (record { bytes = m; direction = direction }) a ≢ panic
unfolding price_mutation_intercept
price_mutation-calm m direction a framed h = elim (Bool-cases (is_inbound direction)) [
  | inr outward ↦ cc (rw (outward, price_mutation_intercept) at h)
  | inl inward ↦ elim (Outcome-cases (parse m)) [
    | inr (inl (x, e)) ↦ cc (rw (inward, e, price_mutation_intercept) at h)
    | inr (inr e) ↦ parse-ne-panic m e
    | inl (p, e) ↦
        elim (Bool-cases
          (not (has p tag_msg_type msg_type_execution_report) || not (has_price p))) [
            | inl other ↦ cc (rw (inward, e, price_mutation_intercept, other) at h)
            | inr priced ↦ elim (Outcome-cases (set_field m tag_price a.mutated_price)) [
              | inl (out, made) ↦ cc (rw (inward, e, price_mutation_intercept, priced, made) at h)
              | inr (inl (x, made)) ↦
                  cc (rw (inward, e, price_mutation_intercept, priced, made) at h)
              | inr (inr made) ↦ framed-set_field m tag_price a.mutated_price framed made
            ]
          ]
  ]
]
