-- ===== src/Fix/Adapters.antt =====
-- crates/adapters/src/fix/adapter.rs: the four FIX faults, each a `ProtocolAdapter` over its state.
pub mod Throttle
pub mod Price
pub mod Stream
pub mod Limited
pub mod Calm
mod Runs
use blackswan_harness.Prelude.{
  ℕ, ◌+◌, ◌%◌, Bool, true, false, not, ◌&&◌, ◌||◌, ltb, leb, if◌then◌else◌, Bytes, Text, codes,
  Option, none, some, Outcome, ok, err, panic, ◌>>=◌, map_err,
}
use blackswan_harness.Core.Error.{HarnessError, adapter_rejected}
use blackswan_harness.Core.Clock.{u64_mod}
use blackswan_harness.Core.Adapter.{
  Direction, inbound, outbound, is_inbound, RawMessage, InterceptAction, forward, discard, mutate,
  ProtocolAdapter,
}
use blackswan_harness.Fix.Fields.{
  tag_msg_type, tag_ord_status, tag_exec_type, tag_price, msg_type_reject,
  msg_type_order_cancel_reject, msg_type_execution_report, ord_status_rejected, ord_status_filled,
  ord_status_partially_filled, exec_type_rejected, exec_type_trade,
}
use blackswan_harness.Fix.Message.{
  ParseError, empty, missing_soh, malformed_tag, FixMessage, get, has, parse, set_field,
}

-- `format!("{e:?}")`.
debug : ParseError → Text
debug empty = codes "Empty"
debug missing_soh = codes "MissingSoh"
debug malformed_tag = codes "MalformedTag"

pub rejected : Text → ParseError → HarnessError
rejected name e = adapter_rejected name (debug e)

pub is_rejection : FixMessage → Bool
is_rejection m =
    has m tag_msg_type msg_type_reject
    || has m tag_msg_type msg_type_order_cancel_reject
    || (has m tag_msg_type msg_type_execution_report
        && (has m tag_ord_status ord_status_rejected || has m tag_exec_type exec_type_rejected))

abbrev silent_reject_name : Text
silent_reject_name = codes "fix-silent-reject"

pub silent_reject_intercept : RawMessage → Outcome HarnessError InterceptAction
silent_reject_intercept msg = if not (is_inbound msg.direction) then ok forward else do
  parsed ← map_err (rejected silent_reject_name) (parse msg.bytes)
  ok (if is_rejection parsed then discard else forward)

-- `FixSilentReject` has no state.
unfoldable pub fix_silent_reject : ProtocolAdapter (Unit {0})
fix_silent_reject = record {
  name = λ _. silent_reject_name;
  intercept = λ msg a. (silent_reject_intercept msg, a);
}

pub is_fill : FixMessage → Bool
is_fill m =
    has m tag_exec_type exec_type_trade
    || has m tag_ord_status ord_status_partially_filled
    || has m tag_ord_status ord_status_filled

abbrev ack_without_execution_name : Text
ack_without_execution_name = codes "fix-ack-without-execution"

pub ack_without_execution_intercept : RawMessage → Outcome HarnessError InterceptAction
ack_without_execution_intercept msg = if not (is_inbound msg.direction) then ok forward else do
  parsed ← map_err (rejected ack_without_execution_name) (parse msg.bytes)
  if not (has parsed tag_msg_type msg_type_execution_report)
      then ok forward
      else ok (if is_fill parsed then discard else forward)

-- `FixAckWithoutExecution` has no state.
unfoldable pub fix_ack_without_execution : ProtocolAdapter (Unit {0})
fix_ack_without_execution = record {
  name = λ _. ack_without_execution_name;
  intercept = λ msg a. (ack_without_execution_intercept msg, a);
}

-- `FixRateLimitThrottle`; the counter is an `AtomicU64`.
pub record RateLimitThrottle : Type 0 where
  pub threshold : ℕ
  pub count : ℕ

pub new_throttle : ℕ → RateLimitThrottle
new_throttle threshold = record { threshold = threshold; count = 0 }

-- `fetch_add` wraps, and the `+ 1` behind it overflows where the count was the last one: a panic in a
-- build with overflow checks.
unfoldable pub throttle_intercept :
    Bool → RawMessage → RateLimitThrottle → Outcome HarnessError InterceptAction × RateLimitThrottle
throttle_intercept checks msg t =
    if is_inbound msg.direction
    then (ok forward, t)
    else let seen = (t.count + 1) % u64_mod in
      (
        if checks && leb u64_mod (t.count + 1)
            then panic
            else ok (if ltb t.threshold seen then discard else forward),
        record t { count = seen },
      )

unfoldable pub fix_rate_limit_throttle : Bool → ProtocolAdapter RateLimitThrottle
fix_rate_limit_throttle checks = record {
  name = λ _. codes "fix-rate-limit-throttle";
  intercept = throttle_intercept checks;
}

-- `FixExecutionReportPriceMutation`.
pub record PriceMutation : Type 0 where
  pub mutated_price : Bytes

abbrev price_mutation_name : Text
price_mutation_name = codes "fix-execution-report-price-mutation"

unfoldable pub has_price : FixMessage → Bool
has_price m = elim (get m tag_price) [ none ↦ false | some _ ↦ true ]

unfoldable pub price_mutation_intercept :
    RawMessage → PriceMutation → Outcome HarnessError InterceptAction
price_mutation_intercept msg a = if not (is_inbound msg.direction) then ok forward else do
  parsed ← map_err (rejected price_mutation_name) (parse msg.bytes)
  if not (has parsed tag_msg_type msg_type_execution_report) || not (has_price parsed)
      then ok forward
      else do
        mutated ←
            map_err (rejected price_mutation_name) (set_field msg.bytes tag_price a.mutated_price)
        ok (mutate mutated)

unfoldable pub fix_execution_report_price_mutation : ProtocolAdapter PriceMutation
fix_execution_report_price_mutation = record {
  name = λ _. price_mutation_name;
  intercept = λ msg a. (price_mutation_intercept msg a, a);
}
