-- ===== src/Fix/Proxy/Session/OneWay.antt =====
-- The four adapters in a session.
use blackswan_harness.Prelude.{Bool, refl}
use blackswan_harness.Core.Adapter.{is_inbound}
use blackswan_harness.Fix.Adapters.{
  fix_silent_reject, fix_ack_without_execution, throttle_intercept, fix_rate_limit_throttle,
  fix_execution_report_price_mutation,
}
use blackswan_harness.Fix.Proxy.Session.Alone.{IsOneWay}

silent_reject-IsOneWay : IsOneWay fix_silent_reject
unfolding fix_silent_reject
silent_reject-IsOneWay = record { quiet = λ bytes a. refl; unseen = λ bytes sent a. refl }

ack_without_execution-IsOneWay : IsOneWay fix_ack_without_execution
unfolding fix_ack_without_execution
ack_without_execution-IsOneWay = record { quiet = λ bytes a. refl; unseen = λ bytes sent a. refl }

pub rate_limit_throttle-IsOneWay : (checks : Bool) → IsOneWay (fix_rate_limit_throttle checks)
unfolding fix_rate_limit_throttle throttle_intercept is_inbound
rate_limit_throttle-IsOneWay checks = record {
  quiet = λ bytes a. refl;
  unseen = λ bytes sent a. refl;
}

price_mutation-IsOneWay : IsOneWay fix_execution_report_price_mutation
unfolding fix_execution_report_price_mutation
price_mutation-IsOneWay = record { quiet = λ bytes a. refl; unseen = λ bytes sent a. refl }

-- For each of the four adapters, inbound messages do not change it, and its answers to them do not
-- depend on outbound ones: the throttle's counter, the only state that changes, counts outbound
-- messages and is read for them alone.
pub adapters-IsOneWay :
    (checks : Bool)
    → IsOneWay fix_silent_reject
      × IsOneWay fix_ack_without_execution
      × IsOneWay (fix_rate_limit_throttle checks)
      × IsOneWay fix_execution_report_price_mutation
adapters-IsOneWay checks = (
  silent_reject-IsOneWay,
  ack_without_execution-IsOneWay,
  rate_limit_throttle-IsOneWay checks,
  price_mutation-IsOneWay,
)
