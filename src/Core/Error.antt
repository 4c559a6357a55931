-- ===== src/Core/Error.antt =====
-- crates/core/src/error.rs. A message is a text; `std::io::Error` is the text that it displays.
use blackswan_harness.Prelude.{Text, codes, ◌++◌}

pub data HarnessError : Type 0 where
  arm_failed disarm_failed adapter_rejected : Text → Text → HarnessError
  invalid_scenario io : Text → HarnessError

-- The `#[error(…)]` texts, from which `thiserror` derives `Display`.
pub display : HarnessError → Text
display (arm_failed id why) = codes "fault injector " ++ id ++ codes " failed to arm: " ++ why
display (disarm_failed id why) = codes "fault injector " ++ id ++ codes " failed to disarm: " ++ why
display (adapter_rejected name why) = codes "adapter " ++ name ++ codes " rejected message: " ++ why
display (invalid_scenario why) = codes "scenario config invalid: " ++ why
display (io why) = codes "io error: " ++ why
