-- ===== src/Core/Adapter.antt =====
-- crates/core/src/adapter.rs.
use blackswan_harness.Prelude.{ℕ, Bool, true, false, Bytes, Text, Outcome}
use blackswan_harness.Core.Error.{HarnessError}

pub data Direction : Type 0 where
  inbound outbound : Direction

-- The derived `==` on directions.
unfoldable pub is_inbound : Direction → Bool
is_inbound inbound = true
is_inbound outbound = false

pub record RawMessage : Type 0 where
  pub bytes : Bytes
  pub direction : Direction

pub data InterceptAction : Type 0 where
  forward : InterceptAction
  discard : InterceptAction
  mutate : Bytes → InterceptAction
  delay : ℕ → InterceptAction

-- The trait, over the type of the adapter's own state. `intercept` takes `&self`, and what it
-- changes by an atomic comes back beside its result.
pub record ProtocolAdapter (A : Type 0) : Type 0 where
  pub name : A → Text
  pub intercept : RawMessage → A → Outcome HarnessError InterceptAction × A
