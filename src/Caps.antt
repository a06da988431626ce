-- ===== src/Caps.antt =====
-- relay.rs: `apply_boot_caps`. The builder and the real network are of the crate `host`: parameters, as
-- the crate `json` is.
pub mod Blobs
pub mod Real
pub mod Grants
use Prim.Native.String.{String}
use flutter_experiments.Common.{
  ℕ, Bytes, Bool, true, false, Option, none, some, List, [], ◌∷◌, if◌then◌else◌, ◌||◌, not, ℤ, pos,
  is_empty, ◌==◌, int_eq,
}
use flutter_experiments.Error.{Error, message, host_failed, unknown_number, Result, ok, err, ◌>>=◌}
use flutter_experiments.Host.{Outcome, unwrap_or, map_host}
use flutter_experiments.Json.{JsonLib}
use flutter_experiments.Caps.Blobs.{
  ConnectionPolicyRule, HostRegistry, parse_connections_blob, parse_policies_blob,
}

-- `RealNet`.
pub record HostNet (R N : Type 0) : Type 0 where
  pub new_net : N
  pub with_connections : R → N → N
  pub with_connection_policies : List ConnectionPolicyRule → N → Outcome N
  pub with_tool_approver : N → N

-- `KernelHostBuilder`, as far as the capabilities go. Those of relay.rs work on the relay of the new
-- machine; `with_relay_host_call` carries `sidecar_only`.
pub record HostCaps (N B : Type 0) : Type 0 where
  pub with_relay_net : B → B
  pub with_real_net : N → B → B
  pub with_relay_host_call : Bool → B → B
  pub with_relay_persist : B → B

-- `is_some_and(|b| !b.is_empty())`.
abbrev pub has_bytes : Option Bytes → Bool
has_bytes none = false
has_bytes (some blob) = not (is_empty blob)

-- The tests of `host_call` and `persist`: 1 attaches, 0 does not, anything else is refused.
unfoldable pub apply_switch : {B : Type 0} → String → (B → B) → ℤ → B → Result B
apply_switch what attach setting builder =
    if setting == pos 1
    then ok (attach builder)
    else if not (setting == pos 0)
    then err (unknown_number what setting)
    else ok builder

-- The options that `apply_boot_caps` takes from the plan.
module _ {J R N B : Type 0} (json : JsonLib J) (reg : HostRegistry R) (nets : HostNet R N)
    (caps : HostCaps N B) where
  unfoldable pub real_net : ℤ → Option Bytes → Option Bytes → Result N
  unfolding parse_connections_blob parse_policies_blob map_host
  real_net tool_approval connections policies = do
    registry ← parse_connections_blob json reg (unwrap_or [] connections)
    rules ← parse_policies_blob json (unwrap_or [] policies)
    net ←
        map_host "invalid connection policies" (λ n. n)
          (nets.with_connection_policies rules (nets.with_connections registry nets.new_net))
    ok (if not (tool_approval == pos 0) then nets.with_tool_approver net else net)

  -- The `match` on `net`.
  unfoldable pub apply_net : ℤ → ℤ → Option Bytes → Option Bytes → B → Result B
  unfolding real_net
  apply_net net tool_approval connections policies builder =
      let real = real_net tool_approval connections policies in
      if net == pos 0
      then (if has_bytes connections || (has_bytes policies || not (tool_approval == pos 0))
          then err (
              message
                "connections, connection_policies, and tool_approval require AOS_NET_REAL (net=2)")
          else ok builder)
      else if net == pos 1
      then (if has_bytes connections || has_bytes policies
          then err (
              message
                "connection credentials/policies require AOS_NET_REAL (net=2); use relay for app-owned HTTP")
          else if not (tool_approval == pos 0)
          then err (
              message
                "tool_approval requires AOS_NET_REAL (net=2); relay net does not run the gate")
          else ok (caps.with_relay_net builder))
      else if net == pos 2
      then (do n ← real; ok (caps.with_real_net n builder))
      else err (unknown_number "net capability" net)

  unfoldable pub apply_boot_caps : ℤ → ℤ → Bool → ℤ → ℤ → Option Bytes → Option Bytes → B → Result B
  unfolding apply_net apply_switch
  apply_boot_caps net host_call sidecar_only persist tool_approval connections policies builder = do
    with_net ← apply_net net tool_approval connections policies builder
    with_calls ←
        apply_switch "host_call capability" (caps.with_relay_host_call sidecar_only) host_call
          with_net
    apply_switch "persist capability" caps.with_relay_persist persist with_calls
