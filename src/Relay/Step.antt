-- ===== src/Relay/Step.antt =====
-- Every operation on the relay as one step: the calls of the three capabilities, which the kernel
-- makes, and the pops and answers of the application. Each step holds the relay's lock, so a history
-- is a list of steps.
use flutter_experiments.Common.{ℕ, Bytes, Bool, none, some, List, [], ◌∷◌, ℤ, pos, minus_one}
use flutter_experiments.Lock.{Mutex, lock}
use flutter_experiments.Error.{Result}
use flutter_experiments.Relay.State.{ToolApprovalFacts, RelayState, new}
use flutter_experiments.Relay.Net.{http_request, http_poll, http_body, http_close}
use flutter_experiments.Relay.WebSocket.{ws_connect, ws_send, ws_ready, ws_recv, ws_close}
use flutter_experiments.Relay.HostCall
use flutter_experiments.Relay.Persist
use flutter_experiments.Relay.Wire.{WireRelayEvent, pop_event}
use flutter_experiments.Relay.Respond.{
  Answered, http_respond, host_call_respond, persist_respond, ws_open, ws_push, ws_closed,
}
use flutter_experiments.Relay.Approval.{Channels, ask, tool_approval_respond}

-- The methods of `NetCapability`, `HostCallCapability` and `PersistCapability`, with their
-- arguments; a buffer is the bytes that it holds before the call.
pub data GuestCall : Type 0 where
  http_request_call : Bytes → GuestCall
  http_poll_call http_body_call : ℤ → Bytes → GuestCall
  http_close_call : ℤ → GuestCall
  ws_connect_call : Bytes → GuestCall
  ws_send_call : ℤ → Bytes → GuestCall
  ws_ready_call : ℤ → GuestCall
  ws_recv_call : ℤ → Bytes → GuestCall
  ws_close_call : ℤ → GuestCall
  host_start : Bytes → GuestCall
  host_poll : ℤ → GuestCall
  host_body : ℤ → Bytes → GuestCall
  host_close : ℤ → GuestCall
  persist_start : Bytes → GuestCall
  persist_poll : ℤ → GuestCall
  persist_body : ℤ → Bytes → GuestCall
  persist_close : ℤ → GuestCall

-- A status and a buffer; a method that returns nothing gives status 0.
abbrev pub Reply : Type 0
Reply = ℤ × Bytes

abbrev status_only : ℤ × RelayState → Reply × RelayState
status_only (code, relay) = ((code, []), relay)

abbrev with_buffer : ℤ × Bytes × RelayState → Reply × RelayState
with_buffer (code, buf, relay) = ((code, buf), relay)

-- A method's body once the lock is held. `sidecar_only` is the field of `FlutterHostCall`.
unfoldable pub guest_body : Bool → RelayState → GuestCall → Reply × RelayState
guest_body so relay (http_request_call req) = status_only (http_request relay req)
guest_body so relay (http_poll_call h buf) = (http_poll relay h buf, relay)
guest_body so relay (http_body_call h buf) = with_buffer (http_body relay h buf)
guest_body so relay (http_close_call h) = ((pos 0, []), http_close relay h)
guest_body so relay (ws_connect_call url) = status_only (ws_connect relay url)
guest_body so relay (ws_send_call h bytes) = status_only (ws_send relay h bytes)
guest_body so relay (ws_ready_call h) = ((ws_ready relay h, []), relay)
guest_body so relay (ws_recv_call h buf) = with_buffer (ws_recv relay h buf)
guest_body so relay (ws_close_call h) = ((pos 0, []), ws_close relay h)
guest_body so relay (host_start req) = status_only (HostCall.start so relay req)
guest_body so relay (host_poll h) = ((HostCall.poll relay h, []), relay)
guest_body so relay (host_body h buf) = with_buffer (HostCall.body relay h buf)
guest_body so relay (host_close h) = ((pos 0, []), HostCall.close relay h)
guest_body so relay (persist_start req) = status_only (Persist.start relay req)
guest_body so relay (persist_poll h) = ((Persist.poll relay h, []), relay)
guest_body so relay (persist_body h buf) = with_buffer (Persist.body relay h buf)
guest_body so relay (persist_close h) = ((pos 0, []), Persist.close relay h)

-- What a method answers when the lock is poisoned: `ws_ready` says 1, the others fail.
unfoldable pub lock_failure : GuestCall → Reply
lock_failure (ws_ready_call h) = (pos 1, [])
lock_failure (http_close_call h) = (pos 0, [])
lock_failure (ws_close_call h) = (pos 0, [])
lock_failure (host_close h) = (pos 0, [])
lock_failure (persist_close h) = (pos 0, [])
lock_failure (http_poll_call h buf) = (minus_one, buf)
lock_failure (http_body_call h buf) = (minus_one, buf)
lock_failure (ws_recv_call h buf) = (minus_one, buf)
lock_failure (host_body h buf) = (minus_one, buf)
lock_failure (persist_body h buf) = (minus_one, buf)
lock_failure _ = (minus_one, [])

unfoldable pub guest : Bool → Mutex RelayState → GuestCall → Reply × Mutex RelayState
guest so m call = elim (lock m) [
  | none ↦ (lock_failure call, m)
  | some relay ↦ let (reply, r) = guest_body so relay call in (reply, record m { value = r })
]

-- The answers of the application, with the C arguments that reach the locked part.
pub data AppCall : Type 0 where
  answer_http : ℤ → ℤ → Bytes → Bytes → AppCall
  answer_host_call answer_persist : ℤ → ℤ → Bytes → AppCall
  open_ws : ℤ → ℤ → AppCall
  push_ws : ℤ → Bytes → AppCall
  close_ws : ℤ → AppCall

unfoldable pub app_body : RelayState → AppCall → Answered
app_body relay (answer_http h status head body) = http_respond relay h status head body
app_body relay (answer_host_call h status result) = host_call_respond relay h status result
app_body relay (answer_persist h status body) = persist_respond relay h status body
app_body relay (open_ws h status) = ws_open relay h status
app_body relay (push_ws h bytes) = ws_push relay h bytes
app_body relay (close_ws h) = ws_closed relay h

-- The relay and the channels of its approvals.
pub record Shared : Type 0 where
  pub relay : RelayState
  pub channels : Channels

pub data Action : Type 0 where
  calls : GuestCall → Action
  answers : AppCall → Action
  pops : Bool → Action
  asks : ToolApprovalFacts → Action
  decides : ℤ → ℤ → ℤ → Action

abbrev after_ask : ℕ × RelayState × Channels → Shared
after_ask (rx, r, cs) = record { relay = r; channels = cs }

abbrev after_decision : Result (Unit {0}) × RelayState × Channels → Shared
after_decision (res, r, cs) = record { relay = r; channels = cs }

module _ (encode : WireRelayEvent → Bytes) (sidecar_only : Bool) where
  unfoldable pub step : Shared → Action → Shared
  step s (calls c) = record s { relay = (guest_body sidecar_only s.relay c).1 }
  step s (answers c) = record s { relay = (app_body s.relay c).1 }
  step s (pops only) = record s { relay = (pop_event encode s.relay only).1 }
  step s (asks facts) = after_ask (ask s.relay s.channels facts)
  step s (decides h allow remember) =
      after_decision (tool_approval_respond s.relay s.channels h allow remember)

  unfoldable pub run : Shared → List Action → Shared
  run s [] = s
  run s (a ∷ more) = run (step s a) more

  -- The relay that a history leaves, from the start of a machine.
  abbrev pub replay : List Action → RelayState
  replay history = (run (record { relay = new; channels = [] }) history).relay
