-- ===== src/Tests/Session.antt =====
-- A short session of one relay: requests, answers and approvals of relay.rs at concrete values.
use flutter_experiments.Common.{
  ◌≡◌, refl, Bytes, true, false, none, some, List, [], ◌∷◌, pos, as_i32, arith, int_eq,
}
use flutter_experiments.Common.Dict.{lookup, insert}
use flutter_experiments.Error.{ok}
use flutter_experiments.Relay.State.{
  RelayState, EgressRelayEvent, WsSlot, ToolApprovalFacts, new, alloc_handle, default_http,
  default_host_call, default_persist, default_ws,
}
use flutter_experiments.Relay.Wire.{WireRelayEvent, pop_event}
use flutter_experiments.Relay.Net.{http_poll, http_body}
use flutter_experiments.Relay.WebSocket.{ws_ready, ws_connect, ws_send}
use flutter_experiments.Relay.HostCall
use flutter_experiments.Relay.Persist
use flutter_experiments.Relay.Respond.{
  http_respond, host_call_respond, persist_respond, ws_open, ws_push, ws_closed,
}
use flutter_experiments.Relay.Narrow.{respond_wraps}
use flutter_experiments.Relay.Approval.{Channels, ask, await, tool_approval_respond, fresh_channel}
use flutter_experiments.Relay.Step.{
  Action, calls, answers, pops, asks, decides, http_request_call, http_body_call, ws_connect_call,
  ws_send_call, host_start, answer_http, open_ws, replay, run, step, guest_body, app_body,
}
use flutter_experiments.Relay.Invariant.{Inv, IsHandle}
use flutter_experiments.Relay.Safety.{replay-Inv}
use flutter_experiments.Relay.Order.{Popped, left, drain, frames, pop_event-Popped, drain_all}
use flutter_experiments.Relay.Drain.{run_drained}
use flutter_experiments.Relay.Fresh.{replay_fresh}
use flutter_experiments.Relay.Reader.{taken, read_many}
use flutter_experiments.Relay.HttpDelivery.{http_respond_delivers}
use flutter_experiments.Relay.HostDelivery.{host_call_respond_delivers}
use flutter_experiments.Relay.PersistDelivery.{persist_respond_delivers}
use flutter_experiments.Relay.Decision.{Waits, ask-Waits, tool_approval_respond_decides}

abbrev one_byte : WireRelayEvent → Bytes
one_byte frame = 7 ∷ []

abbrev facts : ToolApprovalFacts
facts = record { connection = 99 ∷ []; method = 71 ∷ []; url = []; origin = []; args_digest = none }

abbrev session : List Action
session =
    calls (http_request_call (71 ∷ []))
    ∷ calls (host_start (109 ∷ 0 ∷ 1 ∷ []))
    ∷ pops false
    ∷ answers (answer_http (pos 1) (pos 200) (65 ∷ []) (1 ∷ 2 ∷ 3 ∷ []))
    ∷ calls (http_body_call (pos 1) (0 ∷ 0 ∷ []))
    ∷ asks facts
    ∷ decides (pos 3) (pos 1) (pos 0)
    ∷ calls (ws_connect_call (119 ∷ []))
    ∷ calls (ws_send_call (pos 4) (1 ∷ 2 ∷ []))
    ∷ []

replay-Inv_example : Inv IsHandle (replay one_byte false session)
replay-Inv_example = replay-Inv one_byte false session

replay_fresh_example :
    let r = replay one_byte false session in
    let h = (alloc_handle r).0 in
    IsHandle h
    × (lookup h r.http ≡ none)
    × (lookup h r.host_calls ≡ none)
    × (lookup h r.persist ≡ none)
    × (lookup h r.ws ≡ none)
    × (lookup h r.pending_tool_approvals ≡ none)
replay_fresh_example = replay_fresh one_byte false session (omega arith)

abbrev socket_session : List Action
socket_session =
    calls (ws_connect_call (119 ∷ []))
    ∷ pops false
    ∷ answers (open_ws (pos 1) (pos 1))
    ∷ calls (ws_send_call (pos 1) (1 ∷ 2 ∷ []))
    ∷ pops false
    ∷ []

abbrev opened : WsSlot
opened = record default_ws { is_open = true }

run_drained_example :
    (opened.queued_bytes ≡ 0) × (ws_ready (replay one_byte false socket_session) (pos 1) ≡ pos 1)
unfolding run step guest_body app_body pop_event ws_connect ws_send ws_open lookup insert new as_i32
run_drained_example = run_drained one_byte false socket_session (pos 1) opened refl refl

-- A queue with one event of each lane.
abbrev queued : RelayState
queued = record new {
  next = pos 4;
  events =
      EgressRelayEvent.http_request (pos 1) (71 ∷ [])
      ∷ EgressRelayEvent.host_call_close (pos 2) true
      ∷ EgressRelayEvent.persist_get (pos 3) (107 ∷ [])
      ∷ [];
  http = (pos 1, default_http) ∷ [];
  host_calls = (pos 2, default_host_call) ∷ [];
  persist = (pos 3, default_persist) ∷ [];
}

pop_event-Popped_example : Popped one_byte true queued (pop_event one_byte queued true)
pop_event-Popped_example = pop_event-Popped one_byte queued true

drain_all_example :
    ((drain one_byte 3 false queued).0 ≡ frames one_byte queued.events)
    × ((drain one_byte 3 false queued).1.events ≡ [])
    × (left false (drain one_byte 3 false queued).1.events ≡ left false queued.events)
drain_all_example = drain_all one_byte 3 false queued (omega arith)

http_respond_delivers_example :
    let r' = (http_respond queued (pos 1) (pos 200) (65 ∷ 66 ∷ []) (1 ∷ 2 ∷ 3 ∷ [])).1 in
    let answer = http_poll r' (as_i32 (pos 1)) (0 ∷ 0 ∷ 0 ∷ []) in
    (taken answer.0 answer.1 ≡ 65 ∷ 66 ∷ [])
    × ((read_many http_body r' (as_i32 (pos 1)) ((0 ∷ []) ∷ (0 ∷ 0 ∷ 0 ∷ []) ∷ [])).0
        ≡ 1 ∷ 2 ∷ 3 ∷ [])
unfolding lookup as_i32
http_respond_delivers_example =
    http_respond_delivers queued (pos 1) (pos 200) default_http (65 ∷ 66 ∷ []) (1 ∷ 2 ∷ 3 ∷ []) refl
      refl (0 ∷ 0 ∷ 0 ∷ []) ((0 ∷ []) ∷ (0 ∷ 0 ∷ 0 ∷ []) ∷ []) (omega arith)
      (omega arith, (omega arith, tt))

host_call_respond_delivers_example :
    let r' = (host_call_respond queued (pos 2) (pos 1) (1 ∷ 2 ∷ 3 ∷ [])).1 in
    (HostCall.poll r' (as_i32 (pos 2)) ≡ pos 1)
    × ((read_many HostCall.body r' (as_i32 (pos 2)) ((0 ∷ 0 ∷ []) ∷ [])).0 ≡ 1 ∷ 2 ∷ [])
unfolding lookup as_i32
host_call_respond_delivers_example =
    host_call_respond_delivers queued (pos 2) (pos 1) default_host_call (1 ∷ 2 ∷ 3 ∷ []) refl refl
      ((0 ∷ 0 ∷ []) ∷ []) (omega arith, tt)

persist_respond_delivers_example :
    let r' = (persist_respond queued (pos 3) (pos 1) (1 ∷ 2 ∷ 3 ∷ [])).1 in
    (Persist.poll r' (as_i32 (pos 3)) ≡ pos 1)
    × ((read_many Persist.body r' (as_i32 (pos 3)) ((0 ∷ 0 ∷ []) ∷ [])).0 ≡ 1 ∷ 2 ∷ [])
unfolding lookup as_i32
persist_respond_delivers_example =
    persist_respond_delivers queued (pos 3) (pos 1) default_persist (1 ∷ 2 ∷ 3 ∷ []) refl refl
      ((0 ∷ 0 ∷ []) ∷ []) (omega arith, tt)

-- A relay with one open question, and its channel.
abbrev asked : RelayState
asked = record new { next = pos 2; pending_tool_approvals = (pos 1, 0) ∷ [] }

abbrev asked_channels : Channels
asked_channels = fresh_channel ∷ []

ask-Waits_example :
    let (rx, r', cs') = ask asked asked_channels facts in Waits r' cs' (alloc_handle asked).0 rx
unfolding lookup alloc_handle
ask-Waits_example = ask-Waits asked asked_channels facts refl

tool_approval_respond_decides_example :
    let (res, r', cs') = tool_approval_respond asked asked_channels (pos 1) (pos 1) (pos 0) in
    (await cs' 0 ≡ some (record { allow = true; remember_session = false }))
    × (await cs' 1 ≡ await asked_channels 1)
    × (lookup (as_i32 (pos 1)) r'.pending_tool_approvals ≡ none)
    × (tool_approval_respond r' cs' (pos 1) (pos 0) (pos 1) ≡ (ok tt, r', cs'))
unfolding lookup as_i32
tool_approval_respond_decides_example =
    tool_approval_respond_decides asked asked_channels (pos 1) (pos 1) (pos 0) 0
      (record { pending = refl; open_channel = refl }) 1 (pos 0) (pos 1) (λ e. cc)

respond_wraps_example :
    (http_respond queued (pos 4294967297) (pos 200) [] (1 ∷ [])
      ≡ http_respond queued (pos 1) (pos 200) [] (1 ∷ []))
    × (host_call_respond queued (pos 4294967297) (pos 200) (1 ∷ [])
        ≡ host_call_respond queued (pos 1) (pos 200) (1 ∷ []))
    × (persist_respond queued (pos 4294967297) (pos 200) (1 ∷ [])
        ≡ persist_respond queued (pos 1) (pos 200) (1 ∷ []))
    × (ws_open queued (pos 4294967297) (pos 200) ≡ ws_open queued (pos 1) (pos 200))
    × (ws_push queued (pos 4294967297) (1 ∷ []) ≡ ws_push queued (pos 1) (1 ∷ []))
    × (ws_closed queued (pos 4294967297) ≡ ws_closed queued (pos 1))
    × (tool_approval_respond queued asked_channels (pos 4294967297) (pos 200) (pos 0)
        ≡ tool_approval_respond queued asked_channels (pos 1) (pos 200) (pos 0))
respond_wraps_example = respond_wraps queued asked_channels 1 (pos 200) (pos 0) [] (1 ∷ [])
