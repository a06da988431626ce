-- ===== src/Relay/Wire.antt =====
-- relay.rs, "Wire": from a queued event to `ctl_rust::RelayEvent`, and the two ways of taking an
-- event off the queue. The generated codec's `encode` is a parameter.
use Prim.Native.String.{String}
use flutter_experiments.Common.{
  ◌-◌, Bytes, Bool, true, false, Option, none, some, List, [], ◌∷◌, if◌then◌else◌, ℤ, length, ◌==◌,
  bytes_eq, int_eq,
}
use flutter_experiments.Common.Dict.{lookup, insert}
use flutter_experiments.Relay.State.{
  EgressRelayEvent, http_request, host_call, host_call_close, persist_get, persist_put,
  persist_delete, persist_list, ws_connect, ws_send, ws_close, tool_approval, RelayState,
}
use flutter_experiments.Relay.HostCall.{sidecar_host_binding}

-- The frame struct, by the fields that `relay_frame` names.
pub record WireRelayEvent : Type 0 where
  pub kind : String
  pub handle : ℤ
  pub request : Option Bytes
  pub name : Option Bytes
  pub body : Option Bytes
  pub key : Option Bytes
  pub value : Option Bytes
  pub prefix : Option Bytes
  pub url : Option Bytes
  pub payload : Option Bytes
  pub connection : Option Bytes
  pub method : Option Bytes
  pub origin : Option Bytes
  pub args_digest : Option Bytes

unfoldable pub relay_frame : String → ℤ → WireRelayEvent
relay_frame kind handle = record {
  kind = kind;
  handle = handle;
  request = none;
  name = none;
  body = none;
  key = none;
  value = none;
  prefix = none;
  url = none;
  payload = none;
  connection = none;
  method = none;
  origin = none;
  args_digest = none;
}

unfoldable pub frame_of : EgressRelayEvent → WireRelayEvent
unfolding relay_frame
frame_of (http_request handle request) = record (relay_frame "http" handle) {
  request = some request;
}
frame_of (host_call handle name body) = record (relay_frame "host_call" handle) {
  name = some name;
  body = some body;
}
frame_of (host_call_close handle sidecar) =
    if sidecar
    then record (relay_frame "host_call_close" handle) { name = some sidecar_host_binding }
    else relay_frame "host_call_close" handle
frame_of (persist_get handle key) = record (relay_frame "persist_get" handle) { key = some key }
frame_of (persist_put handle key value) = record (relay_frame "persist_put" handle) {
  key = some key;
  value = some value;
}
frame_of (persist_delete handle key) = record (relay_frame "persist_delete" handle) {
  key = some key;
}
frame_of (persist_list handle prefix) = record (relay_frame "persist_list" handle) {
  prefix = some prefix;
}
frame_of (ws_connect handle url) = record (relay_frame "ws_connect" handle) { url = some url }
frame_of (ws_send handle bytes) = record (relay_frame "ws_send" handle) { payload = some bytes }
frame_of (ws_close handle) = relay_frame "ws_close" handle
frame_of (tool_approval handle facts) = record (relay_frame "tool_approval" handle) {
  connection = some facts.connection;
  method = some facts.method;
  url = some facts.url;
  origin = some facts.origin;
  args_digest = facts.args_digest;
}

-- The one arm of `wire_relay_event` that changes the state: a sent message leaves the mark.
unfoldable pub release_sent : RelayState → ℤ → Bytes → RelayState
release_sent relay handle bytes = elim (lookup handle relay.ws) [
  | none ↦ relay
  | some slot ↦ record relay {
    ws = insert handle (record slot { queued_bytes = slot.queued_bytes - length bytes }) relay.ws;
  }
]

unfoldable pub sent_state : RelayState → EgressRelayEvent → RelayState
unfolding release_sent
sent_state relay (ws_send handle bytes) = release_sent relay handle bytes
sent_state relay _ = relay

unfoldable pub wire_relay_event : RelayState → EgressRelayEvent → WireRelayEvent × RelayState
unfolding frame_of sent_state
wire_relay_event relay event = (frame_of event, sent_state relay event)

unfoldable pub mark_slot : RelayState → ℤ → RelayState
mark_slot relay handle = elim (lookup handle relay.host_calls) [
  | none ↦ relay
  | some slot ↦ record relay {
    host_calls = insert handle (record slot { dispatched = true }) relay.host_calls;
  }
]

-- The `if let EgressRelayEvent::HostCall` of `dispatch_relay_event`.
unfoldable pub mark_dispatched : RelayState → EgressRelayEvent → RelayState
unfolding mark_slot
mark_dispatched relay (host_call handle name body) = mark_slot relay handle
mark_dispatched relay _ = relay

unfoldable pub is_sidecar_event : EgressRelayEvent → Bool
is_sidecar_event (host_call handle name body) = name == sidecar_host_binding
is_sidecar_event (host_call_close handle sidecar) = sidecar
is_sidecar_event _ = false

-- The first event that passes the test, and the others: `iter().position(..)` and `remove(i)`.
unfoldable pub take_first :
    (EgressRelayEvent → Bool)
    → List EgressRelayEvent
    → Option (EgressRelayEvent × List EgressRelayEvent)
take_first p [] = none
take_first p (ev ∷ evs) =
    let rest = take_first p evs in
    if p ev
    then some (ev, evs)
    else elim rest [ none ↦ none | some (found, others) ↦ some (found, ev ∷ others) ]

-- The event that a pop takes, and the queue that it leaves.
unfoldable pub take_event :
    Bool → List EgressRelayEvent → Option (EgressRelayEvent × List EgressRelayEvent)
unfolding take_first is_sidecar_event
take_event true evs = take_first is_sidecar_event evs
take_event false [] = none
take_event false (ev ∷ evs) = some (ev, evs)

module _ (encode : WireRelayEvent → Bytes) where
  unfoldable pub dispatch_relay_event : RelayState → EgressRelayEvent → Bytes × RelayState
  unfolding wire_relay_event mark_dispatched
  dispatch_relay_event relay event =
      let (frame, r) = wire_relay_event (mark_dispatched relay event) event in (encode frame, r)

  -- The body of `pop_event`, under the relay's lock.
  unfoldable pub pop_event : RelayState → Bool → Option Bytes × RelayState
  unfolding take_event dispatch_relay_event
  pop_event relay sidecar_only = elim (take_event sidecar_only relay.events) [
    | none ↦ (none, relay)
    | some (ev, rest) ↦
        let (bytes, r) = dispatch_relay_event (record relay { events = rest }) ev in (some bytes, r)
  ]
