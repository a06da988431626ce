-- ===== src/Relay/State.antt =====
-- table.rs: the relay's queue and slots, and the allocation of handles.
use flutter_experiments.Common.{
  ℕ, Bytes, Bool, false, Option, List, [], ◌∷◌, ◌++◌, if◌then◌else◌, ℤ, pos, succ, as_i32,
  is_positive, max_one,
}

pub record HttpSlot : Type 0 where
  pub done : Bool
  pub failed : Bool
  pub head : Bytes
  pub body : Bytes
  pub body_pos : ℕ

pub record HostCallSlot : Type 0 where
  pub dispatched : Bool
  pub sidecar : Bool
  pub done : Bool
  pub failed : Bool
  pub result : Bytes
  pub offset : ℕ

pub record PersistSlot : Type 0 where
  pub done : Bool
  pub failed : Bool
  pub result : Bytes
  pub offset : ℕ

pub record WsSlot : Type 0 where
  pub is_open : Bool
  pub failed : Bool
  pub incoming : List Bytes
  pub incoming_pos : ℕ
  pub queued_bytes : ℕ

-- The derived `Default` of each slot.
abbrev pub default_http : HttpSlot
default_http = record { done = false; failed = false; head = []; body = []; body_pos = 0 }

abbrev pub default_host_call : HostCallSlot
default_host_call = record {
  dispatched = false;
  sidecar = false;
  done = false;
  failed = false;
  result = [];
  offset = 0;
}

abbrev pub default_persist : PersistSlot
default_persist = record { done = false; failed = false; result = []; offset = 0 }

abbrev pub default_ws : WsSlot
default_ws = record {
  is_open = false;
  failed = false;
  incoming = [];
  incoming_pos = 0;
  queued_bytes = 0;
}

pub record ToolApprovalDecision : Type 0 where
  pub allow : Bool
  pub remember_session : Bool

-- `host::ToolApprovalFacts`, by the fields that the source reads.
pub record ToolApprovalFacts : Type 0 where
  pub connection : Bytes
  pub method : Bytes
  pub url : Bytes
  pub origin : Bytes
  pub args_digest : Option Bytes

-- The arguments stand in the order of the source's fields.
pub data EgressRelayEvent : Type 0 where
  http_request : ℤ → Bytes → EgressRelayEvent
  host_call : ℤ → Bytes → Bytes → EgressRelayEvent
  host_call_close : ℤ → Bool → EgressRelayEvent
  persist_get : ℤ → Bytes → EgressRelayEvent
  persist_put : ℤ → Bytes → Bytes → EgressRelayEvent
  persist_delete : ℤ → Bytes → EgressRelayEvent
  persist_list : ℤ → Bytes → EgressRelayEvent
  ws_connect : ℤ → Bytes → EgressRelayEvent
  ws_send : ℤ → Bytes → EgressRelayEvent
  ws_close : ℤ → EgressRelayEvent
  tool_approval : ℤ → ToolApprovalFacts → EgressRelayEvent

-- A `Sender` of an approval is the number of its channel (see Relay/Approval.antt).
pub record RelayState : Type 0 where
  pub next : ℤ
  pub events : List EgressRelayEvent
  pub http : List (ℤ × HttpSlot)
  pub host_calls : List (ℤ × HostCallSlot)
  pub persist : List (ℤ × PersistSlot)
  pub ws : List (ℤ × WsSlot)
  pub pending_tool_approvals : List (ℤ × ℕ)

unfoldable pub new : RelayState
new = record {
  next = pos 1;
  events = [];
  http = [];
  host_calls = [];
  persist = [];
  ws = [];
  pending_tool_approvals = [];
}

-- The handle that is given out: the counter, repaired if it is not positive.
unfoldable pub fresh_handle : RelayState → ℤ
fresh_handle r = if is_positive r.next then r.next else pos 1

-- `wrapping_add(1).max(1)`: after `i32::MAX` the handles start again at 1.
unfoldable pub alloc_handle : RelayState → ℤ × RelayState
unfolding fresh_handle
alloc_handle r =
    let handle = fresh_handle r in (handle, record r { next = max_one (as_i32 (succ handle)) })

abbrev pub push_event : EgressRelayEvent → RelayState → RelayState
push_event ev r = record r { events = r.events ++ ev ∷ [] }
