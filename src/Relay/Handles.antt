-- ===== src/Relay/Handles.antt =====
-- Fresh handles: until the counter has gone round, no slot is ever overwritten by a new one.
use flutter_experiments.Common.{
  ℕ, ◌+◌, ◌^◌, ◌≤◌, ◌<◌, ◌≡◌, refl, ◌∙◌, ◌⊎◌, inl, inr, Bytes, Bool, ℤ, pos, negsuc, arith,
  Option-cases, int_eq, as_i32_small,
}
use flutter_experiments.Relay.State.{EgressRelayEvent, RelayState, alloc_handle, host_call, ws_send}
use flutter_experiments.Relay.Net
use flutter_experiments.Relay.WebSocket
use flutter_experiments.Relay.HostCall
use flutter_experiments.Relay.Persist
use flutter_experiments.Relay.Wire.{
  WireRelayEvent, release_sent, sent_state, mark_slot, mark_dispatched, wire_relay_event,
  dispatch_relay_event, take_event, pop_event,
}
use flutter_experiments.Relay.Respond.{
  http_respond, host_call_respond, persist_respond, ws_open, ws_push, ws_closed,
}
use flutter_experiments.Relay.Approval.{ask, tool_approval_respond}
use flutter_experiments.Relay.Step
use flutter_experiments.Relay.Step.{
  GuestCall, AppCall, Shared, Action, calls, answers, pops, asks, decides, guest_body, app_body,
  step, run, replay,
}

-- A step leaves the counter alone, or advances it by one allocation.
abbrev pub MayAlloc : RelayState → RelayState → Type 0
MayAlloc r r' = (r'.next ≡ r.next) ⊎ (r'.next ≡ (alloc_handle r).1.next)

persist_start-MayAlloc : (r : RelayState) (req : Bytes) → MayAlloc r (Persist.start r req).1
unfolding Persist.start
persist_start-MayAlloc r req = elim (Option-cases (Persist.parse_request req)) [
  | inl e ↦ rw (e, Persist.start) (inl refl)
  | inr ((op, key, value), e) ↦ rw (e, Persist.start) (inr (begin op key value))
]
  where
    begin :
        (op : ℕ) (key value : Bytes)
        → (Persist.begin r op key value).1.next ≡ (alloc_handle r).1.next
    begin op key value = unfold Persist.begin in ground arith

guest_body-MayAlloc :
    (only : Bool) (r : RelayState) (c : GuestCall) → MayAlloc r (guest_body only r c).1
unfolding guest_body Net.http_request Net.http_body Net.http_close WebSocket.ws_connect
    WebSocket.ws_send WebSocket.ws_recv WebSocket.ws_close HostCall.start HostCall.body
    HostCall.close Persist.body Persist.close
guest_body-MayAlloc only r (Step.http_request_call req) = inr refl
guest_body-MayAlloc only r (Step.http_poll_call h buf) = inl refl
guest_body-MayAlloc only r (Step.http_body_call h buf) = inl (ground arith)
guest_body-MayAlloc only r (Step.http_close_call h) = inl refl
guest_body-MayAlloc only r (Step.ws_connect_call url) = inr refl
guest_body-MayAlloc only r (Step.ws_send_call h bytes) = inl (ground arith)
guest_body-MayAlloc only r (Step.ws_ready_call h) = inl refl
guest_body-MayAlloc only r (Step.ws_recv_call h buf) = inl (ground arith)
guest_body-MayAlloc only r (Step.ws_close_call h) = inl refl
guest_body-MayAlloc only r (Step.host_start req) = ground arith
guest_body-MayAlloc only r (Step.host_poll h) = inl refl
guest_body-MayAlloc only r (Step.host_body h buf) = inl (ground arith)
guest_body-MayAlloc only r (Step.host_close h) = inl refl
guest_body-MayAlloc only r (Step.persist_start req) = persist_start-MayAlloc r req
guest_body-MayAlloc only r (Step.persist_poll h) = inl refl
guest_body-MayAlloc only r (Step.persist_body h buf) = inl (ground arith)
guest_body-MayAlloc only r (Step.persist_close h) = inl refl

next-app_body : (r : RelayState) (c : AppCall) → (app_body r c).1.next ≡ r.next
unfolding app_body http_respond host_call_respond persist_respond ws_open ws_push ws_closed
next-app_body r (Step.answer_http h status head body) = ground arith
next-app_body r (Step.answer_host_call h status result) = ground arith
next-app_body r (Step.answer_persist h status body) = ground arith
next-app_body r (Step.open_ws h status) = ground arith
next-app_body r (Step.push_ws h bytes) = ground arith
next-app_body r (Step.close_ws h) = ground arith

next-sent_state : (r : RelayState) (ev : EgressRelayEvent) → (sent_state r ev).next ≡ r.next
unfolding sent_state release_sent
next-sent_state r (ws_send h bytes) = ground arith
next-sent_state r _ = refl

next-mark_dispatched :
    (r : RelayState) (ev : EgressRelayEvent) → (mark_dispatched r ev).next ≡ r.next
unfolding mark_dispatched mark_slot
next-mark_dispatched r (host_call h name body) = ground arith
next-mark_dispatched r _ = refl

module _ (encode : WireRelayEvent → Bytes) where
  next-pop_event : (r : RelayState) (only : Bool) → (pop_event encode r only).1.next ≡ r.next
  unfolding pop_event dispatch_relay_event wire_relay_event
  next-pop_event r only = elim (Option-cases (take_event only r.events)) [
    | inl e ↦ rw (e, pop_event)
    | inr ((ev, rest), e) ↦
        rw (e, pop_event)
          (next-sent_state _ ev ∙ next-mark_dispatched (record r { events = rest }) ev)
  ]

  module _ (sidecar_only : Bool) where
    pub step-MayAlloc :
        (s : Shared) (a : Action) → MayAlloc s.relay (step encode sidecar_only s a).relay
    unfolding step ask tool_approval_respond
    step-MayAlloc s (calls c) = guest_body-MayAlloc sidecar_only s.relay c
    step-MayAlloc s (answers c) = inl (next-app_body s.relay c)
    step-MayAlloc s (pops only) = inl (next-pop_event s.relay only)
    step-MayAlloc s (asks facts) = inr refl
    step-MayAlloc s (decides h allow remember) = inl (ground arith)

-- Handles that were given out before the counter reached `m`.
abbrev pub Below : ℕ → ℤ → Type 0
Below m (pos n) = n < m
Below m (negsuc n) = ⊥

pub Below-suc : (m : ℕ) (k : ℤ) → Below m k → Below (m + 1) k
Below-suc m (pos n) h = omega arith
Below-suc m (negsuc n) h = h

-- Below `i32::MAX` an allocation gives out the counter and adds one to it.
pub alloc_handle_lem :
    (r : RelayState) (m : ℕ)
    → r.next ≡ pos m
    → 1 ≤ m
    → m + 1 < 2 ^ 31
    → ((alloc_handle r).0 ≡ pos m) × ((alloc_handle r).1.next ≡ pos (m + 1))
unfolding alloc_handle
alloc_handle_lem r m e low high = rw e (ground (arith, as_i32_small (m + 1) high))
