-- ===== src/Relay/Safety.antt =====
-- The invariant over whole histories: the application's answers, the pops, the approvals, and then
-- every list of steps.
use flutter_experiments.Common.{
  ◌≡◌, refl, inl, inr, Bytes, Bool, some, List, [], ◌∷◌, ℤ, arith, Option-cases, int_eq, as_i32,
}
use flutter_experiments.Common.Dict.{
  lookup, insert, AllEntries-modify, AllEntries-insert, AllEntries-remove,
}
use flutter_experiments.Relay.State.{
  WsSlot, EgressRelayEvent, ToolApprovalFacts, RelayState, new, alloc_handle, host_call, ws_send,
}
use flutter_experiments.Relay.Net.{http_request}
use flutter_experiments.Relay.WebSocket.{ws_connect}
use flutter_experiments.Relay.Wire.{
  WireRelayEvent, release_sent, sent_state, mark_slot, mark_dispatched, wire_relay_event,
  dispatch_relay_event, take_event, pop_event,
}
use flutter_experiments.Relay.Respond.{
  http_respond, host_call_respond, persist_respond, ws_open, ws_push, ws_closed,
}
use flutter_experiments.Relay.Approval.{Channels, ask, tool_approval_respond}
use flutter_experiments.Relay.Step
use flutter_experiments.Relay.Step.{
  GuestCall, AppCall, Shared, Action, calls, answers, pops, asks, decides, guest_body, app_body,
  step, run, replay,
}
use flutter_experiments.Relay.Invariant.{
  HttpOk, HostCallOk, PersistOk, WsOk, PendingOk, IsHandle, new-Inv, alloc_handle-IsHandle, Inv,
  put_http, put_host, put_persist, put_ws, put_pending, alloc_handle-Inv,
}
use flutter_experiments.Relay.Preserve.{
  FitsFront-append, http_request-Inv, http_body-Inv, http_close-Inv, ws_connect-Inv, ws_send-Inv,
  ws_recv-Inv, ws_close-Inv, host_start-Inv, host_body-Inv, host_close-Inv, persist_start-Inv,
  persist_body-Inv, persist_close-Inv,
}

guest_body-Inv :
    (K : ℤ → Type 0) (only : Bool) (r : RelayState) (c : GuestCall)
    → Inv K r
    → ((guest_body only r c).1.next ≡ (alloc_handle r).1.next → K (alloc_handle r).0)
    → Inv K (guest_body only r c).1
unfolding guest_body
guest_body-Inv K only r (Step.http_request_call req) v f =
    http_request-Inv r v (f (unfold http_request in refl)) req
guest_body-Inv K only r (Step.http_poll_call h buf) v f = v
guest_body-Inv K only r (Step.http_body_call h buf) v f = http_body-Inv r v h buf
guest_body-Inv K only r (Step.http_close_call h) v f = http_close-Inv r v h
guest_body-Inv K only r (Step.ws_connect_call url) v f =
    ws_connect-Inv r v (f (unfold ws_connect in refl)) url
guest_body-Inv K only r (Step.ws_send_call h bytes) v f = ws_send-Inv r v h bytes
guest_body-Inv K only r (Step.ws_ready_call h) v f = v
guest_body-Inv K only r (Step.ws_recv_call h buf) v f = ws_recv-Inv r v h buf
guest_body-Inv K only r (Step.ws_close_call h) v f = ws_close-Inv r v h
guest_body-Inv K only r (Step.host_start req) v f = host_start-Inv r v only req f
guest_body-Inv K only r (Step.host_poll h) v f = v
guest_body-Inv K only r (Step.host_body h buf) v f = host_body-Inv r v h buf
guest_body-Inv K only r (Step.host_close h) v f = host_close-Inv r v h
guest_body-Inv K only r (Step.persist_start req) v f = persist_start-Inv r v req f
guest_body-Inv K only r (Step.persist_poll h) v f = v
guest_body-Inv K only r (Step.persist_body h buf) v f = persist_body-Inv r v h buf
guest_body-Inv K only r (Step.persist_close h) v f = persist_close-Inv r v h

module _ {K : ℤ → Type 0} (r : RelayState) (v : Inv K r) where
  change_ws :
      (h : ℤ) (s t : WsSlot) (evs : List EgressRelayEvent)
      → lookup h r.ws ≡ some s
      → (WsOk K h s → WsOk K h t)
      → Inv K (record r { ws = insert h t r.ws; events = evs })
  change_ws h s t evs e f = put_ws r evs v (AllEntries-modify (WsOk K) h r.ws e f v.ws_ok)

  http_respond-Inv :
      (h status : ℤ) (head body : Bytes) → Inv K (http_respond r h status head body).1
  unfolding http_respond
  http_respond-Inv h status head body = elim (Option-cases (lookup (as_i32 h) r.http)) [
    | inl e ↦ rw (e, http_respond) v
    | inr (s, e) ↦
        rw (e, http_respond)
          (put_http r r.events v
            (AllEntries-modify (HttpOk K) (as_i32 h) r.http e (λ w. (w.0, omega arith)) v.http_ok))
  ]

  host_call_respond-Inv :
      (h status : ℤ) (result : Bytes) → Inv K (host_call_respond r h status result).1
  unfolding host_call_respond
  host_call_respond-Inv h status result = elim (Option-cases (lookup (as_i32 h) r.host_calls)) [
    | inl e ↦ rw (e, host_call_respond) v
    | inr (s, e) ↦
        rw (e, host_call_respond)
          (put_host r r.events v (
            AllEntries-modify (HostCallOk K) (as_i32 h) r.host_calls e (λ w. (w.0, omega arith))
              v.host_ok))
  ]

  persist_respond-Inv : (h status : ℤ) (body : Bytes) → Inv K (persist_respond r h status body).1
  unfolding persist_respond
  persist_respond-Inv h status body = elim (Option-cases (lookup (as_i32 h) r.persist)) [
    | inl e ↦ rw (e, persist_respond) v
    | inr (s, e) ↦
        rw (e, persist_respond)
          (put_persist r r.events v (
            AllEntries-modify (PersistOk K) (as_i32 h) r.persist e (λ w. (w.0, omega arith))
              v.persist_ok))
  ]

  ws_open-Inv : (h status : ℤ) → Inv K (ws_open r h status).1
  unfolding ws_open
  ws_open-Inv h status = elim (Option-cases (lookup (as_i32 h) r.ws)) [
    | inl e ↦ rw (e, ws_open) v
    | inr (s, e) ↦ rw (e, ws_open) (change_ws (as_i32 h) s _ r.events e (λ w. w))
  ]

  ws_push-Inv : (h : ℤ) (bytes : Bytes) → Inv K (ws_push r h bytes).1
  unfolding ws_push
  ws_push-Inv h bytes = elim (Option-cases (lookup (as_i32 h) r.ws)) [
    | inl e ↦ rw (e, ws_push) v
    | inr (s, e) ↦
        rw (e, ws_push)
          (change_ws (as_i32 h) s _ r.events e
            (λ w. (w.0, w.1, FitsFront-append s.incoming bytes s.incoming_pos w.2)))
  ]

  ws_closed-Inv : (h : ℤ) → Inv K (ws_closed r h).1
  unfolding ws_closed
  ws_closed-Inv h = elim (Option-cases (lookup (as_i32 h) r.ws)) [
    | inl e ↦ rw (e, ws_closed) v
    | inr (s, e) ↦ rw (e, ws_closed) (change_ws (as_i32 h) s _ r.events e (λ w. w))
  ]

  release_sent-Inv : (h : ℤ) (bytes : Bytes) → Inv K (release_sent r h bytes)
  unfolding release_sent
  release_sent-Inv h bytes = elim (Option-cases (lookup h r.ws)) [
    | inl e ↦ rw (e, release_sent) v
    | inr (s, e) ↦ rw (e, release_sent) (change_ws h s _ r.events e (λ w. (w.0, omega arith, w.2)))
  ]

  mark_slot-Inv : (h : ℤ) → Inv K (mark_slot r h)
  unfolding mark_slot
  mark_slot-Inv h = elim (Option-cases (lookup h r.host_calls)) [
    | inl e ↦ rw (e, mark_slot) v
    | inr (s, e) ↦
        rw (e, mark_slot)
          (put_host r r.events v
            (AllEntries-modify (HostCallOk K) h r.host_calls e (λ w. w) v.host_ok))
  ]

  tool_approval_respond-Inv :
      (cs : Channels) (h allow remember : ℤ) → Inv K (tool_approval_respond r cs h allow remember).1
  unfolding tool_approval_respond
  tool_approval_respond-Inv cs h allow remember =
      elim (Option-cases (lookup (as_i32 h) r.pending_tool_approvals)) [
        | inl e ↦ rw (e, tool_approval_respond) v
        | inr (tx, e) ↦
            rw (e, tool_approval_respond)
              (put_pending r r.events v
                (AllEntries-remove (PendingOk K) (as_i32 h) r.pending_tool_approvals v.pending_ok))
      ]

  ask-Inv :
      (cs : Channels) (facts : ToolApprovalFacts) → K (alloc_handle r).0 → Inv K (ask r cs facts).1
  unfolding ask
  ask-Inv cs facts f =
      put_pending (alloc_handle r).1 _ (alloc_handle-Inv r v) (
        AllEntries-insert (PendingOk K) (alloc_handle r).0 _ r.pending_tool_approvals v.pending_ok
          f)

sent_state-Inv :
    {K : ℤ → Type 0} (r : RelayState) (ev : EgressRelayEvent) → Inv K r → Inv K (sent_state r ev)
unfolding sent_state
sent_state-Inv r (ws_send h bytes) v = release_sent-Inv r v h bytes
sent_state-Inv r _ v = v

mark_dispatched-Inv :
    {K : ℤ → Type 0} (r : RelayState) (ev : EgressRelayEvent)
    → Inv K r
    → Inv K (mark_dispatched r ev)
unfolding mark_dispatched
mark_dispatched-Inv r (host_call h name body) v = mark_slot-Inv r v h
mark_dispatched-Inv r _ v = v

app_body-Inv : {K : ℤ → Type 0} (r : RelayState) (c : AppCall) → Inv K r → Inv K (app_body r c).1
unfolding app_body
app_body-Inv r (Step.answer_http h status head body) v = http_respond-Inv r v h status head body
app_body-Inv r (Step.answer_host_call h status result) v = host_call_respond-Inv r v h status result
app_body-Inv r (Step.answer_persist h status body) v = persist_respond-Inv r v h status body
app_body-Inv r (Step.open_ws h status) v = ws_open-Inv r v h status
app_body-Inv r (Step.push_ws h bytes) v = ws_push-Inv r v h bytes
app_body-Inv r (Step.close_ws h) v = ws_closed-Inv r v h

module _ (encode : WireRelayEvent → Bytes) where
  pop_event-Inv :
      {K : ℤ → Type 0} (r : RelayState) (only : Bool) → Inv K r → Inv K (pop_event encode r only).1
  unfolding pop_event dispatch_relay_event wire_relay_event
  pop_event-Inv r only v = elim (Option-cases (take_event only r.events)) [
    | inl e ↦ rw (e, pop_event) v
    | inr ((ev, rest), e) ↦
        rw (e, pop_event)
          (sent_state-Inv _ ev (mark_dispatched-Inv _ ev (put_http r rest v v.http_ok)))
  ]

  module _ (sidecar_only : Bool) where
    -- `K` need only hold of the handle that the step takes, if it takes one.
    pub step-Inv :
        (K : ℤ → Type 0) (s : Shared) (a : Action)
        → Inv K s.relay
        → ((step encode sidecar_only s a).relay.next ≡ (alloc_handle s.relay).1.next
            → K (alloc_handle s.relay).0)
        → Inv K (step encode sidecar_only s a).relay
    unfolding step
    step-Inv K s (calls c) v f = guest_body-Inv K sidecar_only s.relay c v f
    step-Inv K s (answers c) v f = app_body-Inv s.relay c v
    step-Inv K s (pops only) v f = pop_event-Inv s.relay only v
    step-Inv K s (asks facts) v f = ask-Inv s.relay v s.channels facts (f (unfold ask in refl))
    step-Inv K s (decides h allow remember) v f =
        tool_approval_respond-Inv s.relay v s.channels h allow remember

    run-Inv :
        (s : Shared) (history : List Action)
        → Inv IsHandle s.relay
        → Inv IsHandle (run encode sidecar_only s history).relay
    unfolding run
    run-Inv s [] v = v
    run-Inv s (a ∷ more) v =
        run-Inv (step encode sidecar_only s a) more
          (step-Inv IsHandle s a v (λ _. (alloc_handle-IsHandle s.relay v.next_ok).0))

    -- Whatever a kernel and an application do from the start of a machine, the relay stays well
    -- formed: the next handle and the handle of every slot are positive `i32`s, no read position is
    -- past the end of what it reads, and no socket has more than 256 KiB of unsent bytes.
    pub replay-Inv : (history : List Action) → Inv IsHandle (replay encode sidecar_only history)
    replay-Inv history = run-Inv (record { relay = new; channels = [] }) history (new-Inv IsHandle)
