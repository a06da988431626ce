-- ===== src/Relay/Drain.antt =====
-- The answers and the pops keep the sockets covered, so every history does; a drained queue then
-- leaves no bytes counted against a socket.
use flutter_experiments.Common.{
  ◌+◌, ◌-◌, ◌≤◌, ◌≡◌, refl, inl, inr, Bytes, Bool, true, false, some, List, [], ◌∷◌, ℤ, pos, length,
  arith, Option-cases, Bool-cases, int_eq, int_beq_iff, as_i32, if◌then◌else◌, ◌||◌, ap,
}
use flutter_experiments.Common.Dict.{lookup, insert, lookup-insert}
use flutter_experiments.Relay.State.{WsSlot, EgressRelayEvent, RelayState, new, host_call, ws_send}
use flutter_experiments.Relay.WebSocket.{ws_ready}
use flutter_experiments.Relay.Wire.{
  WireRelayEvent, release_sent, sent_state, mark_slot, mark_dispatched, wire_relay_event,
  dispatch_relay_event, is_sidecar_event, take_first, take_event, pop_event,
}
use flutter_experiments.Relay.Respond.{
  http_respond, host_call_respond, persist_respond, ws_open, ws_push, ws_closed,
}
use flutter_experiments.Relay.Approval.{Channels, ask, tool_approval_respond}
use flutter_experiments.Relay.Step
use flutter_experiments.Relay.Step.{
  AppCall, Shared, Action, calls, answers, pops, asks, decides, app_body, step, run, replay,
}
use flutter_experiments.Relay.Mark.{
  sent_by, unsent, Covered, Covered-modify, Covered-grow, SendsCovered, SendsCovered-same,
  guest_body-SendsCovered,
}

module _ (r : RelayState) (c : SendsCovered r) where
  change_ws :
      (h : ℤ) (s t : WsSlot)
      → lookup h r.ws ≡ some s
      → t.queued_bytes ≤ s.queued_bytes
      → Covered (insert h t r.ws) r.events
  change_ws h s t e le = Covered-modify r.ws r.events h s t c e le

  ws_open-SendsCovered : (h status : ℤ) → SendsCovered (ws_open r h status).1
  unfolding ws_open
  ws_open-SendsCovered h status = elim (Option-cases (lookup (as_i32 h) r.ws)) [
    | inl e ↦ rw (e, ws_open) c
    | inr (s, e) ↦ rw (e, ws_open) (change_ws (as_i32 h) s _ e (omega arith))
  ]

  ws_push-SendsCovered : (h : ℤ) (bytes : Bytes) → SendsCovered (ws_push r h bytes).1
  unfolding ws_push
  ws_push-SendsCovered h bytes = elim (Option-cases (lookup (as_i32 h) r.ws)) [
    | inl e ↦ rw (e, ws_push) c
    | inr (s, e) ↦ rw (e, ws_push) (change_ws (as_i32 h) s _ e (omega arith))
  ]

  ws_closed-SendsCovered : (h : ℤ) → SendsCovered (ws_closed r h).1
  unfolding ws_closed
  ws_closed-SendsCovered h = elim (Option-cases (lookup (as_i32 h) r.ws)) [
    | inl e ↦ rw (e, ws_closed) c
    | inr (s, e) ↦ rw (e, ws_closed) (change_ws (as_i32 h) s _ e (omega arith))
  ]

  app_body-SendsCovered : (call : AppCall) → SendsCovered (app_body r call).1
  unfolding app_body http_respond host_call_respond persist_respond
  app_body-SendsCovered (Step.answer_http h status head body) =
      SendsCovered-same r (http_respond r h status head body).1 c (ground arith) (ground arith)
  app_body-SendsCovered (Step.answer_host_call h status result) =
      SendsCovered-same r (host_call_respond r h status result).1 c (ground arith) (ground arith)
  app_body-SendsCovered (Step.answer_persist h status body) =
      SendsCovered-same r (persist_respond r h status body).1 c (ground arith) (ground arith)
  app_body-SendsCovered (Step.open_ws h status) = ws_open-SendsCovered h status
  app_body-SendsCovered (Step.push_ws h bytes) = ws_push-SendsCovered h bytes
  app_body-SendsCovered (Step.close_ws h) = ws_closed-SendsCovered h

  tool_approval_respond-SendsCovered :
      (cs : Channels) (h allow remember : ℤ)
      → SendsCovered (tool_approval_respond r cs h allow remember).1
  unfolding tool_approval_respond
  tool_approval_respond-SendsCovered cs h allow remember =
      SendsCovered-same r (tool_approval_respond r cs h allow remember).1 c (ground arith)
        (ground arith)

-- What a pop takes was in the queue: the bytes of every socket split between it and the rest.
take_first-unsent :
    (k : ℤ) (p : EgressRelayEvent → Bool) (evs rest : List EgressRelayEvent) (ev : EgressRelayEvent)
    → take_first p evs ≡ some (ev, rest)
    → unsent k evs ≡ sent_by k ev + unsent k rest
unfolding take_first
take_first-unsent k p [] rest ev h = cc
take_first-unsent k p (e ∷ evs) rest ev h = elim (Bool-cases (p e)) [
  | inl hit ↦ ground arith
  | inr miss ↦ elim (Option-cases (take_first p evs)) [
    | inl nothing ↦ ground arith
    | inr ((found, others), e') ↦ ground (arith, take_first-unsent k p evs others found e')
  ]
]

take_event-unsent :
    (k : ℤ) (only : Bool) (evs rest : List EgressRelayEvent) (ev : EgressRelayEvent)
    → take_event only evs ≡ some (ev, rest)
    → unsent k evs ≡ sent_by k ev + unsent k rest
unfolding take_event
take_event-unsent k true evs rest ev h = take_first-unsent k is_sidecar_event evs rest ev h
take_event-unsent k false [] rest ev h = cc
take_event-unsent k false (e ∷ evs) rest ev h = ground arith

module _ (r : RelayState) (evs : List EgressRelayEvent) (c : Covered r.ws evs) where
  -- Taking a message off the queue lowers the count of its socket by its length, and no other.
  release_sent-SendsCovered :
      (h : ℤ) (bytes : Bytes)
      → ((k : ℤ) → unsent k evs ≡ sent_by k (ws_send h bytes) + unsent k r.events)
      → SendsCovered (release_sent r h bytes)
  unfolding release_sent
  release_sent-SendsCovered h bytes split = elim (Option-cases (lookup h r.ws)) [
    | inl e ↦ rw (e, release_sent) (λ k s f. ground (arith, int_beq_iff h k, split k, c k s f))
    | inr (t, e) ↦ rw (e, release_sent) (λ k s f. lowered t e k s f)
  ]
    where
      lowered :
          (t : WsSlot)
          → lookup h r.ws ≡ some t
          → Covered
              (insert h (record t { queued_bytes = t.queued_bytes - length bytes }) r.ws)
              r.events
      lowered t e k s f = ground (
        arith,
        int_beq_iff h k,
        split k,
        c k s,
        c h t e,
        lookup-insert h k (record t { queued_bytes = t.queued_bytes - length bytes }) r.ws,
      )

  sent_state-SendsCovered :
      (ev : EgressRelayEvent)
      → ((k : ℤ) → unsent k evs ≡ sent_by k ev + unsent k r.events)
      → SendsCovered (sent_state r ev)
  unfolding sent_state
  sent_state-SendsCovered (ws_send h bytes) split k s e =
      release_sent-SendsCovered h bytes split k s e
  sent_state-SendsCovered _ split k s e = ground (arith, split k, c k s e)

pub mark_dispatched_sockets :
    (r : RelayState) (ev : EgressRelayEvent)
    → ((mark_dispatched r ev).ws ≡ r.ws) × ((mark_dispatched r ev).events ≡ r.events)
unfolding mark_dispatched mark_slot
mark_dispatched_sockets r (host_call h name body) = ground arith
mark_dispatched_sockets r _ = (refl, refl)

module _ (encode : WireRelayEvent → Bytes) where
  pop_event-SendsCovered :
      (r : RelayState) (only : Bool) → SendsCovered r → SendsCovered (pop_event encode r only).1
  unfolding pop_event dispatch_relay_event wire_relay_event
  pop_event-SendsCovered r only c = elim (Option-cases (take_event only r.events)) [
    | inl e ↦ rw (e, pop_event) c
    | inr ((ev, rest), e) ↦ rw (e, pop_event) (popped ev rest e)
  ]
    where
      popped :
          (ev : EgressRelayEvent) (rest : List EgressRelayEvent)
          → take_event only r.events ≡ some (ev, rest)
          → SendsCovered (sent_state (mark_dispatched (record r { events = rest }) ev) ev)
      popped ev rest e =
          let same = mark_dispatched_sockets (record r { events = rest }) ev in
          sent_state-SendsCovered (mark_dispatched (record r { events = rest }) ev) r.events
            (rw same.0 c) ev (λ k. rw same.1 (take_event-unsent k only r.events rest ev e))

  module _ (sidecar_only : Bool) where
    step-SendsCovered :
        (s : Shared) (a : Action)
        → SendsCovered s.relay
        → SendsCovered (step encode sidecar_only s a).relay
    unfolding step ask
    step-SendsCovered s (calls call) c = guest_body-SendsCovered s.relay c sidecar_only call
    step-SendsCovered s (answers call) c = app_body-SendsCovered s.relay c call
    step-SendsCovered s (pops only) c = pop_event-SendsCovered s.relay only c
    step-SendsCovered s (asks facts) c = Covered-grow s.relay.ws s.relay.events _ c
    step-SendsCovered s (decides h allow remember) c =
        tool_approval_respond-SendsCovered s.relay c s.channels h allow remember

    pub run-SendsCovered :
        (s : Shared) (history : List Action)
        → SendsCovered s.relay
        → SendsCovered (run encode sidecar_only s history).relay
    unfolding run
    run-SendsCovered s [] c = c
    run-SendsCovered s (a ∷ more) c =
        run-SendsCovered (step encode sidecar_only s a) more (step-SendsCovered s a c)

    new-SendsCovered : SendsCovered new
    unfolding new lookup
    new-SendsCovered k s e = cc

    -- After any history from a new relay, once the event queue is empty, no socket counts a byte as
    -- queued, and `ws_ready` answers 1 for exactly the sockets that are open or have failed.
    pub run_drained :
        (history : List Action) (k : ℤ) (s : WsSlot)
        → (replay encode sidecar_only history).events ≡ []
        → lookup k (replay encode sidecar_only history).ws ≡ some s
        → (s.queued_bytes ≡ 0)
          × (ws_ready (replay encode sidecar_only history) k
              ≡ (if s.failed || s.is_open then pos 1 else pos 0))
    unfolding ws_ready
    run_drained history k s empty e =
        let c : s.queued_bytes ≤ unsent k (replay encode sidecar_only history).events =
          run-SendsCovered (record { relay = new; channels = [] }) history new-SendsCovered k s e in
        let z : s.queued_bytes ≡ 0 = omega (arith, ap (unsent k) empty) in
        (z, rw (e, ws_ready, z) (ground arith))
