-- ===== src/Relay/Order.antt =====
-- The order in which events leave the queue. A pop for sidecars serves one lane of the queue and
-- leaves the other; a plain pop serves the whole queue. Both are first in, first out.
use flutter_experiments.Common.{
  ℕ, zero, suc, ◌≤◌, ◌≡◌, refl, sym, ap, ◌∙◌, inl, inr, Bytes, Bool, true, false, not, Option, none,
  some, List, [], ◌∷◌, map, length, filter, arith, Option-cases, Bool-cases,
}
use flutter_experiments.Relay.State.{EgressRelayEvent, RelayState, ws_send}
use flutter_experiments.Relay.Wire.{
  WireRelayEvent, frame_of, sent_state, release_sent, mark_dispatched, wire_relay_event,
  dispatch_relay_event, is_sidecar_event, take_first, take_event, pop_event,
}
use flutter_experiments.Relay.Drain.{mark_dispatched_sockets}

-- The events that a pop serves, and those that it leaves.
abbrev pub served : Bool → List EgressRelayEvent → List EgressRelayEvent
served true evs = filter is_sidecar_event evs
served false evs = evs

abbrev pub left : Bool → List EgressRelayEvent → List EgressRelayEvent
left true evs = filter (λ ev. not (is_sidecar_event ev)) evs
left false evs = []

module _ (p : EgressRelayEvent → Bool) where
  take_first-none : (evs : List EgressRelayEvent) → take_first p evs ≡ none → filter p evs ≡ []
  unfolding take_first
  take_first-none [] h = refl
  take_first-none (e ∷ evs) h = ground (arith, take_first-none evs)

  take_first-some :
      (evs rest : List EgressRelayEvent) (ev : EgressRelayEvent)
      → take_first p evs ≡ some (ev, rest)
      → (filter p evs ≡ ev ∷ filter p rest)
        × (filter (λ e. not (p e)) evs ≡ filter (λ e. not (p e)) rest)
  unfolding take_first
  take_first-some [] rest ev h = cc
  take_first-some (e ∷ evs) rest ev h = elim (Bool-cases (p e)) [
    | inl hit ↦ ground arith
    | inr miss ↦ elim (Option-cases (take_first p evs)) [
      | inl nothing ↦ ground arith
      | inr ((found, others), e') ↦ ground (arith, take_first-some evs others found e')
    ]
  ]

take_event-none :
    (only : Bool) (evs : List EgressRelayEvent) → take_event only evs ≡ none → served only evs ≡ []
unfolding take_event
take_event-none true evs h = take_first-none is_sidecar_event evs h
take_event-none false [] h = refl
take_event-none false (e ∷ evs) h = cc

take_event-some :
    (only : Bool) (evs rest : List EgressRelayEvent) (ev : EgressRelayEvent)
    → take_event only evs ≡ some (ev, rest)
    → (served only evs ≡ ev ∷ served only rest) × (left only evs ≡ left only rest)
unfolding take_event
take_event-some true evs rest ev h = take_first-some is_sidecar_event evs rest ev h
take_event-some false [] rest ev h = cc
take_event-some false (e ∷ evs) rest ev h = ground arith

-- Neither effect of a dispatch is on the queue.
sent_state-events : (r : RelayState) (ev : EgressRelayEvent) → (sent_state r ev).events ≡ r.events
unfolding sent_state release_sent
sent_state-events r (ws_send h bytes) = ground arith
sent_state-events r _ = refl

module _ (encode : WireRelayEvent → Bytes) where
  -- What one pop does to the lane that it serves.
  pub data Popped (only : Bool) (r : RelayState) (out : Option Bytes × RelayState) : Type 0 where
    nothing : served only r.events ≡ [] → out.0 ≡ none → out.1 ≡ r → Popped only r out
    popped :
        (ev : EgressRelayEvent)
        → out.0 ≡ some (encode (frame_of ev))
        → served only r.events ≡ ev ∷ served only out.1.events
        → left only r.events ≡ left only out.1.events
        → Popped only r out

  -- A pop finds nothing, and changes nothing, only if the lane that it serves is empty; otherwise it
  -- returns the encoded frame of the lane's oldest event, which it removes, and leaves the other lane.
  pub pop_event-Popped : (r : RelayState) (only : Bool) → Popped only r (pop_event encode r only)
  unfolding pop_event dispatch_relay_event wire_relay_event
  pop_event-Popped r only = elim (Option-cases (take_event only r.events)) [
    | inl e ↦ nothing (take_event-none only r.events e) (rw (e, pop_event)) (rw (e, pop_event))
    | inr ((ev, rest), e) ↦
        let kept = kept_queue ev rest in
        let facts = take_event-some only r.events rest ev e in
        popped ev (rw (e, pop_event)) (rw (e, pop_event, kept) facts.0)
          (rw (e, pop_event, kept) facts.1)
  ]
    where
      kept_queue :
          (ev : EgressRelayEvent) (rest : List EgressRelayEvent)
          → (sent_state (mark_dispatched (record r { events = rest }) ev) ev).events ≡ rest
      kept_queue ev rest =
          sent_state-events (mark_dispatched (record r { events = rest }) ev) ev
          ∙ (mark_dispatched_sockets (record r { events = rest }) ev).1

  -- An application that pops until nothing comes, `n` times at most: the frames, and what it leaves.
  unfoldable pub drain : ℕ → Bool → RelayState → List Bytes × RelayState
  drain zero only r = ([], r)
  drain (suc n) only r = elim (pop_event encode r only).0 [
    | none ↦ ([], (pop_event encode r only).1)
    | some b ↦ let (bs, end) = drain n only (pop_event encode r only).1 in (b ∷ bs, end)
  ]

  abbrev pub frames : List EgressRelayEvent → List Bytes
  frames evs = map (λ ev. encode (frame_of ev)) evs

  nil_of_length : (evs : List EgressRelayEvent) → length evs ≤ 0 → evs ≡ []
  nil_of_length [] h = refl
  nil_of_length (e ∷ evs) h = absurd (omega arith)

  -- Enough pops deliver every event of the lane, once and in the order of its queueing, leave the lane
  -- empty, and do not touch the other lane.
  pub drain_all :
      (n : ℕ) (only : Bool) (r : RelayState)
      → length (served only r.events) ≤ n
      → ((drain n only r).0 ≡ frames (served only r.events))
        × (served only (drain n only r).1.events ≡ [])
        × (left only (drain n only r).1.events ≡ left only r.events)
  unfolding drain
  drain_all zero only r h = let e = nil_of_length (served only r.events) h in (rw e, e, refl)
  drain_all (suc n) only r h = elim (pop_event-Popped r only) [
    | nothing empty out same ↦
        (rw (out, drain, empty), rw (out, drain, same) empty, rw (out, drain, same))
    | popped ev out lane kept ↦
        let ih = drain_all n only (pop_event encode r only).1 (omega (arith, ap length lane)) in
        (
          rw (out, drain, lane) (ap (◌∷◌ (encode (frame_of ev))) ih.0),
          rw (out, drain) ih.1,
          rw (out, drain) (ih.2 ∙ sym kept),
        )
  ]
