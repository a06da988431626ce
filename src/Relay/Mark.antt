-- ===== src/Relay/Mark.antt =====
-- The send mark of the sockets: what a slot counts as queued is covered by messages that still stand
-- in the event queue, so it falls back to 0 when the application drains the queue.
use flutter_experiments.Common.{
  ℕ, ◌+◌, ◌≤◌, ◌≡◌, inl, inr, Bytes, Bool, some, List, [], ◌∷◌, ◌++◌, ℤ, length, arith,
  Option-cases, Bool-cases, int_eq, int_beq_iff, if◌then◌else◌, ◌==◌,
}
use flutter_experiments.Common.Dict.{lookup, insert, remove, lookup-insert, lookup-remove}
use flutter_experiments.Relay.State.{
  WsSlot, default_ws, EgressRelayEvent, RelayState, alloc_handle, ws_send,
}
use flutter_experiments.Relay.Net
use flutter_experiments.Relay.WebSocket
use flutter_experiments.Relay.HostCall
use flutter_experiments.Relay.Persist
use flutter_experiments.Relay.Step
use flutter_experiments.Relay.Step.{GuestCall, guest_body}

-- The bytes that one event, and a queue, hold for a socket.
abbrev pub sent_by : ℤ → EgressRelayEvent → ℕ
sent_by k (ws_send h bytes) = if h == k then length bytes else 0
sent_by k _ = 0

abbrev pub unsent : ℤ → List EgressRelayEvent → ℕ
unsent k [] = 0
unsent k (ev ∷ evs) = sent_by k ev + unsent k evs

abbrev pub Covered : List (ℤ × WsSlot) → List EgressRelayEvent → Type 0
Covered ws evs = (k : ℤ) (s : WsSlot) → lookup k ws ≡ some s → s.queued_bytes ≤ unsent k evs

unsent-append :
    (k : ℤ) (evs : List EgressRelayEvent) (ev : EgressRelayEvent)
    → unsent k (evs ++ ev ∷ []) ≡ unsent k evs + sent_by k ev
unsent-append k [] ev = omega arith
unsent-append k (e ∷ evs) ev = omega (arith, unsent-append k evs ev)

pub Covered-grow :
    (ws : List (ℤ × WsSlot)) (evs : List EgressRelayEvent) (ev : EgressRelayEvent)
    → Covered ws evs
    → Covered ws (evs ++ ev ∷ [])
Covered-grow ws evs ev c k s h = omega (arith, c k s h, unsent-append k evs ev)

pub Covered-insert :
    (ws : List (ℤ × WsSlot)) (evs : List EgressRelayEvent) (h : ℤ) (t : WsSlot)
    → Covered ws evs
    → t.queued_bytes ≤ unsent h evs
    → Covered (insert h t ws) evs
Covered-insert ws evs h t c le k s e =
    ground (arith, lookup-insert h k t ws, int_beq_iff h k, c k s)

Covered-remove :
    (ws : List (ℤ × WsSlot)) (evs : List EgressRelayEvent) (h : ℤ)
    → Covered ws evs
    → Covered (remove h ws) evs
Covered-remove ws evs h c k s e = ground (arith, lookup-remove h k ws, int_beq_iff h k, c k s)

-- What is queued in a slot that `get_mut` changes, where the change leaves its count alone or lowers it.
pub Covered-modify :
    (ws : List (ℤ × WsSlot)) (evs : List EgressRelayEvent) (h : ℤ) (s t : WsSlot)
    → Covered ws evs
    → lookup h ws ≡ some s
    → t.queued_bytes ≤ s.queued_bytes
    → Covered (insert h t ws) evs
Covered-modify ws evs h s t c e le = Covered-insert ws evs h t c (omega (arith, c h s e))

-- The sockets of a relay are covered by its queue.
abbrev pub SendsCovered : RelayState → Type 0
SendsCovered r = Covered r.ws r.events

-- A step that leaves the sockets and the queue alone.
pub SendsCovered-same :
    (r r' : RelayState) → SendsCovered r → r'.ws ≡ r.ws → r'.events ≡ r.events → SendsCovered r'
SendsCovered-same r r' c e f = rw (e, f) c

module _ (r : RelayState) (c : SendsCovered r) where
  http_body-SendsCovered : (h : ℤ) (buf : Bytes) → SendsCovered (Net.http_body r h buf).2
  unfolding Net.http_body
  http_body-SendsCovered h buf =
      SendsCovered-same r (Net.http_body r h buf).2 c (ground arith) (ground arith)

  host_body-SendsCovered : (h : ℤ) (buf : Bytes) → SendsCovered (HostCall.body r h buf).2
  unfolding HostCall.body
  host_body-SendsCovered h buf =
      SendsCovered-same r (HostCall.body r h buf).2 c (ground arith) (ground arith)

  persist_body-SendsCovered : (h : ℤ) (buf : Bytes) → SendsCovered (Persist.body r h buf).2
  unfolding Persist.body
  persist_body-SendsCovered h buf =
      SendsCovered-same r (Persist.body r h buf).2 c (ground arith) (ground arith)

  host_start-SendsCovered : (only : Bool) (req : Bytes) → SendsCovered (HostCall.start only r req).1
  unfolding HostCall.start
  host_start-SendsCovered only req =
      elim (Bool-cases (HostCall.refused only (HostCall.split_request req).0)) [
        | inl barred ↦ rw (barred, HostCall.start) c
        | inr fine ↦ rw (fine, HostCall.start) (Covered-grow r.ws r.events _ c)
      ]

  persist_start-SendsCovered : (req : Bytes) → SendsCovered (Persist.start r req).1
  unfolding Persist.start
  persist_start-SendsCovered req = elim (Option-cases (Persist.parse_request req)) [
    | inl e ↦ rw (e, Persist.start) c
    | inr ((op, key, value), e) ↦ rw (e, Persist.start) (begin op key value)
  ]
    where
      begin : (op : ℕ) (key value : Bytes) → SendsCovered (Persist.begin r op key value).1
      begin op key value = elim (Option-cases (Persist.event_of op (alloc_handle r).0 key value)) [
        | inl e ↦ rw (e, Persist.begin) c
        | inr (ev, e) ↦ rw (e, Persist.begin) (Covered-grow r.ws r.events ev c)
      ]

  ws_send-SendsCovered : (h : ℤ) (bytes : Bytes) → SendsCovered (WebSocket.ws_send r h bytes).1
  unfolding WebSocket.ws_send
  ws_send-SendsCovered h bytes = elim (Option-cases (lookup h r.ws)) [
    | inl e ↦ rw (e, WebSocket.ws_send) c
    | inr (s, e) ↦ elim (Bool-cases (WebSocket.refuses_send s bytes)) [
      | inl no_room ↦ rw (e, WebSocket.ws_send, no_room) c
      | inr room ↦
          rw (e, WebSocket.ws_send, room)
            (Covered-insert r.ws _ h _ (Covered-grow r.ws r.events (ws_send h bytes) c)
              (sent_covered s e))
    ]
  ]
    where
      sent_covered :
          (s : WsSlot)
          → lookup h r.ws ≡ some s
          → s.queued_bytes + length bytes ≤ unsent h (r.events ++ ws_send h bytes ∷ [])
      sent_covered s e =
          ground (arith, c h s e, unsent-append h r.events (ws_send h bytes), int_beq_iff h h)

  ws_recv-SendsCovered : (h : ℤ) (buf : Bytes) → SendsCovered (WebSocket.ws_recv r h buf).2
  unfolding WebSocket.ws_recv
  ws_recv-SendsCovered h buf = elim (Option-cases (lookup h r.ws)) [
    | inl e ↦ rw (e, WebSocket.ws_recv) c
    | inr (s, e) ↦
        rw (e, WebSocket.ws_recv) (Covered-modify r.ws r.events h s _ c e (read_keeps_count s))
  ]
    where
      read_keeps_count :
          (s : WsSlot) → (WebSocket.read_incoming s buf).2.queued_bytes ≤ s.queued_bytes
      read_keeps_count s = unfold WebSocket.read_incoming in ground arith

  pub guest_body-SendsCovered :
      (only : Bool) (call : GuestCall) → SendsCovered (guest_body only r call).1
  unfolding guest_body Net.http_request Net.http_close HostCall.close Persist.close
      WebSocket.ws_connect WebSocket.ws_close
  guest_body-SendsCovered only (Step.http_request_call req) = Covered-grow r.ws r.events _ c
  guest_body-SendsCovered only (Step.http_poll_call h buf) = c
  guest_body-SendsCovered only (Step.http_body_call h buf) = http_body-SendsCovered h buf
  guest_body-SendsCovered only (Step.http_close_call h) = c
  guest_body-SendsCovered only (Step.ws_connect_call url) =
      Covered-insert r.ws _ _ default_ws (Covered-grow r.ws r.events _ c) (omega arith)
  guest_body-SendsCovered only (Step.ws_send_call h bytes) = ws_send-SendsCovered h bytes
  guest_body-SendsCovered only (Step.ws_ready_call h) = c
  guest_body-SendsCovered only (Step.ws_recv_call h buf) = ws_recv-SendsCovered h buf
  guest_body-SendsCovered only (Step.ws_close_call h) =
      Covered-remove r.ws _ h (Covered-grow r.ws r.events _ c)
  guest_body-SendsCovered only (Step.host_start req) = host_start-SendsCovered only req
  guest_body-SendsCovered only (Step.host_poll h) = c
  guest_body-SendsCovered only (Step.host_body h buf) = host_body-SendsCovered h buf
  guest_body-SendsCovered only (Step.host_close h) = Covered-grow r.ws r.events _ c
  guest_body-SendsCovered only (Step.persist_start req) = persist_start-SendsCovered req
  guest_body-SendsCovered only (Step.persist_poll h) = c
  guest_body-SendsCovered only (Step.persist_body h buf) = persist_body-SendsCovered h buf
  guest_body-SendsCovered only (Step.persist_close h) = c
