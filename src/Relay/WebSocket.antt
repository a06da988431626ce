-- ===== src/Relay/WebSocket.antt =====
-- relay.rs, `impl NetCapability for FlutterNet`: the WebSocket half.
use flutter_experiments.Common.{
  ℕ, Bytes, ◌+◌, ◌-◌, ◌*◌, min, Bool, none, some, List, [], ◌∷◌, if◌then◌else◌, not, ◌&&◌, ◌||◌, ℤ,
  pos, minus_one, as_i32, length, take, drop, ltb, leb, int_eq,
}
use flutter_experiments.Common.Dict.{lookup, insert, remove}
use flutter_experiments.Relay.State.{
  WsSlot, default_ws, RelayState, EgressRelayEvent, alloc_handle, push_event,
}
use flutter_experiments.Relay.Net.{write_prefix}

abbrev pub ws_send_mark : ℕ
ws_send_mark = 256 * 1024

unfoldable pub ws_connect : RelayState → Bytes → ℤ × RelayState
unfolding alloc_handle
ws_connect relay url =
    let (handle, r) = alloc_handle relay in
    (
      handle,
      push_event (EgressRelayEvent.ws_connect handle url)
          (record r { ws = insert handle default_ws r.ws }),
    )

-- The refusals of `ws_send` on its slot, all of them -1.
unfoldable pub refuses_send : WsSlot → Bytes → Bool
refuses_send slot bytes =
    slot.failed
    || (ltb ws_send_mark (length bytes)
        || (not slot.is_open || ltb ws_send_mark (slot.queued_bytes + length bytes)))

unfoldable pub ws_send : RelayState → ℤ → Bytes → ℤ × RelayState
unfolding refuses_send
ws_send relay handle bytes = elim (lookup handle relay.ws) [
  | none ↦ (minus_one, relay)
  | some slot ↦
      let sent = record slot { queued_bytes = slot.queued_bytes + length bytes } in
      if refuses_send slot bytes then (minus_one, relay) else (
        as_i32 (pos (length bytes)),
        push_event (EgressRelayEvent.ws_send handle bytes)
            (record relay { ws = insert handle sent relay.ws }),
      )
]

unfoldable pub ws_ready : RelayState → ℤ → ℤ
ws_ready relay handle = elim (lookup handle relay.ws) [
  | none ↦ pos 1
  | some slot ↦
      if slot.failed || (slot.is_open && ltb slot.queued_bytes ws_send_mark) then pos 1 else pos 0
]

-- The read of the front message. `front.len() - incoming_pos` does not stop at 0 in the source;
-- Relay/Invariant.antt keeps it from falling below 0.
read_front : WsSlot → Bytes → List Bytes → Bytes → ℤ × Bytes × WsSlot
read_front slot front rest buf =
    let n = min (length front - slot.incoming_pos) (length buf) in
    let read = slot.incoming_pos + n in
    (
      as_i32 (pos n),
      write_prefix buf (take n (drop slot.incoming_pos front)),
      if leb (length front) read
          then record slot { incoming = rest; incoming_pos = 0 }
          else record slot { incoming_pos = read },
    )

unfoldable pub read_incoming : WsSlot → Bytes → ℤ × Bytes × WsSlot
unfolding read_front
read_incoming slot buf = if slot.failed then (minus_one, buf, slot) else elim slot.incoming [
  | [] ↦ (pos 0, buf, slot)
  | front ∷ rest ↦ read_front slot front rest buf
]

unfoldable pub ws_recv : RelayState → ℤ → Bytes → ℤ × Bytes × RelayState
unfolding read_incoming
ws_recv relay handle buf = elim (lookup handle relay.ws) [
  | none ↦ (minus_one, buf, relay)
  | some slot ↦
      let (code, out, slot') = read_incoming slot buf in
      (code, out, record relay { ws = insert handle slot' relay.ws })
]

unfoldable pub ws_close : RelayState → ℤ → RelayState
ws_close relay handle =
    push_event (EgressRelayEvent.ws_close handle) (record relay { ws = remove handle relay.ws })
