-- ===== src/Relay/Net.antt =====
-- relay.rs, `impl NetCapability for FlutterNet`: the HTTP half. Each body runs under the relay's
-- lock; Relay/Step.antt adds the lock and what a poisoned one returns.
use flutter_experiments.Common.{
  Bytes, ◌+◌, ◌-◌, min, none, some, ◌++◌, if◌then◌else◌, not, ℤ, pos, minus_one, as_i32, length,
  take, drop, int_eq,
}
use flutter_experiments.Common.Dict.{lookup, insert, remove}
use flutter_experiments.Relay.State.{
  HttpSlot, default_http, RelayState, EgressRelayEvent, alloc_handle, push_event,
}

-- `buf[..n].copy_from_slice(src)`, where `n` is the length of `src`.
unfoldable pub write_prefix : Bytes → Bytes → Bytes
write_prefix buf src = src ++ drop (length src) buf

unfoldable pub http_request : RelayState → Bytes → ℤ × RelayState
unfolding alloc_handle
http_request relay req =
    let (handle, r) = alloc_handle relay in
    (
      handle,
      push_event (EgressRelayEvent.http_request handle req)
          (record r { http = insert handle default_http r.http }),
    )

-- The status, and the caller's buffer afterwards.
unfoldable pub http_poll : RelayState → ℤ → Bytes → ℤ × Bytes
http_poll relay handle buf = elim (lookup handle relay.http) [
  | none ↦ (minus_one, buf)
  | some slot ↦
      if not slot.done
      then (pos 0, buf)
      else if slot.failed
      then (minus_one, buf)
      else let n = min (length slot.head) (length buf) in
        (as_i32 (pos n), write_prefix buf (take n slot.head))
]

-- `http_body` on its slot: the status, the buffer, and the slot with the bytes counted as read.
unfoldable pub read_body : HttpSlot → Bytes → ℤ × Bytes × HttpSlot
read_body slot buf =
    if not slot.done
    then (pos 0, buf, slot)
    else if slot.failed
    then (minus_one, buf, slot)
    else let start = min slot.body_pos (length slot.body) in
      let n = min (length slot.body - start) (length buf) in
      (
        as_i32 (pos n),
        write_prefix buf (take n (drop start slot.body)),
        record slot { body_pos = slot.body_pos + n },
      )

-- `get_mut` is a lookup, and an insertion of the changed slot under its key.
unfoldable pub http_body : RelayState → ℤ → Bytes → ℤ × Bytes × RelayState
unfolding read_body
http_body relay handle buf = elim (lookup handle relay.http) [
  | none ↦ (minus_one, buf, relay)
  | some slot ↦
      let (code, out, slot') = read_body slot buf in
      (code, out, record relay { http = insert handle slot' relay.http })
]

unfoldable pub http_close : RelayState → ℤ → RelayState
http_close relay handle = record relay { http = remove handle relay.http }
