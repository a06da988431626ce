-- ===== src/Relay/Persist.antt =====
-- relay.rs, `impl PersistCapability for FlutterPersist`.
use flutter_experiments.Common.{
  ℕ, ◌+◌, ◌-◌, ◌*◌, ◌^◌, min, Bytes, Option, none, some, if◌then◌else◌, not, ℤ, pos, minus_one,
  as_i32, length, take, drop, get_or, ltb, nat_beq, int_eq,
}
use flutter_experiments.Common.Dict.{lookup, insert, remove}
use flutter_experiments.Relay.State.{
  PersistSlot, default_persist, RelayState, EgressRelayEvent, alloc_handle, push_event,
}
use flutter_experiments.Relay.Net.{write_prefix}

-- `u32::from_le_bytes(req[i..i + 4])`.
abbrev pub u32_le : Bytes → ℕ → ℕ
u32_le s i =
    get_or s i 0
    + 2 ^ 8 * get_or s (i + 1) 0
    + 2 ^ 16 * get_or s (i + 2) 0
    + 2 ^ 24 * get_or s (i + 3) 0

-- The operation, the key and the value of `[op: u32 LE][key_len: u32][key][value…]`.
unfoldable pub parse_request : Bytes → Option (ℕ × Bytes × Bytes)
parse_request req =
    if ltb (length req) 8
    then none
    else let key_len = u32_le req 4 in
      if ltb (length req) (8 + key_len)
      then none
      else some (u32_le req 0, take key_len (drop 8 req), drop (8 + key_len) req)

-- The `match op`.
unfoldable pub event_of : ℕ → ℤ → Bytes → Bytes → Option EgressRelayEvent
event_of op handle key value =
    if nat_beq op 0
    then some (EgressRelayEvent.persist_get handle key)
    else if nat_beq op 1
    then some (EgressRelayEvent.persist_put handle key value)
    else if nat_beq op 2
    then some (EgressRelayEvent.persist_delete handle key)
    else if nat_beq op 3
    then some (EgressRelayEvent.persist_list handle key)
    else none

-- What `start` does with the lock held. The slot is inserted before the operation is looked at.
unfoldable pub begin : RelayState → ℕ → Bytes → Bytes → ℤ × RelayState
unfolding alloc_handle
begin relay op key value =
    let (handle, r) = alloc_handle relay in
    let inserted = record r { persist = insert handle default_persist r.persist } in
    elim (event_of op handle key value) [
      | none ↦ (minus_one, inserted)
      | some ev ↦ (handle, push_event ev inserted)
    ]

unfoldable pub start : RelayState → Bytes → ℤ × RelayState
unfolding parse_request begin
start relay req = elim (parse_request req) [
  | none ↦ (minus_one, relay)
  | some (op, key, value) ↦ begin relay op key value
]

unfoldable pub poll : RelayState → ℤ → ℤ
poll relay handle = elim (lookup handle relay.persist) [
  | none ↦ minus_one
  | some slot ↦ if slot.failed then minus_one else if slot.done then pos 1 else pos 0
]

-- `body` on its slot: the status, the buffer, and the slot with the bytes counted as read.
unfoldable pub read_result : PersistSlot → Bytes → ℤ × Bytes × PersistSlot
read_result slot buf =
    let remaining = length slot.result - slot.offset in
    let n = min remaining (length buf) in
    if not slot.done
    then (pos 0, buf, slot)
    else if slot.failed
    then (minus_one, buf, slot)
    else if nat_beq remaining 0
    then (pos 0, buf, slot)
    else (
      as_i32 (pos n),
      write_prefix buf (take n (drop slot.offset slot.result)),
      record slot { offset = slot.offset + n },
    )

unfoldable pub body : RelayState → ℤ → Bytes → ℤ × Bytes × RelayState
unfolding read_result
body relay handle buf = elim (lookup handle relay.persist) [
  | none ↦ (minus_one, buf, relay)
  | some slot ↦
      let (code, out, slot') = read_result slot buf in
      (code, out, record relay { persist = insert handle slot' relay.persist })
]

unfoldable pub close : RelayState → ℤ → RelayState
close relay handle = record relay { persist = remove handle relay.persist }
