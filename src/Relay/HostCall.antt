-- ===== src/Relay/HostCall.antt =====
-- relay.rs, `impl HostCallCapability for FlutterHostCall`.
use flutter_experiments.Common.{
  ℕ, ◌+◌, ◌-◌, min, Bytes, Bool, false, Option, none, some, [], ◌∷◌, if◌then◌else◌, not, ◌&&◌, ℤ,
  pos, minus_one, as_i32, length, take, drop, ltb, nat_beq, ◌==◌, bytes_eq, int_eq,
}
use flutter_experiments.Common.Dict.{lookup, insert, remove}
use flutter_experiments.Utf8.{from_utf8_lossy}
use flutter_experiments.Relay.State.{
  HostCallSlot, default_host_call, RelayState, EgressRelayEvent, alloc_handle, push_event,
}
use flutter_experiments.Relay.Net.{write_prefix}

-- "mc.sidecar".
abbrev pub sidecar_host_binding : Bytes
sidecar_host_binding = b'm' ∷ b'c' ∷ b'.' ∷ b's' ∷ b'i' ∷ b'd' ∷ b'e' ∷ b'c' ∷ b'a' ∷ b'r' ∷ []

-- `iter().position(|&b| b == 0).unwrap_or(len)`.
abbrev pub nul_position : Bytes → ℕ
nul_position [] = 0
nul_position (b ∷ s) = if nat_beq b 0 then 0 else nul_position s + 1

-- The name before the first NUL, and the body after it.
unfoldable pub split_request : Bytes → Bytes × Bytes
unfolding from_utf8_lossy
split_request req =
    let nul = nul_position req in
    (from_utf8_lossy (take nul req), if ltb nul (length req) then drop (nul + 1) req else [])

-- A capability for sidecars alone refuses every other name.
unfoldable pub refused : Bool → Bytes → Bool
refused sidecar_only name = sidecar_only && not (name == sidecar_host_binding)

unfoldable pub start : Bool → RelayState → Bytes → ℤ × RelayState
unfolding refused split_request alloc_handle
start sidecar_only relay req =
    let (name, body) = split_request req in
    let (handle, r) = alloc_handle relay in
    let slot = record default_host_call { sidecar = name == sidecar_host_binding } in
    if refused sidecar_only name then (minus_one, relay) else (
      handle,
      push_event (EgressRelayEvent.host_call handle name body)
          (record r { host_calls = insert handle slot r.host_calls }),
    )

unfoldable pub poll : RelayState → ℤ → ℤ
poll relay handle = elim (lookup handle relay.host_calls) [
  | none ↦ minus_one
  | some slot ↦ if slot.failed then minus_one else if slot.done then pos 1 else pos 0
]

-- `body` on its slot: the status, the buffer, and the slot with the bytes counted as read.
unfoldable pub read_result : HostCallSlot → Bytes → ℤ × Bytes × HostCallSlot
read_result slot buf =
    let remaining = length slot.result - slot.offset in
    let n = min remaining (length buf) in
    if not slot.done
    then (pos 0, buf, slot)
    else if slot.failed
    then (minus_one, buf, slot)
    else if nat_beq remaining 0
    then (pos 0, buf, slot)
    else (
      as_i32 (pos n),
      write_prefix buf (take n (drop slot.offset slot.result)),
      record slot { offset = slot.offset + n },
    )

unfoldable pub body : RelayState → ℤ → Bytes → ℤ × Bytes × RelayState
unfolding read_result
body relay handle buf = elim (lookup handle relay.host_calls) [
  | none ↦ (minus_one, buf, relay)
  | some slot ↦
      let (code, out, slot') = read_result slot buf in
      (code, out, record relay { host_calls = insert handle slot' relay.host_calls })
]

-- Whether the slot that is closed belongs to a sidecar; false if there is none.
abbrev sidecar_of : Option HostCallSlot → Bool
sidecar_of none = false
sidecar_of (some slot) = slot.sidecar

unfoldable pub close : RelayState → ℤ → RelayState
close relay handle =
    push_event
      (EgressRelayEvent.host_call_close handle (sidecar_of (lookup handle relay.host_calls)))
      (record relay { host_calls = remove handle relay.host_calls })
