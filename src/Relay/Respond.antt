-- ===== src/Relay/Respond.antt =====
-- relay.rs, the bodies of the `aos_vm_relay_*` answers, under the relay's lock. `handle` is the
-- caller's `i64`, which each of them narrows by `as i32`.
use flutter_experiments.Common.{
  Bytes, Bool, true, false, none, some, [], ◌∷◌, ◌++◌, not, ℤ, pos, as_i32, ◌==◌, int_eq,
}
use flutter_experiments.Common.Dict.{lookup, insert}
use flutter_experiments.Error.{message, Result, ok, err}
use flutter_experiments.Relay.State.{RelayState}

-- An answer's result and the state after it; a failed answer changes nothing.
abbrev pub Answered : Type 0
Answered = Result (Unit {0}) × RelayState

-- `ok == 0` of a C status argument.
abbrev pub is_zero : ℤ → Bool
is_zero a = a == pos 0

unfoldable pub http_respond : RelayState → ℤ → ℤ → Bytes → Bytes → Answered
http_respond relay handle status head body = elim (lookup (as_i32 handle) relay.http) [
  | none ↦ (err (message "unknown http handle"), relay)
  | some slot ↦
      let answered = record slot {
        done = true;
        failed = is_zero status;
        head = head;
        body = body;
        body_pos = 0;
      } in
      (ok tt, record relay { http = insert (as_i32 handle) answered relay.http })
]

unfoldable pub host_call_respond : RelayState → ℤ → ℤ → Bytes → Answered
host_call_respond relay handle status result = elim (lookup (as_i32 handle) relay.host_calls) [
  | none ↦ (err (message "unknown host_call handle"), relay)
  | some slot ↦
      let answered = record slot {
        done = true;
        failed = is_zero status;
        result = result;
        offset = 0;
      } in
      (ok tt, record relay { host_calls = insert (as_i32 handle) answered relay.host_calls })
]

unfoldable pub persist_respond : RelayState → ℤ → ℤ → Bytes → Answered
persist_respond relay handle status body = elim (lookup (as_i32 handle) relay.persist) [
  | none ↦ (err (message "unknown persist handle"), relay)
  | some slot ↦
      let answered = record slot {
        done = true;
        failed = is_zero status;
        result = body;
        offset = 0;
      } in
      (ok tt, record relay { persist = insert (as_i32 handle) answered relay.persist })
]

unfoldable pub ws_open : RelayState → ℤ → ℤ → Answered
ws_open relay handle status = elim (lookup (as_i32 handle) relay.ws) [
  | none ↦ (err (message "unknown ws handle"), relay)
  | some slot ↦
      let answered = record slot { is_open = not (is_zero status); failed = is_zero status } in
      (ok tt, record relay { ws = insert (as_i32 handle) answered relay.ws })
]

unfoldable pub ws_push : RelayState → ℤ → Bytes → Answered
ws_push relay handle bytes = elim (lookup (as_i32 handle) relay.ws) [
  | none ↦ (err (message "unknown ws handle"), relay)
  | some slot ↦
      let pushed = record slot { incoming = slot.incoming ++ bytes ∷ [] } in
      (ok tt, record relay { ws = insert (as_i32 handle) pushed relay.ws })
]

-- The application's close of a socket; an unknown handle is no error.
unfoldable pub ws_closed : RelayState → ℤ → Answered
ws_closed relay handle = elim (lookup (as_i32 handle) relay.ws) [
  | none ↦ (ok tt, relay)
  | some slot ↦ (
    ok tt,
    record relay { ws = insert (as_i32 handle) (record slot { is_open = false }) relay.ws },
  )
]
