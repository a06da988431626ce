-- ===== src/Relay/Narrow.antt =====
-- relay.rs, the `handle as i32` of each answer: what a handle outside the range of `i32` reaches.
use flutter_experiments.Common.{ℕ, ◌+◌, ◌^◌, ◌≡◌, Bytes, ℤ, pos, as_i32, arith}
use flutter_experiments.Relay.State.{RelayState}
use flutter_experiments.Relay.Respond.{
  http_respond, host_call_respond, persist_respond, ws_open, ws_push, ws_closed,
}
use flutter_experiments.Relay.Approval.{Channels, tool_approval_respond}

as_i32_wraps : (n : ℕ) → as_i32 (pos (n + 2 ^ 32)) ≡ as_i32 (pos n)
unfolding as_i32
as_i32_wraps n = ground arith

-- An answer to the handle n + 2^32 does the same as the answer to the handle n, for each of the seven
-- answers: the higher bits of the handle are not looked at.
pub respond_wraps :
    (r : RelayState) (cs : Channels) (n : ℕ) (status remember : ℤ) (head body : Bytes)
    → (http_respond r (pos (n + 2 ^ 32)) status head body ≡ http_respond r (pos n) status head body)
      × (host_call_respond r (pos (n + 2 ^ 32)) status body
          ≡ host_call_respond r (pos n) status body)
      × (persist_respond r (pos (n + 2 ^ 32)) status body ≡ persist_respond r (pos n) status body)
      × (ws_open r (pos (n + 2 ^ 32)) status ≡ ws_open r (pos n) status)
      × (ws_push r (pos (n + 2 ^ 32)) body ≡ ws_push r (pos n) body)
      × (ws_closed r (pos (n + 2 ^ 32)) ≡ ws_closed r (pos n))
      × (tool_approval_respond r cs (pos (n + 2 ^ 32)) status remember
          ≡ tool_approval_respond r cs (pos n) status remember)
unfolding http_respond host_call_respond persist_respond ws_open ws_push ws_closed
    tool_approval_respond
respond_wraps r cs n status remember head body = (
  ground (arith, as_i32_wraps n),
  ground (arith, as_i32_wraps n),
  ground (arith, as_i32_wraps n),
  ground (arith, as_i32_wraps n),
  ground (arith, as_i32_wraps n),
  ground (arith, as_i32_wraps n),
  ground (arith, as_i32_wraps n),
)
