-- ===== src/Relay/Approval.antt =====
-- relay.rs, `FlutterToolApprover` and the answer to it. An approval waits on a channel of
-- `std::sync::mpsc`; the channels stand in a list, and a `Sender` or `Receiver` is an index of it.
use flutter_experiments.Common.{
  ℕ, zero, suc, Bool, true, false, Option, none, some, List, [], ◌∷◌, ◌++◌, not, ℤ, as_i32, length,
  int_eq,
}
use flutter_experiments.Common.Dict.{lookup, insert, remove}
use flutter_experiments.Error.{Result, ok}
use flutter_experiments.Relay.State.{
  ToolApprovalDecision, ToolApprovalFacts, RelayState, EgressRelayEvent, alloc_handle, push_event,
}
use flutter_experiments.Relay.Respond.{is_zero}

-- A channel with one sender: what was sent and not yet received, and whether the sender lives.
pub record Channel : Type 0 where
  pub queue : List ToolApprovalDecision
  pub sender_alive : Bool

abbrev pub Channels : Type 0
Channels = List Channel

abbrev pub fresh_channel : Channel
fresh_channel = record { queue = []; sender_alive = true }

abbrev pub channel_at : Channels → ℕ → Option Channel
channel_at [] i = none
channel_at (c ∷ cs) zero = some c
channel_at (c ∷ cs) (suc i) = channel_at cs i

abbrev pub set_channel : Channels → ℕ → Channel → Channels
set_channel [] i d = []
set_channel (c ∷ cs) zero d = d ∷ cs
set_channel (c ∷ cs) (suc i) d = c ∷ set_channel cs i d

-- The end of a `Sender`'s life.
unfoldable pub drop_sender : Channels → ℕ → Channels
drop_sender cs tx = elim (channel_at cs tx) [
  | none ↦ cs
  | some c ↦ set_channel cs tx (record c { sender_alive = false })
]

unfoldable pub send : Channels → ℕ → ToolApprovalDecision → Channels
send cs tx d = elim (channel_at cs tx) [
  | none ↦ cs
  | some c ↦ set_channel cs tx (record c { queue = c.queue ++ d ∷ [] })
]

abbrev pub deny : ToolApprovalDecision
deny = record { allow = false; remember_session = false }

-- A `Sender` that an insertion into the map replaces is dropped.
abbrev drop_replaced : Channels → Option ℕ → Channels
drop_replaced cs none = cs
drop_replaced cs (some tx) = drop_sender cs tx

-- The locked part of `approve`: it queues the question and returns the receiver.
unfoldable pub ask : RelayState → Channels → ToolApprovalFacts → ℕ × RelayState × Channels
unfolding alloc_handle drop_sender
ask relay cs facts =
    let (handle, r) = alloc_handle relay in
    let chan = length cs in
    (
      chan,
      push_event (EgressRelayEvent.tool_approval handle facts)
          (record r { pending_tool_approvals = insert handle chan r.pending_tool_approvals }),
      drop_replaced (cs ++ fresh_channel ∷ []) (lookup handle r.pending_tool_approvals),
    )

abbrev pub received : Channel → Option ToolApprovalDecision
received c = elim c.queue [
  | d ∷ rest ↦ some d
  | [] ↦ elim c.sender_alive [ true ↦ none | false ↦ some deny ]
]

-- `match rx.recv()`: `none` while the call blocks, and a denial once the sender is gone.
unfoldable pub await : Channels → ℕ → Option ToolApprovalDecision
await cs rx = elim (channel_at cs rx) [ none ↦ some deny | some c ↦ received c ]

-- The body of `aos_vm_relay_tool_approval_respond`. The sender is dropped after its one use; an
-- unknown handle is no error.
unfoldable pub tool_approval_respond :
    RelayState → Channels → ℤ → ℤ → ℤ → Result (Unit {0}) × RelayState × Channels
unfolding send drop_sender
tool_approval_respond relay cs handle allow remember_session =
    elim (lookup (as_i32 handle) relay.pending_tool_approvals) [
      | none ↦ (ok tt, relay, cs)
      | some tx ↦
          let decision : ToolApprovalDecision = record {
            allow = not (is_zero allow);
            remember_session = not (is_zero remember_session);
          } in
          (
            ok tt,
            record relay {
              pending_tool_approvals = remove (as_i32 handle) relay.pending_tool_approvals;
            },
            drop_sender (send cs tx decision) tx,
          )
    ]
