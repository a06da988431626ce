-- ===== src/Relay/Decision.antt =====
-- The life of a tool approval: a question waits until it is answered, the answer reaches exactly the
-- caller that asked, and a question whose sender is dropped is denied.
use flutter_experiments.Common.{
  ℕ, zero, suc, ◌≡◌, ◌≢◌, refl, ap, ◌∙◌, inl, inr, false, not, Option, none, some, [], ◌∷◌, ◌++◌, ℤ,
  as_i32, length, arith, Option-cases, int_eq, int_beq_iff, ◌==◌, if◌then◌else◌,
}
use flutter_experiments.Common.Dict.{lookup, lookup-insert_self, lookup-remove}
use flutter_experiments.Error.{ok}
use flutter_experiments.Relay.State.{
  ToolApprovalDecision, ToolApprovalFacts, RelayState, alloc_handle,
}
use flutter_experiments.Relay.Respond.{is_zero}
use flutter_experiments.Relay.Approval.{
  Channel, Channels, fresh_channel, channel_at, set_channel, drop_sender, send, deny, ask, await,
  tool_approval_respond,
}

channel_at-append_end :
    (cs : Channels) (c : Channel) → channel_at (cs ++ c ∷ []) (length cs) ≡ some c
channel_at-append_end [] c = refl
channel_at-append_end (d ∷ cs) c = channel_at-append_end cs c

channel_at-append_some :
    (cs : Channels) (c d : Channel) (i : ℕ)
    → channel_at cs i ≡ some d
    → channel_at (cs ++ c ∷ []) i ≡ some d
channel_at-append_some [] c d i h = cc
channel_at-append_some (e ∷ cs) c d zero h = h
channel_at-append_some (e ∷ cs) c d (suc i) h = channel_at-append_some cs c d i h

channel_at-set_self :
    (cs : Channels) (i : ℕ) (c d : Channel)
    → channel_at cs i ≡ some d
    → channel_at (set_channel cs i c) i ≡ some c
channel_at-set_self [] i c d h = cc
channel_at-set_self (e ∷ cs) zero c d h = refl
channel_at-set_self (e ∷ cs) (suc i) c d h = channel_at-set_self cs i c d h

channel_at-set_ne :
    (cs : Channels) (i j : ℕ) (c : Channel)
    → i ≢ j
    → channel_at (set_channel cs i c) j ≡ channel_at cs j
channel_at-set_ne [] i j c h = refl
channel_at-set_ne (d ∷ cs) zero zero c h = absurd (h refl)
channel_at-set_ne (d ∷ cs) zero (suc j) c h = refl
channel_at-set_ne (d ∷ cs) (suc i) zero c h = refl
channel_at-set_ne (d ∷ cs) (suc i) (suc j) c h = channel_at-set_ne cs i j c (λ e. h (ap suc e))

drop_sender_self :
    (cs : Channels) (i : ℕ) (c : Channel)
    → channel_at cs i ≡ some c
    → channel_at (drop_sender cs i) i ≡ some (record c { sender_alive = false })
unfolding drop_sender
drop_sender_self cs i c h =
    rw (h, drop_sender) (channel_at-set_self cs i (record c { sender_alive = false }) c h)

drop_sender_ne :
    (cs : Channels) (i j : ℕ) → i ≢ j → channel_at (drop_sender cs i) j ≡ channel_at cs j
unfolding drop_sender
drop_sender_ne cs i j h = elim (Option-cases (channel_at cs i)) [
  | inl e ↦ rw (e, drop_sender)
  | inr (c, e) ↦ rw (e, drop_sender) (channel_at-set_ne cs i j _ h)
]

send_self :
    (cs : Channels) (i : ℕ) (c : Channel) (d : ToolApprovalDecision)
    → channel_at cs i ≡ some c
    → channel_at (send cs i d) i ≡ some (record c { queue = c.queue ++ d ∷ [] })
unfolding send
send_self cs i c d h =
    rw (h, send) (channel_at-set_self cs i (record c { queue = c.queue ++ d ∷ [] }) c h)

send_ne :
    (cs : Channels) (i j : ℕ) (d : ToolApprovalDecision)
    → i ≢ j
    → channel_at (send cs i d) j ≡ channel_at cs j
unfolding send
send_ne cs i j d h = elim (Option-cases (channel_at cs i)) [
  | inl e ↦ rw (e, send)
  | inr (c, e) ↦ rw (e, send) (channel_at-set_ne cs i j _ h)
]

-- The decision that the C arguments of an answer make.
abbrev pub decision_of : ℤ → ℤ → ToolApprovalDecision
decision_of allow remember = record {
  allow = not (is_zero allow);
  remember_session = not (is_zero remember);
}

-- A receiver that waits: its channel is empty, and its sender stands under `h` in the relay.
pub record Waits (r : RelayState) (cs : Channels) (h : ℤ) (rx : ℕ) : Type 0 where
  pub pending : lookup h r.pending_tool_approvals ≡ some rx
  pub open_channel : channel_at cs rx ≡ some fresh_channel

Waits-blocks :
    (r : RelayState) (cs : Channels) (h : ℤ) (rx : ℕ) → Waits r cs h rx → await cs rx ≡ none
unfolding await
Waits-blocks r cs h rx w = rw (w.open_channel, await)

module _ (r : RelayState) (cs : Channels) (facts : ToolApprovalFacts) where
  -- A new question waits under the handle that was allocated for it, provided that no older question
  -- stands under that handle.
  pub ask-Waits :
      lookup (alloc_handle r).0 r.pending_tool_approvals ≡ none
      → let (rx, r', cs') = ask r cs facts in Waits r' cs' (alloc_handle r).0 rx
  unfolding ask
  ask-Waits free = record {
    pending = lookup-insert_self (alloc_handle r).0 (length cs) r.pending_tool_approvals;
    open_channel = rw (free, ask) (channel_at-append_end cs fresh_channel);
  }

module _ (r : RelayState) (cs : Channels) (h allow remember : ℤ) (rx : ℕ)
    (w : Waits r cs (as_i32 h) rx) where
  abbrev after : Channels
  after = (tool_approval_respond r cs h allow remember).2

  abbrev answered : Channel
  answered = record { queue = decision_of allow remember ∷ []; sender_alive = false }

  channels_after :
      (tool_approval_respond r cs h allow remember).2
      ≡ drop_sender (send cs rx (decision_of allow remember)) rx
  unfolding tool_approval_respond
  channels_after = rw (w.pending, tool_approval_respond)

  answered_channel : channel_at after rx ≡ some answered
  answered_channel = rw channels_after (
      drop_sender_self (send cs rx (decision_of allow remember)) rx _
        (send_self cs rx fresh_channel (decision_of allow remember) w.open_channel))

  others_untouched : (j : ℕ) → rx ≢ j → channel_at after j ≡ channel_at cs j
  others_untouched j ne = rw channels_after (
      drop_sender_ne (send cs rx (decision_of allow remember)) rx j ne
      ∙ send_ne cs rx j (decision_of allow remember) ne)

  no_longer_pending :
      lookup (as_i32 h) (tool_approval_respond r cs h allow remember).1.pending_tool_approvals
      ≡ none
  unfolding tool_approval_respond
  no_longer_pending =
      rw (w.pending, tool_approval_respond)
        (lookup-remove (as_i32 h) (as_i32 h) r.pending_tool_approvals
          ∙ if_same (as_i32 h) (lookup (as_i32 h) r.pending_tool_approvals))
    where
      if_same : (k : ℤ) (o : Option ℕ) → (if k == k then none else o) ≡ none
      if_same k o = ground (arith, int_beq_iff k k)

  -- An answer to a waiting question gives its caller the decision (the C arguments read as "not 0"),
  -- takes the question out of the pending map, and changes what no other receiver `j` receives; a
  -- second answer to the same handle is accepted and changes nothing.
  pub tool_approval_respond_decides :
      (j : ℕ) (allow' remember' : ℤ)
      → rx ≢ j
      → let (res, r', cs') = tool_approval_respond r cs h allow remember in
        (await cs' rx ≡ some (decision_of allow remember))
        × (await cs' j ≡ await cs j)
        × (lookup (as_i32 h) r'.pending_tool_approvals ≡ none)
        × (tool_approval_respond r' cs' h allow' remember' ≡ (ok tt, r', cs'))
  unfolding await
  tool_approval_respond_decides j allow' remember' ne =
      (rw (answered_channel, await), rw (others_untouched j ne, await), no_longer_pending, again)
    where
      again :
          let (res, r', cs') = tool_approval_respond r cs h allow remember in
          tool_approval_respond r' cs' h allow' remember' ≡ (ok tt, r', cs')
      again = unfold tool_approval_respond in rw (no_longer_pending, tool_approval_respond)

ask_replacing :
    (r : RelayState) (cs : Channels) (facts : ToolApprovalFacts) (rx : ℕ)
    → lookup (alloc_handle r).0 r.pending_tool_approvals ≡ some rx
    → (ask r cs facts).2 ≡ drop_sender (cs ++ fresh_channel ∷ []) rx
unfolding ask
ask_replacing r cs facts rx e = rw (e, ask)

-- A question whose sender is replaced in the pending map, because the counter came round to its handle
-- before it was answered, is denied at once.
pub ask_denies_replaced :
    (r : RelayState) (cs : Channels) (facts : ToolApprovalFacts) (rx : ℕ)
    → Waits r cs (alloc_handle r).0 rx
    → await (ask r cs facts).2 rx ≡ some deny
unfolding await
ask_denies_replaced r cs facts rx w =
    let dead : channel_at (ask r cs facts).2 rx
        ≡ some (record fresh_channel { sender_alive = false }) =
      rw (ask_replacing r cs facts rx w.pending) (
        drop_sender_self (cs ++ fresh_channel ∷ []) rx fresh_channel
          (channel_at-append_some cs fresh_channel fresh_channel rx w.open_channel)) in
    rw (dead, await)
