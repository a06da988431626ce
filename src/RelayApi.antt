-- ===== src/RelayApi.antt =====
-- relay.rs, the `aos_vm_relay_*` entry points of the C interface: argument checks, the lookup of the
-- machine, the locked bodies of Relay/Wire.antt and Relay/Respond.antt, and the status.
pub mod Overflow
pub mod Errors
use Prim.Native.String.{String}
use flutter_experiments.Common.{
  ℕ, Bytes, Bool, true, false, Option, none, some, [], if◌then◌else◌, not, ◌||◌, ℤ, pos, minus_one,
  is_positive, nat_beq, take,
}
use flutter_experiments.Error.{Error, message, Result, ok, err}
use flutter_experiments.Lock.{Mutex, lock}
use flutter_experiments.Buf.{AosBuf, fill_buf}
use flutter_experiments.Relay.State.{RelayState}
use flutter_experiments.Relay.Wire.{WireRelayEvent}
use flutter_experiments.Relay.Wire
use flutter_experiments.Relay.Respond.{
  Answered, http_respond, host_call_respond, persist_respond, ws_open, ws_push, ws_closed,
}
use flutter_experiments.Relay.Approval.{tool_approval_respond}
use flutter_experiments.Relay.Step.{
  AppCall, answer_http, answer_host_call, answer_persist, open_ws, push_ws, close_ws, app_body,
}
use flutter_experiments.Table.{
  Vm, Process, set_error, clear_error, find_vm, put_vm, with_relay, finish,
}

-- `if len == 0 || ptr.is_null() { Vec::new() } else { from_raw_parts(ptr, len).to_vec() }`.
abbrev pub read_bytes : Option Bytes → ℕ → Bytes
read_bytes none len = []
read_bytes (some region) len = take len region

-- `vm == 0 || handle <= 0`.
abbrev pub bad_args : ℕ → ℤ → Bool
bad_args vm handle = nat_beq vm 0 || not (is_positive handle)

module _ {H : Type 0} where
  -- `(*out_frame).len = 0` for no event, `fill_buf` for a frame, and the error otherwise.
  unfoldable pub give_frame :
      Option AosBuf → Result (Option Bytes) × Process H → ℤ × Option AosBuf × Process H
  unfolding set_error
  give_frame out (err e, p) = (minus_one, out, set_error e p)
  give_frame none (ok frame, p) = (minus_one, none, p)
  give_frame (some b) (ok none, p) = (pos 0, some (record b { len = 0 }), p)
  give_frame (some b) (ok (some bytes), p) =
      let (code, out) = fill_buf (some b) bytes in (code, out, p)

  module _ (encode : WireRelayEvent → Bytes) where
    unfoldable pub pop_event : Process H → ℕ → Bool → Result (Option Bytes) × Process H
    pop_event p vm sidecar_only =
        with_relay p vm
          (λ r. let (frame, r') = Wire.pop_event encode r sidecar_only in (ok frame, r'))

    -- Both `aos_vm_relay_next` and `aos_vm_relay_next_sidecar`, with their texts for a null buffer.
    relay_next_with : Error → Bool → Process H → ℕ → Option AosBuf → ℤ × Option AosBuf × Process H
    relay_next_with null sidecar_only p vm none = (minus_one, none, set_error null (clear_error p))
    relay_next_with null sidecar_only p vm (some b) =
        give_frame (some b) (pop_event (clear_error p) vm sidecar_only)

    unfoldable pub aos_vm_relay_next : Process H → ℕ → Option AosBuf → ℤ × Option AosBuf × Process H
    unfolding relay_next_with
    aos_vm_relay_next = relay_next_with (message "aos_vm_relay_next: null out") false

    unfoldable pub aos_vm_relay_next_sidecar :
        Process H → ℕ → Option AosBuf → ℤ × Option AosBuf × Process H
    unfolding relay_next_with
    aos_vm_relay_next_sidecar = relay_next_with (message "aos_vm_relay_next_sidecar: null out") true

  -- What the answers share: the check, the locked body, the status.
  unfoldable pub respond_with : Error → Process H → ℕ → ℤ → AppCall → ℤ × Process H
  respond_with invalid p vm handle call =
      if bad_args vm handle
      then (minus_one, set_error invalid (clear_error p))
      else finish (with_relay (clear_error p) vm (λ r. app_body r call))

  unfoldable pub aos_vm_relay_http_respond :
      Process H → ℕ → ℤ → ℤ → Option Bytes → ℕ → Option Bytes → ℕ → ℤ × Process H
  unfolding respond_with
  aos_vm_relay_http_respond p vm handle status head head_len body body_len =
      respond_with (message "aos_vm_relay_http_respond: invalid args") p vm handle
        (answer_http handle status (read_bytes head head_len) (read_bytes body body_len))

  unfoldable pub aos_vm_relay_host_call_respond :
      Process H → ℕ → ℤ → ℤ → Option Bytes → ℕ → ℤ × Process H
  unfolding respond_with
  aos_vm_relay_host_call_respond p vm handle status result result_len =
      respond_with (message "aos_vm_relay_host_call_respond: invalid args") p vm handle
        (answer_host_call handle status (read_bytes result result_len))

  unfoldable pub aos_vm_relay_persist_respond :
      Process H → ℕ → ℤ → ℤ → Option Bytes → ℕ → ℤ × Process H
  unfolding respond_with
  aos_vm_relay_persist_respond p vm handle status body body_len =
      respond_with (message "aos_vm_relay_persist_respond: invalid args") p vm handle
        (answer_persist handle status (read_bytes body body_len))

  unfoldable pub aos_vm_relay_ws_open : Process H → ℕ → ℤ → ℤ → ℤ × Process H
  unfolding respond_with
  aos_vm_relay_ws_open p vm handle status =
      respond_with (message "aos_vm_relay_ws_open: invalid args") p vm handle
        (open_ws handle status)

  unfoldable pub aos_vm_relay_ws_push : Process H → ℕ → ℤ → Option Bytes → ℕ → ℤ × Process H
  unfolding respond_with
  aos_vm_relay_ws_push p vm handle bytes len =
      respond_with (message "aos_vm_relay_ws_push: invalid args") p vm handle
        (push_ws handle (read_bytes bytes len))

  unfoldable pub aos_vm_relay_ws_close : Process H → ℕ → ℤ → ℤ × Process H
  unfolding respond_with
  aos_vm_relay_ws_close p vm handle =
      respond_with (message "aos_vm_relay_ws_close: invalid args") p vm handle (close_ws handle)

  -- The locked part of the answer to an approval, which also sends on the channel.
  decide_in : Process H → ℕ → ℤ → ℤ → ℤ → Vm H → ℤ × Process H
  unfolding set_error
  decide_in p vm handle allow remember_session entry = elim (lock entry.relay) [
    | none ↦ (minus_one, set_error (message "relay lock poisoned") p)
    | some r ↦
        let (res, r', cs') = tool_approval_respond r p.channels handle allow remember_session in
        (
          pos 0,
          record (put_vm p vm (record entry { relay = record (entry.relay) { value = r' } })) {
            channels = cs';
          },
        )
  ]

  unfoldable pub aos_vm_relay_tool_approval_respond : Process H → ℕ → ℤ → ℤ → ℤ → ℤ × Process H
  unfolding decide_in
  aos_vm_relay_tool_approval_respond p vm handle allow remember_session =
      if bad_args vm handle
      then (
        minus_one,
        set_error (message "aos_vm_relay_tool_approval_respond: invalid args") (clear_error p),
      )
      else elim (find_vm (clear_error p) vm) [
        | err e ↦ (minus_one, set_error e (clear_error p))
        | ok entry ↦ decide_in (clear_error p) vm handle allow remember_session entry
      ]
