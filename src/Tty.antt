-- ===== src/Tty.antt =====
-- tty.rs: ticks, input, output and status of a machine. What the kernel host answers is a parameter
-- of each function; a host's failure carries its own text under the prefix that tty.rs adds.
pub mod Take
pub mod Output
pub mod Ticks
use Prim.Native.String.{String}
use flutter_experiments.Common.{
  ℕ, zero, suc, Bytes, Bool, true, false, Option, none, some, [], ◌∷◌, ◌++◌, if◌then◌else◌, ◌||◌, ℤ,
  pos, negsuc, minus_one, not, as_i32, as_u32, length, take, drop, is_empty, ltb, min, nat_beq, ◌%◌,
  int_eq, ◌==◌, ◌&&◌, ◌-◌, ◌^◌, ◌/◌, ◌%◌,
}
use flutter_experiments.Error.{Error, message, host_failed, Result, ok, err}
use flutter_experiments.Host.{Outcome, gave, broke, map_host, unwrap_or}
use flutter_experiments.Lock.{Mutex, lock}
use flutter_experiments.Buf.{AosBuf, fill_buf, copy_into, is_null}
use flutter_experiments.Table.{
  Vm, Process, set_error, clear_error, with_vm, with_host_mut, finish, drain_arc,
}

-- `host::TickState`.
pub data TickState : Type 0 where
  runnable waiting exited : TickState

unfoldable pub tick_state : TickState → ℤ
tick_state runnable = pos 0
tick_state waiting = pos 1
tick_state exited = pos 2

-- What `aos_vm_status` learns of the host, in the order of `AosVmStatus`. A failed query of the egress
-- or of the commits is `none`.
pub record HostStatus : Type 0 where
  pub bytes_written : ℕ
  pub exit_code : Option ℤ
  pub at_prompt : Bool
  pub workers : ℤ
  pub has_worker_entry : Bool
  pub inflight_egress : Option ℤ
  pub pending_commits : Option ℤ

-- The host's methods that answer, each with the host as it leaves it.
pub record HostQueries (H : Type 0) : Type 0 where
  pub exit_code : H → Option ℤ × H
  pub inflight_egress : H → Option ℤ × H
  pub pending_commits : H → Option ℤ × H
  pub bytes_written : H → ℕ × H
  pub at_prompt : H → Bool × H
  pub workers : H → ℤ × H
  pub has_worker_entry : H → Bool × H

-- The queries, in the order of the source.
unfoldable pub ask_host : {H : Type 0} → HostQueries H → H → HostStatus × H
ask_host queries h =
    let (exit, h1) = queries.exit_code h in
    let (inflight, h2) = queries.inflight_egress h1 in
    let (pending, h3) = queries.pending_commits h2 in
    let (bytes, h4) = queries.bytes_written h3 in
    let (prompt, h5) = queries.at_prompt h4 in
    let (count, h6) = queries.workers h5 in
    let (entry, h7) = queries.has_worker_entry h6 in
    (
      record {
        bytes_written = bytes;
        exit_code = exit;
        at_prompt = prompt;
        workers = count;
        has_worker_entry = entry;
        inflight_egress = inflight;
        pending_commits = pending;
      },
      h7,
    )

pub record AosVmStatus : Type 0 where
  pub size : ℕ
  pub bytes_written : ℕ
  pub exit_code : ℤ
  pub at_prompt : ℤ
  pub workers : ℕ
  pub has_worker_entry : ℤ
  pub inflight_egress : ℕ
  pub pending_commits : ℕ

-- `max(0) as u32`.
abbrev pub at_least_zero : ℤ → ℕ
at_least_zero (pos a) = as_u32 (pos a)
at_least_zero (negsuc a) = 0

abbrev pub flag : Bool → ℤ
flag b = if b then pos 1 else pos 0

-- The struct's `size` is left as the caller set it. `i32::MIN` stands for no exit code.
unfoldable pub status_of : HostStatus → AosVmStatus → AosVmStatus
status_of s o = record {
  size = o.size;
  bytes_written = s.bytes_written;
  exit_code = unwrap_or (negsuc (2 ^ 31 - 1)) s.exit_code;
  at_prompt = flag s.at_prompt;
  workers = at_least_zero s.workers;
  has_worker_entry = flag s.has_worker_entry;
  inflight_egress = at_least_zero (unwrap_or (pos 0) s.inflight_egress);
  pending_commits = at_least_zero (unwrap_or (pos 0) s.pending_commits);
}

module _ {H : Type 0} where
  -- The end of `aos_vm_tick` and `aos_vm_tick_n`: the status and the caller's `out_state`.
  unfoldable pub give_state : Option ℤ → Result ℤ × Process H → ℤ × Option ℤ × Process H
  unfolding set_error
  give_state out (err e, p) = (minus_one, out, set_error e p)
  give_state none (ok state, p) = (pos 0, none, p)
  give_state (some old) (ok state, p) = (pos 0, some state, p)

  module _ (tick : H → Outcome TickState × H) where
    unfoldable pub tick_once : H → Result ℤ × H
    unfolding map_host tick_state
    tick_once h = let (res, h') = tick h in (map_host "tick failed" tick_state res, h')

    unfoldable pub aos_vm_tick : Process H → ℕ → Option ℤ → ℤ × Option ℤ × Process H
    unfolding give_state clear_error with_host_mut tick_once
    aos_vm_tick p vm out_state = give_state out_state (with_host_mut (clear_error p) vm tick_once)

    -- The `for` loop: `last` is the state so far.
    unfoldable pub tick_loop : ℕ → ℤ → H → Result ℤ × H
    unfolding tick_once
    tick_loop zero last h = (ok last, h)
    tick_loop (suc n) last h = elim (tick_once h).0 [
      | err e ↦ (err e, (tick_once h).1)
      | ok state ↦
          let rest = tick_loop n state (tick_once h).1 in
          if not (state == pos 0) then (ok state, (tick_once h).1) else rest
    ]

    unfoldable pub aos_vm_tick_n : Process H → ℕ → ℕ → Option ℤ → ℤ × Option ℤ × Process H
    unfolding give_state clear_error with_host_mut tick_loop
    aos_vm_tick_n p vm n out_state =
        give_state out_state (with_host_mut (clear_error p) vm (tick_loop n (pos 1)))

  unfoldable pub aos_vm_send_input :
      (H → Bytes → Outcome (Unit {0}) × H) → Process H → ℕ → Option Bytes → ℕ → ℤ × Process H
  unfolding clear_error set_error with_host_mut finish map_host
  aos_vm_send_input send_input p vm bytes len =
      if is_null bytes && not (nat_beq len 0)
      then (minus_one, set_error (message "aos_vm_send_input: null data") (clear_error p))
      else finish (
          with_host_mut (clear_error p) vm (λ h.
            let (res, h') = send_input h (take len (unwrap_or [] bytes)) in
            (map_host "send_input failed" (λ u. u) res, h')))

  unfoldable pub aos_vm_status :
      HostQueries H → Process H → ℕ → Option AosVmStatus → ℤ × Option AosVmStatus × Process H
  unfolding clear_error set_error with_host_mut ask_host status_of
  aos_vm_status queries p vm none =
      (minus_one, none, set_error (message "aos_vm_status: null out") (clear_error p))
  aos_vm_status queries p vm (some o) =
      let (res, q) =
        with_host_mut (clear_error p) vm (λ h. let (s, h') = ask_host queries h in (ok s, h')) in
      elim res [
        | err e ↦ (minus_one, some o, set_error e q)
        | ok s ↦ (pos 0, some (status_of s o), q)
      ]
