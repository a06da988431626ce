-- ===== src/Tty/Take.antt =====
-- tty.rs `aos_vm_take_output` and `aos_vm_take_output_ex`.
use flutter_experiments.Common.{
  ℕ, Bytes, Bool, Option, none, some, [], ◌++◌, if◌then◌else◌, ℤ, pos, minus_one, not, as_i32,
  as_u32, length, take, drop, is_empty, ltb, min, nat_beq, ◌%◌, int_eq, ◌==◌, ◌^◌, ◌/◌, ◌%◌,
}
use flutter_experiments.Error.{message, Result, ok, err}
use flutter_experiments.Lock.{Mutex, lock}
use flutter_experiments.Buf.{AosBuf, fill_buf, copy_into}
use flutter_experiments.Table.{Vm, Process, set_error, clear_error, with_vm, drain_arc}

-- `mask & 2 ^ k != 0`, of the bits of an `i32`.
abbrev pub has_bit : ℤ → ℕ → Bool
has_bit mask k = not (nat_beq (as_u32 mask / 2 ^ k % 2) 0)

-- One `if` of the closure of `aos_vm_take_output_ex`.
abbrev drain_if : Bool → Mutex Bytes → Bytes × Mutex Bytes
drain_if wanted m = if wanted then drain_arc m else ([], m)

module _ {H : Type 0} where
  -- The closure of `aos_vm_take_output`.
  unfoldable pub drain_output : Vm H → Bytes × Vm H
  unfolding drain_arc
  drain_output entry =
      let (bytes, out) = drain_arc entry.out in
      let (data_stdout, out_stdout) = drain_arc entry.out_stdout in
      let (data_stderr, out_stderr) = drain_arc entry.out_stderr in
      let (data_log, out_log) = drain_arc entry.out_log in
      (
        if is_empty bytes then bytes ++ data_stdout ++ data_stderr ++ data_log else bytes,
        record entry {
          out = out;
          out_stdout = out_stdout;
          out_stderr = out_stderr;
          out_log = out_log;
        },
      )

  -- The remainder, before what the combined sink has got meanwhile.
  unfoldable pub put_back : Bytes → Vm H → Vm H
  put_back rest entry = elim (lock entry.out) [
    | none ↦ entry
    | some g ↦ record entry { out = record (entry.out) { value = rest ++ g } }
  ]

  -- The rest of `aos_vm_take_output`: a failure to find the machine again is passed over.
  unfoldable pub give_output : Process H → ℕ → Bytes → Bytes → ℕ → ℤ × Option Bytes × Process H
  unfolding with_vm put_back copy_into
  give_output p vm bytes region cap =
      let n = min (length bytes) cap in
      (
        as_i32 (pos n),
        some (if ltb 0 n then copy_into region (take n bytes) else region),
        if ltb n (length bytes)
            then (with_vm {0} p vm (λ e. (ok tt, put_back (drop n bytes) e))).1
            else p,
      )

  -- What follows the search for the machine and the drain.
  unfoldable pub hand_output :
      ℕ → Option Bytes → ℕ → Result Bytes × Process H → ℤ × Option Bytes × Process H
  unfolding set_error give_output as_i32
  hand_output vm buf cap (err e, q) = (minus_one, buf, set_error e q)
  hand_output vm none cap (ok bytes, q) = (as_i32 (pos (length bytes)), none, q)
  hand_output vm (some region) cap (ok bytes, q) =
      if nat_beq cap 0
      then (as_i32 (pos (length bytes)), some region, q)
      else give_output q vm bytes region cap

  unfoldable pub aos_vm_take_output :
      Process H → ℕ → Option Bytes → ℕ → ℤ × Option Bytes × Process H
  unfolding clear_error with_vm drain_output hand_output
  aos_vm_take_output p vm buf cap =
      hand_output vm buf cap
        (with_vm (clear_error p) vm (λ entry. let (bytes, e) = drain_output entry in (ok bytes, e)))

  unfoldable pub drain_streams : ℤ → Vm H → Bytes × Vm H
  unfolding drain_arc
  drain_streams mask entry =
      let (from_stdout, out_stdout) = drain_if (has_bit mask 0) entry.out_stdout in
      let (from_stderr, out_stderr) = drain_if (has_bit mask 1) entry.out_stderr in
      let (from_log, out_log) = drain_if (has_bit mask 2) entry.out_log in
      let (from_out, out) = drain_if (mask == pos 0) entry.out in
      (
        if mask == pos 0 then from_out else from_stdout ++ from_stderr ++ from_log,
        record entry {
          out = out;
          out_stdout = out_stdout;
          out_stderr = out_stderr;
          out_log = out_log;
        },
      )

  unfoldable pub aos_vm_take_output_ex :
      Process H → ℕ → ℤ → Option AosBuf → ℤ × Option AosBuf × Process H
  unfolding clear_error set_error with_vm drain_streams fill_buf
  aos_vm_take_output_ex p vm stream_mask none =
      (minus_one, none, set_error (message "aos_vm_take_output_ex: null out") (clear_error p))
  aos_vm_take_output_ex p vm stream_mask (some out) =
      let (res, q) =
        with_vm (clear_error p) vm
          (λ entry. let (bytes, e) = drain_streams stream_mask entry in (ok bytes, e)) in
      elim res [
        | err e ↦ (minus_one, some out, set_error e q)
        | ok bytes ↦ let (code, out') = fill_buf (some out) bytes in (code, out', q)
      ]
