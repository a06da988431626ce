-- ===== src/Perf.antt =====
-- perf.rs: the counters of a command, with the counters of the host as a parameter.
use Prim.Native.String.{String}
use flutter_experiments.Common.{
  ℕ, Bytes, Bool, Option, none, some, ◌++◌, not, ℤ, pos, minus_one, ◌==◌, int_eq, ascii,
}
use flutter_experiments.Error.{message, Result, ok, err}
use flutter_experiments.Buf.{AosBuf}
use flutter_experiments.Table.{Process, set_error, clear_error, with_host_mut, finish}
use flutter_experiments.Host.{Outcome, host_call, give_bytes}

-- A counter stands as the text that `{}` prints for it.
pub record CommandPerf : Type 0 where
  pub wall_ms : Bytes
  pub tick_ms : Bytes
  pub pace_ms : Bytes
  pub host_ticks : Bytes
  pub host_runnable : Bytes
  pub host_waiting : Bytes
  pub kernel_ticks : Bytes
  pub kernel_runnable : Bytes
  pub kernel_waiting : Bytes
  pub tasks_spawned : Bytes
  pub pipes_created : Bytes
  pub module_cache_hits : Bytes
  pub module_cache_misses : Bytes
  pub blocked_poll : Bytes
  pub blocked_pipe : Bytes
  pub blocked_wait_child : Bytes
  pub kernel_memory_len : Bytes

-- The methods of the host that perf.rs calls.
pub record HostPerf (H : Type 0) : Type 0 where
  pub set_perf_enabled : Bool → H → Outcome (Unit {0}) × H
  pub scrub_perf : H → Outcome (Unit {0}) × H
  pub take_command_perf : H → Option CommandPerf × H

abbrev member : String → Bytes → Bytes
member label value = ascii "\"" ++ ascii label ++ ascii "\":" ++ value

unfoldable pub encode_perf : CommandPerf → Bytes
encode_perf p =
    ascii "{"
    ++ member "wall_ms" p.wall_ms
    ++ ascii ","
    ++ member "tick_ms" p.tick_ms
    ++ ascii ","
    ++ member "pace_ms" p.pace_ms
    ++ ascii ","
    ++ member "host_ticks" p.host_ticks
    ++ ascii ","
    ++ member "host_runnable" p.host_runnable
    ++ ascii ","
    ++ member "host_waiting" p.host_waiting
    ++ ascii ","
    ++ member "kernel_ticks" p.kernel_ticks
    ++ ascii ","
    ++ member "kernel_runnable" p.kernel_runnable
    ++ ascii ","
    ++ member "kernel_waiting" p.kernel_waiting
    ++ ascii ","
    ++ member "tasks_spawned" p.tasks_spawned
    ++ ascii ","
    ++ member "pipes_created" p.pipes_created
    ++ ascii ","
    ++ member "module_cache_hits" p.module_cache_hits
    ++ ascii ","
    ++ member "module_cache_misses" p.module_cache_misses
    ++ ascii ","
    ++ member "blocked_poll" p.blocked_poll
    ++ ascii ","
    ++ member "blocked_pipe" p.blocked_pipe
    ++ ascii ","
    ++ member "blocked_wait_child" p.blocked_wait_child
    ++ ascii ","
    ++ member "kernel_memory_len" p.kernel_memory_len
    ++ ascii "}"

module _ {H : Type 0} where
  -- The `match` of `aos_vm_take_command_perf`: without counters only the length is set.
  unfoldable pub give_perf :
      AosBuf → Result (Option CommandPerf) × Process H → ℤ × Option AosBuf × Process H
  unfolding give_bytes encode_perf
  give_perf out (err e, p) = give_bytes (some out) (err e, p)
  give_perf out (ok none, p) = (pos 0, some (record out { len = 0 }), p)
  give_perf out (ok (some perf), p) = give_bytes (some out) (ok (encode_perf perf), p)

  module _ (hp : HostPerf H) (p : Process H) (vm : ℕ) where
    unfoldable pub aos_vm_set_perf_enabled : ℤ → ℤ × Process H
    unfolding host_call finish
    aos_vm_set_perf_enabled on = finish (
        host_call {0, 0} p vm (ok tt) "set_perf_enabled failed"
          (λ u h. hp.set_perf_enabled (not (on == pos 0)) h))

    unfoldable pub aos_vm_scrub_perf : ℤ × Process H
    unfolding host_call finish
    aos_vm_scrub_perf =
        finish (host_call {0, 0} p vm (ok tt) "scrub_perf failed" (λ u h. hp.scrub_perf h))

    unfoldable pub aos_vm_take_command_perf : Option AosBuf → ℤ × Option AosBuf × Process H
    unfolding set_error clear_error with_host_mut give_perf
    aos_vm_take_command_perf none =
        (minus_one, none, set_error (message "aos_vm_take_command_perf: null out") (clear_error p))
    aos_vm_take_command_perf (some out) = give_perf out (
        with_host_mut (clear_error p) vm
          (λ h. let (perf, h') = hp.take_command_perf h in (ok perf, h')))
