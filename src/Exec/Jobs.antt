-- ===== src/Exec/Jobs.antt =====
-- exec.rs: `exec_start`, `run_start`, `exec_poll`, `exec_stdout_peek` and `exec_cancel`. A job is an
-- `i32` of the host that the C interface carries as an `i64`.
pub mod Poll
use Prim.Native.String.{String}
use flutter_experiments.Common.{
  ℕ, Bytes, Bool, false, Option, none, some, List, ◌||◌, not, ℤ, pos, minus_one, nat_beq, as_i32,
  is_positive,
}
use flutter_experiments.Error.{Error, message, Result, ok, err, ◌>>=◌}
use flutter_experiments.Buf.{AosBuf, is_null}
use flutter_experiments.Table.{Process, set_error, finish}
use flutter_experiments.Host.{
  Outcome, text_arg, require_args, host_call, give_bytes, fill_if, write_if,
}
use flutter_experiments.Exec.{ExecResult}
use flutter_experiments.Exec.Options.{
  AosExecOpts, ExecOptions, ArgvTexts, read_exec_opts, read_argv,
}

-- The methods of the host on jobs.
pub record HostJobs (H : Type 0) : Type 0 where
  pub default_options : ExecOptions
  pub exec_start : Bytes → ExecOptions → H → Outcome ℤ × H
  pub run_start : Bytes → List Bytes → ExecOptions → H → Outcome ℤ × H
  pub exec_poll : ℤ → H → Outcome (Option ExecResult) × H
  pub exec_stdout_peek : ℤ → H → Outcome Bytes × H
  pub exec_cancel : ℤ → H → Outcome (Unit {0}) × H

unfoldable pub exec_start_args :
    ℕ → ExecOptions → ℕ → Option Bytes → Option AosExecOpts → Bool → Result (Bytes × ExecOptions)
unfolding require_args text_arg read_exec_opts
exec_start_args bits default vm cmd opts missing = do
  fine ← require_args "aos_vm_exec_start: invalid args" (nat_beq vm 0 || (is_null cmd || missing))
  text ← text_arg "cmd not utf8" cmd
  options ← read_exec_opts bits default opts
  ok (text, options.0)

abbrev pub run_start_texts : ArgvTexts
run_start_texts = record {
  all_null = "argv null";
  element_null = "argv element null";
  not_utf8 = "argv not utf8";
}

unfoldable pub run_start_args :
    ℕ
    → ExecOptions
    → ℕ
    → Option Bytes
    → Option (List (Option Bytes))
    → ℕ
    → Option AosExecOpts
    → Bool
    → Result (Bytes × List Bytes × ExecOptions)
unfolding require_args text_arg read_argv read_exec_opts
run_start_args bits default vm program argv argc opts missing = do
  fine ←
      require_args "aos_vm_run_start: invalid args" (nat_beq vm 0 || (is_null program || missing))
  text ← text_arg "program not utf8" program
  args ← read_argv run_start_texts argv argc
  options ← read_exec_opts bits default opts
  ok (text, args, options.0)

-- The test of a job, which looks at all 64 bits, and the job that the host is asked for.
unfoldable pub job_arg : String → ℕ → ℤ → Bool → Result ℤ
unfolding require_args as_i32
job_arg refusal vm job missing = do
  fine ← require_args refusal (nat_beq vm 0 || (not (is_positive job) || missing))
  ok (as_i32 job)

-- What `aos_vm_exec_poll` writes: `out_done`, `out_exit` and the two buffers.
pub record PollOut : Type 0 where
  pub done : Option ℤ
  pub exit : Option ℤ
  pub out : Option AosBuf
  pub err_out : Option AosBuf

module _ {H : Type 0} where
  unfoldable pub give_job : Option ℤ → Result ℤ × Process H → ℤ × Option ℤ × Process H
  unfolding set_error
  give_job out_job (err e, p) = (minus_one, out_job, set_error e p)
  give_job out_job (ok job, p) = (pos 0, write_if out_job job, p)

  unfoldable pub give_poll :
      PollOut → Result (Option ExecResult) × Process H → ℤ × PollOut × Process H
  unfolding set_error fill_if
  give_poll o (err e, p) = (minus_one, o, set_error e p)
  give_poll o (ok none, p) = (pos 0, record o { done = write_if o.done (pos 0) }, p)
  give_poll o (ok (some r), p) = (
    pos 0,
    record {
      done = write_if o.done (pos 1);
      exit = write_if o.exit r.exit_code;
      out = fill_if o.out r.out;
      err_out = fill_if o.err_out r.err_out;
    },
    p,
  )

  module _ (bits : ℕ) (hj : HostJobs H) (p : Process H) (vm : ℕ) where
    unfoldable pub aos_vm_exec_start :
        Option Bytes → Option AosExecOpts → Option ℤ → ℤ × Option ℤ × Process H
    unfolding host_call exec_start_args give_job
    aos_vm_exec_start cmd opts out_job = give_job out_job (
        host_call p vm (exec_start_args bits hj.default_options vm cmd opts (is_null out_job))
          "exec_start failed" (λ a h. hj.exec_start a.0 a.1 h))

    unfoldable pub aos_vm_run_start :
        Option Bytes
        → Option (List (Option Bytes))
        → ℕ
        → Option AosExecOpts
        → Option ℤ
        → ℤ × Option ℤ × Process H
    unfolding host_call run_start_args give_job
    aos_vm_run_start program argv argc opts out_job = give_job out_job (
        host_call p vm
          (run_start_args bits hj.default_options vm program argv argc opts (is_null out_job))
          "run_start failed" (λ a h. hj.run_start a.0 a.1 a.2 h))

  module _ (hj : HostJobs H) (p : Process H) (vm : ℕ) (job : ℤ) where
    unfoldable pub aos_vm_exec_poll : PollOut → ℤ × PollOut × Process H
    unfolding host_call job_arg give_poll
    aos_vm_exec_poll o = give_poll o (
        host_call p vm (job_arg "aos_vm_exec_poll: invalid args" vm job false) "exec_poll failed"
          hj.exec_poll)

    unfoldable pub aos_vm_exec_stdout_peek : Option AosBuf → ℤ × Option AosBuf × Process H
    unfolding host_call job_arg give_bytes
    aos_vm_exec_stdout_peek out = give_bytes out (
        host_call p vm (job_arg "aos_vm_exec_stdout_peek: invalid args" vm job (is_null out))
          "exec_stdout_peek failed" hj.exec_stdout_peek)

    unfoldable pub aos_vm_exec_cancel : ℤ × Process H
    unfolding host_call job_arg finish
    aos_vm_exec_cancel = finish (
        host_call p vm (job_arg "aos_vm_exec_cancel: invalid args" vm job false)
          "exec_cancel failed" hj.exec_cancel)
