-- ===== src/Exec.antt =====
-- exec.rs: commands that run to their end, jobs, and autocompletion. The host's `exec` methods and the
-- number of bits of a `usize` are parameters.
pub mod Options
pub mod Jobs
pub mod Complete
use Prim.Native.String.{String}
use flutter_experiments.Common.{
  ℕ, Bytes, Bool, Option, none, some, List, ◌||◌, ℤ, pos, minus_one, nat_beq,
}
use flutter_experiments.Error.{Error, message, Result, ok, err, ◌>>=◌}
use flutter_experiments.Buf.{AosBuf, copy_out, is_null}
use flutter_experiments.Table.{Process, set_error}
use flutter_experiments.Host.{Outcome, text_arg, require_args, host_call, fill_if, write_if}
use flutter_experiments.Exec.Options.{
  AosExecOpts, ExecOptions, ArgvTexts, read_exec_opts, read_ticks, read_argv,
}

-- What a finished command gives.
pub record ExecResult : Type 0 where
  pub out : Bytes
  pub err_out : Bytes
  pub exit_code : ℤ

-- The methods of the host that run a command to its end, and `ExecOptions::default()`.
pub record HostExec (H : Type 0) : Type 0 where
  pub default_options : ExecOptions
  pub exec : Bytes → ℕ → ExecOptions → H → Outcome ExecResult × H
  pub run : Bytes → List Bytes → ℕ → ExecOptions → H → Outcome ExecResult × H

-- The arguments of `aos_vm_exec`.
unfoldable pub exec_args : ℕ → ℕ → Option Bytes → ℕ → Result (Bytes × ℕ)
unfolding require_args text_arg read_ticks
exec_args bits vm cmd max_ticks = do
  fine ← require_args "aos_vm_exec: invalid args" (nat_beq vm 0 || is_null cmd)
  text ← text_arg "aos_vm_exec: cmd is not UTF-8" cmd
  ticks ← read_ticks "aos_vm_exec: max_ticks too large" bits max_ticks
  ok (text, ticks)

unfoldable pub exec_ex_args :
    ℕ → ExecOptions → ℕ → Option Bytes → Option AosExecOpts → Result (Bytes × ExecOptions × ℕ)
unfolding require_args text_arg read_exec_opts
exec_ex_args bits default vm cmd opts = do
  fine ← require_args "aos_vm_exec_ex: invalid args" (nat_beq vm 0 || is_null cmd)
  text ← text_arg "aos_vm_exec_ex: cmd not utf8" cmd
  options ← read_exec_opts bits default opts
  ok (text, options.0, options.1)

abbrev pub run_texts : ArgvTexts
run_texts = record {
  all_null = "aos_vm_run: argv null";
  element_null = "aos_vm_run: argv element null";
  not_utf8 = "aos_vm_run: argv not utf8";
}

unfoldable pub run_args :
    ℕ
    → ExecOptions
    → ℕ
    → Option Bytes
    → Option (List (Option Bytes))
    → ℕ
    → Option AosExecOpts
    → Result (Bytes × List Bytes × ExecOptions × ℕ)
unfolding require_args text_arg read_argv read_exec_opts
run_args bits default vm program argv argc opts = do
  fine ← require_args "aos_vm_run: invalid args" (nat_beq vm 0 || is_null program)
  text ← text_arg "aos_vm_run: program not utf8" program
  args ← read_argv run_texts argv argc
  options ← read_exec_opts bits default opts
  ok (text, args, options.0, options.1)

-- A plain buffer of the caller: the region, its capacity, and the cell for the length.
pub record OutBuf : Type 0 where
  pub buf : Option Bytes
  pub cap : ℕ
  pub len : Option ℕ

unfoldable pub copy_to : OutBuf → Bytes → OutBuf
unfolding copy_out
copy_to o src = let (buf, len) = copy_out src o.buf o.cap o.len in record o { buf = buf; len = len }

module _ {H : Type 0} where
  -- The last `match` of `aos_vm_exec`: what does not fit is cut off.
  unfoldable pub give_cut :
      OutBuf
      → OutBuf
      → Option ℤ
      → Result ExecResult × Process H
      → ℤ × OutBuf × OutBuf × Option ℤ × Process H
  unfolding set_error copy_to
  give_cut out err_out out_exit (err e, p) = (minus_one, out, err_out, out_exit, set_error e p)
  give_cut out err_out out_exit (ok r, p) =
      (pos 0, copy_to out r.out, copy_to err_out r.err_out, write_if out_exit r.exit_code, p)

  -- That of `aos_vm_exec_ex` and `aos_vm_run`: what does not fit is left out.
  unfoldable pub give_result :
      Option AosBuf
      → Option AosBuf
      → Option ℤ
      → Result ExecResult × Process H
      → ℤ × Option AosBuf × Option AosBuf × Option ℤ × Process H
  unfolding set_error fill_if
  give_result out err_out out_exit (err e, p) = (minus_one, out, err_out, out_exit, set_error e p)
  give_result out err_out out_exit (ok r, p) =
      (pos 0, fill_if out r.out, fill_if err_out r.err_out, write_if out_exit r.exit_code, p)

  module _ (bits : ℕ) (he : HostExec H) (p : Process H) (vm : ℕ) where
    unfoldable pub aos_vm_exec :
        Option Bytes → ℕ → OutBuf → OutBuf → Option ℤ → ℤ × OutBuf × OutBuf × Option ℤ × Process H
    unfolding host_call exec_args give_cut
    aos_vm_exec cmd max_ticks out err_out out_exit = give_cut out err_out out_exit (
        host_call p vm (exec_args bits vm cmd max_ticks) "exec failed"
          (λ a h. he.exec a.0 a.1 he.default_options h))

    unfoldable pub aos_vm_exec_ex :
        Option Bytes
        → Option AosExecOpts
        → Option AosBuf
        → Option AosBuf
        → Option ℤ
        → ℤ × Option AosBuf × Option AosBuf × Option ℤ × Process H
    unfolding host_call exec_ex_args give_result
    aos_vm_exec_ex cmd opts out err_out out_exit = give_result out err_out out_exit (
        host_call p vm (exec_ex_args bits he.default_options vm cmd opts) "exec failed"
          (λ a h. he.exec a.0 a.2 a.1 h))

    unfoldable pub aos_vm_run :
        Option Bytes
        → Option (List (Option Bytes))
        → ℕ
        → Option AosExecOpts
        → Option AosBuf
        → Option AosBuf
        → Option ℤ
        → ℤ × Option AosBuf × Option AosBuf × Option ℤ × Process H
    unfolding host_call run_args give_result
    aos_vm_run program argv argc opts out err_out out_exit = give_result out err_out out_exit (
        host_call p vm (run_args bits he.default_options vm program argv argc opts) "run failed"
          (λ a h. he.run a.0 a.1 a.3 a.2 h))
