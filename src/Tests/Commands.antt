-- ===== src/Tests/Commands.antt =====
-- exec.rs and the hexadecimal payloads of catalog.rs at concrete values.
use flutter_experiments.Common.{
  ℕ, ◌≡◌, refl, Bytes, true, Option, none, some, List, [], ◌∷◌, ◌++◌, ◌+◌, ◌^◌, ℤ, pos, negsuc,
  ascii, arith, nat_eq, bytes_eq,
}
use flutter_experiments.Common.Dict.{lookup}
use flutter_experiments.Error.{ok}
use flutter_experiments.Utf8.{is_utf8}
use flutter_experiments.Buf.Env.{encode_env}
use flutter_experiments.Table.{Process, find_vm}
use flutter_experiments.Host.{Outcome, gave, broke, cstr_to_str}
use flutter_experiments.Host.Calls.{after_call}
use flutter_experiments.Fs.Read.{memory}
use flutter_experiments.Hex.{decode_hex}
use flutter_experiments.Hex.Laws.{encode_hex, decode-encode_hex}
use flutter_experiments.Exec.{ExecResult}
use flutter_experiments.Exec.Options.{AosExecOpts, ExecOptions, read_exec_opts}
use flutter_experiments.Exec.Options.Laws.{read_exec_opts_full}
use flutter_experiments.Exec.Jobs.{
  HostJobs, PollOut, aos_vm_exec_poll, aos_vm_exec_stdout_peek, aos_vm_exec_cancel,
}
use flutter_experiments.Exec.Jobs.Poll.{exec_poll_finished, jobs_wrap}
use flutter_experiments.Tests.OneHost.{machine_of, process_of}

abbrev options : ExecOptions
options = record { cwd = none; env = []; stdin = none }

-- The same key twice: the second value stays.
abbrev pair : Bytes × Bytes
pair = (ascii "K", ascii "1")

abbrev more : List (Bytes × Bytes)
more = (ascii "K", ascii "2") ∷ []

read_exec_opts_full_example :
    let opts : AosExecOpts = record {
      size = 56;
      cwd = some (47 ∷ 0 ∷ []);
      env_blob = some (encode_env (pair ∷ more));
      env_blob_len = 8;
      stdin_data = some (5 ∷ 6 ∷ []);
      stdin_len = 1;
      max_ticks = 0;
    } in
    (env : List (Bytes × Bytes)) × (read_exec_opts 64 options (some opts)
      ≡ ok (record { cwd = some (47 ∷ []); env = env; stdin = some (5 ∷ []) }, 5000000))
    × (lookup (ascii "K") env ≡ some (ascii "2"))
unfolding is_utf8 cstr_to_str
read_exec_opts_full_example =
    read_exec_opts_full 64 56 0 1 options (47 ∷ 0 ∷ []) (47 ∷ []) (5 ∷ 6 ∷ []) (ascii "K") pair more
      (
        ((omega arith, tt), refl),
        ((omega arith, tt), refl),
        (((omega arith, tt), refl), ((omega arith, tt), refl), tt),
      )
      refl (omega arith)

-- A host whose state is the jobs that have finished.
abbrev Jobs : Type 0
Jobs = List (ℕ × ExecResult)

abbrev finished : ℤ → Jobs → Outcome (Option ExecResult) × Jobs
finished (pos job) js = (gave (lookup job js), js)
finished (negsuc n) js = (broke [], js)

abbrev jobs : HostJobs Jobs
jobs = record {
  default_options = options;
  exec_start = λ cmd o js. (gave (pos 1), js);
  run_start = λ program args o js. (gave (pos 1), js);
  exec_poll = finished;
  exec_stdout_peek = λ job js. (gave [], js);
  exec_cancel = λ job js. (gave tt, []);
}

abbrev result : ExecResult
result = record { out = 1 ∷ 2 ∷ 3 ∷ []; err_out = 9 ∷ []; exit_code = pos 7 }

abbrev p : Process Jobs
p = process_of ((4, result) ∷ [])

-- The output does not fit its buffer.
exec_poll_finished_example :
    aos_vm_exec_poll jobs p 1 (pos 4) record {
      done = some (pos 0);
      exit = some (pos 0);
      out = some (memory (0 ∷ 0 ∷ []) 2 0);
      err_out = some (memory (0 ∷ 0 ∷ []) 2 0);
    }
    ≡ (
      pos 0,
      record {
        done = some (pos 1);
        exit = some (pos 7);
        out = some (memory (0 ∷ 0 ∷ []) 2 3);
        err_out = some (memory (9 ∷ 0 ∷ []) 2 1);
      },
      after_call p 1 (machine_of ((4, result) ∷ [])) ((4, result) ∷ []),
    )
unfolding find_vm lookup
exec_poll_finished_example =
    exec_poll_finished p 1 4 (machine_of ((4, result) ∷ [])) jobs result ((4, result) ∷ []) (pos 0)
      (pos 0) (0 ∷ 0 ∷ []) (0 ∷ 0 ∷ []) 2 2 0 0 refl refl (omega arith) (omega arith) refl

abbrev poll_out : PollOut
poll_out = record { done = none; exit = none; out = none; err_out = none }

jobs_wrap_example :
    (aos_vm_exec_poll jobs p 1 (pos (4 + 2 ^ 32)) poll_out
      ≡ aos_vm_exec_poll jobs p 1 (pos 4) poll_out)
    × (aos_vm_exec_stdout_peek jobs p 1 (pos (4 + 2 ^ 32)) none
        ≡ aos_vm_exec_stdout_peek jobs p 1 (pos 4) none)
    × (aos_vm_exec_cancel jobs p 1 (pos (4 + 2 ^ 32)) ≡ aos_vm_exec_cancel jobs p 1 (pos 4))
jobs_wrap_example = jobs_wrap p 1 4 jobs poll_out none (omega arith)

-- ` 0AFF` and an end of line.
decode-encode_hex_example :
    decode_hex ((32 ∷ []) ++ (encode_hex true (10 ∷ 255 ∷ []) ++ (10 ∷ []))) ≡ ok (10 ∷ 255 ∷ [])
decode-encode_hex_example =
    decode-encode_hex true (32 ∷ []) (10 ∷ 255 ∷ []) (10 ∷ []) (omega arith, (omega arith, tt))
      (refl, tt) (refl, tt)
