-- ===== src/Exec/Jobs/Poll.antt =====
-- exec.rs: what a caller that polls a job sees, and which job it polls.
use Prim.Native.String.{String}
use flutter_experiments.Common.{
  ℕ, ◌≡◌, ◌<◌, ◌^◌, ◌+◌, ◌%◌, Bytes, Bool, true, false, Option, some, [], ◌∷◌, ◌++◌, if◌then◌else◌,
  ℤ, pos, length, drop, leb, is_positive, as_i32, as_i32_small, arith,
}
use flutter_experiments.Error.{ok}
use flutter_experiments.Buf.{AosBuf, fill_buf, fill, copy_into, is_null}
use flutter_experiments.Table.{Vm, Process, find_vm}
use flutter_experiments.Host.{gave, map_host, require_args, fill_if}
use flutter_experiments.Host.Calls.{after_call, host_call_reached, find_vm-nonzero}
use flutter_experiments.Fs.Read.{memory}
use flutter_experiments.Exec.{ExecResult}
use flutter_experiments.Exec.Jobs.{
  HostJobs, PollOut, job_arg, give_poll, aos_vm_exec_poll, aos_vm_exec_stdout_peek,
  aos_vm_exec_cancel,
}

-- What a buffer of the caller holds afterwards: the content if it fits, and its size in any case.
abbrev pub offered : Bytes → Bytes → ℕ → AosBuf
offered content region room =
    memory (if leb (length content) room then content ++ drop (length content) region else region)
      room (length content)

fill_if-memory :
    (content region : Bytes) (room old : ℕ)
    → fill_if (some (memory region room old)) content ≡ some (offered content region room)
unfolding fill_if fill_buf fill copy_into
fill_if-memory [] region room old = ground arith
fill_if-memory (b ∷ content) region room old = ground arith

module _ {H : Type 0} where
  job_arg-read :
      (p : Process H) (vm job : ℕ) (entry : Vm H) (refusal : String)
      → find_vm p vm ≡ ok entry
      → 0 < job
      → job < 2 ^ 31
      → job_arg refusal vm (pos job) false ≡ ok (pos job)
  unfolding job_arg require_args
  job_arg-read p vm job entry refusal live low high =
      let positive : is_positive (pos job) ≡ true = ground arith in
      rw (find_vm-nonzero p vm entry live, positive, as_i32_small job high)

  -- On a live machine whose host lock is usable, polling a job that has finished returns 0, sets
  -- `out_done` to 1 and `out_exit` to the exit code, and reports the two sizes. A text that fits its
  -- buffer stands there; of one that does not fit nothing is copied, while status and `out_done` are
  -- the same.
  pub exec_poll_finished :
      (p : Process H) (vm job : ℕ) (entry : Vm H) (hj : HostJobs H) (r : ExecResult) (h : H)
      (done exit : ℤ) (out_region err_region : Bytes) (out_room err_room out_old err_old : ℕ)
      → find_vm p vm ≡ ok entry
      → entry.host.poisoned ≡ false
      → 0 < job
      → job < 2 ^ 31
      → hj.exec_poll (pos job) entry.host.value ≡ (gave (some r), h)
      → aos_vm_exec_poll hj p vm (pos job) record {
        done = some done;
        exit = some exit;
        out = some (memory out_region out_room out_old);
        err_out = some (memory err_region err_room err_old);
      }
        ≡ (
          pos 0,
          record {
            done = some (pos 1);
            exit = some r.exit_code;
            out = some (offered r.out out_region out_room);
            err_out = some (offered r.err_out err_region err_room);
          },
          after_call p vm entry h,
        )
  unfolding aos_vm_exec_poll give_poll map_host
  exec_poll_finished p vm job entry hj r h done exit out_region err_region out_room err_room out_old
        err_old live usable low high answer =
      rw (
        host_call_reached p vm entry live usable
            (job_arg "aos_vm_exec_poll: invalid args" vm (pos job) false) (pos job)
            "exec_poll failed" hj.exec_poll (job_arg-read p vm job entry _ live low high),
        answer,
        fill_if-memory r.out out_region out_room out_old,
        fill_if-memory r.err_out err_region err_room err_old,
      )

job_arg-wraps :
    (refusal : String) (vm job : ℕ) (missing : Bool)
    → 0 < job
    → job_arg refusal vm (pos (job + 2 ^ 32)) missing ≡ job_arg refusal vm (pos job) missing
unfolding job_arg as_i32
job_arg-wraps refusal vm job missing low =
    let here : is_positive (pos job) ≡ true = ground arith in
    let there : is_positive (pos (job + 2 ^ 32)) ≡ true = ground arith in
    let same : (job + 2 ^ 32) % 2 ^ 32 ≡ job % 2 ^ 32 = omega arith in rw (here, there, same)

-- Poll, peek and cancel look only at the low 32 bits of a positive job: job + 2^32 does what job does.
pub jobs_wrap :
    {H : Type 0} (p : Process H) (vm job : ℕ) (hj : HostJobs H) (o : PollOut) (out : Option AosBuf)
    → 0 < job
    → (aos_vm_exec_poll hj p vm (pos (job + 2 ^ 32)) o ≡ aos_vm_exec_poll hj p vm (pos job) o)
      × (aos_vm_exec_stdout_peek hj p vm (pos (job + 2 ^ 32)) out
          ≡ aos_vm_exec_stdout_peek hj p vm (pos job) out)
      × (aos_vm_exec_cancel hj p vm (pos (job + 2 ^ 32)) ≡ aos_vm_exec_cancel hj p vm (pos job))
unfolding aos_vm_exec_poll aos_vm_exec_stdout_peek aos_vm_exec_cancel
jobs_wrap p vm job hj o out low = (
  rw (job_arg-wraps "aos_vm_exec_poll: invalid args" vm job false low),
  rw (job_arg-wraps "aos_vm_exec_stdout_peek: invalid args" vm job (is_null out) low),
  rw (job_arg-wraps "aos_vm_exec_cancel: invalid args" vm job false low),
)
