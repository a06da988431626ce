-- ===== src/Isolation.antt =====
-- All entry points of fs.rs, snapshot.rs, perf.rs, exec.rs and catalog.rs, which call the host of one
-- machine, and the other machines of the table.
pub mod Gives
pub mod Calls
use Prim.Native.String.{String}
use flutter_experiments.Common.{
  ℕ, ◌≡◌, ◌≢◌, refl, ap, inl, inr, Bytes, Bool, true, false, Option, none, some, List, [], ◌∷◌, ℤ,
  pos, not, ◌==◌, int_eq, nat_beq, arith, Bool-cases,
}
use flutter_experiments.Error.{Error, Result, ok, err}
use flutter_experiments.Buf.{AosBuf, AosBytes, alloc_bytes, fill_buf}
use flutter_experiments.Table.{Process, set_error, clear_error, find_vm, finish}
use flutter_experiments.Host.{Outcome, give_bytes, host_call}
use flutter_experiments.Host.Apart.{
  Untouched, set_error-Untouched, clear_error-Untouched, with_host_mut-Untouched,
  host_call-Untouched, settled-Untouched,
}
use flutter_experiments.Fs.{
  HostFs, AosStat, HostStat, ServiceReply, give_listing, give_reply, give_stat, path_void,
  aos_vm_svc_call, aos_vm_read_file, aos_vm_readdir, aos_vm_stat, aos_vm_readlink,
  aos_vm_write_file, aos_vm_mkdir, aos_vm_unlink, aos_vm_unmount, aos_vm_chmod, aos_vm_symlink,
  aos_vm_mount,
}
use flutter_experiments.Fs.Listing.{DirEntry}
use flutter_experiments.Snapshot.{
  HostSnapshots, alloc_failed, give_alloc, give_copy, give_layer, aos_vm_snapshot,
  aos_vm_snapshot_into, aos_vm_snapshot_incremental, aos_vm_commit_layer,
}
use flutter_experiments.Perf.{
  HostPerf, CommandPerf, give_perf, aos_vm_set_perf_enabled, aos_vm_scrub_perf,
  aos_vm_take_command_perf,
}
use flutter_experiments.Exec.{
  HostExec, ExecResult, OutBuf, give_cut, give_result, aos_vm_exec, aos_vm_exec_ex, aos_vm_run,
}
use flutter_experiments.Exec.Options.{AosExecOpts}
use flutter_experiments.Exec.Jobs.{
  HostJobs, PollOut, give_job, give_poll, aos_vm_exec_start, aos_vm_run_start, aos_vm_exec_poll,
  aos_vm_exec_stdout_peek, aos_vm_exec_cancel,
}
use flutter_experiments.Exec.Complete.{
  HostComplete, Completion, give_completion, aos_vm_autocomplete,
}
use flutter_experiments.Json.{JsonLib}
use flutter_experiments.Catalog.{CatalogApplyStatus, give_status, aos_vm_inject_catalog}
use flutter_experiments.Catalog.Read.{CatalogInjectOptions}
use flutter_experiments.Isolation.Gives.{
  aos_vm_take_command_perf-Untouched, finish-Untouched, give_alloc-Untouched, give_bytes-Untouched,
  give_completion-Untouched, give_copy-Untouched, give_cut-Untouched, give_job-Untouched,
  give_layer-Untouched, give_listing-Untouched, give_poll-Untouched, give_reply-Untouched,
  give_result-Untouched, give_stat-Untouched, give_status-Untouched,
}
use flutter_experiments.Isolation.Calls.{
  Environment, Arguments, file_calls, snapshot_calls, counter_calls, command_calls, job_calls,
  text_calls,
}

-- The id `j` reaches in each of the processes what it reaches in `p`.
abbrev pub AllUntouched : {H : Type 0} → Process H → ℕ → List (Process H) → Type 0
AllUntouched p j [] = Unit {0}
AllUntouched p j (q ∷ qs) = Untouched p j q × AllUntouched p j qs

module _ {J H : Type 0} (env : Environment J H) (a : Arguments) (p : Process H) (vm j : ℕ)
    (other : nat_beq vm j ≡ false) where
  file_calls-Untouched : AllUntouched p j (file_calls env a p vm)
  unfolding aos_vm_svc_call aos_vm_read_file aos_vm_write_file aos_vm_readdir aos_vm_stat
      aos_vm_readlink aos_vm_mkdir aos_vm_unlink aos_vm_unmount aos_vm_chmod aos_vm_symlink
      aos_vm_mount path_void
  file_calls-Untouched = (
    give_reply-Untouched p vm j other a.cell a.buf _ _ _,
    (
      give_bytes-Untouched p vm j other a.buf _ _ _,
      (
        finish-Untouched p vm j other _ _ _,
        (
          give_listing-Untouched p vm j other env.escape a.buf _ _ _,
          (
            give_stat-Untouched p vm j other a.stat _ _ _,
            (
              give_bytes-Untouched p vm j other a.buf _ _ _,
              (
                finish-Untouched p vm j other _ _ _,
                (
                  finish-Untouched p vm j other _ _ _,
                  (
                    finish-Untouched p vm j other _ _ _,
                    (
                      finish-Untouched p vm j other _ _ _,
                      (
                        finish-Untouched p vm j other _ _ _,
                        (finish-Untouched p vm j other _ _ _, tt),
                      ),
                    ),
                  ),
                ),
              ),
            ),
          ),
        ),
      ),
    ),
  )

  snapshot_calls-Untouched : AllUntouched p j (snapshot_calls env a p vm)
  unfolding aos_vm_snapshot aos_vm_snapshot_into aos_vm_snapshot_incremental aos_vm_commit_layer
  snapshot_calls-Untouched = (
    give_alloc-Untouched p vm j other env.granted _ a.alloc _ _ _,
    (
      give_copy-Untouched p vm j other a.buf _ _ _,
      (
        give_alloc-Untouched p vm j other env.granted _ a.alloc _ _ _,
        (give_layer-Untouched p vm j other env.granted a.alloc a.buf _ _ _, tt),
      ),
    ),
  )

  counter_calls-Untouched : AllUntouched p j (counter_calls env a p vm)
  unfolding aos_vm_set_perf_enabled aos_vm_scrub_perf
  counter_calls-Untouched = (
    finish-Untouched p vm j other (ok tt) "set_perf_enabled failed"
        (λ (u : Unit {0}) h. env.counters.set_perf_enabled (not (a.flag == pos 0)) h),
    (
      finish-Untouched p vm j other (ok tt) "scrub_perf failed"
          (λ (u : Unit {0}) h. env.counters.scrub_perf h),
      (aos_vm_take_command_perf-Untouched p vm j other env.counters a.buf, tt),
    ),
  )

  command_calls-Untouched : AllUntouched p j (command_calls env a p vm)
  unfolding aos_vm_exec aos_vm_exec_ex aos_vm_run
  command_calls-Untouched = (
    give_cut-Untouched p vm j other a.cut a.cut2 a.cell _ _ _,
    (
      give_result-Untouched p vm j other a.buf a.buf2 a.cell _ _ _,
      (give_result-Untouched p vm j other a.buf a.buf2 a.cell _ _ _, tt),
    ),
  )

  job_calls-Untouched : AllUntouched p j (job_calls env a p vm)
  unfolding aos_vm_exec_start aos_vm_run_start aos_vm_exec_poll aos_vm_exec_stdout_peek
      aos_vm_exec_cancel
  job_calls-Untouched = (
    give_job-Untouched p vm j other a.cell _ _ _,
    (
      give_job-Untouched p vm j other a.cell _ _ _,
      (
        give_poll-Untouched p vm j other a.poll _ _ _,
        (give_bytes-Untouched p vm j other a.buf _ _ _, (finish-Untouched p vm j other _ _ _, tt)),
      ),
    ),
  )

  text_calls-Untouched : AllUntouched p j (text_calls env a p vm)
  unfolding aos_vm_autocomplete aos_vm_inject_catalog
  text_calls-Untouched = (
    give_completion-Untouched p vm j other env.escape a.buf _ _ _,
    (give_status-Untouched p vm j other env.json a.buf _ _ _, tt),
  )

-- Whatever the caller passes and whatever the host does, none of the 29 entry points of fs.rs,
-- snapshot.rs, perf.rs, exec.rs and catalog.rs changes what any other id reaches in the table.
pub calls-AllUntouched :
    {J H : Type 0} (env : Environment J H) (a : Arguments) (p : Process H) (vm j : ℕ)
    → vm ≢ j
    → AllUntouched p j (file_calls env a p vm)
      × AllUntouched p j (snapshot_calls env a p vm)
      × AllUntouched p j (counter_calls env a p vm)
      × AllUntouched p j (command_calls env a p vm)
      × AllUntouched p j (job_calls env a p vm)
      × AllUntouched p j (text_calls env a p vm)
calls-AllUntouched env a p vm j apart =
    let other : nat_beq vm j ≡ false = ground arith in
    (
      file_calls-Untouched env a p vm j other,
      snapshot_calls-Untouched env a p vm j other,
      counter_calls-Untouched env a p vm j other,
      command_calls-Untouched env a p vm j other,
      job_calls-Untouched env a p vm j other,
      text_calls-Untouched env a p vm j other,
    )
