-- ===== src/Isolation/Calls.antt =====
-- The entry points of fs.rs, snapshot.rs, perf.rs, exec.rs and catalog.rs, over one host and one set of
-- arguments.
use flutter_experiments.Common.{ℕ, Bytes, Bool, Option, List, [], ◌∷◌, ℤ, int_eq}
use flutter_experiments.Buf.{AosBuf, AosBytes}
use flutter_experiments.Table.{Process}
use flutter_experiments.Host.{Outcome}
use flutter_experiments.Fs.{
  HostFs, AosStat, aos_vm_svc_call, aos_vm_read_file, aos_vm_readdir, aos_vm_stat, aos_vm_readlink,
  aos_vm_write_file, aos_vm_mkdir, aos_vm_unlink, aos_vm_unmount, aos_vm_chmod, aos_vm_symlink,
  aos_vm_mount,
}
use flutter_experiments.Snapshot.{
  HostSnapshots, aos_vm_snapshot, aos_vm_snapshot_into, aos_vm_snapshot_incremental,
  aos_vm_commit_layer,
}
use flutter_experiments.Perf.{
  HostPerf, aos_vm_set_perf_enabled, aos_vm_scrub_perf, aos_vm_take_command_perf,
}
use flutter_experiments.Exec.{HostExec, OutBuf, aos_vm_exec, aos_vm_exec_ex, aos_vm_run}
use flutter_experiments.Exec.Options.{AosExecOpts}
use flutter_experiments.Exec.Jobs.{
  HostJobs, PollOut, aos_vm_exec_start, aos_vm_run_start, aos_vm_exec_poll, aos_vm_exec_stdout_peek,
  aos_vm_exec_cancel,
}
use flutter_experiments.Exec.Complete.{HostComplete, aos_vm_autocomplete}
use flutter_experiments.Json.{JsonLib}
use flutter_experiments.Catalog.{CatalogApplyStatus, aos_vm_inject_catalog}
use flutter_experiments.Catalog.Read.{CatalogInjectOptions}

-- The host, by its methods, and the other parameters of the entry points.
pub record Environment (J H : Type 0) : Type 0 where
  pub fs : HostFs H
  pub snapshots : HostSnapshots H
  pub counters : HostPerf H
  pub commands : HostExec H
  pub jobs : HostJobs H
  pub completion : HostComplete H
  pub inject_catalog : CatalogInjectOptions → H → Outcome (Option CatalogApplyStatus) × H
  pub json : JsonLib J
  pub escape : Bytes → Bytes
  pub granted : ℕ → Bool
  pub bits : ℕ

-- What a caller may pass.
pub record Arguments : Type 0 where
  pub text : Option Bytes
  pub text2 : Option Bytes
  pub bytes : Option Bytes
  pub len : ℕ
  pub number : ℕ
  pub flag : ℤ
  pub opts : Option AosExecOpts
  pub argv : Option (List (Option Bytes))
  pub argc : ℕ
  pub buf : Option AosBuf
  pub buf2 : Option AosBuf
  pub cut : OutBuf
  pub cut2 : OutBuf
  pub alloc : Option AosBytes
  pub stat : Option AosStat
  pub cell : Option ℤ
  pub poll : PollOut

-- The process after each of the entry points.
module _ {J H : Type 0} (env : Environment J H) (a : Arguments) (p : Process H) (vm : ℕ) where
  abbrev pub file_calls : List (Process H)
  file_calls =
      (aos_vm_svc_call env.fs p vm a.text a.bytes a.len a.cell a.buf).3
      ∷ (aos_vm_read_file env.fs p vm a.text a.buf).2
      ∷ (aos_vm_write_file env.fs p vm a.text a.bytes a.len).1
      ∷ (aos_vm_readdir env.fs p vm env.escape a.text a.buf).2
      ∷ (aos_vm_stat env.fs p vm a.text a.stat).2
      ∷ (aos_vm_readlink env.fs p vm a.text a.buf).2
      ∷ (aos_vm_mkdir env.fs p vm a.text).1
      ∷ (aos_vm_unlink env.fs p vm a.text).1
      ∷ (aos_vm_unmount env.fs p vm a.text).1
      ∷ (aos_vm_chmod env.fs p vm a.text a.number).1
      ∷ (aos_vm_symlink env.fs p vm a.text a.text2).1
      ∷ (aos_vm_mount env.fs p vm a.text a.flag).1
      ∷ []

  abbrev pub snapshot_calls : List (Process H)
  snapshot_calls =
      (aos_vm_snapshot env.snapshots env.granted p vm a.alloc).2
      ∷ (aos_vm_snapshot_into env.snapshots p vm a.buf).2
      ∷ (aos_vm_snapshot_incremental env.snapshots env.granted p vm a.bytes a.len a.alloc).2
      ∷ (aos_vm_commit_layer env.snapshots env.granted p vm a.alloc a.buf).3
      ∷ []

  abbrev pub counter_calls : List (Process H)
  counter_calls =
      (aos_vm_set_perf_enabled env.counters p vm a.flag).1
      ∷ (aos_vm_scrub_perf env.counters p vm).1
      ∷ (aos_vm_take_command_perf env.counters p vm a.buf).2
      ∷ []

  abbrev pub command_calls : List (Process H)
  command_calls =
      (aos_vm_exec env.bits env.commands p vm a.text a.number a.cut a.cut2 a.cell).4
      ∷ (aos_vm_exec_ex env.bits env.commands p vm a.text a.opts a.buf a.buf2 a.cell).4
      ∷ (aos_vm_run env.bits env.commands p vm a.text a.argv a.argc a.opts a.buf a.buf2 a.cell).4
      ∷ []

  abbrev pub job_calls : List (Process H)
  job_calls =
      (aos_vm_exec_start env.bits env.jobs p vm a.text a.opts a.cell).2
      ∷ (aos_vm_run_start env.bits env.jobs p vm a.text a.argv a.argc a.opts a.cell).2
      ∷ (aos_vm_exec_poll env.jobs p vm a.flag a.poll).2
      ∷ (aos_vm_exec_stdout_peek env.jobs p vm a.flag a.buf).2
      ∷ (aos_vm_exec_cancel env.jobs p vm a.flag).1
      ∷ []

  abbrev pub text_calls : List (Process H)
  text_calls =
      (aos_vm_autocomplete env.escape env.bits env.completion p vm a.text a.number a.opts a.buf).2
      ∷ (aos_vm_inject_catalog env.json env.inject_catalog p vm a.bytes a.len a.number a.text2
          a.argc a.buf).2
      ∷ []
