-- ===== src/Isolation/Gives.antt =====
-- What the entry points make of a call of the host, and the other machines of the table.
use Prim.Native.String.{String}
use flutter_experiments.Common.{
  ℕ, ◌≡◌, refl, inl, inr, Bytes, Bool, false, Option, none, some, List, ℤ, nat_beq, Bool-cases,
}
use flutter_experiments.Error.{Result, ok}
use flutter_experiments.Buf.{AosBuf, AosBytes, alloc_bytes}
use flutter_experiments.Table.{Process, find_vm, finish}
use flutter_experiments.Host.{Outcome, give_bytes, host_call}
use flutter_experiments.Host.Apart.{
  Untouched, set_error-Untouched, clear_error-Untouched, with_host_mut-Untouched,
  host_call-Untouched, settled-Untouched,
}
use flutter_experiments.Fs.{AosStat, HostStat, ServiceReply, give_listing, give_reply, give_stat}
use flutter_experiments.Fs.Listing.{DirEntry}
use flutter_experiments.Snapshot.{alloc_failed, give_alloc, give_copy, give_layer}
use flutter_experiments.Perf.{HostPerf, CommandPerf, give_perf, aos_vm_take_command_perf}
use flutter_experiments.Exec.{ExecResult, OutBuf, give_cut, give_result}
use flutter_experiments.Exec.Jobs.{PollOut, give_job, give_poll}
use flutter_experiments.Exec.Complete.{Completion, give_completion}
use flutter_experiments.Json.{JsonLib}
use flutter_experiments.Catalog.{CatalogApplyStatus, give_status}

module _ {H : Type 0} (p : Process H) (vm j : ℕ) (other : nat_beq vm j ≡ false) where
  pub finish-Untouched :
      {A : Type 0} (args : Result A) (what : String) (f : A → H → Outcome (Unit {0}) × H)
      → Untouched p j (finish (host_call p vm args what f)).1
  unfolding finish
  finish-Untouched args what f =
      settled-Untouched p j (finish) (λ t. t.1) (host_call p vm args what f) (λ e q. refl)
        (λ r q. refl) (host_call-Untouched p vm j args what f other)

  pub give_bytes-Untouched :
      (o : Option AosBuf) {A : Type 0} (args : Result A) (what : String)
      (f : A → H → Outcome Bytes × H)
      → Untouched p j (give_bytes o (host_call p vm args what f)).2
  unfolding give_bytes
  give_bytes-Untouched o args what f =
      settled-Untouched p j (give_bytes o) (λ t. t.2) (host_call p vm args what f) (λ e q. refl)
        (λ r q. refl) (host_call-Untouched p vm j args what f other)

  pub give_reply-Untouched :
      (s : Option ℤ) (b : Option AosBuf) {A : Type 0} (args : Result A) (what : String)
      (f : A → H → Outcome ServiceReply × H)
      → Untouched p j (give_reply s b (host_call p vm args what f)).3
  unfolding give_reply
  give_reply-Untouched s b args what f =
      settled-Untouched p j (give_reply s b) (λ t. t.3) (host_call p vm args what f) (λ e q. refl)
        (λ r q. refl) (host_call-Untouched p vm j args what f other)

  pub give_listing-Untouched :
      (escape : Bytes → Bytes) (b : Option AosBuf) {A : Type 0} (args : Result A) (what : String)
      (f : A → H → Outcome (List DirEntry) × H)
      → Untouched p j (give_listing escape b (host_call p vm args what f)).2
  unfolding give_listing give_bytes
  give_listing-Untouched escape b args what f =
      settled-Untouched p j (give_listing escape b) (λ t. t.2) (host_call p vm args what f)
        (λ e q. refl) (λ r q. refl) (host_call-Untouched p vm j args what f other)

  pub give_stat-Untouched :
      (s : Option AosStat) {A : Type 0} (args : Result A) (what : String)
      (f : A → H → Outcome HostStat × H)
      → Untouched p j (give_stat s (host_call p vm args what f)).2
  unfolding give_stat
  give_stat-Untouched s args what f =
      settled-Untouched p j (give_stat s) (λ t. t.2) (host_call p vm args what f) (λ e q. refl)
        (λ r q. refl) (host_call-Untouched p vm j args what f other)

  pub give_alloc-Untouched :
      (granted : ℕ → Bool) (refusal : String) (o : Option AosBytes) {A : Type 0} (args : Result A)
      (what : String) (f : A → H → Outcome Bytes × H)
      → Untouched p j (give_alloc granted refusal o (host_call p vm args what f)).2
  unfolding give_alloc
  give_alloc-Untouched granted refusal o args what f =
      settled-Untouched p j (give_alloc granted refusal o) (λ t. t.2) (host_call p vm args what f)
        (λ e q. refl)
        (λ r q. elim (Bool-cases (alloc_failed (alloc_bytes granted r) r)) [
          | inl failed ↦ rw (failed) (set_error-Untouched q q j _ refl)
          | inr fine ↦ rw (fine)
        ])
        (host_call-Untouched p vm j args what f other)

  pub give_layer-Untouched :
      (granted : ℕ → Bool) (o : Option AosBytes) (d : Option AosBuf) {A : Type 0} (args : Result A)
      (what : String) (f : A → H → Outcome (Bytes × Bytes) × H)
      → Untouched p j (give_layer granted o d (host_call p vm args what f)).3
  unfolding give_layer
  give_layer-Untouched granted o d args what f =
      settled-Untouched p j (give_layer granted o d) (λ t. t.3) (host_call p vm args what f)
        (λ e q. refl)
        (λ r q. elim (Bool-cases (alloc_failed (alloc_bytes granted r.0) r.0)) [
          | inl failed ↦ rw (failed) (set_error-Untouched q q j _ refl)
          | inr fine ↦ rw (fine)
        ])
        (host_call-Untouched p vm j args what f other)

  pub give_copy-Untouched :
      (o : Option AosBuf) {A : Type 0} (args : Result A) (what : String)
      (f : A → H → Outcome Bytes × H)
      → Untouched p j (give_copy o (host_call p vm args what f)).2
  unfolding give_copy
  give_copy-Untouched o args what f =
      settled-Untouched p j (give_copy o) (λ t. t.2) (host_call p vm args what f) (λ e q. refl)
        (went o) (host_call-Untouched p vm j args what f other)
    where
      went :
          (o : Option AosBuf) (r : Bytes) (q : Process H)
          → find_vm (give_copy o (ok r, q)).2 j ≡ find_vm q j
      went none r q = refl
      went (some b) r q = refl

  pub give_cut-Untouched :
      (o e : OutBuf) (x : Option ℤ) {A : Type 0} (args : Result A) (what : String)
      (f : A → H → Outcome ExecResult × H)
      → Untouched p j (give_cut o e x (host_call p vm args what f)).4
  unfolding give_cut
  give_cut-Untouched o e x args what f =
      settled-Untouched p j (give_cut o e x) (λ t. t.4) (host_call p vm args what f) (λ e q. refl)
        (λ r q. refl) (host_call-Untouched p vm j args what f other)

  pub give_result-Untouched :
      (o e : Option AosBuf) (x : Option ℤ) {A : Type 0} (args : Result A) (what : String)
      (f : A → H → Outcome ExecResult × H)
      → Untouched p j (give_result o e x (host_call p vm args what f)).4
  unfolding give_result
  give_result-Untouched o e x args what f =
      settled-Untouched p j (give_result o e x) (λ t. t.4) (host_call p vm args what f)
        (λ e q. refl) (λ r q. refl) (host_call-Untouched p vm j args what f other)

  pub give_job-Untouched :
      (o : Option ℤ) {A : Type 0} (args : Result A) (what : String) (f : A → H → Outcome ℤ × H)
      → Untouched p j (give_job o (host_call p vm args what f)).2
  unfolding give_job
  give_job-Untouched o args what f =
      settled-Untouched p j (give_job o) (λ t. t.2) (host_call p vm args what f) (λ e q. refl)
        (λ r q. refl) (host_call-Untouched p vm j args what f other)

  pub give_poll-Untouched :
      (o : PollOut) {A : Type 0} (args : Result A) (what : String)
      (f : A → H → Outcome (Option ExecResult) × H)
      → Untouched p j (give_poll o (host_call p vm args what f)).2
  unfolding give_poll
  give_poll-Untouched o args what f =
      settled-Untouched p j (give_poll o) (λ t. t.2) (host_call p vm args what f) (λ e q. refl) went
        (host_call-Untouched p vm j args what f other)
    where
      went :
          (r : Option ExecResult) (q : Process H)
          → find_vm (give_poll o (ok r, q)).2 j ≡ find_vm q j
      went none q = refl
      went (some result) q = refl

  pub give_completion-Untouched :
      (escape : Bytes → Bytes) (b : Option AosBuf) {A : Type 0} (args : Result A) (what : String)
      (f : A → H → Outcome Completion × H)
      → Untouched p j (give_completion escape b (host_call p vm args what f)).2
  unfolding give_completion give_bytes
  give_completion-Untouched escape b args what f =
      settled-Untouched p j (give_completion escape b) (λ t. t.2) (host_call p vm args what f)
        (λ e q. refl) (λ r q. refl) (host_call-Untouched p vm j args what f other)

  pub give_status-Untouched :
      {J : Type 0} (json : JsonLib J) (o : Option AosBuf) {A : Type 0} (args : Result A)
      (what : String) (f : A → H → Outcome (Option CatalogApplyStatus) × H)
      → Untouched p j (give_status json o (host_call p vm args what f)).2
  unfolding give_status
  give_status-Untouched json o args what f =
      settled-Untouched p j (give_status json o) (λ t. t.2) (host_call p vm args what f)
        (λ e q. refl) (went o) (host_call-Untouched p vm j args what f other)
    where
      went :
          (o : Option AosBuf) (r : Option CatalogApplyStatus) (q : Process H)
          → find_vm (give_status json o (ok r, q)).2 j ≡ find_vm q j
      went none r q = refl
      went (some b) r q = refl

  pub aos_vm_take_command_perf-Untouched :
      (hp : HostPerf H) (o : Option AosBuf) → Untouched p j (aos_vm_take_command_perf hp p vm o).2
  unfolding aos_vm_take_command_perf give_perf give_bytes
  aos_vm_take_command_perf-Untouched hp none = clear_error-Untouched p j
  aos_vm_take_command_perf-Untouched hp (some o) =
      settled-Untouched p j (give_perf o) (λ t. t.2) _ (λ e q. refl) went
        (with_host_mut-Untouched p vm j
          (λ h. (ok (hp.take_command_perf h).0, (hp.take_command_perf h).1)) other)
    where
      went :
          (r : Option CommandPerf) (q : Process H)
          → find_vm (give_perf o (ok r, q)).2 j ≡ find_vm q j
      went none q = refl
      went (some perf) q = refl
