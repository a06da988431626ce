-- ===== src/Boot/Start/Restore.antt =====
-- What restoring a snapshot leaves in the table.
use flutter_experiments.Common.{
  ℕ, ◌≡◌, ◌≤◌, ◌<◌, ap, Bytes, false, Option, some, nat_beq, take, arith,
}
use flutter_experiments.Error.{ok, ◌>>=◌, bind-ok, bind_assoc}
use flutter_experiments.Table.{Process, clear_error}
use flutter_experiments.Host.{require_args}
use flutter_experiments.Json.{JsonLib}
use flutter_experiments.Caps.Blobs.{HostRegistry}
use flutter_experiments.Caps.{HostNet, HostCaps}
use flutter_experiments.Boot.{AosBootOpts, read_opts}
use flutter_experiments.Boot.Sinks.{HostStreams}
use flutter_experiments.Boot.Sinks.Laws.{StreamLaws}
use flutter_experiments.Boot.Start.{
  HostBuilder, restored_host, restored_vm, restore_machine, aos_vm_restore, new_vm, register,
}
use flutter_experiments.Boot.Start.Wiring.{SinkLaws, restored_host-Wired}
use flutter_experiments.Boot.Start.Laws.{Settled, settle}

module _ {J R N B H : Type 0} (json : JsonLib J) (reg : HostRegistry R) (nets : HostNet R N)
    (caps : HostCaps N B) (streams : HostStreams B) (hb : HostBuilder B H) where
  restore_made :
      (p : Process H) (kernel snapshot : Bytes) (base : Option Bytes)
      (kernel_len snapshot_len base_len old : ℕ) (opts : Option AosBootOpts)
      → 0 < kernel_len
      → 0 < snapshot_len
      → aos_vm_restore json reg nets caps streams hb p
          (some kernel)
          kernel_len
          (some snapshot)
          snapshot_len
          base
          base_len
          opts
          (some old)
        ≡ register json reg nets caps streams hb (clear_error p) (some old) (
            (read_opts opts
              >>= restored_host json reg nets caps streams hb
                  (take kernel_len kernel)
                  (take snapshot_len snapshot)
                  base
                  base_len)
            >>= λ h. ok (new_vm json reg nets caps streams hb h))
  unfolding aos_vm_restore restore_machine restored_vm require_args
  restore_made p kernel snapshot base kernel_len snapshot_len base_len old opts kernel_long
        snapshot_long =
      let kernel_fine : nat_beq kernel_len 0 ≡ false = ground arith in
      let snapshot_fine : nat_beq snapshot_len 0 ≡ false = ground arith in
      rw (kernel_fine, snapshot_fine)
        (ap (register json reg nets caps streams hb (clear_error p) (some old))
          (bind_assoc (read_opts opts) _ _))

  -- For hosts that keep to `StreamLaws` and `SinkLaws`, a usable table and a counter above 0, and a
  -- kernel and a snapshot that are not empty, with a base snapshot or without. If the options are
  -- refused, or no host is restored with the plan that they give, then `aos_vm_restore` returns -1 with
  -- that error and changes nothing else. Otherwise it returns 0 with no error text and gives the counter
  -- out as the id. Under it stands a machine with the restored host, not run any further, a new relay,
  -- and each of the four buffers holding exactly what the host has written to its streams. Every other
  -- id reaches what it reached before.
  pub restore_registers :
      (stream_laws : StreamLaws streams) (laws : SinkLaws streams hb) (p : Process H)
      (kernel snapshot : Bytes) (base : Option Bytes) (kernel_len snapshot_len base_len old j : ℕ)
      (opts : Option AosBootOpts)
      → p.vms.poisoned ≡ false
      → 1 ≤ p.next_id
      → 0 < kernel_len
      → 0 < snapshot_len
      → Settled json reg nets caps streams hb p j old
          (λ h. h)
          (read_opts opts
            >>= restored_host json reg nets caps streams hb
                (take kernel_len kernel)
                (take snapshot_len snapshot)
                base
                base_len)
          (aos_vm_restore json reg nets caps streams hb p
            (some kernel)
            kernel_len
            (some snapshot)
            snapshot_len
            base
            base_len
            opts
            (some old))
  restore_registers stream_laws laws p kernel snapshot base kernel_len snapshot_len base_len old j
        opts usable low kernel_long snapshot_long =
      rw
        (restore_made p kernel snapshot base kernel_len snapshot_len base_len old opts kernel_long
          snapshot_long)
        (settle json reg nets caps streams hb p j old (λ h. h) _ usable low
          λ h made.
            let (plan, planned, restored) = bind-ok (read_opts opts) _ h made in
            restored_host-Wired json reg nets caps streams hb stream_laws laws
              (take kernel_len kernel) (take snapshot_len snapshot) base base_len plan h restored)
