-- ===== src/Boot/Start/Laws.antt =====
-- What booting leaves in the table.
use flutter_experiments.Common.{
  ℕ, ◌≡◌, ◌≤◌, ◌<◌, refl, ap, ◌∙◌, Bytes, false, Option, none, some, [], if◌then◌else◌, nat_beq,
  take, ℤ, pos, minus_one, arith,
}
use flutter_experiments.Error.{Result, err, ok, ◌>>=◌, bind-ok, bind_assoc}
use flutter_experiments.Relay.State.{new}
use flutter_experiments.Table.{Vm, Process, set_error, clear_error, next_id, insert_vm, find_vm}
use flutter_experiments.Table.Laws.{insert-find_vm}
use flutter_experiments.Host.{require_args}
use flutter_experiments.Json.{JsonLib}
use flutter_experiments.Caps.Blobs.{HostRegistry}
use flutter_experiments.Caps.{HostNet, HostCaps}
use flutter_experiments.Boot.{AosBootOpts, default_plan, read_opts, tick_toward_prompt}
use flutter_experiments.Boot.Sinks.{HostStreams}
use flutter_experiments.Boot.Sinks.Laws.{
  machine, tee_all-machine, all_written, stdout_written, stderr_written, log_written, Wired,
  StreamLaws,
}
use flutter_experiments.Boot.Start.{
  HostBuilder, build_host, new_vm, boot_vm, register, boot_image, boot_machine, boot_ex_machine,
  aos_vm_boot, aos_vm_boot_ex,
}
use flutter_experiments.Boot.Start.Wiring.{SinkLaws, build_host-Wired}

module _ {J R N B H : Type 0} (json : JsonLib J) (reg : HostRegistry R) (nets : HostNet R N)
    (caps : HostCaps N B) (streams : HostStreams B) (hb : HostBuilder B H) where
  -- The machine around a host: a new relay, and in the buffers what the host has written so far.
  abbrev pub started : H → Vm H
  started h =
      machine h new (all_written (hb.written h)) (stdout_written (hb.written h))
        (stderr_written (hb.written h)) (log_written (hb.written h))

  new_vm-started : (h : H) → Wired (hb.sinks h) → new_vm json reg nets caps streams hb h ≡ started h
  unfolding new_vm
  new_vm-started h wired = tee_all-machine (hb.sinks h) h new [] [] [] [] (hb.written h) wired

  -- What a successful start leaves, seen through the id `j`.
  abbrev pub Registered : Process H → Vm H → ℕ → ℤ × Option ℕ × Process H → Type 0
  Registered p vm j out =
      (out.0 ≡ pos 0)
      × (out.1 ≡ some p.next_id)
      × (out.2.last_error ≡ none)
      × (1 ≤ out.2.next_id)
      × (find_vm out.2 j ≡ (if nat_beq p.next_id j then ok vm else find_vm p j))

  insert_vm-last_error :
      (p : Process H) (vm : Vm H)
      → p.vms.poisoned ≡ false
      → (insert_vm (clear_error p) vm).1.last_error ≡ none
  unfolding insert_vm next_id clear_error
  insert_vm-last_error p vm usable = rw (usable)

  pub register-Registered :
      (p : Process H) (vm : Vm H) (j old : ℕ)
      → p.vms.poisoned ≡ false
      → 1 ≤ p.next_id
      → Registered p vm j
          (register json reg nets caps streams hb (clear_error p) (some old) (ok vm))
  unfolding register
  register-Registered p vm j old usable low =
      let (id, above, found) =
        insert-find_vm (clear_error p) (unfold clear_error in usable) vm j
          (unfold clear_error in low) in
      (
        refl,
        ap some (id ∙ (unfold clear_error in refl)),
        insert_vm-last_error p vm usable,
        above,
        found ∙ (unfold clear_error find_vm in refl),
      )

  -- What a start leaves, for what came of making its host: the error, or the host, run by `run`.
  abbrev pub Settled : Process H → ℕ → ℕ → (H → H) → Result H → ℤ × Option ℕ × Process H → Type 0
  Settled p j old run (err e) out = out ≡ (minus_one, some old, set_error e p)
  Settled p j old run (ok h) out = Registered p (started (run h)) j out

  pub settle :
      (p : Process H) (j old : ℕ) (run : H → H) (made : Result H)
      → p.vms.poisoned ≡ false
      → 1 ≤ p.next_id
      → ((h : H) → made ≡ ok h → Wired (hb.sinks (run h)))
      → Settled p j old run made (
          register json reg nets caps streams hb
            (clear_error p)
            (some old)
            (made >>= λ h. ok (new_vm json reg nets caps streams hb (run h))))
  unfolding register set_error clear_error
  settle p j old run (err e) usable low wired = refl
  settle p j old run (ok h) usable low wired =
      rw (new_vm-started (run h) (wired h refl))
        (register-Registered p (started (run h)) j old usable low)

  abbrev pub run_boot : H → H
  run_boot = tick_toward_prompt hb.tick hb.at_prompt

  boot_ex_made :
      (p : Process H) (kernel : Bytes) (kernel_len old : ℕ) (opts : Option AosBootOpts)
      → 0 < kernel_len
      → aos_vm_boot_ex json reg nets caps streams hb p (some kernel) kernel_len opts (some old)
        ≡ register json reg nets caps streams hb (clear_error p) (some old) (
            (read_opts opts >>= build_host json reg nets caps streams hb (take kernel_len kernel))
            >>= λ h. ok (new_vm json reg nets caps streams hb (run_boot h)))
  unfolding aos_vm_boot_ex boot_ex_machine boot_vm require_args
  boot_ex_made p kernel kernel_len old opts long =
      let nonzero : nat_beq kernel_len 0 ≡ false = ground arith in
      rw (nonzero) (
        ap (register json reg nets caps streams hb (clear_error p) (some old))
          (bind_assoc (read_opts opts) _ _))

  boot_made :
      (p : Process H) (kernel : Bytes) (image : Option Bytes) (kernel_len image_len old : ℕ)
      → 0 < kernel_len
      → aos_vm_boot json reg nets caps streams hb p
          (some kernel)
          kernel_len
          image
          image_len
          (some old)
        ≡ register json reg nets caps streams hb (clear_error p) (some old) (
            (boot_image json reg nets caps streams hb image image_len >>= λ base.
            build_host json reg nets caps streams hb
              (take kernel_len kernel)
              (record default_plan { base = base }))
            >>= λ h. ok (new_vm json reg nets caps streams hb (run_boot h)))
  unfolding aos_vm_boot boot_machine boot_vm require_args
  boot_made p kernel image kernel_len image_len old long =
      let nonzero : nat_beq kernel_len 0 ≡ false = ground arith in
      rw (nonzero) (
        ap (register json reg nets caps streams hb (clear_error p) (some old))
          (bind_assoc (boot_image json reg nets caps streams hb image image_len) _ _))

  -- For hosts that keep to `StreamLaws` and `SinkLaws`, a usable table and a counter above 0, and a
  -- kernel that is not empty. If the options are refused or `build_host` fails with the plan that they
  -- give, then `aos_vm_boot_ex` returns -1 with that error and changes nothing else. Otherwise it
  -- returns 0 with no error text and gives the counter out as the id. Under that id stands a machine with
  -- the host that was built, run toward its prompt, a new relay, and each of the four buffers holding
  -- exactly what the host has written to its streams, the combined one all of it in order. Every other
  -- id reaches what it reached before. `aos_vm_boot` does the same with the default plan and its image.
  pub boot_registers :
      (stream_laws : StreamLaws streams) (laws : SinkLaws streams hb) (p : Process H)
      (kernel : Bytes) (image : Option Bytes) (kernel_len image_len old j : ℕ)
      (opts : Option AosBootOpts)
      → p.vms.poisoned ≡ false
      → 1 ≤ p.next_id
      → 0 < kernel_len
      → Settled p j old run_boot
          (read_opts opts >>= build_host json reg nets caps streams hb (take kernel_len kernel))
          (aos_vm_boot_ex json reg nets caps streams hb p (some kernel) kernel_len opts (some old))
        × Settled p j old run_boot
            (boot_image json reg nets caps streams hb image image_len >>= λ base.
              build_host json reg nets caps streams hb
                (take kernel_len kernel)
                (record default_plan { base = base }))
            (aos_vm_boot json reg nets caps streams hb p
              (some kernel)
              kernel_len
              image
              image_len
              (some old))
  boot_registers stream_laws laws p kernel image kernel_len image_len old j opts usable low long = (
    rw (boot_ex_made p kernel kernel_len old opts long) (
        settle p j old run_boot _ usable low λ h made.
          let (plan, planned, built) = bind-ok (read_opts opts) _ h made in
          build_host-Wired json reg nets caps streams hb stream_laws laws (take kernel_len kernel)
            plan h built),
    rw (boot_made p kernel image kernel_len image_len old long) (
        settle p j old run_boot _ usable low λ h made.
          let (base, given, built) =
            bind-ok (boot_image json reg nets caps streams hb image image_len) _ h made in
          build_host-Wired json reg nets caps streams hb stream_laws laws (take kernel_len kernel)
            (record default_plan { base = base }) h built),
  )
