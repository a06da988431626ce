-- ===== src/Boot/Start.antt =====
-- boot.rs: `build_host`, `finish_boot`, and the entry points that make a machine. The builder of the
-- crate `host` is a parameter.
pub mod Wiring
pub mod Laws
pub mod Restore
use Prim.Native.String.{String}
use flutter_experiments.Common.{
  ℕ, zero, suc, Bytes, Bool, true, false, Option, none, some, List, [], if◌then◌else◌, ◌||◌, ◌&&◌,
  not, ℤ, pos, minus_one, is_empty, nat_beq,
}
use flutter_experiments.Error.{Error, message, host_failed, Result, ok, err, ◌>>=◌}
use flutter_experiments.Lock.{Mutex, unlocked}
use flutter_experiments.Buf.{is_null}
use flutter_experiments.Relay.State.{RelayState, new}
use flutter_experiments.Table.{Vm, Process, set_error, clear_error, insert_vm}
use flutter_experiments.Host.{Outcome, map_host, slice, require_args, write_if}
use flutter_experiments.Tty.{TickState}
use flutter_experiments.Json.{JsonLib}
use flutter_experiments.Caps.Blobs.{HostRegistry}
use flutter_experiments.Caps.{HostNet, HostCaps, apply_boot_caps}
use flutter_experiments.Boot.{AosBootOpts, BootPlan, default_plan, read_opts, tick_toward_prompt}
use flutter_experiments.Boot.Sinks.{Stream, TeeSink, HostStreams, with_capture, tee_all}

-- The rest of `KernelHostBuilder`, and of the host that it builds. `written` is what the host has
-- written to its streams so far, `sinks` the sink that it holds for each.
pub record HostBuilder (B H : Type 0) : Type 0 where
  pub new_builder : Bytes → B
  pub with_layers : List Bytes → B → B
  pub with_base_image : Option Bytes → B → B
  pub deterministic : B → B
  pub with_contract : ℤ × ℤ × ℤ → B → B
  pub with_workers : ℤ → B → B
  pub build : B → Outcome H
  pub restore : Bytes → B → Outcome H
  pub restore_incremental : Bytes → Bytes → B → Outcome H
  pub tick : H → Outcome TickState × H
  pub at_prompt : H → Bool
  pub written : H → List (Stream × Bytes)
  pub sinks : H → Stream → Option TeeSink

-- `if let Some(w) = ..`.
abbrev pub with_option {ℓ κ} : {A : Type ℓ} {B : Type κ} → (A → B → B) → Option A → B → B
with_option f none b = b
with_option f (some a) b = f a b

module _ {J R N B H : Type 0} (json : JsonLib J) (reg : HostRegistry R) (nets : HostNet R N) where
  module _ (caps : HostCaps N B) (streams : HostStreams B) (hb : HostBuilder B H) where
    -- Image or layers, and the options that `build_host` sets before the capabilities.
    unfoldable pub configure : Bytes → BootPlan → B
    configure wasm plan = with_option hb.with_workers plan.workers (
        with_option hb.with_contract plan.contract (
          let b =
            if not (is_empty plan.layers)
            then hb.with_layers plan.layers (hb.new_builder wasm)
            else hb.with_base_image plan.base (hb.new_builder wasm) in
          if plan.deterministic then hb.deterministic b else b))

    unfoldable pub plan_caps : BootPlan → B → Result B
    unfolding apply_boot_caps
    plan_caps plan builder =
        apply_boot_caps json reg nets caps plan.net plan.host_call plan.host_call_sidecar_only
          plan.persist plan.tool_approval plan.connections plan.policies builder

    unfoldable pub build_host : Bytes → BootPlan → Result H
    unfolding configure plan_caps with_capture map_host
    build_host wasm plan = do
      builder ← plan_caps plan (configure wasm plan)
      map_host "boot failed" (λ h. h) (hb.build (with_capture streams builder))

    -- The machine around a host, with a new relay, and buffers that were new before the host was made.
    unfoldable pub new_vm : H → Vm H
    unfolding tee_all
    new_vm h = tee_all (hb.sinks h) (hb.written h) record {
      host = unlocked h;
      out = unlocked [];
      out_stdout = unlocked [];
      out_stderr = unlocked [];
      out_log = unlocked [];
      relay = unlocked new;
    }

    -- `finish_boot` before the machine enters the table.
    unfoldable pub boot_vm : Bytes → BootPlan → Result (Vm H)
    unfolding build_host tick_toward_prompt new_vm
    boot_vm wasm plan = do
      h ← build_host wasm plan
      ok (new_vm (tick_toward_prompt hb.tick hb.at_prompt h))

    -- The machine enters the table, and its id the caller's cell.
    unfoldable pub register : Process H → Option ℕ → Result (Vm H) → ℤ × Option ℕ × Process H
    unfolding set_error insert_vm
    register p out_vm (err e) = (minus_one, out_vm, set_error e p)
    register p out_vm (ok vm) = let (id, q) = insert_vm p vm in (pos 0, write_if out_vm id, q)

    unfoldable pub boot_image : Option Bytes → ℕ → Result (Option Bytes)
    boot_image image zero = ok none
    boot_image none (suc n) = err (message "aos_vm_boot: image_len > 0 but image is null")
    boot_image (some region) (suc n) = ok (some (slice (some region) (suc n)))

    unfoldable pub boot_machine : Option Bytes → ℕ → Option Bytes → ℕ → Bool → Result (Vm H)
    unfolding require_args boot_image boot_vm
    boot_machine kernel kernel_len image image_len missing = do
      fine ←
          require_args "aos_vm_boot: null or empty kernel"
            (is_null kernel || (missing || nat_beq kernel_len 0))
      base ← boot_image image image_len
      boot_vm (slice kernel kernel_len) (record default_plan { base = base })

    unfoldable pub aos_vm_boot :
        Process H → Option Bytes → ℕ → Option Bytes → ℕ → Option ℕ → ℤ × Option ℕ × Process H
    unfolding clear_error boot_machine register
    aos_vm_boot p kernel kernel_len image image_len out_vm =
        register (clear_error p) out_vm
          (boot_machine kernel kernel_len image image_len (is_null out_vm))

    unfoldable pub boot_ex_machine : Option Bytes → ℕ → Option AosBootOpts → Bool → Result (Vm H)
    unfolding require_args read_opts boot_vm
    boot_ex_machine kernel kernel_len opts missing = do
      fine ←
          require_args "aos_vm_boot_ex: null or empty kernel"
            (is_null kernel || (missing || nat_beq kernel_len 0))
      plan ← read_opts opts
      boot_vm (slice kernel kernel_len) plan

    unfoldable pub aos_vm_boot_ex :
        Process H → Option Bytes → ℕ → Option AosBootOpts → Option ℕ → ℤ × Option ℕ × Process H
    unfolding clear_error boot_ex_machine register
    aos_vm_boot_ex p kernel kernel_len opts out_vm =
        register (clear_error p) out_vm (boot_ex_machine kernel kernel_len opts (is_null out_vm))

    -- The host of a restored machine: with a base snapshot, or without.
    unfoldable pub restore_host : Bytes → Option Bytes → ℕ → B → Result H
    unfolding map_host
    restore_host snap base zero builder =
        map_host "restore failed" (λ h. h) (hb.restore snap builder)
    restore_host snap none (suc n) builder = err (message "base_snapshot_len > 0 but pointer null")
    restore_host snap (some region) (suc n) builder =
        map_host "restore failed" (λ h. h)
          (hb.restore_incremental snap (slice (some region) (suc n)) builder)

    -- Of the plan, restoring takes neither image nor layers nor contract.
    unfoldable pub restored_host : Bytes → Bytes → Option Bytes → ℕ → BootPlan → Result H
    unfolding plan_caps with_capture restore_host
    restored_host wasm snap base base_len plan = do
      builder ← plan_caps plan (
          with_option hb.with_workers plan.workers
            (let b = hb.new_builder wasm in if plan.deterministic then hb.deterministic b else b))
      restore_host snap base base_len (with_capture streams builder)

    unfoldable pub restored_vm : Bytes → Bytes → Option Bytes → ℕ → BootPlan → Result (Vm H)
    unfolding restored_host new_vm
    restored_vm wasm snap base base_len plan = do
      h ← restored_host wasm snap base base_len plan
      ok (new_vm h)

    unfoldable pub restore_machine :
        Option Bytes
        → ℕ
        → Option Bytes
        → ℕ
        → Option Bytes
        → ℕ
        → Option AosBootOpts
        → Bool
        → Result (Vm H)
    unfolding require_args read_opts restored_vm
    restore_machine kernel kernel_len snapshot snapshot_len base base_len opts missing = do
      fine ← require_args "aos_vm_restore: invalid args" (
          is_null kernel
          || (is_null snapshot || (missing || (nat_beq kernel_len 0 || nat_beq snapshot_len 0))))
      plan ← read_opts opts
      restored_vm (slice kernel kernel_len) (slice snapshot snapshot_len) base base_len plan

    unfoldable pub aos_vm_restore :
        Process H
        → Option Bytes
        → ℕ
        → Option Bytes
        → ℕ
        → Option Bytes
        → ℕ
        → Option AosBootOpts
        → Option ℕ
        → ℤ × Option ℕ × Process H
    unfolding clear_error restore_machine register
    aos_vm_restore p kernel kernel_len snapshot snapshot_len base base_len opts out_vm =
        register (clear_error p) out_vm (
          restore_machine kernel kernel_len snapshot snapshot_len base base_len opts
            (is_null out_vm))
