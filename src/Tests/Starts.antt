-- ===== src/Tests/Starts.antt =====
-- boot.rs over a builder that holds sinks, and a host that counts the ticks up to its prompt.
use flutter_experiments.Common.{
  ℕ, zero, suc, refl, Bool, true, false, Option, none, some, [], ◌∷◌, arith, nat_eq,
}
use flutter_experiments.Error.{ok}
use flutter_experiments.Host.{Outcome, gave}
use flutter_experiments.Tty.{TickState, runnable, waiting}
use flutter_experiments.Caps.{HostCaps}
use flutter_experiments.Boot.{read_opts}
use flutter_experiments.Boot.Sinks.{
  Stream, to_stdout, to_stderr, to_log, TeeSink, HostStreams, with_capture,
}
use flutter_experiments.Boot.Sinks.Laws.{StreamLaws}
use flutter_experiments.Boot.Start.{
  HostBuilder, boot_image, build_host, restored_host, aos_vm_restore, aos_vm_boot, aos_vm_boot_ex,
}
use flutter_experiments.Boot.Start.Wiring.{SinkLaws}
use flutter_experiments.Boot.Start.Laws.{Settled, run_boot, boot_registers}
use flutter_experiments.Boot.Start.Restore.{restore_registers}
use flutter_experiments.Table.{Process}
use flutter_experiments.Tests.OneHost.{process_of}
use flutter_experiments.Tests.Catalogs.{docs, registry, nets}

-- The sinks that were attached.
abbrev Builder : Type 0
Builder = Stream → Option TeeSink

abbrev set_stdout : TeeSink → Builder → Builder
set_stdout s b to_stdout = some s
set_stdout s b to_stderr = b to_stderr
set_stdout s b to_log = b to_log

abbrev set_stderr : TeeSink → Builder → Builder
set_stderr s b to_stdout = b to_stdout
set_stderr s b to_stderr = some s
set_stderr s b to_log = b to_log

abbrev set_log : TeeSink → Builder → Builder
set_log s b to_stdout = b to_stdout
set_log s b to_stderr = b to_stderr
set_log s b to_log = some s

abbrev streams : HostStreams Builder
streams = record {
  with_stdout = set_stdout;
  with_stderr = set_stderr;
  with_log = set_log;
  attached = λ b. b;
}

streams_lawful : StreamLaws streams
streams_lawful = record {
  stdout_set = λ s b. refl;
  stderr_set = λ s b. refl;
  log_set = λ s b. refl;
  stderr_apart = λ s b. refl;
  log_apart_stdout = λ s b. refl;
  log_apart_stderr = λ s b. refl;
}

abbrev caps : HostCaps ℕ Builder
caps = record {
  with_relay_net = λ b. b;
  with_real_net = λ n b. b;
  with_relay_host_call = λ only b. b;
  with_relay_persist = λ b. b;
}

record Guest : Type 0 where
  ticks_left : ℕ
  held : Stream → Option TeeSink

abbrev at_prompt : ℕ → Bool
at_prompt zero = true
at_prompt (suc n) = false

abbrev tick : ℕ → Outcome TickState × ℕ
tick zero = (gave waiting, 0)
tick (suc n) = (gave runnable, n)

abbrev builder : HostBuilder Builder Guest
builder = record {
  new_builder = λ wasm s. none;
  with_layers = λ layers b. b;
  with_base_image = λ base b. b;
  deterministic = λ b. b;
  with_contract = λ c b. b;
  with_workers = λ w b. b;
  build = λ b. gave (record { ticks_left = 3; held = b });
  restore = λ snap b. gave (record { ticks_left = 3; held = b });
  restore_incremental = λ snap base b. gave (record { ticks_left = 2; held = b });
  tick = λ g. ((tick g.ticks_left).0, record g { ticks_left = (tick g.ticks_left).1 });
  at_prompt = λ g. at_prompt g.ticks_left;
  written = λ g. (to_stdout, 104 ∷ []) ∷ (to_log, 105 ∷ []) ∷ [];
  sinks = λ g. g.held;
}

sinks_lawful : SinkLaws streams builder
sinks_lawful = record {
  built = λ b h s e. cc;
  restored = λ snap b h s e. cc;
  restored_incremental = λ snap base b h s e. cc;
  ticked = λ h s. refl;
}

-- A guest that holds the sinks of `with_capture`.
abbrev guest : ℕ → Guest
guest n = record { ticks_left = n; held = with_capture streams (λ s. none) }

abbrev p : Process Guest
p = process_of (guest 0)

boot_registers_example :
    Settled docs registry nets caps streams builder p 1 0
      (run_boot docs registry nets caps streams builder)
      (ok (guest 3))
      (aos_vm_boot_ex docs registry nets caps streams builder p
        (some (0 ∷ 97 ∷ []))
        2
        none
        (some 0))
    × Settled docs registry nets caps streams builder p 1 0
        (run_boot docs registry nets caps streams builder)
        (ok (guest 3))
        (aos_vm_boot docs registry nets caps streams builder p
          (some (0 ∷ 97 ∷ []))
          2
          (some (1 ∷ []))
          1
          (some 0))
unfolding read_opts build_host boot_image
boot_registers_example =
    boot_registers docs registry nets caps streams builder streams_lawful sinks_lawful p
      (0 ∷ 97 ∷ []) (some (1 ∷ [])) 2 1 0 1 none refl (omega arith) (omega arith)

-- A restored host is two ticks from its prompt, and stays there.
restore_registers_example :
    Settled docs registry nets caps streams builder p 2 0
      (λ h. h)
      (ok (guest 2))
      (aos_vm_restore docs registry nets caps streams builder p
        (some (0 ∷ 97 ∷ []))
        2
        (some (5 ∷ 6 ∷ []))
        2
        (some (7 ∷ []))
        1
        none
        (some 0))
unfolding read_opts restored_host
restore_registers_example =
    restore_registers docs registry nets caps streams builder streams_lawful sinks_lawful p
      (0 ∷ 97 ∷ []) (5 ∷ 6 ∷ []) (some (7 ∷ [])) 2 2 1 0 2 none refl (omega arith) (omega arith)
      (omega arith)
