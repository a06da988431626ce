-- ===== src/Boot/Sinks.antt =====
-- boot.rs: `TeeSink` and `with_capture`. The machine and the host share the four buffers, which stand in
-- the machine; a sink names the two of them that it writes to.
pub mod Laws
use flutter_experiments.Common.{ℕ, Bytes, Option, none, some, List, [], ◌∷◌, ◌++◌}
use flutter_experiments.Lock.{Mutex, lock}
use flutter_experiments.Table.{Vm}

pub data Stream : Type 0 where
  to_stdout to_stderr to_log : Stream

-- The buffers that `with_capture` gets.
pub data Buffer : Type 0 where
  out_buffer stdout_buffer stderr_buffer log_buffer : Buffer

pub record TeeSink : Type 0 where
  pub a : Buffer
  pub b : Buffer

-- The methods of the builder that attach a sink to a stream, and the sink that a stream has.
pub record HostStreams (B : Type 0) : Type 0 where
  pub with_stdout : TeeSink → B → B
  pub with_stderr : TeeSink → B → B
  pub with_log : TeeSink → B → B
  pub attached : B → Stream → Option TeeSink

unfoldable pub with_capture : {B : Type 0} → HostStreams B → B → B
with_capture hs builder =
    hs.with_log (record { a = out_buffer; b = log_buffer })
      (hs.with_stderr (record { a = out_buffer; b = stderr_buffer })
        (hs.with_stdout (record { a = out_buffer; b = stdout_buffer }) builder))

unfoldable pub extend : Bytes → Mutex Bytes → Mutex Bytes
extend bytes m = elim (lock m) [ none ↦ m | some g ↦ record m { value = g ++ bytes } ]

module _ {H : Type 0} where
  -- One turn of the loop of `TeeSink::write`.
  unfoldable pub write_buffer : Buffer → Bytes → Vm H → Vm H
  unfolding extend
  write_buffer out_buffer bytes vm = record vm { out = extend bytes vm.out }
  write_buffer stdout_buffer bytes vm = record vm { out_stdout = extend bytes vm.out_stdout }
  write_buffer stderr_buffer bytes vm = record vm { out_stderr = extend bytes vm.out_stderr }
  write_buffer log_buffer bytes vm = record vm { out_log = extend bytes vm.out_log }

  -- `TeeSink::write`.
  unfoldable pub tee_write : TeeSink → Bytes → Vm H → Vm H
  unfolding write_buffer
  tee_write sink bytes vm = write_buffer sink.b bytes (write_buffer sink.a bytes vm)

  -- What the host writes to its streams, each with the sink that the host holds for it. A stream without
  -- a sink leaves the machine as it is.
  unfoldable pub tee_all : (Stream → Option TeeSink) → List (Stream × Bytes) → Vm H → Vm H
  unfolding tee_write
  tee_all sinks [] vm = vm
  tee_all sinks ((stream, bytes) ∷ writes) vm =
      tee_all sinks writes (elim (sinks stream) [ none ↦ vm | some sink ↦ tee_write sink bytes vm ])
