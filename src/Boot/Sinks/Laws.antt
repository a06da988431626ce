-- ===== src/Boot/Sinks/Laws.antt =====
-- What the sinks of a new machine hold after the host has written to its streams.
use flutter_experiments.Common.{
  ◌≡◌, ◌∙◌, Bytes, Option, some, List, [], ◌∷◌, ◌++◌, append_assoc, append-nil,
}
use flutter_experiments.Lock.{unlocked}
use flutter_experiments.Relay.State.{RelayState}
use flutter_experiments.Table.{Vm}
use flutter_experiments.Boot.Sinks.{
  Stream, to_stdout, to_stderr, to_log, out_buffer, stdout_buffer, stderr_buffer, log_buffer,
  TeeSink, HostStreams, with_capture, extend, write_buffer, tee_write, tee_all,
}

-- All that was written, in order.
abbrev pub all_written : List (Stream × Bytes) → Bytes
all_written [] = []
all_written ((stream, bytes) ∷ writes) = bytes ++ all_written writes

-- What was written to one of the streams, in order.
abbrev pub stdout_written : List (Stream × Bytes) → Bytes
stdout_written [] = []
stdout_written ((to_stdout, bytes) ∷ writes) = bytes ++ stdout_written writes
stdout_written ((to_stderr, bytes) ∷ writes) = stdout_written writes
stdout_written ((to_log, bytes) ∷ writes) = stdout_written writes

abbrev pub stderr_written : List (Stream × Bytes) → Bytes
stderr_written [] = []
stderr_written ((to_stdout, bytes) ∷ writes) = stderr_written writes
stderr_written ((to_stderr, bytes) ∷ writes) = bytes ++ stderr_written writes
stderr_written ((to_log, bytes) ∷ writes) = stderr_written writes

abbrev pub log_written : List (Stream × Bytes) → Bytes
log_written [] = []
log_written ((to_stdout, bytes) ∷ writes) = log_written writes
log_written ((to_stderr, bytes) ∷ writes) = log_written writes
log_written ((to_log, bytes) ∷ writes) = bytes ++ log_written writes

-- A machine with usable locks.
abbrev pub machine : {H : Type 0} → H → RelayState → Bytes → Bytes → Bytes → Bytes → Vm H
machine h relay out out_stdout out_stderr out_log = record {
  host = unlocked h;
  out = unlocked out;
  out_stdout = unlocked out_stdout;
  out_stderr = unlocked out_stderr;
  out_log = unlocked out_log;
  relay = unlocked relay;
}

-- The sinks that `with_capture` asks for: every stream goes to the combined buffer and to its own.
abbrev pub Wired : (Stream → Option TeeSink) → Type 0
Wired sinks =
    (sinks to_stdout ≡ some (record { a = out_buffer; b = stdout_buffer }))
    × (sinks to_stderr ≡ some (record { a = out_buffer; b = stderr_buffer }))
    × (sinks to_log ≡ some (record { a = out_buffer; b = log_buffer }))

pub tee_all-machine :
    {H : Type 0} (sinks : Stream → Option TeeSink) (h : H) (r : RelayState) (a b c d : Bytes)
    (writes : List (Stream × Bytes))
    → Wired sinks
    → tee_all sinks writes (machine h r a b c d)
      ≡ machine h r
          (a ++ all_written writes)
          (b ++ stdout_written writes)
          (c ++ stderr_written writes)
          (d ++ log_written writes)
unfolding tee_all tee_write write_buffer extend
tee_all-machine sinks h r a b c d [] wired =
    rw (append-nil a, append-nil b, append-nil c, append-nil d)
tee_all-machine sinks h r a b c d ((to_stdout, bytes) ∷ writes) wired = rw (wired.0) (
    tee_all-machine sinks h r (a ++ bytes) (b ++ bytes) c d writes wired
    ∙ rw (append_assoc a bytes (all_written writes), append_assoc b bytes (stdout_written writes)))
tee_all-machine sinks h r a b c d ((to_stderr, bytes) ∷ writes) wired = rw (wired.1) (
    tee_all-machine sinks h r (a ++ bytes) b (c ++ bytes) d writes wired
    ∙ rw (append_assoc a bytes (all_written writes), append_assoc c bytes (stderr_written writes)))
tee_all-machine sinks h r a b c d ((to_log, bytes) ∷ writes) wired = rw (wired.2) (
    tee_all-machine sinks h r (a ++ bytes) b c (d ++ bytes) writes wired
    ∙ rw (append_assoc a bytes (all_written writes), append_assoc d bytes (log_written writes)))

-- What `with_capture` relies on in the builder of the crate `host`: a method sets its own
-- stream's sink and leaves those of the others.
pub record StreamLaws {B : Type 0} (hs : HostStreams B) : Type 0 where
  pub stdout_set : (s : TeeSink) (b : B) → hs.attached (hs.with_stdout s b) to_stdout ≡ some s
  pub stderr_set : (s : TeeSink) (b : B) → hs.attached (hs.with_stderr s b) to_stderr ≡ some s
  pub log_set : (s : TeeSink) (b : B) → hs.attached (hs.with_log s b) to_log ≡ some s
  pub stderr_apart :
      (s : TeeSink) (b : B) → hs.attached (hs.with_stderr s b) to_stdout ≡ hs.attached b to_stdout
  pub log_apart_stdout :
      (s : TeeSink) (b : B) → hs.attached (hs.with_log s b) to_stdout ≡ hs.attached b to_stdout
  pub log_apart_stderr :
      (s : TeeSink) (b : B) → hs.attached (hs.with_log s b) to_stderr ≡ hs.attached b to_stderr

pub with_capture-Wired :
    {B : Type 0} (hs : HostStreams B) (laws : StreamLaws hs) (b : B)
    → Wired (hs.attached (with_capture hs b))
unfolding with_capture
with_capture-Wired hs laws b = (
  laws.log_apart_stdout _ _ ∙ (laws.stderr_apart _ _ ∙ laws.stdout_set _ _),
  laws.log_apart_stderr _ _ ∙ laws.stderr_set _ _,
  laws.log_set _ _,
)
