-- ===== src/Boot/Start/Wiring.antt =====
-- Which sinks the host of a new machine holds.
use flutter_experiments.Common.{
  ℕ, zero, suc, ◌≡◌, refl, ◌∙◌, inl, inr, Bytes, Option, none, some, Bool-cases,
}
use flutter_experiments.Error.{ok, bind-ok}
use flutter_experiments.Host.{gave}
use flutter_experiments.Host.Calls.{map_host-gave}
use flutter_experiments.Json.{JsonLib}
use flutter_experiments.Caps.Blobs.{HostRegistry}
use flutter_experiments.Caps.{HostNet, HostCaps}
use flutter_experiments.Boot.{BootPlan, ends_boot, tick_at_most, tick_toward_prompt}
use flutter_experiments.Boot.Sinks.{
  Stream, to_stdout, to_stderr, to_log, TeeSink, HostStreams, with_capture,
}
use flutter_experiments.Boot.Sinks.Laws.{Wired, StreamLaws, with_capture-Wired}
use flutter_experiments.Boot.Start.{
  HostBuilder, configure, plan_caps, build_host, restore_host, restored_host,
}

module _ {B H : Type 0} (streams : HostStreams B) (hb : HostBuilder B H) where
  -- What starting a machine relies on in the hosts of the crate `host`: a new one holds the
  -- sinks that its builder had, and ticks do not replace them.
  pub record SinkLaws : Type 0 where
    pub built :
        (b : B) (h : H) (s : Stream) → hb.build b ≡ gave h → hb.sinks h s ≡ streams.attached b s
    pub restored :
        (snap : Bytes) (b : B) (h : H) (s : Stream)
        → hb.restore snap b ≡ gave h
        → hb.sinks h s ≡ streams.attached b s
    pub restored_incremental :
        (snap base : Bytes) (b : B) (h : H) (s : Stream)
        → hb.restore_incremental snap base b ≡ gave h
        → hb.sinks h s ≡ streams.attached b s
    pub ticked : (h : H) (s : Stream) → hb.sinks (hb.tick h).1 s ≡ hb.sinks h s

  -- Sinks that are those of a builder after `with_capture`.
  captured-Wired :
      (laws : StreamLaws streams) (b : B) (sinks : Stream → Option TeeSink)
      → ((s : Stream) → sinks s ≡ streams.attached (with_capture streams b) s)
      → Wired sinks
  captured-Wired laws b sinks same =
      let (out, error, log) = with_capture-Wired streams laws b in
      (same to_stdout ∙ out, same to_stderr ∙ error, same to_log ∙ log)

  tick_at_most-sinks :
      (laws : SinkLaws) (n : ℕ) (h : H) (s : Stream)
      → hb.sinks (tick_at_most hb.tick hb.at_prompt n h) s ≡ hb.sinks h s
  unfolding tick_at_most
  tick_at_most-sinks laws zero h s = refl
  tick_at_most-sinks laws (suc n) h s =
      elim (Bool-cases (ends_boot (hb.tick h).0 (hb.at_prompt (hb.tick h).1))) [
        | inl last ↦ rw (last) (laws.ticked h s)
        | inr more ↦ rw (more) (tick_at_most-sinks laws n (hb.tick h).1 s ∙ laws.ticked h s)
      ]

module _ {J R N B H : Type 0} (json : JsonLib J) (reg : HostRegistry R) (nets : HostNet R N)
    (caps : HostCaps N B) (streams : HostStreams B) (hb : HostBuilder B H) where
  pub build_host-Wired :
      (stream_laws : StreamLaws streams) (laws : SinkLaws streams hb) (wasm : Bytes)
      (plan : BootPlan) (h : H)
      → build_host json reg nets caps streams hb wasm plan ≡ ok h
      → Wired (hb.sinks (tick_toward_prompt hb.tick hb.at_prompt h))
  unfolding build_host tick_toward_prompt
  build_host-Wired stream_laws laws wasm plan h made =
      let (b, allowed, built) =
        bind-ok
          (plan_caps json reg nets caps streams hb plan
            (configure json reg nets caps streams hb wasm plan))
          _ h made in
      captured-Wired streams hb stream_laws b _ (λ s.
        tick_at_most-sinks streams hb laws 64 h s
        ∙ laws.built _ h s (map_host-gave "boot failed" _ h built))

  restore_host-Wired :
      (stream_laws : StreamLaws streams) (laws : SinkLaws streams hb) (snap : Bytes)
      (base : Option Bytes) (base_len : ℕ) (b : B) (h : H)
      → restore_host json reg nets caps streams hb snap base base_len (with_capture streams b)
        ≡ ok h
      → Wired (hb.sinks h)
  unfolding restore_host
  restore_host-Wired stream_laws laws snap base zero b h made =
      captured-Wired streams hb stream_laws b _
        (λ s. laws.restored snap _ h s (map_host-gave "restore failed" _ h made))
  restore_host-Wired stream_laws laws snap none (suc n) b h made = cc
  restore_host-Wired stream_laws laws snap (some base) (suc n) b h made =
      captured-Wired streams hb stream_laws b _
        (λ s. laws.restored_incremental snap _ _ h s (map_host-gave "restore failed" _ h made))

  pub restored_host-Wired :
      (stream_laws : StreamLaws streams) (laws : SinkLaws streams hb) (wasm snap : Bytes)
      (base : Option Bytes) (base_len : ℕ) (plan : BootPlan) (h : H)
      → restored_host json reg nets caps streams hb wasm snap base base_len plan ≡ ok h
      → Wired (hb.sinks h)
  unfolding restored_host
  restored_host-Wired stream_laws laws wasm snap base base_len plan h made =
      let (b, allowed, restored) =
        bind-ok (plan_caps json reg nets caps streams hb plan _) _ h made in
      restore_host-Wired stream_laws laws snap base base_len b h restored
