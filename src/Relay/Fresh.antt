-- ===== src/Relay/Fresh.antt =====
-- No overwriting: along a history shorter than the range of the counter, the handle that comes next
-- is in none of the relay's maps.
use flutter_experiments.Common.{
  ℕ, ◌+◌, ◌^◌, ◌≤◌, ◌<◌, ◌≡◌, refl, ◌∙◌, inl, inr, Bytes, Bool, none, List, [], ◌∷◌, ℤ, pos, length,
  arith, Option-cases, int_eq,
}
use flutter_experiments.Common.Dict.{lookup, AllEntries, AllEntries-lookup}
use flutter_experiments.Relay.State.{RelayState, new, alloc_handle}
use flutter_experiments.Relay.Wire.{WireRelayEvent}
use flutter_experiments.Relay.Step.{Shared, Action, step, run, replay}
use flutter_experiments.Relay.Invariant.{
  IsHandle, HttpOk, HostCallOk, PersistOk, WsOk, PendingOk, Inv, new-Inv, Inv-map,
}
use flutter_experiments.Relay.Safety.{step-Inv}
use flutter_experiments.Relay.Handles.{Below, Below-suc, step-MayAlloc, alloc_handle_lem}

-- The counter stands at `m`, and every handle in use was given out before.
record Counts (m : ℕ) (r : RelayState) : Type 0 where
  at : r.next ≡ pos m
  low : 1 ≤ m
  used : Inv (Below m) r

module _ (encode : WireRelayEvent → Bytes) (sidecar_only : Bool) where
  step-Counts :
      (s : Shared) (a : Action) (m : ℕ)
      → m + 1 < 2 ^ 31
      → Counts m s.relay
      → (n : ℕ) × (n ≤ m + 1) × Counts n (step encode sidecar_only s a).relay
  step-Counts s a m high c = elim (step-MayAlloc encode sidecar_only s a) [
    | inl same ↦ (
      m,
      omega arith,
      record {
        at = same ∙ c.at;
        low = c.low;
        used = step-Inv encode sidecar_only (Below m) s a c.used (λ e. absurd (kept same e));
      },
    )
    | inr moved ↦ (
      m + 1,
      omega arith,
      record {
        at = moved ∙ alloc.1;
        low = omega arith;
        used =
            step-Inv encode sidecar_only (Below (m + 1)) s a
              (Inv-map (Below m) (Below (m + 1)) (Below-suc m) s.relay c.used)
              (λ _. rw alloc.0 (omega arith));
      },
    )
  ]
    where
      alloc : ((alloc_handle s.relay).0 ≡ pos m) × ((alloc_handle s.relay).1.next ≡ pos (m + 1))
      alloc = alloc_handle_lem s.relay m c.at c.low high

      kept :
          (step encode sidecar_only s a).relay.next ≡ s.relay.next
          → (step encode sidecar_only s a).relay.next ≡ (alloc_handle s.relay).1.next
          → ⊥
      kept same e = ground (arith, same, e, alloc, c.at)

  run-Counts :
      (s : Shared) (history : List Action) (m : ℕ)
      → m + length history < 2 ^ 31
      → Counts m s.relay
      → (n : ℕ) × (n ≤ m + length history) × Counts n (run encode sidecar_only s history).relay
  unfolding run
  run-Counts s [] m high c = (m, omega arith, c)
  run-Counts s (a ∷ more) m high c =
      let (k, le, c') = step-Counts s a m (omega arith) c in
      let (n, le', c'') = run-Counts (step encode sidecar_only s a) more k (omega arith) c' in
      (n, omega arith, c'')

  absent {κ} :
      {V : Type κ} (m : ℕ) (P : ℤ → V → Type 0) (entries : List (ℤ × V))
      → ((k : ℤ) (v : V) → P k v → Below m k)
      → AllEntries P entries
      → lookup (pos m) entries ≡ none
  absent m P entries f a = elim (Option-cases (lookup (pos m) entries)) [
    | inl e ↦ e
    | inr (v, e) ↦ absurd (omega (arith, f (pos m) v (AllEntries-lookup P (pos m) v entries a e)))
  ]

  -- After any history of fewer than 2^31 - 2 steps, the next handle is a positive number below 2^31
  -- under which no HTTP request, host call, persist request, socket or approval is stored.
  pub replay_fresh :
      (history : List Action)
      → 2 + length history < 2 ^ 31
      → let r = replay encode sidecar_only history in
        let h = (alloc_handle r).0 in
        IsHandle h
        × (lookup h r.http ≡ none)
        × (lookup h r.host_calls ≡ none)
        × (lookup h r.persist ≡ none)
        × (lookup h r.ws ≡ none)
        × (lookup h r.pending_tool_approvals ≡ none)
  replay_fresh history high =
      let start : Counts 1 new = record {
        at = unfold new in refl;
        low = omega arith;
        used = new-Inv (Below 1);
      } in
      let (m, le, c) =
        run-Counts (record { relay = new; channels = [] }) history 1 (omega arith) start in
      let r : RelayState = replay encode sidecar_only history in
      let h = alloc_handle_lem r m c.at c.low (omega arith) in
      rw h.0 (
        (c.low, omega arith),
        absent m (HttpOk (Below m)) r.http (λ k v p. p.0) c.used.http_ok,
        absent m (HostCallOk (Below m)) r.host_calls (λ k v p. p.0) c.used.host_ok,
        absent m (PersistOk (Below m)) r.persist (λ k v p. p.0) c.used.persist_ok,
        absent m (WsOk (Below m)) r.ws (λ k v p. p.0) c.used.ws_ok,
        absent m (PendingOk (Below m)) r.pending_tool_approvals (λ k v p. p) c.used.pending_ok,
      )
