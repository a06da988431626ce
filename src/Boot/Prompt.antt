-- ===== src/Boot/Prompt.antt =====
-- boot.rs `tick_toward_prompt`: how far a new machine is run.
use flutter_experiments.Common.{
  ℕ, zero, suc, ◌≤◌, ◌<◌, ◌≡◌, refl, ap, ◌⊎◌, inl, inr, Bytes, Bool, true, false, arith, Bool-cases,
}
use flutter_experiments.Host.{Outcome, gave, broke}
use flutter_experiments.Tty.{TickState, runnable, waiting, exited}
use flutter_experiments.Boot.{ends_boot, tick_at_most, tick_toward_prompt}

ends_boot-false :
    (t : Outcome TickState) (prompt : Bool)
    → ends_boot t prompt ≡ false
    → (t ≡ gave runnable) × (prompt ≡ false)
unfolding ends_boot
ends_boot-false (gave runnable) prompt e = (refl, e)
ends_boot-false (gave waiting) prompt e = cc
ends_boot-false (gave exited) prompt e = cc
ends_boot-false (broke text) prompt e = cc

ends_boot-true :
    (t : Outcome TickState) (prompt : Bool)
    → ends_boot t prompt ≡ true
    → (t ≡ gave waiting)
      ⊎ ((t ≡ gave exited) ⊎ (((text : Bytes) × (t ≡ broke text)) ⊎ (prompt ≡ true)))
unfolding ends_boot
ends_boot-true (gave runnable) prompt e = inr (inr (inr e))
ends_boot-true (gave waiting) prompt e = inl refl
ends_boot-true (gave exited) prompt e = inr (inl refl)
ends_boot-true (broke text) prompt e = inr (inr (inl (text, refl)))

module _ {H : Type 0} (tick : H → Outcome TickState × H) (at_prompt : H → Bool) where
  -- The host after `k` ticks.
  abbrev pub ticked : ℕ → H → H
  ticked zero h = h
  ticked (suc k) h = ticked k (tick h).1

  -- Whether the tick of `h` is one that ends the loop.
  abbrev pub last_tick : H → Bool
  last_tick h = ends_boot (tick h).0 (at_prompt (tick h).1)

  -- A tick after which the loop goes on.
  abbrev pub GoesOn : H → Type 0
  GoesOn h = ((tick h).0 ≡ gave runnable) × (at_prompt (tick h).1 ≡ false)

  -- A tick that ends the loop.
  abbrev pub Stops : H → Type 0
  Stops h =
      ((tick h).0 ≡ gave waiting)
      ⊎ (((tick h).0 ≡ gave exited)
          ⊎ (((text : Bytes) × ((tick h).0 ≡ broke text)) ⊎ (at_prompt (tick h).1 ≡ true)))

  earlier :
      (k : ℕ) (h : H)
      → last_tick h ≡ false
      → ((j : ℕ) → suc j < k → last_tick (ticked j (tick h).1) ≡ false)
      → (j : ℕ) → suc j < suc k
      → last_tick (ticked j h) ≡ false
  earlier k h more runs zero low = more
  earlier k h more runs (suc j) low = runs j (omega arith)

  tick_at_most_lem :
      (n : ℕ) (h : H)
      → (k : ℕ) × (k ≤ n)
        × (tick_at_most tick at_prompt n h ≡ ticked k h)
        × ((j : ℕ) → suc j < k → last_tick (ticked j h) ≡ false)
        × ((k ≡ n) ⊎ ((j : ℕ) × (suc j ≡ k) × (last_tick (ticked j h) ≡ true)))
  unfolding tick_at_most
  tick_at_most_lem zero h = (zero, omega arith, refl, λ j low. absurd (omega arith), inl refl)
  tick_at_most_lem (suc n) h = elim (Bool-cases (last_tick h)) [
    | inl last ↦ (1, omega arith, rw (last), λ j low. absurd (omega arith), inr (0, refl, last))
    | inr more ↦
        let (k, le, same, runs, end) = tick_at_most_lem n (tick h).1 in
        (suc k, omega arith, rw (more) same, earlier k h more runs, final k end)
  ]
    where
      final :
          (k : ℕ)
          → (k ≡ n) ⊎ ((j : ℕ) × (suc j ≡ k) × (last_tick (ticked j (tick h).1) ≡ true))
          → (suc k ≡ suc n) ⊎ ((j : ℕ) × (suc j ≡ suc k) × (last_tick (ticked j h) ≡ true))
      final k (inl all) = inl (ap suc all)
      final k (inr (j, e, last)) = inr (suc j, ap suc e, last)

  -- A new machine is run for some number k of ticks, 64 at most. Every tick before the last of them
  -- found the host runnable and did not leave it at the prompt. If k is below 64, then the last one
  -- found the host waiting or exited, failed, or left the host at the prompt.
  pub tick_toward_prompt_lem :
      (h : H)
      → (k : ℕ) × (k ≤ 64)
        × (tick_toward_prompt tick at_prompt h ≡ ticked k h)
        × ((j : ℕ) → suc j < k → GoesOn (ticked j h))
        × ((k ≡ 64) ⊎ ((j : ℕ) × (suc j ≡ k) × Stops (ticked j h)))
  unfolding tick_toward_prompt
  tick_toward_prompt_lem h =
      let (k, le, same, runs, end) = tick_at_most_lem 64 h in
      (k, le, same, λ j low. ends_boot-false _ _ (runs j low), final k end)
    where
      final :
          (k : ℕ)
          → (k ≡ 64) ⊎ ((j : ℕ) × (suc j ≡ k) × (last_tick (ticked j h) ≡ true))
          → (k ≡ 64) ⊎ ((j : ℕ) × (suc j ≡ k) × Stops (ticked j h))
      final k (inl all) = inl all
      final k (inr (j, e, last)) = inr (j, e, ends_boot-true _ _ last)
