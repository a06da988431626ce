-- ===== src/Tty/Ticks.antt =====
-- tty.rs `aos_vm_tick_n`: how a run of ticks splits into shorter runs.
use flutter_experiments.Common.{
  ℕ, zero, suc, ◌+◌, ◌≡◌, refl, sym, false, ℤ, pos, negsuc, not, ◌==◌, int_eq, arith, if◌then◌else◌,
}
use flutter_experiments.Error.{Error, Result, ok, err}
use flutter_experiments.Host.{Outcome}
use flutter_experiments.Tty.{TickState, tick_once, tick_loop}

zero_add : (m : ℕ) → 0 + m ≡ m
zero_add m = omega arith

suc_add : (n m : ℕ) → suc n + m ≡ suc (n + m)
suc_add n m = omega arith

nonzero : (k : ℕ) → (pos (suc k) == pos 0) ≡ false
nonzero k = ground arith

module _ {H : Type 0} (tick : H → Outcome TickState × H) where
  -- What a run goes on with: it goes on only from a runnable state.
  pub go_on : ℕ → Result ℤ × H → Result ℤ × H
  go_on m (ok (pos zero), h) = tick_loop tick m (pos 0) h
  go_on m (ok (pos (suc k)), h) = (ok (pos (suc k)), h)
  go_on m (ok (negsuc k), h) = (ok (negsuc k), h)
  go_on m (err e, h) = (err e, h)

  loop_broke :
      (n : ℕ) (last : ℤ) (h : H) (e : Error)
      → (tick_once tick h).0 ≡ err e
      → tick_loop tick (suc n) last h ≡ (err e, (tick_once tick h).1)
  unfolding tick_loop
  loop_broke n last h e broke = rw (broke, tick_loop)

  loop_gave :
      (n : ℕ) (last : ℤ) (h : H) (state : ℤ)
      → (tick_once tick h).0 ≡ ok state
      → tick_loop tick (suc n) last h ≡ (
          if not (state == pos 0)
          then (ok state, (tick_once tick h).1)
          else tick_loop tick n state (tick_once tick h).1)
  unfolding tick_loop
  loop_gave n last h state gave = rw (gave, tick_loop)

  go_on_stopped :
      (m : ℕ) (state : ℤ) (h : H) → state == pos 0 ≡ false → go_on m (ok state, h) ≡ (ok state, h)
  unfolding go_on
  go_on_stopped m (pos zero) h stopped = cc
  go_on_stopped m (pos (suc k)) h stopped = refl
  go_on_stopped m (negsuc k) h stopped = refl

  go_on_broke : (m : ℕ) (e : Error) (h : H) → go_on m (err e, h) ≡ (err e, h)
  unfolding go_on
  go_on_broke m e h = refl

  -- The first tick of a run, where the rest of a runnable one splits.
  split_first :
      (n m : ℕ) (last : ℤ) (h : H)
      → tick_loop tick (n + m) (pos 0) (tick_once tick h).1
        ≡ go_on m (tick_loop tick n (pos 0) (tick_once tick h).1)
      → tick_loop tick (suc (n + m)) last h ≡ go_on m (tick_loop tick (suc n) last h)
  split_first n m last h splits = go (tick_once tick h).0 refl
    where
      stopped :
          (state : ℤ)
          → (tick_once tick h).0 ≡ ok state
          → state == pos 0 ≡ false
          → tick_loop tick (suc (n + m)) last h ≡ go_on m (tick_loop tick (suc n) last h)
      stopped state gave halt =
          rw (loop_gave (n + m) last h state gave, loop_gave n last h state gave, halt)
            (sym (go_on_stopped m state (tick_once tick h).1 halt))

      go :
          (res : Result ℤ)
          → (tick_once tick h).0 ≡ res
          → tick_loop tick (suc (n + m)) last h ≡ go_on m (tick_loop tick (suc n) last h)
      go (err e) broke =
          rw (loop_broke (n + m) last h e broke, loop_broke n last h e broke)
            (sym (go_on_broke m e (tick_once tick h).1))
      go (ok (pos zero)) gave =
          rw (loop_gave (n + m) last h (pos 0) gave, loop_gave n last h (pos 0) gave) splits
      go (ok (pos (suc k))) gave = stopped (pos (suc k)) gave (nonzero k)
      go (ok (negsuc k)) gave = stopped (negsuc k) gave refl

  zero_runs :
      (m : ℕ) (h : H)
      → go_on m (tick_loop tick 0 (pos 0) (tick_once tick h).1)
        ≡ tick_loop tick m (pos 0) (tick_once tick h).1
  unfolding go_on tick_loop
  zero_runs m h = refl

  -- A run of n + 1 + m ticks ends as a run of n + 1 ticks that goes on with m more only
  -- if it ended runnable; a wait, an exit or a failure among the first n + 1 ends the whole run there.
  pub tick_loop-add :
      (n m : ℕ) (last : ℤ) (h : H)
      → tick_loop tick (suc (n + m)) last h ≡ go_on m (tick_loop tick (suc n) last h)
  tick_loop-add zero m last h = split_first zero m last h (rw (zero_add m) (sym (zero_runs m h)))
  tick_loop-add (suc n) m last h =
      split_first (suc n) m last h
        (rw (suc_add n m) (tick_loop-add n m (pos 0) (tick_once tick h).1))
