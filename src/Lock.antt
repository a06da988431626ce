-- ===== src/Lock.antt =====
-- `std::sync::Mutex`, as the sources use it: a lock that a panic poisoned is refused from then on.
-- Each function of the library holds a lock for the whole of a step, so a step is a function of the
-- value.
use flutter_experiments.Common.{Bool, false, Option, none, some, if◌then◌else◌}

pub record Mutex {ℓ} (A : Type ℓ) : Type ℓ where
  pub poisoned : Bool
  pub value : A

abbrev pub unlocked {ℓ} : {A : Type ℓ} → A → Mutex A
unlocked a = record { poisoned = false; value = a }

-- `lock()`.
abbrev pub lock {ℓ} : {A : Type ℓ} → Mutex A → Option A
lock m = if m.poisoned then none else some m.value
