-- ===== src/Error.antt =====
-- error.rs: what `set_error` stores, and `Result<_, String>`. A fixed message is its text; one that
-- the code formats is a constructor with the values that it formats.
use Prim.Native.String.{String}
use flutter_experiments.Common.{ℕ, ℤ, Bytes, ◌≡◌, refl, ◌⊎◌, inl, inr}

-- The array that a message is about: a member of the root, or a member of an item of one.
pub data Label : Type 0 where
  root_member : String → Label
  item_member : String → ℕ → String → Label

pub data Error : Type 0 where
  message : String → Error
  host_failed : String → Bytes → Error
  unknown_number : String → ℤ → Error
  unknown_word : String → ℕ → Bytes → Error
  at_item : String → ℕ → String → Error
  in_item : String → ℕ → Error → Error
  field_error : String → ℕ → String → String → Error
  not_strings : Label → Error
  not_string : Label → ℕ → Error
  refused_item : String → ℕ → Bytes → Bytes → Error
  bad_digit : ℕ → Error
  unknown_kind : Bytes → Error

pub data Result {ℓ} (A : Type ℓ) : Type ℓ where
  err : Error → Result A
  ok : A → Result A

-- `?`: the first failure ends the function.
infixl 5 ◌>>=◌
abbrev pub ◌>>=◌ {ℓ κ} : {R : Type ℓ} {S : Type κ} → Result R → (R → Result S) → Result S
err e >>= next = err e
ok r >>= next = next r

pub Result-cases {ℓ} :
    {A : Type ℓ} (m : Result A) → ((e : Error) × (m ≡ err e)) ⊎ ((a : A) × (m ≡ ok a))
Result-cases (err e) = inl (e, refl)
Result-cases (ok a) = inr (a, refl)

pub bind_assoc {ℓ κ μ} :
    {Q : Type ℓ} {R : Type κ} {S : Type μ} (m : Result Q) (f : Q → Result R) (g : R → Result S)
    → (m >>= λ q. f q >>= g) ≡ ((m >>= f) >>= g)
bind_assoc (err e) f g = refl
bind_assoc (ok q) f g = refl

-- A chain that succeeds succeeds at its first step, and goes on from there.
pub bind-ok {ℓ κ} :
    {R : Type ℓ} {S : Type κ} (m : Result R) (next : R → Result S) (s : S)
    → (m >>= next) ≡ ok s
    → (r : R) × (m ≡ ok r) × (next r ≡ ok s)
bind-ok (err e) next s h = cc
bind-ok (ok r) next s h = (r, refl, h)
