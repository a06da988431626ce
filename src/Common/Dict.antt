-- ===== src/Common/Dict.antt =====
-- `std::collections::HashMap` as an association list: `get`, `insert` and `remove`, with their laws.
use mathlib.Core.Path.{◌≡◌, refl}
use mathlib.Core.Option.{Option, none, some}
use mathlib.Core.List.{List, [], ◌∷◌}
use native.Mathlib.Omega.{arith}
use flutter_experiments.Common.Tests.{if◌then◌else◌}
use flutter_experiments.Common.Classes.{Eq, ◌==◌}

module _ {ℓ κ} {K : Type ℓ} {V : Type κ} ⦃e : Eq K⦄ where
  unfoldable pub lookup : K → List (K × V) → Option V
  lookup key [] = none
  lookup key ((k, value) ∷ rest) = if k == key then some value else lookup key rest

  -- The value of a key that is there is replaced in its place.
  unfoldable pub insert : K → V → List (K × V) → List (K × V)
  insert key value [] = (key, value) ∷ []
  insert key value ((k, old) ∷ rest) =
      if k == key then (key, value) ∷ rest else (k, old) ∷ insert key value rest

  unfoldable pub remove : K → List (K × V) → List (K × V)
  remove k [] = []
  remove k ((j, w) ∷ m) = let rest = remove k m in if j == k then rest else (j, w) ∷ rest

  pub lookup-insert :
      (key k : K) (value : V) (entries : List (K × V))
      → lookup k (insert key value entries) ≡ (if key == k then some value else lookup k entries)
  unfolding lookup insert
  lookup-insert key k value [] = refl
  lookup-insert key k value ((i, old) ∷ rest) =
      ground
        (arith, lookup-insert key k value rest, e.beq_iff i key, e.beq_iff i k, e.beq_iff key k)

  pub lookup-insert_self : (k : K) (v : V) (m : List (K × V)) → lookup k (insert k v m) ≡ some v
  lookup-insert_self k v m = rw (lookup-insert, (e.beq_iff k k).1 refl)

  pub lookup-remove :
      (k j : K) (m : List (K × V)) → lookup j (remove k m) ≡ (if k == j then none else lookup j m)
  unfolding lookup remove
  lookup-remove k j [] = ground arith
  lookup-remove k j ((i, w) ∷ m) =
      ground (arith, e.beq_iff k j, e.beq_iff i k, e.beq_iff i j, lookup-remove k j m)

  -- Every entry satisfies `P`.
  abbrev pub AllEntries {μ} : (K → V → Type μ) → List (K × V) → Type μ
  AllEntries P [] = Unit
  AllEntries P ((k, v) ∷ m) = P k v × AllEntries P m

  pub AllEntries-lookup {μ} :
      (P : K → V → Type μ) (k : K) (v : V) (m : List (K × V))
      → AllEntries P m
      → lookup k m ≡ some v
      → P k v
  unfolding lookup
  AllEntries-lookup P k v [] a h = cc
  AllEntries-lookup P k v ((j, w) ∷ m) a h =
      ground (arith, e.beq_iff j k, AllEntries-lookup P k v m a.1)

  pub AllEntries-insert {μ} :
      (P : K → V → Type μ) (k : K) (v : V) (m : List (K × V))
      → AllEntries P m
      → P k v
      → AllEntries P (insert k v m)
  unfolding insert
  AllEntries-insert P k v [] a h = (h, tt)
  AllEntries-insert P k v ((j, w) ∷ m) a h = ground (arith, AllEntries-insert P k v m a.1)

  -- A changed entry, as `get_mut` leaves it.
  pub AllEntries-modify {μ} :
      (P : K → V → Type μ) (k : K) {v w : V} (m : List (K × V))
      → lookup k m ≡ some v
      → (P k v → P k w)
      → AllEntries P m
      → AllEntries P (insert k w m)
  AllEntries-modify P k m h f a = AllEntries-insert P k _ m a (f (AllEntries-lookup P k _ m a h))

  pub AllEntries-remove {μ} :
      (P : K → V → Type μ) (k : K) (m : List (K × V)) → AllEntries P m → AllEntries P (remove k m)
  unfolding remove
  AllEntries-remove P k [] a = tt
  AllEntries-remove P k ((j, w) ∷ m) a = ground (arith, AllEntries-remove P k m a.1)

  pub AllEntries-map {μ ν} :
      (P : K → V → Type μ) (Q : K → V → Type ν)
      → ((k : K) (v : V) → P k v → Q k v)
      → (m : List (K × V)) → AllEntries P m
      → AllEntries Q m
  AllEntries-map P Q f [] a = tt
  AllEntries-map P Q f ((k, v) ∷ m) a = (f k v a.0, AllEntries-map P Q f m a.1)
