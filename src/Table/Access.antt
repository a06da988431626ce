-- ===== src/Table/Access.antt =====
-- The table of machines from inside a call: what `with_vm` finds, and what it writes back.
use flutter_experiments.Common.{
  ℕ, ◌≡◌, refl, inl, inr, Option-cases, some, List, [], ◌∷◌, arith, nat_eq,
}
use flutter_experiments.Common.Dict.{lookup, insert, lookup-insert_self}
use flutter_experiments.Error.{Error, Result, ok, err}
use flutter_experiments.Table.{Vm, Process, find_vm, put_vm, with_vm}

insert_found :
    {V : Type 0} (k : ℕ) (v : V) (m : List (ℕ × V)) → lookup k m ≡ some v → insert k v m ≡ m
unfolding lookup insert
insert_found k v [] e = cc
insert_found k v ((j, w) ∷ m) e = ground (arith, insert_found k v m)

module _ {H : Type 0} where
  pub put_vm_found :
      (p : Process H) (id : ℕ) (vm : Vm H) → find_vm p id ≡ ok vm → put_vm p id vm ≡ p
  unfolding find_vm put_vm
  put_vm_found p id vm found = elim (Option-cases (lookup id p.vms.value)) [
    | inl e ↦ ground (arith, e)
    | inr (v, e) ↦ ground (arith, insert_found id v p.vms.value e)
  ]

  pub with_vm_found {ℓ} :
      {R : Type ℓ} (p : Process H) (id : ℕ) (vm : Vm H) (f : Vm H → Result R × Vm H)
      → find_vm p id ≡ ok vm
      → with_vm p id f ≡ ((f vm).0, put_vm p id (f vm).1)
  unfolding with_vm
  with_vm_found p id vm f found = rw (found, with_vm)

  pub with_vm_missing {ℓ} :
      {R : Type ℓ} (p : Process H) (id : ℕ) (e : Error) (f : Vm H → Result R × Vm H)
      → find_vm p id ≡ err e
      → with_vm p id f ≡ (err e, p)
  unfolding with_vm
  with_vm_missing p id e f missing = rw (missing, with_vm)

  pub put_vm-last_error :
      (p : Process H) (id : ℕ) (vm : Vm H) → (put_vm p id vm).last_error ≡ p.last_error
  unfolding put_vm
  put_vm-last_error p id vm = refl

  pub find_vm-put_vm :
      (p : Process H) (id : ℕ) (vm new_vm : Vm H)
      → find_vm p id ≡ ok vm
      → find_vm (put_vm p id new_vm) id ≡ ok new_vm
  unfolding find_vm put_vm
  find_vm-put_vm p id vm new_vm found = ground (arith, lookup-insert_self id new_vm p.vms.value)
