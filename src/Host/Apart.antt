-- ===== src/Host/Apart.antt =====
-- A call on one machine and the other machines of the table.
use Prim.Native.String.{String}
use flutter_experiments.Common.{ℕ, ◌≡◌, refl, ap, ◌∙◌, inl, inr, false, nat_beq, arith, nat_eq}
use flutter_experiments.Common.Dict.{lookup-insert}
use flutter_experiments.Error.{Error, Result, ok, err, Result-cases}
use flutter_experiments.Table.{
  Vm, Process, set_error, clear_error, find_vm, put_vm, with_vm, with_host_mut,
}
use flutter_experiments.Table.Access.{with_vm_found, with_vm_missing}
use flutter_experiments.Host.{Outcome, host_call}

module _ {H : Type 0} where
  -- The id `j` reaches in `q` what it reaches in `p`.
  abbrev pub Untouched : Process H → ℕ → Process H → Type 0
  Untouched p j q = find_vm q j ≡ find_vm p j

  pub set_error-Untouched :
      (p q : Process H) (j : ℕ) (e : Error) → Untouched p j q → Untouched p j (set_error e q)
  unfolding find_vm set_error
  set_error-Untouched p q j e same = same

  pub clear_error-Untouched : (p : Process H) (j : ℕ) → Untouched p j (clear_error p)
  unfolding find_vm clear_error
  clear_error-Untouched p j = refl

  put_vm-Untouched :
      (p : Process H) (id j : ℕ) (vm : Vm H) → nat_beq id j ≡ false → Untouched p j (put_vm p id vm)
  unfolding find_vm put_vm
  put_vm-Untouched p id j vm other = ground (arith, lookup-insert id j vm p.vms.value)

  with_vm-Untouched {ℓ} :
      {R : Type ℓ} (p : Process H) (id j : ℕ) (f : Vm H → Result R × Vm H)
      → nat_beq id j ≡ false
      → Untouched p j (with_vm p id f).1
  with_vm-Untouched p id j f other = elim (Result-cases (find_vm p id)) [
    | inl (e, missing) ↦ rw (with_vm_missing p id e f missing)
    | inr (vm, found) ↦ rw (with_vm_found p id vm f found) (put_vm-Untouched p id j (f vm).1 other)
  ]

  pub with_host_mut-Untouched {ℓ} :
      {R : Type ℓ} (p : Process H) (id j : ℕ) (f : H → Result R × H)
      → nat_beq id j ≡ false
      → Untouched p j (with_host_mut (clear_error p) id f).1
  unfolding with_host_mut
  with_host_mut-Untouched p id j f other =
      with_vm-Untouched (clear_error p) id j _ other ∙ clear_error-Untouched p j

  pub host_call-Untouched {ℓ κ} :
      {A : Type ℓ} {R : Type κ} (p : Process H) (id j : ℕ) (args : Result A) (what : String)
      (f : A → H → Outcome R × H)
      → nat_beq id j ≡ false
      → Untouched p j (host_call p id args what f).1
  unfolding host_call
  host_call-Untouched p id j (err e) what f other = clear_error-Untouched p j
  host_call-Untouched p id j (ok a) what f other = with_host_mut-Untouched p id j _ other

  -- What an entry point makes of the result of its call: the process comes from the call, with at most
  -- an error text.
  pub settled-Untouched {ℓ κ} :
      {R : Type ℓ} {X : Type κ} (p : Process H) (j : ℕ) (give : Result R × Process H → X)
      (left : X → Process H) (out : Result R × Process H)
      → ((e : Error) (q : Process H) → left (give (err e, q)) ≡ set_error e q)
      → ((r : R) (q : Process H) → find_vm (left (give (ok r, q))) j ≡ find_vm q j)
      → Untouched p j out.1
      → Untouched p j (left (give out))
  settled-Untouched p j give left (err e, q) failed went same =
      ap (λ t. find_vm t j) (failed e q) ∙ set_error-Untouched p q j e same
  settled-Untouched p j give left (ok r, q) failed went same = went r q ∙ same
