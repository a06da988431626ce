-- ===== src/Table/Laws.antt =====
-- The table of machines from its clients' side: what an id reaches, from boot to close.
use flutter_experiments.Common.{
  ℕ, ◌≤◌, ◌≡◌, refl, ◌∙◌, inl, inr, false, none, some, List, if◌then◌else◌, nat_beq, arith, pos,
  minus_one, nat_eq, Option-cases, sym,
}
use flutter_experiments.Common.Dict.{lookup, insert, remove, lookup-insert, lookup-remove}
use flutter_experiments.Error.{message, Result, ok, err}
use flutter_experiments.Lock.{lock}
use flutter_experiments.Table.{
  Vm, Process, set_error, clear_error, next_id, insert_vm, remove_vm, find_vm, aos_vm_close,
}

table_lookup : {H : Type 0} → ℕ → List (ℕ × Vm H) → Result (Vm H)
table_lookup j table =
    if nat_beq j 0
    then err (message "invalid handle")
    else elim (lookup j table) [ none ↦ err (message "unknown handle") | some vm ↦ ok vm ]

nat_beq_nonzero : (id : ℕ) → 1 ≤ id → nat_beq id 0 ≡ false
nat_beq_nonzero id low = ground arith

lookup-remove_self {ℓ} : {V : Type ℓ} (k : ℕ) (m : List (ℕ × V)) → lookup k (remove k m) ≡ none
lookup-remove_self k m = rw (lookup-remove k k m) ground arith

module _ {H : Type 0} (p : Process H) (usable : p.vms.poisoned ≡ false) where
  locked_table : lock p.vms ≡ some p.vms.value
  locked_table = rw (usable)

  find_vm_lem : (j : ℕ) → find_vm p j ≡ table_lookup j p.vms.value
  unfolding find_vm table_lookup
  find_vm_lem j = rw (locked_table, find_vm)

  insert_vm_lem :
      (vm : Vm H)
      → insert_vm p vm ≡ (
        p.next_id,
        record (next_id p).1 { vms = record (p.vms) { value = insert p.next_id vm p.vms.value } },
      )
  unfolding insert_vm next_id
  insert_vm_lem vm = rw (locked_table, insert_vm)

  remove_vm_lem :
      (id : ℕ)
      → remove_vm p id ≡ (
        lookup id p.vms.value,
        record p { vms = record (p.vms) { value = remove id p.vms.value } },
      )
  unfolding remove_vm
  remove_vm_lem id = rw (locked_table, remove_vm)

lookup_inserted :
    {H : Type 0} (id j : ℕ) (vm : Vm H) (table : List (ℕ × Vm H))
    → 1 ≤ id
    → table_lookup j (insert id vm table) ≡ (if nat_beq id j then ok vm else table_lookup j table)
unfolding table_lookup
lookup_inserted id j vm table low = ground (arith, lookup-insert id j vm table)

lookup_removed :
    {H : Type 0} (id j : ℕ) (table : List (ℕ × Vm H))
    → 1 ≤ id
    → table_lookup j (remove id table)
      ≡ (if nat_beq id j then err (message "unknown handle") else table_lookup j table)
unfolding table_lookup
lookup_removed id j table low = ground (arith, lookup-remove id j table)

module _ {H : Type 0} (p : Process H) (usable : p.vms.poisoned ≡ false) where
  -- With a usable table and a counter above 0, a new machine is found under its id, every other id
  -- reaches what it reached before, and the counter stays above 0.
  pub insert-find_vm :
      (vm : Vm H) (j : ℕ)
      → 1 ≤ p.next_id
      → let (id, q) = insert_vm p vm in
        (id ≡ p.next_id)
        × (1 ≤ q.next_id)
        × (find_vm q j ≡ (if nat_beq id j then ok vm else find_vm p j))
  insert-find_vm vm j low =
      rw (insert_vm_lem p usable vm, find_vm_lem p usable j)
        (
          refl,
          counter p,
          find_vm_lem (inserted vm) usable j ∙ lookup_inserted p.next_id j vm p.vms.value low,
        )
    where
      inserted : Vm H → Process H
      inserted vm = record (next_id p).1 {
        vms = record (p.vms) { value = insert p.next_id vm p.vms.value };
      }

      counter : (p : Process H) → 1 ≤ (next_id p).1.next_id
      counter p = unfold next_id in ground arith

  closed : ℕ → Process H
  closed id = record p { last_error = none; vms = record (p.vms) { value = remove id p.vms.value } }

  remove_vm_cleared : (id : ℕ) → remove_vm (clear_error p) id ≡ (lookup id p.vms.value, closed id)
  unfolding remove_vm clear_error closed
  remove_vm_cleared id = rw (locked_table p usable, remove_vm)

  found_entry :
      (id : ℕ) (vm : Vm H)
      → table_lookup id p.vms.value ≡ ok vm
      → (1 ≤ id) × (lookup id p.vms.value ≡ some vm)
  unfolding table_lookup
  found_entry id vm found = elim (Option-cases (lookup id p.vms.value)) [
    | inl e ↦ ground (arith, e, found)
    | inr (v, e) ↦ ground (arith, e, found)
  ]

  aos_vm_close_found :
      (id : ℕ) (vm : Vm H)
      → 1 ≤ id
      → lookup id p.vms.value ≡ some vm
      → aos_vm_close p id ≡ (pos 0, closed id)
  unfolding aos_vm_close
  aos_vm_close_found id vm low e =
      rw (nat_beq_nonzero id low, remove_vm_cleared id, e, remove_vm_cleared id)

  aos_vm_close_missing :
      (id : ℕ)
      → 1 ≤ id
      → lookup id p.vms.value ≡ none
      → (aos_vm_close p id).0 ≡ minus_one
        × (aos_vm_close p id).1.last_error ≡ some (message "aos_vm_close: unknown handle")
  unfolding aos_vm_close
  aos_vm_close_missing id low e =
      rw (nat_beq_nonzero id low, remove_vm_cleared id, set_error, e) (refl, refl)

module _ {H : Type 0} (p : Process H) (usable : p.vms.poisoned ≡ false) where
  -- With a usable table, closing a live machine succeeds with no error text; its id is unknown
  -- afterwards, every other id reaches what it reached before, and a second close fails with the
  -- text for an unknown handle.
  pub close-find_vm :
      (id j : ℕ) (vm : Vm H)
      → find_vm p id ≡ ok vm
      → let (status, q) = aos_vm_close p id in
        (status ≡ pos 0)
        × (q.last_error ≡ none)
        × (find_vm q j ≡ (if nat_beq id j then err (message "unknown handle") else find_vm p j))
        × ((aos_vm_close q id).0 ≡ minus_one)
        × ((aos_vm_close q id).1.last_error ≡ some (message "aos_vm_close: unknown handle"))
  close-find_vm id j vm live =
      let (low, e) = found_entry p usable id vm (sym (find_vm_lem p usable id) ∙ live) in
      rw (aos_vm_close_found p usable id vm low e, find_vm_lem p usable j)
        (refl, unfold closed in refl, gone low, (again low).0, (again low).1)
    where
      gone :
          1 ≤ id
          → find_vm (closed p usable id) j
            ≡ (if nat_beq id j then err (message "unknown handle") else table_lookup j p.vms.value)
      gone low =
          find_vm_lem (closed p usable id) (unfold closed in usable) j
          ∙ (unfold closed in lookup_removed id j p.vms.value low)

      again :
          1 ≤ id
          → (aos_vm_close (closed p usable id) id).0 ≡ minus_one
            × (aos_vm_close (closed p usable id) id).1.last_error
              ≡ some (message "aos_vm_close: unknown handle")
      again low =
          aos_vm_close_missing (closed p usable id) (unfold closed in usable) id low
            (unfold closed in lookup-remove_self id p.vms.value)
