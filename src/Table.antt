-- ===== src/Table.antt =====
-- table.rs and error.rs: the process-wide table of machines, the ids, and the last error. The kernel
-- host is a parameter `H`; nothing here looks into it.
pub mod Laws
pub mod Access
use flutter_experiments.Common.{
  ℕ, ◌+◌, ◌%◌, ◌^◌, Bytes, Bool, true, false, Option, none, some, List, [], ◌∷◌, if◌then◌else◌, ltb,
  nat_beq, ℤ, pos, minus_one, nat_eq,
}
use flutter_experiments.Common.Dict.{lookup, insert, remove}
use flutter_experiments.Error.{Error, message, Result, ok, err}
use flutter_experiments.Lock.{Mutex, lock}
use flutter_experiments.Relay.State.{RelayState}
use flutter_experiments.Relay.Approval.{Channels}

pub record Vm (H : Type 0) : Type 0 where
  pub host : Mutex H
  pub out : Mutex Bytes
  pub out_stdout : Mutex Bytes
  pub out_stderr : Mutex Bytes
  pub out_log : Mutex Bytes
  pub relay : Mutex RelayState

-- The statics: `NEXT_ID` (whose lock is entered even if poisoned), `VMS`, and the calling thread's
-- `LAST_ERROR`, where `none` is the empty text. `channels` are those of Relay/Approval.antt.
pub record Process (H : Type 0) : Type 0 where
  pub last_error : Option Error
  pub next_id : ℕ
  pub vms : Mutex (List (ℕ × Vm H))
  pub channels : Channels

module _ {H : Type 0} where
  unfoldable pub set_error : Error → Process H → Process H
  set_error e p = record p { last_error = some e }

  unfoldable pub clear_error : Process H → Process H
  clear_error p = record p { last_error = none }

  -- `wrapping_add(1).max(1)` on `u64`.
  unfoldable pub next_id : Process H → ℕ × Process H
  next_id p =
      let succ_id = (p.next_id + 1) % 2 ^ 64 in
      (p.next_id, record p { next_id = if ltb succ_id 1 then 1 else succ_id })

  -- The id is returned also where the table's lock is poisoned and nothing is inserted.
  unfoldable pub insert_vm : Process H → Vm H → ℕ × Process H
  unfolding next_id
  insert_vm p vm =
      let (id, q) = next_id p in
      (
        id,
        elim (lock q.vms) [
          | none ↦ q
          | some table ↦ record q { vms = record (q.vms) { value = insert id vm table } }
        ],
      )

  unfoldable pub remove_vm : Process H → ℕ → Option (Vm H) × Process H
  remove_vm p id = elim (lock p.vms) [
    | none ↦ (none, p)
    | some table ↦ (lookup id table, record p { vms = record (p.vms) { value = remove id table } })
  ]

  -- The machine under an id, as `with_vm` finds it.
  unfoldable pub find_vm : Process H → ℕ → Result (Vm H)
  find_vm p id = if nat_beq id 0 then err (message "invalid handle") else elim (lock p.vms) [
    | none ↦ err (message "vm table lock poisoned")
    | some table ↦ elim (lookup id table) [
      | none ↦ err (message "unknown handle")
      | some vm ↦ ok vm
    ]
  ]

  unfoldable pub put_vm : Process H → ℕ → Vm H → Process H
  put_vm p id vm = record p { vms = record (p.vms) { value = insert id vm p.vms.value } }

  -- `f` works on the machine in place, so what it changes stays also where it fails.
  unfoldable pub with_vm {ℓ} :
      {R : Type ℓ} → Process H → ℕ → (Vm H → Result R × Vm H) → Result R × Process H
  unfolding find_vm put_vm
  with_vm p id f = elim (find_vm p id) [
    | err e ↦ (err e, p)
    | ok vm ↦ let (res, vm') = f vm in (res, put_vm p id vm')
  ]

  unfoldable pub with_host_mut {ℓ} :
      {R : Type ℓ} → Process H → ℕ → (H → Result R × H) → Result R × Process H
  unfolding with_vm
  with_host_mut p id f = with_vm p id λ vm. elim (lock vm.host) [
    | none ↦ (err (message "host lock poisoned"), vm)
    | some h ↦ let (res, h') = f h in (res, record vm { host = record (vm.host) { value = h' } })
  ]

  -- The same for the relay of a machine.
  unfoldable pub with_relay {ℓ} :
      {R : Type ℓ} → Process H → ℕ → (RelayState → Result R × RelayState) → Result R × Process H
  unfolding with_vm
  with_relay p id f = with_vm p id λ vm. elim (lock vm.relay) [
    | none ↦ (err (message "relay lock poisoned"), vm)
    | some r ↦ let (res, r') = f r in (res, record vm { relay = record (vm.relay) { value = r' } })
  ]

  -- The last `match` of the C functions that return nothing but a status.
  unfoldable pub finish : Result (Unit {0}) × Process H → ℤ × Process H
  unfolding set_error
  finish (ok u, p) = (pos 0, p)
  finish (err e, p) = (minus_one, set_error e p)

  unfoldable pub aos_vm_close : Process H → ℕ → ℤ × Process H
  unfolding clear_error set_error remove_vm
  aos_vm_close p vm =
      if nat_beq vm 0
      then (minus_one, set_error (message "aos_vm_close: invalid handle") (clear_error p))
      else let (found, q) = remove_vm (clear_error p) vm in
        elim found [
          | some old ↦ (pos 0, q)
          | none ↦ (minus_one, set_error (message "aos_vm_close: unknown handle") q)
        ]

-- A sink's content, and the sink emptied; nothing from a poisoned one.
unfoldable pub drain_arc : Mutex Bytes → Bytes × Mutex Bytes
drain_arc m = elim (lock m) [ none ↦ ([], m) | some bs ↦ (bs, record m { value = [] }) ]
