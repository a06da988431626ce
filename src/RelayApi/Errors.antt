-- ===== src/RelayApi/Errors.antt =====
-- relay.rs, the statuses of the `aos_vm_relay_*` answers and the text of `aos_last_error`.
use flutter_experiments.Common.{
  ℕ, ◌≡◌, refl, ap, ◌∙◌, inl, inr, Bytes, Option, none, some, ℤ, pos, minus_one, arith, Bool-cases,
  nat_eq,
}
use flutter_experiments.Error.{Error, message, Result, ok, err}
use flutter_experiments.Lock.{lock}
use flutter_experiments.Relay.State.{RelayState}
use flutter_experiments.Relay.Step.{
  AppCall, answer_http, answer_host_call, answer_persist, open_ws, push_ws, close_ws, app_body,
}
use flutter_experiments.Relay.Respond.{
  http_respond, host_call_respond, persist_respond, ws_open, ws_push, ws_closed,
}
use flutter_experiments.Table.{
  Vm, Process, set_error, clear_error, find_vm, put_vm, with_vm, with_relay, finish,
}
use flutter_experiments.Table.Access.{
  put_vm_found, put_vm-last_error, with_vm_found, with_vm_missing,
}
use flutter_experiments.RelayApi.{
  bad_args, respond_with, aos_vm_relay_http_respond, aos_vm_relay_host_call_respond,
  aos_vm_relay_persist_respond, aos_vm_relay_ws_open, aos_vm_relay_ws_push, aos_vm_relay_ws_close,
}

-- A status with its text: 0 without one, or -1 with one and with nothing else changed.
pub data Reported {H : Type 0} (p : Process H) (out : ℤ × Process H) : Type 0 where
  success : out.0 ≡ pos 0 → out.1.last_error ≡ none → Reported p out
  failure : (e : Error) → out ≡ (minus_one, set_error e p) → Reported p out

app_body_refused :
    (r : RelayState) (call : AppCall) (e : Error)
    → (app_body r call).0 ≡ err e
    → (app_body r call).1 ≡ r
unfolding app_body http_respond host_call_respond persist_respond ws_open ws_push ws_closed
app_body_refused r (answer_http h status head body) e refused = ground arith
app_body_refused r (answer_host_call h status result) e refused = ground arith
app_body_refused r (answer_persist h status body) e refused = ground arith
app_body_refused r (open_ws h status) e refused = ground arith
app_body_refused r (push_ws h bytes) e refused = ground arith
app_body_refused r (close_ws h) e refused = ground arith

module _ {H : Type 0} where
  finish-Reported :
      (p q : Process H) (res : Result (Unit {0}))
      → q.last_error ≡ none
      → ((e : Error) → res ≡ err e → q ≡ clear_error p)
      → Reported p (finish (res, q))
  unfolding finish set_error clear_error
  finish-Reported p q (ok u) clean same = success refl clean
  finish-Reported p q (err e) clean same = failure e (rw (same e refl))

  -- `f` changes nothing where it refuses.
  with_relay-Reported :
      (p : Process H) (vm : ℕ) (f : RelayState → Result (Unit {0}) × RelayState)
      → ((r : RelayState) (e : Error) → (f r).0 ≡ err e → (f r).1 ≡ r)
      → Reported p (finish (with_relay (clear_error p) vm f))
  unfolding with_relay clear_error
  with_relay-Reported p vm f honest = go (find_vm (clear_error p) vm) refl
    where
      locked : Vm H → Result (Unit {0}) × Vm H
      locked entry = elim (lock entry.relay) [
        | none ↦ (err (message "relay lock poisoned"), entry)
        | some r ↦
            let (res, r') = f r in
            (res, record entry { relay = record (entry.relay) { value = r' } })
      ]

      same : (entry : Vm H) (e : Error) → (locked entry).0 ≡ err e → (locked entry).1 ≡ entry
      same entry e refused = elim (Bool-cases entry.relay.poisoned) [
        | inl broken ↦ ground arith
        | inr fine ↦ ground (arith, honest entry.relay.value e)
      ]

      go :
          (res : Result (Vm H))
          → find_vm (clear_error p) vm ≡ res
          → Reported p (finish (with_vm (clear_error p) vm locked))
      go (err e) missing =
          rw (with_vm_missing (clear_error p) vm e locked missing)
            (finish-Reported p (clear_error p) (err e) refl (λ e' h. refl))
      go (ok entry) found = rw (with_vm_found (clear_error p) vm entry locked found) (
          finish-Reported p (put_vm (clear_error p) vm (locked entry).1) (locked entry).0
            (put_vm-last_error (clear_error p) vm (locked entry).1)
            (λ e h.
              ap (put_vm (clear_error p) vm) (same entry e h)
              ∙ put_vm_found (clear_error p) vm entry found))

  respond_with-Reported :
      (invalid : Error) (p : Process H) (vm : ℕ) (handle : ℤ) (call : AppCall)
      → Reported p (respond_with invalid p vm handle call)
  unfolding respond_with set_error clear_error
  respond_with-Reported invalid p vm handle call = elim (Bool-cases (bad_args vm handle)) [
    | inl bad ↦ failure invalid (rw (bad))
    | inr good ↦
        rw (good) (with_relay-Reported p vm (λ r. app_body r call) (λ r. app_body_refused r call))
  ]

  -- Each of the six answers, whatever its arguments, either returns 0 and leaves no error text, or
  -- returns -1, leaves a text, and changes nothing else in the process.
  pub respond-Reported :
      (p : Process H) (vm : ℕ) (handle status : ℤ) (head body : Option Bytes)
      (head_len body_len : ℕ)
      → Reported p (aos_vm_relay_http_respond p vm handle status head head_len body body_len)
        × Reported p (aos_vm_relay_host_call_respond p vm handle status body body_len)
        × Reported p (aos_vm_relay_persist_respond p vm handle status body body_len)
        × Reported p (aos_vm_relay_ws_open p vm handle status)
        × Reported p (aos_vm_relay_ws_push p vm handle body body_len)
        × Reported p (aos_vm_relay_ws_close p vm handle)
  unfolding aos_vm_relay_http_respond aos_vm_relay_host_call_respond aos_vm_relay_persist_respond
      aos_vm_relay_ws_open aos_vm_relay_ws_push aos_vm_relay_ws_close
  respond-Reported p vm handle status head body head_len body_len = (
    respond_with-Reported _ p vm handle _,
    respond_with-Reported _ p vm handle _,
    respond_with-Reported _ p vm handle _,
    respond_with-Reported _ p vm handle _,
    respond_with-Reported _ p vm handle _,
    respond_with-Reported _ p vm handle _,
  )
