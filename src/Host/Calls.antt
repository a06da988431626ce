-- ===== src/Host/Calls.antt =====
-- A call of the host from an entry point: what it comes to on a live machine, and when it is refused.
use Prim.Native.String.{String}
use flutter_experiments.Common.{
  ℕ, ◌≡◌, refl, ◌∙◌, Bytes, Bool, true, false, Option, none, some, ℤ, pos, minus_one, ◌||◌, nat_beq,
  arith,
}
use flutter_experiments.Error.{Error, message, host_failed, Result, ok, err}
use flutter_experiments.Buf.{is_null}
use flutter_experiments.Table.Access.{with_vm_found}
use flutter_experiments.Table.{
  Vm, Process, set_error, clear_error, find_vm, put_vm, with_host_mut, finish,
}
use flutter_experiments.Host.{
  Outcome, gave, broke, map_host, cstr_to_str, text_arg, attempt, host_call,
}

pub or-true : (b : Bool) → (b || true) ≡ true
or-true true = refl
or-true false = refl

pub cstr_to_str-null :
    (s : Option Bytes) (text : Bytes) → cstr_to_str s ≡ some text → is_null s ≡ false
unfolding cstr_to_str
cstr_to_str-null none text e = cc
cstr_to_str-null (some region) text e = refl

pub text_arg-read :
    (refusal : String) (s : Option Bytes) (text : Bytes)
    → cstr_to_str s ≡ some text
    → text_arg refusal s ≡ ok text
unfolding text_arg
text_arg-read refusal s text e = rw (e, text_arg)

pub text_arg-refused :
    (refusal : String) (s : Option Bytes)
    → cstr_to_str s ≡ none
    → text_arg refusal s ≡ err (message refusal)
unfolding text_arg
text_arg-refused refusal s e = rw (e, text_arg)

pub map_host-gave {ℓ} :
    {A : Type ℓ} (what : String) (o : Outcome A) (a : A)
    → map_host what (λ x. x) o ≡ ok a
    → o ≡ gave a
unfolding map_host
map_host-gave what (gave b) a h = cc
map_host-gave what (broke text) a h = cc

module _ {H : Type 0} where
  pub find_vm-nonzero :
      (p : Process H) (vm : ℕ) (entry : Vm H) → find_vm p vm ≡ ok entry → nat_beq vm 0 ≡ false
  unfolding find_vm
  find_vm-nonzero p vm entry live = ground arith

  -- The machine with the host that a call has left.
  abbrev pub set_host : Vm H → H → Vm H
  set_host entry h = record entry { host = record (entry.host) { value = h } }

  -- What a call of the host leaves behind, without its error text.
  abbrev pub after_call : Process H → ℕ → Vm H → H → Process H
  after_call p vm entry h = put_vm (clear_error p) vm (set_host entry h)

  -- What an entry point that returns a status makes of the call: the status is 0 if the host succeeds,
  -- and otherwise -1 with the host's text.
  abbrev pub performed : String → Process H → ℕ → Vm H → Outcome (Unit {0}) × H → ℤ × Process H
  performed what p vm entry (gave u, h) = (pos 0, after_call p vm entry h)
  performed what p vm entry (broke text, h) =
      (minus_one, set_error (host_failed what text) (after_call p vm entry h))

  -- A refusal: the failure status and a text, and nothing else changed.
  abbrev pub Refused : Process H → ℤ × Process H → Type 0
  Refused p out = (e : Error) × (out ≡ (minus_one, set_error e p))

  -- The same of an entry point with an output of the caller.
  abbrev pub RefusedOut {ℓ} : {O : Type ℓ} → Process H → O → ℤ × O × Process H → Type ℓ
  RefusedOut p o out = (e : Error) × (out ≡ (minus_one, o, set_error e p))

  pub host_call_refused {ℓ κ} :
      {A : Type ℓ} {R : Type κ} (p : Process H) (vm : ℕ) (args : Result A) (e : Error)
      (what : String) (f : A → H → Outcome R × H)
      → args ≡ err e
      → host_call p vm args what f ≡ (err e, clear_error p)
  unfolding host_call
  host_call_refused p vm args e what f bad = rw (bad, host_call)

  module _ (p : Process H) (vm : ℕ) (entry : Vm H) (live : find_vm p vm ≡ ok entry)
      (usable : entry.host.poisoned ≡ false) where
    live_cleared : find_vm (clear_error p) vm ≡ ok entry
    unfolding find_vm clear_error
    live_cleared = live

    pub with_host_mut_reached {ℓ} :
        {R : Type ℓ} (f : H → Result R × H)
        → with_host_mut (clear_error p) vm f
          ≡ ((f entry.host.value).0, after_call p vm entry (f entry.host.value).1)
    unfolding with_host_mut
    with_host_mut_reached f = with_vm_found (clear_error p) vm entry _ live_cleared ∙ ground arith

    pub host_call_reached {ℓ κ} :
        {A : Type ℓ} {R : Type κ} (args : Result A) (a : A) (what : String)
        (f : A → H → Outcome R × H)
        → args ≡ ok a
        → host_call p vm args what f ≡ (
          map_host what (λ r. r) (f a entry.host.value).0,
          after_call p vm entry (f a entry.host.value).1,
        )
    unfolding host_call attempt
    host_call_reached args a what f good =
        rw (good, host_call) (with_host_mut_reached (λ h. attempt what (f a h)))

    pub finish-host_call {ℓ} :
        {A : Type ℓ} (args : Result A) (a : A) (what : String) (f : A → H → Outcome (Unit {0}) × H)
        → args ≡ ok a
        → finish (host_call p vm args what f) ≡ performed what p vm entry (f a entry.host.value)
    finish-host_call args a what f good =
        rw (host_call_reached args a what f good) (settled (f a entry.host.value))
      where
        settled :
            (out : Outcome (Unit {0}) × H)
            → finish (map_host what (λ r. r) out.0, after_call p vm entry out.1)
              ≡ performed what p vm entry out
        settled (gave u, h) = unfold map_host finish in refl
        settled (broke text, h) = unfold map_host finish in refl
