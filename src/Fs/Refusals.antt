-- ===== src/Fs/Refusals.antt =====
-- fs.rs: a call with a bad argument never reaches the host.
use Prim.Native.String.{String}
use flutter_experiments.Common.{
  ℕ, ◌≡◌, refl, ap, ◌∙◌, ◌⊎◌, inl, inr, Bytes, Bool, Option, none, some, ℤ, ◌||◌, nat_beq, arith,
  minus_one, Bool-cases, Option-cases,
}
use flutter_experiments.Error.{Error, message, Result, err}
use flutter_experiments.Buf.{AosBuf, is_null}
use flutter_experiments.Table.{Process, set_error, clear_error, finish}
use flutter_experiments.Host.{Outcome, cstr_to_str, require_args, host_call, give_bytes}
use flutter_experiments.Host.Calls.{
  Refused, RefusedOut, host_call_refused, text_arg-read, text_arg-refused,
}
use flutter_experiments.Fs.{
  HostFs, AosStat, path_arg, service_arg, symlink_args, path_void, give_stat, give_listing,
  give_reply, aos_vm_svc_call, aos_vm_read_file, aos_vm_readdir, aos_vm_stat, aos_vm_readlink,
  aos_vm_write_file, aos_vm_mkdir, aos_vm_unlink, aos_vm_unmount, aos_vm_chmod, aos_vm_symlink,
  aos_vm_mount,
}

-- A bad machine or a bad text: null, or not in UTF-8.
abbrev pub BadCall : ℕ → Option Bytes → Type 0
BadCall vm path = (vm ≡ 0) ⊎ (cstr_to_str path ≡ none)

path_arg-bad :
    (refusal : String) (vm : ℕ) (path : Option Bytes) (missing : Bool)
    → BadCall vm path
    → (e : Error) × (path_arg refusal vm path missing ≡ err e)
unfolding path_arg require_args
path_arg-bad refusal vm path missing (inl zero_vm) = (message refusal, ground arith)
path_arg-bad refusal vm path missing (inr unread) =
    elim (Bool-cases (nat_beq vm 0 || (is_null path || missing))) [
      | inl bad ↦ (message refusal, rw (bad))
      | inr fine ↦
          (message "path not utf8", rw (fine) (text_arg-refused "path not utf8" path unread))
    ]

service_arg-bad :
    (vm : ℕ) (service : Option Bytes)
    → BadCall vm service
    → (e : Error) × (service_arg vm service ≡ err e)
unfolding service_arg require_args
service_arg-bad vm service (inl zero_vm) = (message "aos_vm_svc_call: invalid args", ground arith)
service_arg-bad vm service (inr unread) = elim (Bool-cases (nat_beq vm 0 || is_null service)) [
  | inl bad ↦ (message "aos_vm_svc_call: invalid args", rw (bad))
  | inr fine ↦
      (message "service not utf8", rw (fine) (text_arg-refused "service not utf8" service unread))
]

symlink_args-bad :
    (vm : ℕ) (target link_path : Option Bytes)
    → BadCall vm target
    → (e : Error) × (symlink_args vm target link_path ≡ err e)
unfolding symlink_args require_args
symlink_args-bad vm target link_path (inl zero_vm) =
    (message "aos_vm_symlink: invalid args", ground arith)
symlink_args-bad vm target link_path (inr unread) =
    elim (Bool-cases (nat_beq vm 0 || (is_null target || is_null link_path))) [
      | inl bad ↦ (message "aos_vm_symlink: invalid args", rw (bad))
      | inr fine ↦
          (message "target not utf8", rw (fine, text_arg-refused "target not utf8" target unread))
    ]

bad_link_text :
    (vm : ℕ) (target link_path : Option Bytes) (text : Bytes)
    → cstr_to_str target ≡ some text
    → cstr_to_str link_path ≡ none
    → (e : Error) × (symlink_args vm target link_path ≡ err e)
unfolding symlink_args require_args
bad_link_text vm target link_path text read unread =
    elim (Bool-cases (nat_beq vm 0 || (is_null target || is_null link_path))) [
      | inl bad ↦ (message "aos_vm_symlink: invalid args", rw (bad))
      | inr fine ↦ (
        message "link not utf8",
        rw (
          fine,
          text_arg-read "target not utf8" target text read,
          text_arg-refused "link not utf8" link_path unread,
        ),
      )
    ]

symlink_args-bad_link :
    (vm : ℕ) (target link_path : Option Bytes)
    → BadCall vm link_path
    → (e : Error) × (symlink_args vm target link_path ≡ err e)
symlink_args-bad_link vm target link_path (inl zero_vm) =
    symlink_args-bad vm target link_path (inl zero_vm)
symlink_args-bad_link vm target link_path (inr unread) = elim (Option-cases (cstr_to_str target)) [
  | inl no_target ↦ symlink_args-bad vm target link_path (inr no_target)
  | inr (text, read) ↦ bad_link_text vm target link_path text read unread
]

module _ {H : Type 0} where
  -- However the last `match` ends, its failure is the status, the text, and nothing else.
  ends {ℓ κ μ} :
      {A : Type ℓ} {R : Type κ} {X : Type μ} (p : Process H) (vm : ℕ) (args : Result A)
      (what : String) (f : A → H → Outcome R × H) (give : Result R × Process H → X)
      (failed : Error → X)
      → ((e : Error) → give (err e, clear_error p) ≡ failed e)
      → (e : Error) × (args ≡ err e)
      → (e : Error) × (give (host_call p vm args what f) ≡ failed e)
  ends p vm args what f give failed honest (e, bad) =
      (e, ap give (host_call_refused p vm args e what f bad) ∙ honest e)

  -- With the id 0, or with its text null or not UTF-8, each of the entry points of fs.rs returns -1
  -- with an error text, and neither a machine nor an output of the caller changes. Of the two texts of
  -- `aos_vm_symlink` either one is enough, whatever the other is.
  pub file_calls-Refused :
      (fs : HostFs H) (p : Process H) (vm : ℕ) (path other bytes : Option Bytes) (len mode : ℕ)
      (read_only : ℤ) (out : Option AosBuf) (out_stat : Option AosStat) (out_status : Option ℤ)
      (escape : Bytes → Bytes)
      → BadCall vm path
      → Refused p (aos_vm_mkdir fs p vm path)
        × Refused p (aos_vm_unlink fs p vm path)
        × Refused p (aos_vm_unmount fs p vm path)
        × Refused p (aos_vm_write_file fs p vm path bytes len)
        × Refused p (aos_vm_chmod fs p vm path mode)
        × Refused p (aos_vm_symlink fs p vm path other)
        × Refused p (aos_vm_symlink fs p vm other path)
        × Refused p (aos_vm_mount fs p vm path read_only)
        × RefusedOut p out (aos_vm_read_file fs p vm path out)
        × RefusedOut p out (aos_vm_readdir fs p vm escape path out)
        × RefusedOut p out_stat (aos_vm_stat fs p vm path out_stat)
        × RefusedOut p out (aos_vm_readlink fs p vm path out)
        × ((e : Error) × (aos_vm_svc_call fs p vm path bytes len out_status out
              ≡ (minus_one, out_status, out, set_error e p)))
  unfolding aos_vm_mkdir aos_vm_unlink aos_vm_unmount aos_vm_write_file aos_vm_chmod aos_vm_symlink
      aos_vm_mount path_void aos_vm_read_file aos_vm_readdir aos_vm_stat aos_vm_readlink
      aos_vm_svc_call give_bytes give_listing give_stat give_reply finish set_error clear_error
  file_calls-Refused fs p vm path other bytes len mode read_only out out_stat out_status escape
        bad =
      (
        ends p vm _ _ _ finish _ (λ e. refl) (path_arg-bad _ vm path _ bad),
        ends p vm _ _ _ finish _ (λ e. refl) (path_arg-bad _ vm path _ bad),
        ends p vm _ _ _ finish _ (λ e. refl) (path_arg-bad _ vm path _ bad),
        ends p vm _ _ _ finish _ (λ e. refl) (path_arg-bad _ vm path _ bad),
        ends p vm _ _ _ finish _ (λ e. refl) (path_arg-bad _ vm path _ bad),
        ends p vm _ _ _ finish _ (λ e. refl) (symlink_args-bad vm path other bad),
        ends p vm _ _ _ finish _ (λ e. refl) (symlink_args-bad_link vm other path bad),
        ends p vm _ _ _ finish _ (λ e. refl) (path_arg-bad _ vm path _ bad),
        ends p vm _ _ _ (give_bytes out) _ (λ e. refl) (path_arg-bad _ vm path _ bad),
        ends p vm _ _ _ (give_listing escape out) _ (λ e. refl) (path_arg-bad _ vm path _ bad),
        ends p vm _ _ _ (give_stat out_stat) _ (λ e. refl) (path_arg-bad _ vm path _ bad),
        ends p vm _ _ _ (give_bytes out) _ (λ e. refl) (path_arg-bad _ vm path _ bad),
        ends p vm _ _ _ (give_reply out_status out) _ (λ e. refl) (service_arg-bad vm path bad),
      )
