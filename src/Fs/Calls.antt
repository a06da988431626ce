-- ===== src/Fs/Calls.antt =====
-- fs.rs: what the entry points that change files come to on a live machine.
use Prim.Native.String.{String}
use flutter_experiments.Common.{
  ℕ, ◌≡◌, refl, Bytes, Bool, false, Option, some, ℤ, pos, not, ◌==◌, int_eq,
}
use flutter_experiments.Error.{ok}
use flutter_experiments.Table.{Vm, Process, find_vm}
use flutter_experiments.Host.{cstr_to_str, require_args, slice}
use flutter_experiments.Host.Calls.{
  performed, finish-host_call, find_vm-nonzero, cstr_to_str-null, text_arg-read,
}
use flutter_experiments.Fs.{
  HostFs, path_arg, symlink_args, path_void, aos_vm_write_file, aos_vm_mkdir, aos_vm_unlink,
  aos_vm_unmount, aos_vm_chmod, aos_vm_symlink, aos_vm_mount,
}

module _ {H : Type 0} (p : Process H) (vm : ℕ) (entry : Vm H) (live : find_vm p vm ≡ ok entry) where
  pub path_arg-read :
      (refusal : String) (path : Option Bytes) (text : Bytes) (missing : Bool)
      → cstr_to_str path ≡ some text
      → missing ≡ false
      → path_arg refusal vm path missing ≡ ok text
  unfolding path_arg require_args
  path_arg-read refusal path text missing read given =
      rw (find_vm-nonzero p vm entry live, cstr_to_str-null path text read, given)
        (text_arg-read "path not utf8" path text read)

  symlink_args-read :
      (target link_path : Option Bytes) (to_text link_text : Bytes)
      → cstr_to_str target ≡ some to_text
      → cstr_to_str link_path ≡ some link_text
      → symlink_args vm target link_path ≡ ok (to_text, link_text)
  unfolding symlink_args require_args
  symlink_args-read target link_path to_text link_text read_to read_link = rw (
    find_vm-nonzero p vm entry live,
    cstr_to_str-null target to_text read_to,
    cstr_to_str-null link_path link_text read_link,
    text_arg-read "target not utf8" target to_text read_to,
    text_arg-read "link not utf8" link_path link_text read_link,
  )

  -- On a live machine whose host lock is usable, and with texts in UTF-8, each of the seven entry
  -- points that change files calls its method of the host once, on that machine and with those texts.
  -- It returns 0 with no error text if the host succeeds, and -1 with the host's text under the entry
  -- point's prefix if not; either way the table keeps what the host has become. `write_file` hands
  -- over the first `len` bytes, and `mount` whether `read_only` is not 0.
  pub file_calls_performed :
      (usable : entry.host.poisoned ≡ false) (fs : HostFs H) (path link_path bytes : Option Bytes)
      (text link_text : Bytes) (len mode : ℕ) (read_only : ℤ)
      → cstr_to_str path ≡ some text
      → cstr_to_str link_path ≡ some link_text
      → let h : H = entry.host.value in
        (aos_vm_mkdir fs p vm path ≡ performed "mkdir failed" p vm entry (fs.mkdir text h))
        × (aos_vm_unlink fs p vm path ≡ performed "unlink failed" p vm entry (fs.unlink text h))
        × (aos_vm_unmount fs p vm path ≡ performed "unmount failed" p vm entry (fs.unmount text h))
        × (aos_vm_write_file fs p vm path bytes len
            ≡ performed "write_file failed" p vm entry (fs.write_file text (slice bytes len) h))
        × (aos_vm_chmod fs p vm path mode
            ≡ performed "chmod failed" p vm entry (fs.chmod text mode h))
        × (aos_vm_symlink fs p vm path link_path
            ≡ performed "symlink failed" p vm entry (fs.symlink text link_text h))
        × (aos_vm_mount fs p vm path read_only
            ≡ performed "mount failed" p vm entry (fs.mount text (not (read_only == pos 0)) h))
  unfolding aos_vm_mkdir aos_vm_unlink aos_vm_unmount aos_vm_write_file aos_vm_chmod aos_vm_symlink
      aos_vm_mount path_void
  file_calls_performed usable fs path link_path bytes text link_text len mode read_only read link =
      (
        finish-host_call p vm entry live usable _ text _ _
            (path_arg-read _ path text false read refl),
        finish-host_call p vm entry live usable _ text _ _
            (path_arg-read _ path text false read refl),
        finish-host_call p vm entry live usable _ text _ _
            (path_arg-read _ path text false read refl),
        finish-host_call p vm entry live usable _ text _ _
            (path_arg-read _ path text false read refl),
        finish-host_call p vm entry live usable _ text _ _
            (path_arg-read _ path text false read refl),
        finish-host_call p vm entry live usable _ (text, link_text) _ _
            (symlink_args-read path link_path text link_text read link),
        finish-host_call p vm entry live usable _ text _ _
            (path_arg-read _ path text false read refl),
      )
