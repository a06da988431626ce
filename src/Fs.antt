-- ===== src/Fs.antt =====
-- fs.rs: the file entry points and `svc_call`, with the files of the host as a parameter.
pub mod Listing
pub mod Calls
pub mod Refusals
pub mod Read
use Prim.Native.String.{String}
use flutter_experiments.Common.{
  ℕ, Bytes, Bool, true, false, Option, none, some, List, [], ◌∷◌, ◌||◌, ℤ, pos, minus_one, nat_beq,
  if◌then◌else◌, not, ◌==◌, int_eq,
}
use flutter_experiments.Error.{Error, message, Result, ok, err, ◌>>=◌}
use flutter_experiments.Buf.{AosBuf, is_null}
use flutter_experiments.Table.{Process, set_error, finish}
use flutter_experiments.Host.{
  Outcome, slice, text_arg, require_args, host_call, give_bytes, fill_if, write_if,
}
use flutter_experiments.Fs.Listing.{DirEntry, encode_listing}

-- The answer of a service: `status` and `body`.
pub record ServiceReply : Type 0 where
  pub status : ℤ
  pub body : Bytes

-- What `host.stat` gives, with the fields of `AosStat`.
pub record AosStat : Type 0 where
  pub size : ℕ
  pub is_dir : ℤ
  pub is_symlink : ℤ
  pub nlink : ℕ
  pub mode : ℕ

pub record HostStat : Type 0 where
  pub size : ℕ
  pub is_dir : Bool
  pub is_symlink : Bool
  pub nlink : ℕ
  pub mode : ℕ

-- The methods of the host that fs.rs calls.
pub record HostFs (H : Type 0) : Type 0 where
  pub service_call : Bytes → Bytes → H → Outcome ServiceReply × H
  pub read_file : Bytes → H → Outcome Bytes × H
  pub write_file : Bytes → Bytes → H → Outcome (Unit {0}) × H
  pub readdir : Bytes → H → Outcome (List DirEntry) × H
  pub stat : Bytes → H → Outcome HostStat × H
  pub readlink : Bytes → H → Outcome Bytes × H
  pub mkdir : Bytes → H → Outcome (Unit {0}) × H
  pub unlink : Bytes → H → Outcome (Unit {0}) × H
  pub unmount : Bytes → H → Outcome (Unit {0}) × H
  pub chmod : Bytes → ℕ → H → Outcome (Unit {0}) × H
  pub symlink : Bytes → Bytes → H → Outcome (Unit {0}) × H
  pub mount : Bytes → Bool → H → Outcome (Unit {0}) × H

-- The tests that most entry points begin with; `missing` says whether an output pointer is null.
unfoldable pub path_arg : String → ℕ → Option Bytes → Bool → Result Bytes
unfolding require_args text_arg
path_arg refusal vm path missing = do
  fine ← require_args refusal (nat_beq vm 0 || (is_null path || missing))
  text_arg "path not utf8" path

unfoldable pub service_arg : ℕ → Option Bytes → Result Bytes
unfolding require_args text_arg
service_arg vm service = do
  fine ← require_args "aos_vm_svc_call: invalid args" (nat_beq vm 0 || is_null service)
  text_arg "service not utf8" service

unfoldable pub symlink_args : ℕ → Option Bytes → Option Bytes → Result (Bytes × Bytes)
unfolding require_args text_arg
symlink_args vm target link_path = do
  fine ←
      require_args "aos_vm_symlink: invalid args"
        (nat_beq vm 0 || (is_null target || is_null link_path))
  target_text ← text_arg "target not utf8" target
  link_text ← text_arg "link not utf8" link_path
  ok (target_text, link_text)

abbrev flag : Bool → ℤ
flag b = if b then pos 1 else pos 0

unfoldable pub stat_of : HostStat → AosStat
stat_of st = record {
  size = st.size;
  is_dir = flag st.is_dir;
  is_symlink = flag st.is_symlink;
  nlink = st.nlink;
  mode = st.mode;
}

module _ {H : Type 0} where
  -- The last `match` of `aos_vm_svc_call`; a body that does not fit changes nothing else.
  unfoldable pub give_reply :
      Option ℤ
      → Option AosBuf
      → Result ServiceReply × Process H
      → ℤ × Option ℤ × Option AosBuf × Process H
  unfolding set_error fill_if
  give_reply out_status out_body (err e, p) = (minus_one, out_status, out_body, set_error e p)
  give_reply out_status out_body (ok r, p) =
      (pos 0, write_if out_status r.status, fill_if out_body r.body, p)

  -- The last `match` of `aos_vm_readdir`; `escape` is explained in Fs/Listing.antt.
  unfoldable pub give_listing :
      (Bytes → Bytes)
      → Option AosBuf
      → Result (List DirEntry) × Process H
      → ℤ × Option AosBuf × Process H
  unfolding give_bytes encode_listing
  give_listing escape out (err e, p) = give_bytes out (err e, p)
  give_listing escape out (ok entries, p) = give_bytes out (ok (encode_listing escape entries), p)

  unfoldable pub give_stat :
      Option AosStat → Result HostStat × Process H → ℤ × Option AosStat × Process H
  unfolding set_error stat_of
  give_stat out (err e, p) = (minus_one, out, set_error e p)
  give_stat out (ok st, p) = (pos 0, write_if out (stat_of st), p)

  module _ (fs : HostFs H) (p : Process H) (vm : ℕ) where
    unfoldable pub aos_vm_svc_call :
        Option Bytes
        → Option Bytes
        → ℕ
        → Option ℤ
        → Option AosBuf
        → ℤ × Option ℤ × Option AosBuf × Process H
    unfolding host_call service_arg give_reply
    aos_vm_svc_call service req req_len out_status out_body = give_reply out_status out_body (
        host_call p vm (service_arg vm service) "svc_call failed"
          (λ name h. fs.service_call name (slice req req_len) h))

    unfoldable pub aos_vm_read_file : Option Bytes → Option AosBuf → ℤ × Option AosBuf × Process H
    unfolding host_call path_arg give_bytes
    aos_vm_read_file path out = give_bytes out (
        host_call p vm (path_arg "aos_vm_read_file: invalid args" vm path (is_null out))
          "read_file failed" fs.read_file)

    unfoldable pub aos_vm_write_file : Option Bytes → Option Bytes → ℕ → ℤ × Process H
    unfolding host_call path_arg finish
    aos_vm_write_file path bytes len = finish (
        host_call p vm (path_arg "aos_vm_write_file: invalid args" vm path false)
          "write_file failed" (λ text h. fs.write_file text (slice bytes len) h))

    unfoldable pub aos_vm_readdir :
        (Bytes → Bytes) → Option Bytes → Option AosBuf → ℤ × Option AosBuf × Process H
    unfolding host_call path_arg give_listing
    aos_vm_readdir escape path out = give_listing escape out (
        host_call p vm (path_arg "aos_vm_readdir: invalid args" vm path (is_null out))
          "readdir failed" fs.readdir)

    unfoldable pub aos_vm_stat : Option Bytes → Option AosStat → ℤ × Option AosStat × Process H
    unfolding host_call path_arg give_stat
    aos_vm_stat path out = give_stat out (
        host_call p vm (path_arg "aos_vm_stat: invalid args" vm path (is_null out)) "stat failed"
          fs.stat)

    unfoldable pub aos_vm_readlink : Option Bytes → Option AosBuf → ℤ × Option AosBuf × Process H
    unfolding host_call path_arg give_bytes
    aos_vm_readlink path out = give_bytes out (
        host_call p vm (path_arg "aos_vm_readlink: invalid args" vm path (is_null out))
          "readlink failed" fs.readlink)

    -- The macro `path_void!`.
    unfoldable pub path_void :
        String → (Bytes → H → Outcome (Unit {0}) × H) → String → Option Bytes → ℤ × Process H
    unfolding host_call path_arg finish
    path_void refusal method what path =
        finish (host_call p vm (path_arg refusal vm path false) what method)

    unfoldable pub aos_vm_mkdir : Option Bytes → ℤ × Process H
    unfolding path_void
    aos_vm_mkdir = path_void "aos_vm_mkdir: invalid args" fs.mkdir "mkdir failed"

    unfoldable pub aos_vm_unlink : Option Bytes → ℤ × Process H
    unfolding path_void
    aos_vm_unlink = path_void "aos_vm_unlink: invalid args" fs.unlink "unlink failed"

    unfoldable pub aos_vm_unmount : Option Bytes → ℤ × Process H
    unfolding path_void
    aos_vm_unmount = path_void "aos_vm_unmount: invalid args" fs.unmount "unmount failed"

    unfoldable pub aos_vm_chmod : Option Bytes → ℕ → ℤ × Process H
    unfolding host_call path_arg finish
    aos_vm_chmod path mode = finish (
        host_call p vm (path_arg "aos_vm_chmod: invalid args" vm path false) "chmod failed"
          (λ text h. fs.chmod text mode h))

    unfoldable pub aos_vm_symlink : Option Bytes → Option Bytes → ℤ × Process H
    unfolding host_call symlink_args finish
    aos_vm_symlink target link_path = finish (
        host_call p vm (symlink_args vm target link_path) "symlink failed"
          (λ texts h. fs.symlink texts.0 texts.1 h))

    unfoldable pub aos_vm_mount : Option Bytes → ℤ → ℤ × Process H
    unfolding host_call path_arg finish
    aos_vm_mount path read_only = finish (
        host_call p vm (path_arg "aos_vm_mount: invalid args" vm path false) "mount failed"
          (λ text h. fs.mount text (not (read_only == pos 0)) h))
