-- ===== src/Tests/Files.antt =====
-- fs.rs and snapshot.rs over a host that is a map from paths to contents.
use flutter_experiments.Common.{
  ◌≡◌, refl, inr, Bytes, true, false, Option, none, some, List, [], ◌∷◌, ◌++◌, pos, minus_one,
  ascii, arith, nat_eq, bytes_eq,
}
use flutter_experiments.Common.Dict.{lookup, insert, remove}
use flutter_experiments.Error.{Error}
use flutter_experiments.Buf.{AosBytes}
use flutter_experiments.Table.{Process, set_error, clear_error, find_vm}
use flutter_experiments.Host.{Outcome, gave, broke, cstr_to_str}
use flutter_experiments.Host.Calls.{performed, after_call, Refused, RefusedOut}
use flutter_experiments.Fs.{
  HostFs, aos_vm_svc_call, aos_vm_read_file, aos_vm_readdir, aos_vm_stat, aos_vm_readlink,
  aos_vm_write_file, aos_vm_mkdir, aos_vm_unlink, aos_vm_unmount, aos_vm_chmod, aos_vm_symlink,
  aos_vm_mount,
}
use flutter_experiments.Fs.Calls.{file_calls_performed}
use flutter_experiments.Fs.Refusals.{file_calls-Refused}
use flutter_experiments.Fs.Read.{no_memory, memory, read_file_twice}
use flutter_experiments.Fs.Listing.{DirEntry, encode_listing}
use flutter_experiments.Fs.Listing.Laws.{read_listing, read-encode_listing}
use flutter_experiments.Snapshot.{
  HostSnapshots, aos_vm_snapshot, aos_vm_snapshot_incremental, aos_vm_commit_layer,
}
use flutter_experiments.Snapshot.Laws.{Owns, snapshots_owned}
use flutter_experiments.Tests.OneHost.{machine_of, process_of}

abbrev Disk : Type 0
Disk = List (Bytes × Bytes)

abbrev missing : Bytes
missing = ascii "no such file"

abbrev read : Bytes → Disk → Outcome Bytes × Disk
read path d = elim (lookup path d) [ none ↦ (broke missing, d) | some content ↦ (gave content, d) ]

abbrev delete : Bytes → Disk → Outcome (Unit {0}) × Disk
delete path d = elim (lookup path d) [
  | none ↦ (broke missing, d)
  | some content ↦ (gave tt, remove path d)
]

abbrev disk : HostFs Disk
disk = record {
  service_call = λ name body d. (gave (record { status = pos 0; body = body }), d);
  read_file = read;
  write_file = λ path content d. (gave tt, insert path content d);
  readdir = λ path d. (gave [], d);
  stat = λ path d. (broke missing, d);
  readlink = read;
  mkdir = λ path d. (gave tt, insert path [] d);
  unlink = delete;
  unmount = delete;
  chmod = λ path mode d. (broke missing, d);
  symlink = λ target link d. (gave tt, insert link target d);
  mount = λ path read_only d. (gave tt, d);
}

-- One file, `/a`, with two bytes.
abbrev one_file : Disk
one_file = (ascii "/a", 104 ∷ 105 ∷ []) ∷ []

-- The C strings `/a` and `/b`, with what stands behind their end.
abbrev c_path : Option Bytes
c_path = some (47 ∷ 97 ∷ 0 ∷ 99 ∷ [])

abbrev c_link : Option Bytes
c_link = some (47 ∷ 98 ∷ 0 ∷ [])

abbrev p : Process Disk
p = process_of one_file

file_calls_performed_example :
    let d = one_file in
    (aos_vm_mkdir disk p 1 c_path
      ≡ performed "mkdir failed" p 1 (machine_of d) (disk.mkdir (ascii "/a") d))
    × (aos_vm_unlink disk p 1 c_path
        ≡ performed "unlink failed" p 1 (machine_of d) (disk.unlink (ascii "/a") d))
    × (aos_vm_unmount disk p 1 c_path
        ≡ performed "unmount failed" p 1 (machine_of d) (disk.unmount (ascii "/a") d))
    × (aos_vm_write_file disk p 1 c_path (some (7 ∷ 8 ∷ [])) 1
        ≡ performed "write_file failed" p 1
            (machine_of d)
            (disk.write_file (ascii "/a") (7 ∷ []) d))
    × (aos_vm_chmod disk p 1 c_path 420
        ≡ performed "chmod failed" p 1 (machine_of d) (disk.chmod (ascii "/a") 420 d))
    × (aos_vm_symlink disk p 1 c_path c_link
        ≡ performed "symlink failed" p 1 (machine_of d) (disk.symlink (ascii "/a") (ascii "/b") d))
    × (aos_vm_mount disk p 1 c_path (pos 1)
        ≡ performed "mount failed" p 1 (machine_of d) (disk.mount (ascii "/a") true d))
unfolding find_vm lookup cstr_to_str
file_calls_performed_example =
    file_calls_performed p 1 (machine_of one_file) refl refl disk c_path c_link (some (7 ∷ 8 ∷ []))
      (ascii "/a") (ascii "/b") 1 420 (pos 1) refl refl

-- A path that is not UTF-8.
abbrev bad_path : Option Bytes
bad_path = some (47 ∷ 0xFF ∷ 0 ∷ [])

file_calls-Refused_example :
    Refused p (aos_vm_mkdir disk p 1 bad_path)
    × Refused p (aos_vm_unlink disk p 1 bad_path)
    × Refused p (aos_vm_unmount disk p 1 bad_path)
    × Refused p (aos_vm_write_file disk p 1 bad_path none 0)
    × Refused p (aos_vm_chmod disk p 1 bad_path 420)
    × Refused p (aos_vm_symlink disk p 1 bad_path c_link)
    × Refused p (aos_vm_symlink disk p 1 c_link bad_path)
    × Refused p (aos_vm_mount disk p 1 bad_path (pos 0))
    × RefusedOut p (some (no_memory 0)) (aos_vm_read_file disk p 1 bad_path (some (no_memory 0)))
    × RefusedOut p
        (some (no_memory 0))
        (aos_vm_readdir disk p 1 (λ c. c) bad_path (some (no_memory 0)))
    × RefusedOut p none (aos_vm_stat disk p 1 bad_path none)
    × RefusedOut p (some (no_memory 0)) (aos_vm_readlink disk p 1 bad_path (some (no_memory 0)))
    × ((e : Error) × (aos_vm_svc_call disk p 1 bad_path none 0 none (some (no_memory 0))
          ≡ (minus_one, none, some (no_memory 0), set_error e p)))
unfolding cstr_to_str
file_calls-Refused_example =
    file_calls-Refused disk p 1 bad_path c_link none 0 420 (pos 0) (some (no_memory 0)) none none
      (λ c. c) (inr refl)

read_file_twice_example :
    let (code, out, q) = aos_vm_read_file disk p 1 c_path (some (no_memory 9)) in
    (out ≡ some (no_memory 2))
    × (q.last_error ≡ none)
    × (aos_vm_read_file disk q 1 c_path (some (memory (0 ∷ 0 ∷ 5 ∷ []) 2 0))
        ≡ (pos 0, some (memory (104 ∷ 105 ∷ 5 ∷ []) 2 2), clear_error p))
unfolding find_vm lookup cstr_to_str
read_file_twice_example =
    read_file_twice p 1 (machine_of one_file) refl refl disk c_path (ascii "/a") (104 ∷ 105 ∷ [])
      (0 ∷ 0 ∷ 5 ∷ []) 9 0 refl refl

-- A name with a quote and an end of line, and a directory.
abbrev entries : List DirEntry
entries =
    record { name = 97 ∷ 34 ∷ 10 ∷ []; is_dir = false; is_symlink = true }
    ∷ record { name = ascii "b"; is_dir = true; is_symlink = false }
    ∷ []

read-encode_listing_example :
    read_listing (encode_listing (λ c. c) entries)
    ≡ some ((97 ∷ 34 ∷ 10 ∷ [], ascii "symlink") ∷ (ascii "b", ascii "directory") ∷ [])
read-encode_listing_example =
    read-encode_listing (λ c. c) entries ((refl, (refl, (refl, tt))), ((refl, tt), tt))

abbrev snaps : HostSnapshots Disk
snaps = record {
  snapshot = λ d. (gave (1 ∷ 2 ∷ 3 ∷ []), d);
  snapshot_incremental = λ base d. (gave (base ++ (4 ∷ [])), d);
  commit_layer = λ d. (gave ([], ascii "d1"), []);
}

abbrev old_bytes : AosBytes
old_bytes = record { ptr = none; len = 0 }

snapshots_owned_example :
    let full = aos_vm_snapshot snaps (λ n. true) p 1 (some old_bytes) in
    let inc =
      aos_vm_snapshot_incremental snaps (λ n. true) p 1 (some (8 ∷ 9 ∷ [])) 1 (some old_bytes) in
    let layer = aos_vm_commit_layer snaps (λ n. true) p 1 (some old_bytes) none in
    ((full.0 ≡ pos 0)
      × Owns full.1 (1 ∷ 2 ∷ 3 ∷ [])
      × (full.2 ≡ after_call p 1 (machine_of one_file) one_file))
    × ((inc.0 ≡ pos 0)
        × Owns inc.1 (8 ∷ 4 ∷ [])
        × (inc.2 ≡ after_call p 1 (machine_of one_file) one_file))
    × ((layer.0 ≡ pos 0) × Owns layer.1 [] × (layer.3 ≡ after_call p 1 (machine_of one_file) []))
unfolding find_vm lookup
snapshots_owned_example =
    snapshots_owned p 1 (machine_of one_file) refl refl snaps (λ n. true) old_bytes none
      (8 ∷ 9 ∷ []) 1 (1 ∷ 2 ∷ 3 ∷ []) (8 ∷ 4 ∷ []) [] (ascii "d1") one_file one_file []
      (omega arith) refl refl refl refl refl refl
