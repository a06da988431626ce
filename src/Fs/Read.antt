-- ===== src/Fs/Read.antt =====
-- fs.rs: reading a file or a link into a buffer of the caller.
use Prim.Native.String.{String}
use flutter_experiments.Common.{
  ℕ, ◌≡◌, refl, ap, ◌∙◌, Bytes, false, Option, none, some, [], ◌∷◌, ◌++◌, pos, length, drop, arith,
}
use flutter_experiments.Error.{Result, ok}
use flutter_experiments.Buf.{AosBuf, fill_buf, fill, copy_into}
use flutter_experiments.Table.{Vm, Process, find_vm, clear_error}
use flutter_experiments.Table.Access.{put_vm_found}
use flutter_experiments.Host.{Outcome, gave, cstr_to_str, map_host, host_call, give_bytes}
use flutter_experiments.Host.Calls.{after_call, host_call_reached}
use flutter_experiments.Fs.{HostFs, aos_vm_read_file}
use flutter_experiments.Fs.Calls.{path_arg-read}

-- A buffer without memory, and one of `room` bytes.
abbrev pub no_memory : ℕ → AosBuf
no_memory old = record { ptr = none; cap = 0; len = old }

abbrev pub memory : Bytes → ℕ → ℕ → AosBuf
memory region room old = record { ptr = some region; cap = room; len = old }

sized :
    (content : Bytes) (old : ℕ)
    → (fill_buf (some (no_memory old)) content).1 ≡ some (no_memory (length content))
unfolding fill_buf fill
sized [] old = refl
sized (b ∷ content) old = ground arith

filled :
    (content region : Bytes) (old : ℕ)
    → fill_buf (some (memory region (length content) old)) content ≡ (
      pos 0,
      some (memory (content ++ drop (length content) region) (length content) (length content)),
    )
unfolding fill_buf fill copy_into
filled [] region old = refl
filled (b ∷ content) region old = ground arith

module _ {H : Type 0} (p : Process H) (vm : ℕ) (entry : Vm H) (live : find_vm p vm ≡ ok entry)
    (usable : entry.host.poisoned ≡ false) where
  -- The host is as before.
  unchanged : after_call p vm entry entry.host.value ≡ clear_error p
  unchanged = put_vm_found (clear_error p) vm entry (unfold find_vm clear_error in live)

  pub give_bytes-host_call :
      {A : Type 0} (out : Option AosBuf) (args : Result A) (a : A) (content : Bytes)
      (f : A → H → Outcome Bytes × H) (what : String)
      → args ≡ ok a
      → f a entry.host.value ≡ (gave content, entry.host.value)
      → give_bytes out (host_call p vm args what f)
        ≡ ((fill_buf out content).0, (fill_buf out content).1, clear_error p)
  unfolding give_bytes map_host
  give_bytes-host_call out args a content f what good answer =
      rw (host_call_reached p vm entry live usable args a what f good, answer)
        (ap (λ q. ((fill_buf out content).0, (fill_buf out content).1, q)) unchanged)

  read_file_lem :
      (fs : HostFs H) (path : Option Bytes) (text content : Bytes) (b : AosBuf)
      → cstr_to_str path ≡ some text
      → fs.read_file text entry.host.value ≡ (gave content, entry.host.value)
      → aos_vm_read_file fs p vm path (some b)
        ≡ ((fill_buf (some b) content).0, (fill_buf (some b) content).1, clear_error p)
  unfolding aos_vm_read_file
  read_file_lem fs path text content b read answer =
      give_bytes-host_call (some b) _ text content fs.read_file _
        (path_arg-read p vm entry live _ path text false read refl) answer

  -- The protocol of a caller that does not know the size. On a live machine whose host lock is
  -- usable, for a path in UTF-8 under which the host gives a content without changing itself: a call
  -- with a buffer without memory reports exactly the size and leaves no error text, and a second call
  -- with a buffer of that size succeeds and puts the content at its start.
  pub read_file_twice :
      (fs : HostFs H) (path : Option Bytes) (text content region : Bytes) (old spare : ℕ)
      → cstr_to_str path ≡ some text
      → fs.read_file text entry.host.value ≡ (gave content, entry.host.value)
      → let (code, out, q) = aos_vm_read_file fs p vm path (some (no_memory old)) in
        (out ≡ some (no_memory (length content)))
        × (q.last_error ≡ none)
        × (aos_vm_read_file fs q vm path (some (memory region (length content) spare)) ≡ (
          pos 0,
          some (memory (content ++ drop (length content) region) (length content) (length content)),
          clear_error p,
        ))
  read_file_twice fs path text content region old spare read answer =
      let first = read_file_lem fs path text content (no_memory old) read answer in
      let second =
        read_file_lem fs path text content (memory region (length content) spare) read answer in
      (
        ap (λ t. t.1) first ∙ sized content old,
        ap (λ t. t.2.last_error) first ∙ (unfold clear_error in refl),
        ap (λ t. aos_vm_read_file fs t.2 vm path (some (memory region (length content) spare)))
              first
            ∙ (cleared fs path (memory region (length content) spare)
                ∙ (second ∙ rw (filled content region spare))),
      )
    where
      cleared :
          (fs : HostFs H) (path : Option Bytes) (b : AosBuf)
          → aos_vm_read_file fs (clear_error p) vm path (some b)
            ≡ aos_vm_read_file fs p vm path (some b)
      cleared fs path b = unfold aos_vm_read_file host_call clear_error in refl
