-- ===== src/Snapshot/Laws.antt =====
-- Snapshots from the side of the caller, who frees them with `aos_bytes_free`.
use Prim.Native.String.{String}
use flutter_experiments.Common.{
  ℕ, ◌≡◌, ◌<◌, refl, Bytes, Bool, true, false, Option, none, some, [], ◌∷◌, ◌&&◌, if◌then◌else◌,
  pos, minus_one, length, take, is_empty, nat_beq, arith, take_all,
}
use flutter_experiments.Error.{Result, ok}
use flutter_experiments.Buf.{
  AosBuf, AosBytes, fill, copy_into, alloc_bytes, aos_bytes_free, is_null,
}
use flutter_experiments.Table.{Vm, Process, find_vm}
use flutter_experiments.Host.{Outcome, gave, map_host, slice, require_args, host_call, fill_if}
use flutter_experiments.Host.Calls.{after_call, host_call_reached, find_vm-nonzero}
use flutter_experiments.Snapshot.{
  HostSnapshots, alloc_failed, copy_snapshot, give_alloc, give_layer, aos_vm_snapshot,
  aos_vm_snapshot_incremental, aos_vm_commit_layer,
}

-- A null buffer for an empty snapshot.
abbrev pub empty_into_null : AosBuf → Bytes → Bool
empty_into_null b bytes = is_null b.ptr && is_empty bytes

-- The copy of `aos_vm_snapshot_into` does what `fill_buf` does, but that it refuses to put an empty
-- snapshot where there is no memory.
pub copy_snapshot-fill :
    (b : AosBuf) (bytes : Bytes)
    → copy_snapshot b bytes ≡ (
        if empty_into_null b bytes
        then (minus_one, record b { len = length bytes })
        else fill b bytes)
unfolding copy_snapshot fill copy_into
copy_snapshot-fill b [] = ground arith
copy_snapshot-fill b (x ∷ bytes) = ground arith

-- An allocation that the caller owns: it holds the bytes, and freeing it gives the allocator back
-- exactly their number, or nothing if there are none.
abbrev pub Owns : Option AosBytes → Bytes → Type 0
Owns out bytes =
    (b : AosBytes) × (out ≡ some b)
    × (slice b.ptr b.len ≡ bytes)
    × ((aos_bytes_free (some b)).1 ≡ (if is_empty bytes then none else some (length bytes)))

alloc_bytes-Owns :
    (granted : ℕ → Bool) (bytes : Bytes)
    → granted (length bytes) ≡ true
    → Owns (some (alloc_bytes granted bytes)) bytes
unfolding alloc_bytes aos_bytes_free
alloc_bytes-Owns granted [] room = (alloc_bytes granted [], refl, refl, refl)
alloc_bytes-Owns granted (b ∷ bytes) room = (
  record { ptr = some (b ∷ bytes); len = length (b ∷ bytes) },
  rw (room),
  take_all (length (b ∷ bytes)) (b ∷ bytes) (omega arith),
  ground arith,
)

alloc_bytes-fine :
    (granted : ℕ → Bool) (bytes : Bytes)
    → granted (length bytes) ≡ true
    → alloc_failed (alloc_bytes granted bytes) bytes ≡ false
unfolding alloc_bytes alloc_failed
alloc_bytes-fine granted [] room = refl
alloc_bytes-fine granted (b ∷ bytes) room = rw (room) (ground arith)

module _ {H : Type 0} (p : Process H) (vm : ℕ) (entry : Vm H) (live : find_vm p vm ≡ ok entry)
    (usable : entry.host.poisoned ≡ false) where
  give_alloc-host_call :
      {A : Type 0} (granted : ℕ → Bool) (refusal what : String) (old : Option AosBytes)
      (args : Result A) (a : A) (f : A → H → Outcome Bytes × H) (bytes : Bytes) (h : H)
      → args ≡ ok a
      → f a entry.host.value ≡ (gave bytes, h)
      → granted (length bytes) ≡ true
      → give_alloc granted refusal old (host_call p vm args what f)
        ≡ (pos 0, some (alloc_bytes granted bytes), after_call p vm entry h)
  unfolding give_alloc map_host
  give_alloc-host_call granted refusal what old args a f bytes h good answer room = rw (
    host_call_reached p vm entry live usable args a what f good,
    answer,
    alloc_bytes-fine granted bytes room,
  )

  give_layer-host_call :
      {A : Type 0} (granted : ℕ → Bool) (what : String) (old : Option AosBytes)
      (digest_out : Option AosBuf) (args : Result A) (a : A)
      (f : A → H → Outcome (Bytes × Bytes) × H) (tar digest : Bytes) (h : H)
      → args ≡ ok a
      → f a entry.host.value ≡ (gave (tar, digest), h)
      → granted (length tar) ≡ true
      → give_layer granted old digest_out (host_call p vm args what f) ≡ (
        pos 0,
        some (alloc_bytes granted tar),
        fill_if digest_out digest,
        after_call p vm entry h,
      )
  unfolding give_layer map_host
  give_layer-host_call granted what old digest_out args a f tar digest h good answer room = rw (
    host_call_reached p vm entry live usable args a what f good,
    answer,
    alloc_bytes-fine granted tar room,
  )

  vm_fine : nat_beq vm 0 ≡ false
  vm_fine = find_vm-nonzero p vm entry live

  snapshot_lem :
      (hs : HostSnapshots H) (granted : ℕ → Bool) (old : AosBytes) (bytes : Bytes) (h : H)
      → hs.snapshot entry.host.value ≡ (gave bytes, h)
      → granted (length bytes) ≡ true
      → aos_vm_snapshot hs granted p vm (some old)
        ≡ (pos 0, some (alloc_bytes granted bytes), after_call p vm entry h)
  unfolding aos_vm_snapshot require_args
  snapshot_lem hs granted old bytes h answer room =
      give_alloc-host_call granted _ _ (some old) _ tt (λ u h. hs.snapshot h) bytes h (rw (vm_fine))
        answer room

  snapshot_incremental_lem :
      (hs : HostSnapshots H) (granted : ℕ → Bool) (old : AosBytes) (base : Bytes) (base_len : ℕ)
      (bytes : Bytes) (h : H)
      → 0 < base_len
      → hs.snapshot_incremental (take base_len base) entry.host.value ≡ (gave bytes, h)
      → granted (length bytes) ≡ true
      → aos_vm_snapshot_incremental hs granted p vm (some base) base_len (some old)
        ≡ (pos 0, some (alloc_bytes granted bytes), after_call p vm entry h)
  unfolding aos_vm_snapshot_incremental require_args
  snapshot_incremental_lem hs granted old base base_len bytes h long answer room =
      give_alloc-host_call granted _ _ (some old) _ tt
        (λ u h. hs.snapshot_incremental (take base_len base) h) bytes h (ground (arith, vm_fine))
        answer room

  commit_layer_lem :
      (hs : HostSnapshots H) (granted : ℕ → Bool) (old : AosBytes) (digest_out : Option AosBuf)
      (tar digest : Bytes) (h : H)
      → hs.commit_layer entry.host.value ≡ (gave (tar, digest), h)
      → granted (length tar) ≡ true
      → aos_vm_commit_layer hs granted p vm (some old) digest_out ≡ (
        pos 0,
        some (alloc_bytes granted tar),
        fill_if digest_out digest,
        after_call p vm entry h,
      )
  unfolding aos_vm_commit_layer require_args
  commit_layer_lem hs granted old digest_out tar digest h answer room =
      give_layer-host_call granted _ (some old) digest_out _ tt (λ u h. hs.commit_layer h) tar
        digest h (rw (vm_fine)) answer room

  -- On a live machine whose host lock is usable, if the allocator grants the size, then a full
  -- snapshot, an incremental one against a base that is not empty, and a committed layer each return 0
  -- with an allocation that holds exactly the host's bytes; `aos_bytes_free` gives the allocator back
  -- exactly the size that was asked for. The table keeps what the host has become.
  pub snapshots_owned :
      (hs : HostSnapshots H) (granted : ℕ → Bool) (old : AosBytes) (digest_out : Option AosBuf)
      (base : Bytes) (base_len : ℕ) (bytes delta tar digest : Bytes) (h1 h2 h3 : H)
      → 0 < base_len
      → hs.snapshot entry.host.value ≡ (gave bytes, h1)
      → hs.snapshot_incremental (take base_len base) entry.host.value ≡ (gave delta, h2)
      → hs.commit_layer entry.host.value ≡ (gave (tar, digest), h3)
      → granted (length bytes) ≡ true
      → granted (length delta) ≡ true
      → granted (length tar) ≡ true
      → let full = aos_vm_snapshot hs granted p vm (some old) in
        let inc = aos_vm_snapshot_incremental hs granted p vm (some base) base_len (some old) in
        let layer = aos_vm_commit_layer hs granted p vm (some old) digest_out in
        ((full.0 ≡ pos 0) × Owns full.1 bytes × (full.2 ≡ after_call p vm entry h1))
        × ((inc.0 ≡ pos 0) × Owns inc.1 delta × (inc.2 ≡ after_call p vm entry h2))
        × ((layer.0 ≡ pos 0) × Owns layer.1 tar × (layer.3 ≡ after_call p vm entry h3))
  snapshots_owned hs granted old digest_out base base_len bytes delta tar digest h1 h2 h3 long full
        inc layer room1 room2 room3 =
      (
        rw (snapshot_lem hs granted old bytes h1 full room1)
            (refl, alloc_bytes-Owns granted bytes room1, refl),
        rw (snapshot_incremental_lem hs granted old base base_len delta h2 long inc room2)
            (refl, alloc_bytes-Owns granted delta room2, refl),
        rw (commit_layer_lem hs granted old digest_out tar digest h3 layer room3)
            (refl, alloc_bytes-Owns granted tar room3, refl),
      )
