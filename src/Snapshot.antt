-- ===== src/Snapshot.antt =====
-- snapshot.rs: snapshots and layers, with the snapshots of the host as a parameter. `granted` is what
-- the allocator says to a request of that many bytes, as in Buf.antt.
pub mod Laws
use Prim.Native.String.{String}
use flutter_experiments.Common.{
  ℕ, Bytes, Bool, Option, none, some, if◌then◌else◌, ◌&&◌, ◌||◌, not, ℤ, pos, minus_one, length,
  take, is_empty, ltb, nat_beq,
}
use flutter_experiments.Error.{Error, message, Result, ok, err}
use flutter_experiments.Buf.{AosBuf, AosBytes, alloc_bytes, copy_into, is_null}
use flutter_experiments.Table.{Process, set_error}
use flutter_experiments.Host.{Outcome, slice, require_args, host_call, fill_if}

-- The methods of the host that snapshot.rs calls.
pub record HostSnapshots (H : Type 0) : Type 0 where
  pub snapshot : H → Outcome Bytes × H
  pub snapshot_incremental : Bytes → H → Outcome Bytes × H
  pub commit_layer : H → Outcome (Bytes × Bytes) × H

-- An allocation that is shorter than what it was asked for.
unfoldable pub alloc_failed : AosBytes → Bytes → Bool
alloc_failed ab bytes = not (nat_beq ab.len (length bytes)) && not (is_empty bytes)

-- The copy of `aos_vm_snapshot_into`, which does not use `fill_buf`.
unfoldable pub copy_snapshot : AosBuf → Bytes → ℤ × AosBuf
unfolding copy_into
copy_snapshot b bytes =
    let sized = record b { len = length bytes } in
    if ltb b.cap (length bytes) then (minus_one, sized) else elim b.ptr [
      | none ↦ (minus_one, sized)
      | some region ↦ (pos 0, record sized { ptr = some (copy_into region bytes) })
    ]

module _ {H : Type 0} where
  -- The last `match` of `aos_vm_snapshot` and `aos_vm_snapshot_incremental`.
  unfoldable pub give_alloc :
      (ℕ → Bool)
      → String
      → Option AosBytes
      → Result Bytes × Process H
      → ℤ × Option AosBytes × Process H
  unfolding set_error alloc_bytes alloc_failed
  give_alloc granted refusal out (err e, p) = (minus_one, out, set_error e p)
  give_alloc granted refusal out (ok bytes, p) =
      let ab = alloc_bytes granted bytes in
      if alloc_failed ab bytes
      then (minus_one, out, set_error (message refusal) p)
      else (pos 0, some ab, p)

  unfoldable pub give_copy :
      Option AosBuf → Result Bytes × Process H → ℤ × Option AosBuf × Process H
  unfolding set_error copy_snapshot
  give_copy out (err e, p) = (minus_one, out, set_error e p)
  give_copy none (ok bytes, p) = (minus_one, none, p)
  give_copy (some b) (ok bytes, p) = let (code, b') = copy_snapshot b bytes in (code, some b', p)

  -- A digest that does not fit its buffer is passed over.
  unfoldable pub give_layer :
      (ℕ → Bool)
      → Option AosBytes
      → Option AosBuf
      → Result (Bytes × Bytes) × Process H
      → ℤ × Option AosBytes × Option AosBuf × Process H
  unfolding set_error alloc_bytes alloc_failed fill_if
  give_layer granted out_tar out_digest_hex (err e, p) =
      (minus_one, out_tar, out_digest_hex, set_error e p)
  give_layer granted out_tar out_digest_hex (ok (tar, digest), p) =
      let ab = alloc_bytes granted tar in
      if alloc_failed ab tar
      then (minus_one, out_tar, out_digest_hex, set_error (message "alloc failed") p)
      else (pos 0, some ab, fill_if out_digest_hex digest, p)

  module _ (hs : HostSnapshots H) (granted : ℕ → Bool) (p : Process H) (vm : ℕ) where
    unfoldable pub aos_vm_snapshot : Option AosBytes → ℤ × Option AosBytes × Process H
    unfolding host_call require_args give_alloc
    aos_vm_snapshot out = give_alloc granted "snapshot alloc failed" out (
        host_call p vm (require_args "aos_vm_snapshot: invalid args" (nat_beq vm 0 || is_null out))
          "snapshot failed" (λ u h. hs.snapshot h))

    unfoldable pub aos_vm_snapshot_incremental :
        Option Bytes → ℕ → Option AosBytes → ℤ × Option AosBytes × Process H
    unfolding host_call require_args give_alloc
    aos_vm_snapshot_incremental base base_len out = give_alloc granted "alloc failed" out (
        host_call p vm
          (require_args "aos_vm_snapshot_incremental: invalid args"
            (nat_beq vm 0 || (is_null base || (nat_beq base_len 0 || is_null out))))
          "snapshot_incremental failed" (λ u h. hs.snapshot_incremental (slice base base_len) h))

    unfoldable pub aos_vm_commit_layer :
        Option AosBytes → Option AosBuf → ℤ × Option AosBytes × Option AosBuf × Process H
    unfolding host_call require_args give_layer
    aos_vm_commit_layer out_tar out_digest_hex = give_layer granted out_tar out_digest_hex (
        host_call p vm
          (require_args "aos_vm_commit_layer: invalid args" (nat_beq vm 0 || is_null out_tar))
          "commit_layer failed" (λ u h. hs.commit_layer h))

  unfoldable pub aos_vm_snapshot_into :
      HostSnapshots H → Process H → ℕ → Option AosBuf → ℤ × Option AosBuf × Process H
  unfolding host_call require_args give_copy
  aos_vm_snapshot_into hs p vm out = give_copy out (
      host_call p vm
        (require_args "aos_vm_snapshot_into: invalid args" (nat_beq vm 0 || is_null out))
        "snapshot failed" (λ u h. hs.snapshot h))
