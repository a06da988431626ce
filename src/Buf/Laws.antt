-- ===== src/Buf/Laws.antt =====
-- What the caller of a buffer function may rely on.
use flutter_experiments.Common.{
  ℕ, ◌≡◌, Bytes, some, [], ◌∷◌, ◌++◌, pos, minus_one, length, drop, arith, if◌then◌else◌, leb,
}
use flutter_experiments.Buf.{AosBuf, copy_into, fill}

-- On a buffer that is not null, `fill` always reports the size that is needed. It succeeds exactly if
-- the source fits the capacity; then the region begins with the source and keeps its other bytes. A
-- refusal leaves the region alone, and the capacity never changes.
pub fill_lem :
    (region src : Bytes) (room old : ℕ)
    → let b : AosBuf = record { ptr = some region; cap = room; len = old } in
      let out = fill b src in
      (out.1.len ≡ length src)
      × (out.1.cap ≡ room)
      × (out.0 ≡ (if leb (length src) room then pos 0 else minus_one))
      × (out.1.ptr
          ≡ some (if leb (length src) room then src ++ drop (length src) region else region))
unfolding fill copy_into
fill_lem region [] room old = ground arith
fill_lem region (x ∷ xs) room old = ground arith
