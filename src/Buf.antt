-- ===== src/Buf.antt =====
-- buf.rs: the caller's buffers, the library's allocations, and the environment blob. A pointer is
-- `none` when null, and otherwise the bytes of the region that it points to.
pub mod Laws
pub mod Env
pub mod Loop
use flutter_experiments.Common.{
  ℕ, ◌+◌, min, Bytes, Bool, true, false, Option, none, some, [], ◌∷◌, ◌++◌, if◌then◌else◌, ◌||◌, ℤ,
  pos, minus_one, length, take, drop, is_empty, ltb,
}

-- The first bytes of a region overwritten: `copy_nonoverlapping`.
unfoldable pub copy_into : Bytes → Bytes → Bytes
copy_into region src = src ++ drop (length src) region

abbrev pub is_null {ℓ} : {A : Type ℓ} → Option A → Bool
is_null none = true
is_null (some a) = false

-- `aos_buf_t`.
pub record AosBuf : Type 0 where
  pub ptr : Option Bytes
  pub cap : ℕ
  pub len : ℕ

-- `aos_bytes_t`.
pub record AosBytes : Type 0 where
  pub ptr : Option Bytes
  pub len : ℕ

-- The copy into a buffer that is not null; `len` is set before anything is refused.
unfoldable pub fill : AosBuf → Bytes → ℤ × AosBuf
unfolding copy_into
fill b src =
    let sized = record b { len = length src } in
    if is_empty src
    then (pos 0, sized)
    else if ltb b.cap (length src)
    then (minus_one, sized)
    else elim b.ptr [
      | none ↦ (minus_one, sized)
      | some region ↦ (pos 0, record sized { ptr = some (copy_into region src) })
    ]

unfoldable pub fill_buf : Option AosBuf → Bytes → ℤ × Option AosBuf
unfolding fill
fill_buf none src = (minus_one, none)
fill_buf (some b) src = let (code, b') = fill b src in (code, some b')

abbrev no_bytes : AosBytes
no_bytes = record { ptr = none; len = 0 }

-- `granted` is what the allocator says to a request of that many bytes.
unfoldable pub alloc_bytes : (ℕ → Bool) → Bytes → AosBytes
alloc_bytes granted src =
    if is_empty src
    then no_bytes
    else if granted (length src)
    then record { ptr = some src; len = length src }
    else no_bytes

-- The struct afterwards, and the size that was given back to the allocator, if any.
unfoldable pub aos_bytes_free : Option AosBytes → Option AosBytes × Option ℕ
aos_bytes_free none = (none, none)
aos_bytes_free (some b) =
    (some no_bytes, if is_null b.ptr then none else if ltb 0 b.len then some b.len else none)

-- The caller's buffer and length cell afterwards.
unfoldable pub copy_out : Bytes → Option Bytes → ℕ → Option ℕ → Option Bytes × Option ℕ
unfolding copy_into
copy_out src buf cap out_len =
    let n = min (length src) cap in
    (
      elim buf [
        | none ↦ none
        | some region ↦ if ltb 0 n then some (copy_into region (take n src)) else some region
      ],
      elim out_len [ none ↦ none | some old ↦ some n ],
    )
