-- ===== src/Utf8/Laws.antt =====
-- `from_utf8_lossy` changes nothing in valid text.
use flutter_experiments.Common.{
  ℕ, zero, suc, ◌≤◌, ◌≡◌, refl, Bytes, Bool, true, false, [], ◌∷◌, length, drop, arith,
  take-append-drop, length-drop, ◌&&◌, get_or,
}
use flutter_experiments.Utf8.{chunk, first_chunk, valid_from, is_utf8, lossy_from, from_utf8_lossy}

and_true : (a b : Bool) → (a && b) ≡ true → (a ≡ true) × (b ≡ true)
and_true true b h = (refl, h)
and_true false b h = cc

-- A chunk has a byte at least.
chunk_long : (a b c d : ℕ) → 1 ≤ (chunk a b c d).1
unfolding chunk
chunk_long a b c d = ground arith

first_chunk_long : (s : Bytes) → 1 ≤ (first_chunk s).1
unfolding first_chunk
first_chunk_long s = chunk_long (get_or s 0 0) (get_or s 1 0) (get_or s 2 0) (get_or s 3 0)

lossy_from-valid : (f : ℕ) (s : Bytes) → length s ≤ f → valid_from f s ≡ true → lossy_from f s ≡ s
unfolding valid_from lossy_from
lossy_from-valid zero [] h v = refl
lossy_from-valid zero (b ∷ s) h v = absurd (omega arith)
lossy_from-valid (suc f) [] h v = refl
lossy_from-valid (suc f) (b ∷ s) h v =
    let n : ℕ = (first_chunk (b ∷ s)).1 in
    let parts = and_true (first_chunk (b ∷ s)).0 (valid_from f (drop n (b ∷ s))) v in
    let shorter : length (drop n (b ∷ s)) ≤ f =
      omega (arith, length-drop n (b ∷ s), first_chunk_long (b ∷ s)) in
    rw (parts.0, lossy_from-valid f (drop n (b ∷ s)) shorter parts.1) (take-append-drop n (b ∷ s))

-- Text that `str::from_utf8` accepts is what `String::from_utf8_lossy` makes of it.
pub from_utf8_lossy-valid : (s : Bytes) → is_utf8 s ≡ true → from_utf8_lossy s ≡ s
unfolding is_utf8 from_utf8_lossy
from_utf8_lossy-valid s v = lossy_from-valid (length s) s (omega arith) v
