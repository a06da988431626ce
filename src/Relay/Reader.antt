-- ===== src/Relay/Reader.antt =====
-- Reading an answer through a buffer, call after call: an interface that the bodies of HTTP, host
-- calls and persistence meet, and what follows for every reader.
use flutter_experiments.Common.{
  ℕ, ◌+◌, ◌-◌, ◌^◌, ◌<◌, min, ◌≡◌, refl, sym, ap, ◌∙◌, Bytes, List, [], ◌∷◌, ◌++◌, ℤ, pos, negsuc,
  as_i32, as_i32_small, length, take, drop, arith, take-min, drop-min, drop-drop, take-append_exact,
  take-take-drop, length-take, length-drop,
}
use flutter_experiments.Relay.State.{RelayState}
use flutter_experiments.Relay.Net.{write_prefix}

-- The bytes that a status says were written to the buffer.
abbrev pub taken : ℤ → Bytes → Bytes
taken (pos n) buf = take n buf
taken (negsuc n) buf = []

-- A copy of what a buffer has room for gives a prefix of what is left.
pub taken_chunk :
    (rem buf : Bytes) (n : ℕ)
    → n ≡ min (length rem) (length buf)
    → length buf < 2 ^ 31
    → taken (as_i32 (pos n)) (write_prefix buf (take n rem)) ≡ take (length buf) rem
unfolding write_prefix
taken_chunk rem buf n e small = rw (as_i32_small n (omega arith)) (
    ap (λ k. take k (take n rem ++ drop (length (take n rem)) buf)) fits
    ∙ take-append_exact (take n rem) (drop (length (take n rem)) buf)
    ∙ ap (λ k. take k rem) e
    ∙ take-min (length buf) rem)
  where
    fits : n ≡ length (take n rem)
    fits = omega (arith, length-take n rem)

pub drop_chunk :
    (xs buf : Bytes) (start n : ℕ)
    → n ≡ min (length xs - start) (length buf)
    → drop (start + n) xs ≡ drop (length buf) (drop start xs)
drop_chunk xs buf start n e =
    sym (drop-drop start n xs)
    ∙ ap (λ k. drop k (drop start xs))
        (e ∙ ap (λ k. min k (length buf)) (sym (length-drop start xs)))
    ∙ drop-min (length buf) (drop start xs)

abbrev pub Read : Type 0
Read = RelayState → ℤ → Bytes → ℤ × Bytes × RelayState

-- `Holds r h bs`: under handle `h` the bytes `bs` of a good answer are still to be read.
pub record Reader : Type 1 where
  pub read : Read
  pub Holds : RelayState → ℤ → Bytes → Type 0
  pub taken-read :
      (r : RelayState) (h : ℤ) (bs buf : Bytes)
      → length buf < 2 ^ 31
      → Holds r h bs
      → taken (read r h buf).0 (read r h buf).1 ≡ take (length buf) bs
  pub read-Holds :
      (r : RelayState) (h : ℤ) (bs buf : Bytes)
      → Holds r h bs
      → Holds (read r h buf).2 h (drop (length buf) bs)

-- The bytes that a row of reads brings, and the relay after them.
unfoldable pub read_many : Read → RelayState → ℤ → List Bytes → Bytes × RelayState
read_many read r h [] = ([], r)
read_many read r h (buf ∷ bufs) =
    let (code, out, r') = read r h buf in
    let (rest, end) = read_many read r' h bufs in (taken code out ++ rest, end)

abbrev pub total : List Bytes → ℕ
total [] = 0
total (buf ∷ bufs) = length buf + total bufs

abbrev pub AllSmall : List Bytes → Type 0
AllSmall [] = Unit {0}
AllSmall (buf ∷ bufs) = (length buf < 2 ^ 31) × AllSmall bufs

module _ (rd : Reader) where
  open rd use {read, Holds, taken-read, read-Holds}

  pub read_many_lem :
      (bufs : List Bytes) (r : RelayState) (h : ℤ) (bs : Bytes)
      → AllSmall bufs
      → Holds r h bs
      → ((read_many read r h bufs).0 ≡ take (total bufs) bs)
        × Holds (read_many read r h bufs).1 h (drop (total bufs) bs)
  unfolding read_many
  read_many_lem [] r h bs small held = (refl, held)
  read_many_lem (buf ∷ bufs) r h bs small held =
      let r' : RelayState = (read r h buf).2 in
      let ih =
        read_many_lem bufs r' h (drop (length buf) bs) small.1 (read-Holds r h bs buf held) in
      (
        rw (taken-read r h bs buf small.0 held, ih.0) (take-take-drop (length buf) (total bufs) bs),
        rw (sym (drop-drop (length buf) (total bufs) bs)) ih.1,
      )
