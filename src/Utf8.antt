-- ===== src/Utf8.antt =====
-- UTF-8 as Rust's standard library reads it: `str::from_utf8`, `String::from_utf8_lossy`. A string is
-- its list of bytes, so both work on byte lists.
pub mod Laws
use flutter_experiments.Common.{
  ℕ, zero, suc, Bytes, Bool, true, false, Option, none, some, List, [], ◌∷◌, ◌++◌, if◌then◌else◌,
  not, ◌&&◌, ◌||◌, length, drop, take, get_or, ltb, leb, nat_beq,
}

in_range : ℕ → ℕ → ℕ → Bool
in_range lo hi b = leb lo b && leb b hi

continuation : ℕ → Bool
unfolding in_range
continuation b = in_range 0x80 0xBF b

-- The second byte of a sequence of three: no overlong form and no surrogate.
three_second : ℕ → ℕ → Bool
unfolding in_range
three_second b0 b1 =
    (nat_beq b0 0xE0 && in_range 0xA0 0xBF b1)
    || ((in_range 0xE1 0xEC b0 && in_range 0x80 0xBF b1)
        || ((nat_beq b0 0xED && in_range 0x80 0x9F b1)
            || (in_range 0xEE 0xEF b0 && in_range 0x80 0xBF b1)))

-- The second byte of a sequence of four: no overlong form, nothing above U+10FFFF.
four_second : ℕ → ℕ → Bool
unfolding in_range
four_second b0 b1 =
    (nat_beq b0 0xF0 && in_range 0x90 0xBF b1)
    || ((in_range 0xF1 0xF3 b0 && in_range 0x80 0xBF b1)
        || (nat_beq b0 0xF4 && in_range 0x80 0x8F b1))

-- The chunk that four bytes begin with (0 past the end): whether it is a character, and its length.
chunk : ℕ → ℕ → ℕ → ℕ → Bool × ℕ
chunk b0 b1 b2 b3 =
    if ltb b0 0x80
    then (true, 1)
    else if in_range 0xC2 0xDF b0
    then (if continuation b1 then (true, 2) else (false, 1))
    else if in_range 0xE0 0xEF b0
    then (if not (three_second b0 b1)
        then (false, 1)
        else if continuation b2
        then (true, 3)
        else (false, 2))
    else if in_range 0xF0 0xF4 b0
    then (if not (four_second b0 b1)
        then (false, 1)
        else if not (continuation b2)
        then (false, 2)
        else if continuation b3
        then (true, 4)
        else (false, 3))
    else (false, 1)

unfoldable pub first_chunk : Bytes → Bool × ℕ
unfolding chunk in_range continuation three_second four_second
first_chunk s = chunk (get_or s 0 0) (get_or s 1 0) (get_or s 2 0) (get_or s 3 0)

-- The recursions take the length for fuel: each step drops a byte at least.
valid_from : ℕ → Bytes → Bool
unfolding first_chunk
valid_from zero s = true
valid_from (suc f) [] = true
valid_from (suc f) (b ∷ s) =
    let (good, n) = first_chunk (b ∷ s) in good && valid_from f (drop n (b ∷ s))

unfoldable pub is_utf8 : Bytes → Bool
unfolding valid_from in_range continuation three_second four_second
is_utf8 s = valid_from (length s) s

unfoldable pub from_utf8 : Bytes → Option Bytes
unfolding is_utf8
from_utf8 s = if is_utf8 s then some s else none

-- U+FFFD.
abbrev replacement : Bytes
replacement = 0xEF ∷ 0xBF ∷ 0xBD ∷ []

lossy_from : ℕ → Bytes → Bytes
unfolding first_chunk
lossy_from zero s = []
lossy_from (suc f) [] = []
lossy_from (suc f) (b ∷ s) =
    let (good, n) = first_chunk (b ∷ s) in
    (if good then take n (b ∷ s) else replacement) ++ lossy_from f (drop n (b ∷ s))

unfoldable pub from_utf8_lossy : Bytes → Bytes
unfolding lossy_from in_range continuation three_second four_second
from_utf8_lossy s = lossy_from (length s) s
