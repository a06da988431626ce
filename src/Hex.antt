-- ===== src/Hex.antt =====
-- catalog.rs, `decode_hex` and `hex_nibble`, with `str::trim` of the standard library.
pub mod Laws
use flutter_experiments.Common.{
  ℕ, zero, suc, Bytes, Bool, true, false, Option, none, some, List, [], ◌∷◌, ◌++◌, if◌then◌else◌,
  ◌&&◌, ◌||◌, ◌+◌, ◌-◌, ◌*◌, ◌%◌, length, drop, ltb, leb, nat_beq, get_or,
}
use flutter_experiments.Error.{Error, message, bad_digit, Result, ok, err, ◌>>=◌}

in_range : ℕ → ℕ → ℕ → Bool
in_range lo hi b = leb lo b && leb b hi

-- The number of bytes of the character of Unicode's White_Space that three bytes begin with, or 0.
white : ℕ → ℕ → ℕ → ℕ
unfolding in_range
white b0 b1 b2 =
    if in_range 0x09 0x0D b0 || nat_beq b0 0x20
    then 1
    else if nat_beq b0 0xC2 && (nat_beq b1 0x85 || nat_beq b1 0xA0)
    then 2
    else if (nat_beq b0 0xE1 && (nat_beq b1 0x9A && nat_beq b2 0x80))
        || (nat_beq b0 0xE2
            && (nat_beq b1 0x80
                && (in_range 0x80 0x8A b2
                    || (nat_beq b2 0xA8 || (nat_beq b2 0xA9 || nat_beq b2 0xAF)))))
        || (nat_beq b0 0xE2 && (nat_beq b1 0x81 && nat_beq b2 0x9F))
        || (nat_beq b0 0xE3 && (nat_beq b1 0x80 && nat_beq b2 0x80))
    then 3
    else 0

white_before : Bytes → ℕ
unfolding white
white_before s = white (get_or s 0 0) (get_or s 1 0) (get_or s 2 0)

-- The same of a reversed text: the last byte comes first.
white_after : Bytes → ℕ
unfolding white
white_after s =
    if nat_beq (white (get_or s 0 0) 0 0) 1
    then 1
    else if nat_beq (white (get_or s 1 0) (get_or s 0 0) 0) 2
    then 2
    else if nat_beq (white (get_or s 2 0) (get_or s 1 0) (get_or s 0 0)) 3
    then 3
    else 0

-- As long as `width` finds a character; each takes a byte at least, and the length is the fuel.
strip : (Bytes → ℕ) → ℕ → Bytes → Bytes
strip width zero s = s
strip width (suc f) s =
    let rest = strip width f (drop (width s) s) in if nat_beq (width s) 0 then s else rest

abbrev pub rev_onto : Bytes → Bytes → Bytes
rev_onto [] acc = acc
rev_onto (b ∷ s) acc = rev_onto s (b ∷ acc)

unfoldable pub trim : Bytes → Bytes
unfolding strip white_before white_after
trim s =
    let front = strip white_before (length s) s in
    rev_onto (strip white_after (length front) (rev_onto front [])) []

unfoldable pub hex_nibble : ℕ → Result ℕ
unfolding in_range
hex_nibble b =
    if in_range 0x30 0x39 b
    then ok (b - 0x30)
    else if in_range 0x61 0x66 b
    then ok (b - 0x61 + 10)
    else if in_range 0x41 0x46 b
    then ok (b - 0x41 + 10)
    else err (bad_digit b)

-- The loop; `hi << 4 | lo` of two numbers below 16. A last single byte does not occur.
unfoldable pub decode_pairs : Bytes → Result Bytes
unfolding hex_nibble
decode_pairs [] = ok []
decode_pairs (b ∷ []) = ok []
decode_pairs (b ∷ c ∷ s) = do
  hi ← hex_nibble b
  lo ← hex_nibble c
  rest ← decode_pairs s
  ok ((hi * 16 + lo) ∷ rest)

unfoldable pub decode_trimmed : Bytes → Result Bytes
unfolding decode_pairs
decode_trimmed s = if nat_beq (length s % 2) 0 then decode_pairs s else err (message "odd length")

unfoldable pub decode_hex : Bytes → Result Bytes
unfolding decode_trimmed trim
decode_hex s = decode_trimmed (trim s)
