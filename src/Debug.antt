-- ===== src/Debug.antt =====
-- Text as Rust's `{:?}` prints a `str`, which fs.rs and exec.rs use to quote JSON strings. A character
-- outside of ASCII is printed as itself or as an escape by tables of the standard library, which are
-- the parameter `escape`: what is printed for the character's bytes.
pub mod Laws
use flutter_experiments.Common.{
  ℕ, zero, suc, Bytes, Bool, List, [], ◌∷◌, ◌++◌, if◌then◌else◌, ltb, nat_beq, length, take, drop,
  ascii, ◌/◌, ◌%◌, ◌+◌, ◌-◌, ◌||◌, max_one, min,
}
use flutter_experiments.Utf8.{first_chunk}

-- A hexadecimal digit, in lower case.
abbrev pub hex_digit : ℕ → ℕ
hex_digit n = if ltb n 10 then 0x30 + n else 0x57 + n

-- `\u{..}` with the digits of a code below 256 that it needs.
abbrev pub unicode_escape : ℕ → Bytes
unicode_escape b =
    ascii "\\u{"
    ++ (if ltb b 16 then hex_digit b ∷ [] else hex_digit (b / 16) ∷ hex_digit (b % 16) ∷ [])
    ++ ascii "}"

-- A character of ASCII. The quote `'` stays as it is.
unfoldable pub escape_ascii : ℕ → Bytes
escape_ascii b =
    if nat_beq b 0
    then ascii "\\0"
    else if nat_beq b 9
    then ascii "\\t"
    else if nat_beq b 10
    then ascii "\\n"
    else if nat_beq b 13
    then ascii "\\r"
    else if nat_beq b 0x22
    then ascii "\\\""
    else if nat_beq b 0x5C
    then ascii "\\\\"
    else if ltb b 0x20 || nat_beq b 0x7F
    then unicode_escape b
    else b ∷ []

-- One character after another, with the number of bytes for fuel.
unfoldable pub escape_from : (Bytes → Bytes) → ℕ → Bytes → Bytes
unfolding escape_ascii first_chunk
escape_from escape zero s = []
escape_from escape (suc f) [] = []
escape_from escape (suc f) (b ∷ s) =
    let n = (first_chunk (b ∷ s)).1 in
    (if ltb b 0x80 then escape_ascii b else escape (take n (b ∷ s)))
    ++ escape_from escape f (drop n (b ∷ s))

unfoldable pub quote : (Bytes → Bytes) → Bytes → Bytes
unfolding escape_from
quote escape s = ascii "\"" ++ escape_from escape (length s) s ++ ascii "\""
