-- ===== src/Debug/Laws.antt =====
-- A quoted text of plain ASCII is a string of JSON, and reads back as the text.
use flutter_experiments.Common.{
  ℕ, zero, suc, ◌≡◌, refl, ap, ◌∙◌, ◌≤◌, Bytes, Bool, true, Option, none, some, [], ◌∷◌, ◌++◌,
  if◌then◌else◌, ◌&&◌, ◌||◌, ltb, leb, nat_beq, length, ascii, arith, append_assoc,
}
use flutter_experiments.Utf8.{first_chunk}
use flutter_experiments.Debug.{escape_ascii, escape_from, quote}

-- The escapes of JSON (RFC 8259, section 7) with one letter.
abbrev pub letter_escape : ℕ → Option ℕ
letter_escape b =
    if nat_beq b 0x22 || (nat_beq b 0x5C || nat_beq b 0x2F)
    then some b
    else if nat_beq b 0x62
    then some 8
    else if nat_beq b 0x66
    then some 12
    else if nat_beq b 0x6E
    then some 10
    else if nat_beq b 0x72
    then some 13
    else if nat_beq b 0x74
    then some 9
    else none

-- A byte before what is read further on.
abbrev pub before : Option ℕ → Option (Bytes × Bytes) → Option (Bytes × Bytes)
before none rest = none
before (some b) none = none
before (some b) (some (s, left)) = some (b ∷ s, left)

-- A string of JSON after its opening quote: the text, and what follows the closing quote. A control
-- byte is no part of a string; the escape `\u` is left out.
unfoldable pub read_string : Bytes → Option (Bytes × Bytes)
read_string [] = none
read_string (b ∷ []) = if nat_beq b 0x22 then some ([], []) else none
read_string (b ∷ c ∷ s) =
    let next = read_string (c ∷ s) in
    let after = read_string s in
    if nat_beq b 0x22
    then some ([], c ∷ s)
    else if nat_beq b 0x5C
    then before (letter_escape c) after
    else if ltb b 0x20
    then none
    else before (some b) next

-- What precedes the rest of a text.
unfoldable pub expect : Bytes → Bytes → Option Bytes
expect [] s = some s
expect (b ∷ word) [] = none
expect (b ∷ word) (c ∷ s) = let rest = expect word s in if nat_beq b c then rest else none

abbrev after_quote : Option Bytes → Option (Bytes × Bytes)
after_quote none = none
after_quote (some s) = read_string s

unfoldable pub unquote : Bytes → Option (Bytes × Bytes)
unfolding expect read_string
unquote s = after_quote (expect (ascii "\"") s)

-- A printable character of ASCII, a tab, or an end of line.
abbrev pub is_plain : ℕ → Bool
is_plain b = (leb 0x20 b && ltb b 0x7F) || (nat_beq b 9 || (nat_beq b 10 || nat_beq b 13))

abbrev pub Plain : Bytes → Type 0
Plain [] = Unit {0}
Plain (b ∷ s) = (is_plain b ≡ true) × Plain s

pub expect-append : (word s : Bytes) → expect word (word ++ s) ≡ some s
unfolding expect
expect-append [] s = refl
expect-append (b ∷ word) s = ground (arith, expect-append word s)

-- One escaped character is read as the character.
read_string-escape_ascii :
    (b : ℕ) (s : Bytes)
    → is_plain b ≡ true
    → read_string (escape_ascii b ++ s) ≡ before (some b) (read_string s)
unfolding read_string escape_ascii
read_string-escape_ascii b [] plain = ground arith
read_string-escape_ascii b (c ∷ s) plain = ground arith

first_chunk-plain : (b : ℕ) (s : Bytes) → is_plain b ≡ true → (first_chunk (b ∷ s)).1 ≡ 1
unfolding first_chunk
first_chunk-plain b s plain = ground arith

escape_from-plain :
    (escape : Bytes → Bytes) (f b : ℕ) (s : Bytes)
    → is_plain b ≡ true
    → escape_from escape (suc f) (b ∷ s) ≡ escape_ascii b ++ escape_from escape f s
unfolding escape_from
escape_from-plain escape f b s plain =
    let small : ltb b 0x80 ≡ true = ground arith in rw (first_chunk-plain b s plain, small)

read_string-end : (left : Bytes) → read_string (0x22 ∷ left) ≡ some ([], left)
unfolding read_string
read_string-end [] = refl
read_string-end (c ∷ s) = refl

read_string-escape_from :
    (escape : Bytes → Bytes) (f : ℕ) (s left : Bytes)
    → Plain s
    → length s ≤ f
    → read_string (escape_from escape f s ++ (0x22 ∷ left)) ≡ some (s, left)
read_string-escape_from escape zero [] left plain h = unfold escape_from in read_string-end left
read_string-escape_from escape zero (b ∷ s) left plain h = absurd (omega arith)
read_string-escape_from escape (suc f) [] left plain h = unfold escape_from in read_string-end left
read_string-escape_from escape (suc f) (b ∷ s) left plain h = rw (
  escape_from-plain escape f b s plain.0,
  append_assoc (escape_ascii b) (escape_from escape f s) (0x22 ∷ left),
  read_string-escape_ascii b (escape_from escape f s ++ (0x22 ∷ left)) plain.0,
  read_string-escape_from escape f s left plain.1 (omega arith),
)

-- A plain text that `{:?}` prints is read as a string of JSON, wherever it stands.
pub unquote-quote :
    (escape : Bytes → Bytes) (s left : Bytes)
    → Plain s
    → unquote (quote escape s ++ left) ≡ some (s, left)
unfolding unquote quote
unquote-quote escape s left plain =
    ap read_string (append_assoc (escape_from escape (length s) s) (ascii "\"") left)
    ∙ read_string-escape_from escape (length s) s left plain (omega arith)
