-- ===== src/Hex/Laws.antt =====
-- Hexadecimal text reads back as the bytes that it was made of, in either case and within white space.
use flutter_experiments.Common.{
  ℕ, zero, suc, ◌≡◌, ◌<◌, ◌≤◌, refl, sym, ap, ◌∙◌, ◌+◌, ◌*◌, ◌/◌, ◌%◌, Bytes, Bool, true, false, [],
  ◌∷◌, ◌++◌, if◌then◌else◌, ◌&&◌, ◌||◌, ltb, leb, nat_beq, length, get_or, arith, append_assoc,
  append-nil, length-append,
}
use flutter_experiments.Error.{ok}
use flutter_experiments.Hex.{
  white_before, white_after, strip, rev_onto, trim, hex_nibble, decode_pairs, decode_trimmed,
  decode_hex, white,
}

-- The digit of a number below 16.
abbrev pub hex_digit : Bool → ℕ → ℕ
hex_digit upper n = if ltb n 10 then 0x30 + n else if upper then 0x37 + n else 0x57 + n

abbrev pub encode_hex : Bool → Bytes → Bytes
encode_hex upper [] = []
encode_hex upper (b ∷ s) = hex_digit upper (b / 16) ∷ hex_digit upper (b % 16) ∷ encode_hex upper s

abbrev pub AllBytes : Bytes → Type 0
AllBytes [] = Unit {0}
AllBytes (b ∷ s) = (b < 256) × AllBytes s

-- White space of ASCII.
abbrev pub is_space : ℕ → Bool
is_space b = (leb 0x09 b && leb b 0x0D) || nat_beq b 0x20

abbrev pub AllSpace : Bytes → Type 0
AllSpace [] = Unit {0}
AllSpace (b ∷ s) = (is_space b ≡ true) × AllSpace s

-- A printable character of ASCII that is no space.
abbrev is_solid : ℕ → Bool
is_solid b = leb 0x21 b && ltb b 0x80

abbrev AllSolid : Bytes → Type 0
AllSolid [] = Unit {0}
AllSolid (b ∷ s) = (is_solid b ≡ true) × AllSolid s

white_before-solid : (b : ℕ) (s : Bytes) → is_solid b ≡ true → white_before (b ∷ s) ≡ 0
unfolding white_before white
white_before-solid b s solid = ground arith

white_before-space : (b : ℕ) (s : Bytes) → is_space b ≡ true → white_before (b ∷ s) ≡ 1
unfolding white_before white
white_before-space b s space = ground arith

not_one : (b : ℕ) → is_solid b ≡ true → nat_beq (white b 0 0) 1 ≡ false
unfolding white
not_one b solid = ground arith

not_two : (a b : ℕ) → is_solid b ≡ true → nat_beq (white a b 0) 2 ≡ false
unfolding white
not_two a b solid = ground arith

not_three : (a b c : ℕ) → is_solid c ≡ true → nat_beq (white a b c) 3 ≡ false
unfolding white
not_three a b c solid = ground arith

white_after-solid : (b : ℕ) (s : Bytes) → is_solid b ≡ true → white_after (b ∷ s) ≡ 0
unfolding white_after
white_after-solid b s solid = rw (
  not_one b solid,
  not_two (get_or s 0 0) b solid,
  not_three (get_or s 1 0) (get_or s 0 0) b solid,
)

white_after-space : (b : ℕ) (s : Bytes) → is_space b ≡ true → white_after (b ∷ s) ≡ 1
unfolding white_after white
white_after-space b s space = ground arith

white_after-AllSolid : (s : Bytes) → AllSolid s → white_after s ≡ 0
white_after-AllSolid [] solid = unfold white_after white in refl
white_after-AllSolid (b ∷ s) solid = white_after-solid b s solid.0

strip-append :
    (width : Bytes → ℕ) (pad s : Bytes) (f : ℕ)
    → ((b : ℕ) (t : Bytes) → is_space b ≡ true → width (b ∷ t) ≡ 1)
    → AllSpace pad
    → width s ≡ 0
    → length pad ≤ f
    → strip width f (pad ++ s) ≡ s
unfolding strip
strip-append width [] s zero spaces space stop h = refl
strip-append width [] s (suc f) spaces space stop h = rw (stop)
strip-append width (b ∷ pad) s zero spaces space stop h = absurd (omega arith)
strip-append width (b ∷ pad) s (suc f) spaces space stop h =
    rw (spaces b (pad ++ s) space.0, strip-append width pad s f spaces space.1 stop (omega arith))

rev_onto-append : (a b acc : Bytes) → rev_onto (a ++ b) acc ≡ rev_onto b (rev_onto a acc)
rev_onto-append [] b acc = refl
rev_onto-append (x ∷ a) b acc = rev_onto-append a b (x ∷ acc)

rev_onto_acc : (s acc : Bytes) → rev_onto s acc ≡ rev_onto s [] ++ acc
rev_onto_acc [] acc = refl
rev_onto_acc (b ∷ s) acc =
    rev_onto_acc s (b ∷ acc)
    ∙ (sym (append_assoc (rev_onto s []) (b ∷ []) acc)
        ∙ ap (λ front. front ++ acc) (sym (rev_onto_acc s (b ∷ []))))

rev_onto-rev_onto : (s acc r : Bytes) → rev_onto (rev_onto s acc) r ≡ rev_onto acc (s ++ r)
rev_onto-rev_onto [] acc r = refl
rev_onto-rev_onto (b ∷ s) acc r = rev_onto-rev_onto s (b ∷ acc) r

rev-rev : (s : Bytes) → rev_onto (rev_onto s []) [] ≡ s
rev-rev s = rev_onto-rev_onto s [] [] ∙ append-nil s

length-rev_onto : (s acc : Bytes) → length (rev_onto s acc) ≡ length s + length acc
length-rev_onto [] acc = omega arith
length-rev_onto (b ∷ s) acc = omega (arith, length-rev_onto s (b ∷ acc))

rev_onto-AllSpace : (s acc : Bytes) → AllSpace s → AllSpace acc → AllSpace (rev_onto s acc)
rev_onto-AllSpace [] acc a b = b
rev_onto-AllSpace (x ∷ s) acc a b = rev_onto-AllSpace s (x ∷ acc) a.1 (a.0, b)

rev_onto-AllSolid : (s acc : Bytes) → AllSolid s → AllSolid acc → AllSolid (rev_onto s acc)
rev_onto-AllSolid [] acc a b = b
rev_onto-AllSolid (x ∷ s) acc a b = rev_onto-AllSolid s (x ∷ acc) a.1 (a.0, b)

-- The end of `trim`.
strip_back :
    (s pad : Bytes)
    → AllSolid s
    → AllSpace pad
    → rev_onto (strip white_after (length (s ++ pad)) (rev_onto (s ++ pad) [])) [] ≡ s
strip_back s pad solid space =
    ap (λ t. rev_onto (strip white_after (length (s ++ pad)) t) [])
      (rev_onto-append s pad [] ∙ rev_onto_acc pad (rev_onto s []))
    ∙ (ap (λ t. rev_onto t [])
          (strip-append white_after (rev_onto pad []) (rev_onto s []) (length (s ++ pad))
            white_after-space (rev_onto-AllSpace pad [] space tt)
            (white_after-AllSolid (rev_onto s []) (rev_onto-AllSolid s [] solid tt))
            (omega (arith, length-append s pad, length-rev_onto pad [])))
        ∙ rev-rev s)

AllSpace-append : (s t : Bytes) → AllSpace s → AllSpace t → AllSpace (s ++ t)
AllSpace-append [] t a b = b
AllSpace-append (x ∷ s) t a b = (a.0, AllSpace-append s t a.1 b)

trim_front :
    (s front : Bytes)
    → strip white_before (length s) s ≡ front
    → trim s ≡ rev_onto (strip white_after (length front) (rev_onto front [])) []
unfolding trim
trim_front s front e = ap (λ t. rev_onto (strip white_after (length t) (rev_onto t [])) []) e

trim-around :
    (before s after : Bytes)
    → AllSpace before
    → AllSolid s
    → AllSpace after
    → trim (before ++ (s ++ after)) ≡ s
unfolding trim
trim-around before [] after b solid a = trim_front (before ++ after) [] (
    ap (strip white_before (length (before ++ after))) (sym (append-nil (before ++ after)))
    ∙ strip-append white_before (before ++ after) [] (length (before ++ after)) white_before-space
        (AllSpace-append before after b a) (unfold white_before white in refl) (omega arith))
trim-around before (c ∷ s) after b solid a =
    trim_front (before ++ ((c ∷ s) ++ after)) ((c ∷ s) ++ after) (
      strip-append white_before before ((c ∷ s) ++ after) (length (before ++ ((c ∷ s) ++ after)))
        white_before-space b (white_before-solid c (s ++ after) solid.0)
        (omega (arith, length-append before ((c ∷ s) ++ after))))
    ∙ strip_back (c ∷ s) after solid a

hex_nibble-digit : (upper : Bool) (n : ℕ) → n < 16 → hex_nibble (hex_digit upper n) ≡ ok n
unfolding hex_nibble
hex_nibble-digit upper n h = ground arith

hex_digit-solid : (upper : Bool) (n : ℕ) → n < 16 → is_solid (hex_digit upper n) ≡ true
hex_digit-solid upper n h = ground arith

encode_hex-AllSolid : (upper : Bool) (s : Bytes) → AllBytes s → AllSolid (encode_hex upper s)
encode_hex-AllSolid upper [] small = tt
encode_hex-AllSolid upper (b ∷ s) small = (
  hex_digit-solid upper (b / 16) (omega (arith, small.0)),
  (hex_digit-solid upper (b % 16) (omega arith), encode_hex-AllSolid upper s small.1),
)

decode_pairs-encode_hex :
    (upper : Bool) (s : Bytes) → AllBytes s → decode_pairs (encode_hex upper s) ≡ ok s
unfolding decode_pairs
decode_pairs-encode_hex upper [] small = refl
decode_pairs-encode_hex upper (b ∷ s) small =
    rw
      (
        hex_nibble-digit upper (b / 16) (omega (arith, small.0)),
        hex_nibble-digit upper (b % 16) (omega arith),
        decode_pairs-encode_hex upper s small.1,
      )
      (ap (λ n. ok (n ∷ s)) (whole b))
  where
    whole : (b : ℕ) → b / 16 * 16 + b % 16 ≡ b
    whole b = omega arith

encode_hex-even : (upper : Bool) (s : Bytes) → nat_beq (length (encode_hex upper s) % 2) 0 ≡ true
encode_hex-even upper [] = refl
encode_hex-even upper (b ∷ s) = ground (arith, encode_hex-even upper s)

-- Every list of bytes is read back from its hexadecimal text, in lower or in upper case, also between
-- ASCII white space.
pub decode-encode_hex :
    (upper : Bool) (before s after : Bytes)
    → AllBytes s
    → AllSpace before
    → AllSpace after
    → decode_hex (before ++ (encode_hex upper s ++ after)) ≡ ok s
unfolding decode_hex decode_trimmed
decode-encode_hex upper before s after small space_before space_after = rw (
  trim-around before (encode_hex upper s) after space_before (encode_hex-AllSolid upper s small)
      space_after,
  encode_hex-even upper s,
  decode_pairs-encode_hex upper s small,
)
