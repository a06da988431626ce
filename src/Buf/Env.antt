-- ===== src/Buf/Env.antt =====
-- buf.rs, `parse_env_blob`: KEY NUL VALUE NUL pairs.
use flutter_experiments.Common.{
  ℕ, zero, suc, ◌+◌, ◌≤◌, ◌≡◌, refl, sym, ap, ◌∙◌, Bytes, true, false, Option, none, some, List, [],
  ◌∷◌, ◌++◌, if◌then◌else◌, length, take, drop, nat_beq, arith, take-append_exact,
  drop-append_exact, drop-drop, length-append, HasNoNul,
}
use flutter_experiments.Error.{Error, message, Result, ok, err, ◌>>=◌}
use flutter_experiments.Utf8.{is_utf8, from_utf8}

-- `iter().position(|&c| c == 0)`.
abbrev pub position_nul : Bytes → Option ℕ
position_nul [] = none
position_nul (b ∷ s) =
    if nat_beq b 0 then some 0 else elim (position_nul s) [ none ↦ none | some i ↦ some (i + 1) ]

abbrev pub or_message {ℓ} : {A : Type ℓ} → Option A → Error → Result A
or_message none e = err e
or_message (some a) e = ok a

-- The text up to the NUL, and what follows the NUL.
unfoldable pub read_text : Error → Error → Bytes → Result (Bytes × Bytes)
unfolding from_utf8
read_text missing not_utf8 s = do
  end ← or_message (position_nul s) missing
  text ← or_message (from_utf8 (take end s)) not_utf8
  ok (text, drop (end + 1) s)

-- The `return` between the key and the value, when the blob ends there.
abbrev pub some_left : Bytes → Result Bytes
some_left [] = err (message "env blob: missing value")
some_left (b ∷ s) = ok (b ∷ s)

-- One turn of the loop, over the rest of the blob.
unfoldable pub read_pair : Bytes → Result ((Bytes × Bytes) × Bytes)
read_pair s = do
  (key, after_key) ←
      read_text (message "env blob: missing key NUL") (message "env blob: key not utf8") s
  rest ← some_left after_key
  (val, after) ←
      read_text (message "env blob: missing value NUL") (message "env blob: value not utf8") rest
  ok ((key, val), after)

abbrev pub prepend : Bytes × Bytes → Result (List (Bytes × Bytes)) → Result (List (Bytes × Bytes))
prepend pair (err e) = err e
prepend pair (ok pairs) = ok (pair ∷ pairs)

-- The loop, with the length of the blob for fuel: each turn takes two bytes at least.
unfoldable pub read_pairs : ℕ → Bytes → Result (List (Bytes × Bytes))
read_pairs zero s = ok []
read_pairs (suc f) [] = ok []
read_pairs (suc f) (b ∷ s) = elim (read_pair (b ∷ s)) [
  | err e ↦ err e
  | ok (pair, rest) ↦ prepend pair (read_pairs f rest)
]

unfoldable pub parse_env_blob : Bytes → Result (List (Bytes × Bytes))
unfolding read_pairs read_pair read_text
parse_env_blob blob = read_pairs (length blob) blob

abbrev pub EnvPairs : List (Bytes × Bytes) → Type 0
EnvPairs [] = Unit {0}
EnvPairs ((key, val) ∷ pairs) =
    (HasNoNul key × (is_utf8 key ≡ true)) × (HasNoNul val × (is_utf8 val ≡ true)) × EnvPairs pairs

-- The documented format: `KEY\0VAL\0` for each pair.
abbrev pub encode_env : List (Bytes × Bytes) → Bytes
encode_env [] = []
encode_env ((key, val) ∷ pairs) = key ++ (0 ∷ (val ++ (0 ∷ encode_env pairs)))

position_nul-append :
    (text rest : Bytes) → HasNoNul text → position_nul (text ++ (0 ∷ rest)) ≡ some (length text)
position_nul-append [] rest h = refl
position_nul-append (b ∷ text) rest h =
    let test : nat_beq b 0 ≡ false = ground arith in
    rw (test, position_nul-append text rest h.1) (ap some (add-one (length text)))
  where
    add-one : (n : ℕ) → n + 1 ≡ suc n
    add-one n = omega arith

read_text-append :
    (missing bad : Error) (text rest : Bytes)
    → HasNoNul text
    → is_utf8 text ≡ true
    → read_text missing bad (text ++ (0 ∷ rest)) ≡ ok (text, rest)
unfolding read_text
read_text-append missing bad text rest clean valid = rw (
  position_nul-append text rest clean,
  take-append_exact text (0 ∷ rest),
  sym (drop-drop (length text) 1 (text ++ (0 ∷ rest))),
  drop-append_exact text (0 ∷ rest),
  valid,
)

some_left-append : (text rest : Bytes) → some_left (text ++ (0 ∷ rest)) ≡ ok (text ++ (0 ∷ rest))
some_left-append [] rest = refl
some_left-append (b ∷ text) rest = refl

read_pair-append :
    (key val rest : Bytes)
    → HasNoNul key × (is_utf8 key ≡ true)
    → HasNoNul val × (is_utf8 val ≡ true)
    → read_pair (key ++ (0 ∷ (val ++ (0 ∷ rest)))) ≡ ok ((key, val), rest)
unfolding read_pair
read_pair-append key val rest k v = rw (
  read_text-append (message "env blob: missing key NUL") (message "env blob: key not utf8") key
      (val ++ (0 ∷ rest)) k.0 k.1,
  some_left-append val rest,
  read_text-append (message "env blob: missing value NUL") (message "env blob: value not utf8") val
      rest v.0 v.1,
)

read_pairs-step :
    (f : ℕ) (s rest : Bytes) (pair : Bytes × Bytes)
    → read_pair s ≡ ok (pair, rest)
    → read_pairs (suc f) s ≡ prepend pair (read_pairs f rest)
unfolding read_pairs
read_pairs-step f [] rest pair e = unfold read_pair read_text in cc
read_pairs-step f (b ∷ s) rest pair e = rw (e, read_pairs)

read_pairs-encode_env :
    (pairs : List (Bytes × Bytes)) (f : ℕ)
    → length (encode_env pairs) ≤ f
    → EnvPairs pairs
    → read_pairs f (encode_env pairs) ≡ ok pairs
unfolding read_pairs
read_pairs-encode_env [] zero h w = refl
read_pairs-encode_env [] (suc f) h w = refl
read_pairs-encode_env ((key, val) ∷ pairs) zero h w =
    absurd (omega (arith, length-append key (0 ∷ (val ++ (0 ∷ encode_env pairs)))))
read_pairs-encode_env ((key, val) ∷ pairs) (suc f) h w =
    let shorter : length (encode_env pairs) ≤ f = omega (
      arith,
      length-append key (0 ∷ (val ++ (0 ∷ encode_env pairs))),
      length-append val (0 ∷ encode_env pairs),
    ) in
    read_pairs-step f _ (encode_env pairs) (key, val)
      (read_pair-append key val (encode_env pairs) w.0 w.1)
    ∙ rw (read_pairs-encode_env pairs f shorter w.2)

-- Every list of pairs of UTF-8 texts without NUL bytes survives the blob: parsing its encoding gives
-- the list back, repeated keys and empty texts included.
pub parse-encode_env :
    (pairs : List (Bytes × Bytes)) → EnvPairs pairs → parse_env_blob (encode_env pairs) ≡ ok pairs
unfolding parse_env_blob
parse-encode_env pairs w = read_pairs-encode_env pairs (length (encode_env pairs)) (omega arith) w
