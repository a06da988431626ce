-- ===== src/Buf/Loop.antt =====
-- buf.rs `parse_env_blob`: the `while` loop and its fuel.
use flutter_experiments.Common.{
  ℕ, zero, suc, ◌+◌, ◌≤◌, ◌<◌, ◌≡◌, refl, ap, inl, inr, Bytes, none, some, [], ◌∷◌, length, take,
  drop, arith, Option-cases, length-drop,
}
use flutter_experiments.Error.{Error, message, Result, ok, err, Result-cases}
use flutter_experiments.Utf8.{from_utf8}
use flutter_experiments.Buf.Env.{
  position_nul, read_text, some_left, read_pair, prepend, read_pairs, parse_env_blob,
}

position_nul-lt : (s : Bytes) (i : ℕ) → position_nul s ≡ some i → i < length s
position_nul-lt [] i h = cc
position_nul-lt (b ∷ s) i h = elim (Option-cases (position_nul s)) [
  | inl e ↦ ground (arith, e)
  | inr (j, e) ↦ ground (arith, e, position_nul-lt s j e)
]

read_text_shrinks :
    (missing bad : Error) (s text rest : Bytes)
    → read_text missing bad s ≡ ok (text, rest)
    → length rest < length s
unfolding read_text
read_text_shrinks missing bad s text rest h = elim (Option-cases (position_nul s)) [
  | inl e ↦ absurd (failed e)
  | inr (i, e) ↦ elim (Option-cases (from_utf8 (take i s))) [
    | inl e' ↦ absurd (bad_text i e e')
    | inr (t, e') ↦
        let same : drop (i + 1) s ≡ rest = found i t e e' in
        omega (arith, ap length same, length-drop (i + 1) s, position_nul-lt s i e)
  ]
]
  where
    failed : position_nul s ≡ none → ⊥
    failed e = let stuck : err missing ≡ ok (text, rest) = rw (e, read_text) at h in cc

    bad_text : (i : ℕ) → position_nul s ≡ some i → from_utf8 (take i s) ≡ none → ⊥
    bad_text i e e' = let stuck : err bad ≡ ok (text, rest) = rw (e, read_text, e') at h in cc

    found :
        (i : ℕ) (t : Bytes)
        → position_nul s ≡ some i
        → from_utf8 (take i s) ≡ some t
        → drop (i + 1) s ≡ rest
    found i t e e' =
        let same : ok (t, drop (i + 1) s) ≡ ok (text, rest) = rw (e, read_text, e') at h in cc

some_left_same : (s rest : Bytes) → some_left s ≡ ok rest → s ≡ rest
some_left_same [] rest h = cc
some_left_same (b ∷ s) rest h = cc

abbrev read_key : Bytes → Result (Bytes × Bytes)
read_key s = read_text (message "env blob: missing key NUL") (message "env blob: key not utf8") s

abbrev read_value : Bytes → Result (Bytes × Bytes)
read_value s =
    read_text (message "env blob: missing value NUL") (message "env blob: value not utf8") s

read_pair_shrinks :
    (s rest : Bytes) (pair : Bytes × Bytes) → read_pair s ≡ ok (pair, rest) → length rest < length s
unfolding read_pair
read_pair_shrinks s rest pair h = elim (Result-cases (read_key s)) [
  | inl (e, k) ↦ absurd (no_key e k)
  | inr ((key, after_key), k) ↦ elim (Result-cases (some_left after_key)) [
    | inl (e, l) ↦ absurd (no_value key after_key e k l)
    | inr (left, l) ↦ elim (Result-cases (read_value left)) [
      | inl (e, v) ↦ absurd (bad_value key after_key left e k l v)
      | inr ((val, after), v) ↦ omega (
        arith,
        read_text_shrinks _ _ s key after_key k,
        ap length (some_left_same after_key left l),
        read_text_shrinks _ _ left val after v,
        ap length (end key after_key left val after k l v),
      )
    ]
  ]
]
  where
    no_key : (e : Error) → read_key s ≡ err e → ⊥
    no_key e k = let stuck : err e ≡ ok (pair, rest) = rw (read_pair, k) at h in cc

    no_value :
        (key after_key : Bytes) (e : Error)
        → read_key s ≡ ok (key, after_key)
        → some_left after_key ≡ err e
        → ⊥
    no_value key after_key e k l =
        let stuck : err e ≡ ok (pair, rest) = rw (read_pair, k, l) at h in cc

    bad_value :
        (key after_key left : Bytes) (e : Error)
        → read_key s ≡ ok (key, after_key)
        → some_left after_key ≡ ok left
        → read_value left ≡ err e
        → ⊥
    bad_value key after_key left e k l v =
        let stuck : err e ≡ ok (pair, rest) = rw (read_pair, k, l, v) at h in cc

    end :
        (key after_key left val after : Bytes)
        → read_key s ≡ ok (key, after_key)
        → some_left after_key ≡ ok left
        → read_value left ≡ ok (val, after)
        → after ≡ rest
    end key after_key left val after k l v =
        let same : ok ((key, val), after) ≡ ok (pair, rest) = rw (read_pair, k, l, v) at h in cc

-- More fuel than bytes changes nothing.
read_pairs-enough :
    (f g : ℕ) (s : Bytes) → length s ≤ f → length s ≤ g → read_pairs f s ≡ read_pairs g s
unfolding read_pairs
read_pairs-enough zero zero [] h k = refl
read_pairs-enough zero (suc g) [] h k = refl
read_pairs-enough (suc f) zero [] h k = refl
read_pairs-enough (suc f) (suc g) [] h k = refl
read_pairs-enough zero g (b ∷ s) h k = absurd (omega arith)
read_pairs-enough (suc f) zero (b ∷ s) h k = absurd (omega arith)
read_pairs-enough (suc f) (suc g) (b ∷ s) h k = elim (Result-cases (read_pair (b ∷ s))) [
  | inl (e, failed) ↦ rw (failed, read_pairs)
  | inr ((pair, rest), read) ↦
      let shorter = read_pair_shrinks (b ∷ s) rest pair read in
      rw (read, read_pairs)
        (ap (prepend pair) (read_pairs-enough f g rest (omega arith) (omega arith)))
]

-- What the `while` loop does, without fuel: an empty blob has no pairs; otherwise one pair is read,
-- the loop goes on with what is left, and the first failure ends it.
pub parse_env_blob-loop :
    (b : ℕ) (s : Bytes)
    → (parse_env_blob [] ≡ ok [])
      × (parse_env_blob (b ∷ s) ≡ (elim (read_pair (b ∷ s)) [
        | err e ↦ err e
        | ok (pair, rest) ↦ prepend pair (parse_env_blob rest)
      ]))
unfolding parse_env_blob read_pairs
parse_env_blob-loop b s = (
  refl,
  elim (Result-cases (read_pair (b ∷ s))) [
    | inl (e, failed) ↦ rw (failed, read_pairs)
    | inr ((pair, rest), read) ↦
        let shorter = read_pair_shrinks (b ∷ s) rest pair read in
        rw (read, read_pairs)
          (ap (prepend pair)
            (read_pairs-enough (length s) (length rest) rest (omega arith) (omega arith)))
  ],
)
