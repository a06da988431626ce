-- ===== src/Exec/Options/Laws.antt =====
-- The options of a command: what a full set of them is read to.
use flutter_experiments.Common.{
  ℕ, zero, suc, ◌≡◌, ◌<◌, ◌^◌, refl, ap, ◌∙◌, Bytes, Option, none, some, List, [], ◌∷◌, ◌++◌,
  length-append, if◌then◌else◌, take, length, is_empty, nat_beq, arith, ◌==◌, bytes_eq, take_all,
  inl, inr, Bool-cases,
}
use flutter_experiments.Common.Dict.{lookup, insert, lookup-insert}
use flutter_experiments.Error.{ok, ◌>>=◌}
use flutter_experiments.Buf.Env.{EnvPairs, encode_env, parse_env_blob, parse-encode_env}
use flutter_experiments.Host.{cstr_to_str}
use flutter_experiments.Host.Calls.{text_arg-read}
use flutter_experiments.Exec.Options.{
  AosExecOpts, ExecOptions, default_ticks, to_usize, read_ticks, read_cwd, insert_all, read_env,
  read_stdin, read_exec_opts,
}

-- The value of the last pair with the key.
abbrev pub last_value : Bytes → List (Bytes × Bytes) → Option Bytes
last_value key [] = none
last_value key ((k, v) ∷ pairs) =
    let later = last_value key pairs in
    elim later [ none ↦ if k == key then some v else none | some w ↦ some w ]

abbrev or_else : Option Bytes → Option Bytes → Option Bytes
or_else none old = old
or_else (some v) old = some v

or_else-insert :
    (key k v : Bytes) (env : List (Bytes × Bytes)) (later : Option Bytes)
    → or_else later (lookup key (insert k v env))
      ≡ or_else
          (elim later [ none ↦ if k == key then some v else none | some w ↦ some w ])
          (lookup key env)
or_else-insert key k v env (some w) = refl
or_else-insert key k v env none =
    lookup-insert k key v env
    ∙ elim (Bool-cases (k == key)) [ inl same ↦ rw (same) | inr other_key ↦ rw (other_key) ]

lookup-insert_all :
    (key : Bytes) (env pairs : List (Bytes × Bytes))
    → lookup key (insert_all env pairs) ≡ or_else (last_value key pairs) (lookup key env)
unfolding insert_all
lookup-insert_all key env [] = refl
lookup-insert_all key env ((k, v) ∷ pairs) =
    lookup-insert_all key (insert k v env) pairs ∙ or_else-insert key k v env (last_value key pairs)

-- The blob's pairs, inserted into an empty map.
insert_all-last_value :
    (key : Bytes) (pairs : List (Bytes × Bytes))
    → lookup key (insert_all [] pairs) ≡ last_value key pairs
unfolding lookup
insert_all-last_value key pairs = lookup-insert_all key [] pairs ∙ settled (last_value key pairs)
  where
    settled : (found : Option Bytes) → or_else found none ≡ found
    settled none = refl
    settled (some v) = refl

read_env-some :
    (old : List (Bytes × Bytes)) (region : Bytes) (n : ℕ)
    → 0 < n
    → read_env old (some region) n
      ≡ (parse_env_blob (take n region) >>= λ pairs. ok (insert_all [] pairs))
unfolding read_env
read_env-some old region zero h = absurd (omega arith)
read_env-some old region (suc n) h = refl

read_env-encode_env :
    (old : List (Bytes × Bytes)) (pair : Bytes × Bytes) (pairs : List (Bytes × Bytes))
    → EnvPairs (pair ∷ pairs)
    → read_env old (some (encode_env (pair ∷ pairs))) (length (encode_env (pair ∷ pairs)))
      ≡ ok (insert_all [] (pair ∷ pairs))
read_env-encode_env old (key, val) pairs good =
    let blob : Bytes = encode_env ((key, val) ∷ pairs) in
    read_env-some old blob (length blob)
      (omega (arith, length-append key (0 ∷ (val ++ (0 ∷ encode_env pairs)))))
    ∙ ap (λ parsed. parsed >>= λ ps. ok (insert_all [] ps))
        (ap parse_env_blob (take_all (length blob) blob (omega arith))
          ∙ parse-encode_env ((key, val) ∷ pairs) good)

read_stdin-some :
    (old : Option Bytes) (input : Bytes) (n : ℕ)
    → read_stdin old (some input) n ≡ ok (if nat_beq n 0 then old else some (take n input))
unfolding read_stdin
read_stdin-some old input zero = refl
read_stdin-some old input (suc n) = ground arith

read_ticks-fits :
    (bits n : ℕ)
    → n < 2 ^ bits
    → read_ticks "max_ticks too large" bits n ≡ ok (if nat_beq n 0 then default_ticks else n)
unfolding read_ticks to_usize
read_ticks-fits bits n h = ground arith

-- Options with a directory in UTF-8, the encoding of at least one pair, an input and a number of ticks
-- that fits a `usize` are accepted. The directory is taken unless it is empty, the input unless its
-- length is 0, and the number of ticks unless it is 0; in the environment each key has the value of
-- the last pair with that key, and no other key is there.
pub read_exec_opts_full :
    (bits size ticks n : ℕ) (default : ExecOptions) (dir dir_text input key : Bytes)
    (pair : Bytes × Bytes) (pairs : List (Bytes × Bytes))
    → EnvPairs (pair ∷ pairs)
    → cstr_to_str (some dir) ≡ some dir_text
    → ticks < 2 ^ bits
    → let opts : AosExecOpts = record {
      size = size;
      cwd = some dir;
      env_blob = some (encode_env (pair ∷ pairs));
      env_blob_len = length (encode_env (pair ∷ pairs));
      stdin_data = some input;
      stdin_len = n;
      max_ticks = ticks;
    } in
      (env : List (Bytes × Bytes)) × (read_exec_opts bits default (some opts)
        ≡ ok (
          record {
            cwd = if is_empty dir_text then default.cwd else some dir_text;
            env = env;
            stdin = if nat_beq n 0 then default.stdin else some (take n input);
          },
          if nat_beq ticks 0 then 5000000 else ticks,
        ))
      × (lookup key env ≡ last_value key (pair ∷ pairs))
unfolding read_exec_opts read_cwd
read_exec_opts_full bits size ticks n default dir dir_text input key pair pairs good read fits = (
  insert_all [] (pair ∷ pairs),
  rw (
    text_arg-read "cwd not utf8" (some dir) dir_text read,
    read_env-encode_env default.env pair pairs good,
    read_stdin-some default.stdin input n,
    read_ticks-fits bits ticks fits,
  ),
  insert_all-last_value key (pair ∷ pairs),
)
