-- ===== src/Exec/Options.antt =====
-- exec.rs: `AosExecOpts`, `read_exec_opts`, and the reading of `argv`.
pub mod Laws
use Prim.Native.String.{String}
use flutter_experiments.Common.{
  ℕ, zero, suc, Bytes, Bool, true, false, Option, none, some, List, [], ◌∷◌, if◌then◌else◌, ◌^◌,
  take, is_empty, ltb, nat_beq, bytes_eq,
}
use flutter_experiments.Common.Dict.{insert}
use flutter_experiments.Error.{Error, message, Result, ok, err, ◌>>=◌}
use flutter_experiments.Buf.Env.{parse_env_blob, or_message}
use flutter_experiments.Host.{text_arg}

-- The `size` of the struct is not read.
pub record AosExecOpts : Type 0 where
  pub size : ℕ
  pub cwd : Option Bytes
  pub env_blob : Option Bytes
  pub env_blob_len : ℕ
  pub stdin_data : Option Bytes
  pub stdin_len : ℕ
  pub max_ticks : ℕ

-- `host::ExecOptions`, by the fields that exec.rs sets; the `BTreeMap` is an association list.
pub record ExecOptions : Type 0 where
  pub cwd : Option Bytes
  pub env : List (Bytes × Bytes)
  pub stdin : Option Bytes

abbrev pub default_ticks : ℕ
default_ticks = 5000000

-- `usize::try_from`, for a `usize` of that many bits.
unfoldable pub to_usize : ℕ → ℕ → Option ℕ
to_usize bits n = if ltb n (2 ^ bits) then some n else none

-- `max_ticks`, where 0 stands for the default.
unfoldable pub read_ticks : String → ℕ → ℕ → Result ℕ
unfolding to_usize
read_ticks refusal bits n =
    if nat_beq n 0 then ok default_ticks else or_message (to_usize bits n) (message refusal)

-- An empty directory leaves the default.
unfoldable pub read_cwd : Option Bytes → Option Bytes → Result (Option Bytes)
unfolding text_arg
read_cwd old none = ok old
read_cwd old (some region) = do
  text ← text_arg "cwd not utf8" (some region)
  ok (if is_empty text then old else some text)

-- The loop that inserts the pairs in order: a later pair replaces an earlier one with its key.
unfoldable pub insert_all : List (Bytes × Bytes) → List (Bytes × Bytes) → List (Bytes × Bytes)
unfolding insert
insert_all env [] = env
insert_all env ((key, val) ∷ pairs) = insert_all (insert key val env) pairs

unfoldable pub read_env : List (Bytes × Bytes) → Option Bytes → ℕ → Result (List (Bytes × Bytes))
unfolding parse_env_blob insert_all
read_env old ptr zero = ok old
read_env old none (suc n) = err (message "env_blob_len > 0 but null")
read_env old (some region) (suc n) = do
  pairs ← parse_env_blob (take (suc n) region)
  ok (insert_all [] pairs)

unfoldable pub read_stdin : Option Bytes → Option Bytes → ℕ → Result (Option Bytes)
read_stdin old ptr zero = ok old
read_stdin old none (suc n) = err (message "stdin_len > 0 but null")
read_stdin old (some region) (suc n) = ok (some (take (suc n) region))

-- `default` is `ExecOptions::default()`.
unfoldable pub read_exec_opts : ℕ → ExecOptions → Option AosExecOpts → Result (ExecOptions × ℕ)
unfolding read_cwd read_env read_stdin read_ticks
read_exec_opts bits default none = ok (default, default_ticks)
read_exec_opts bits default (some o) = do
  cwd ← read_cwd default.cwd o.cwd
  env ← read_env default.env o.env_blob o.env_blob_len
  stdin ← read_stdin default.stdin o.stdin_data o.stdin_len
  ticks ← read_ticks "max_ticks too large" bits o.max_ticks
  ok (record { cwd = cwd; env = env; stdin = stdin }, ticks)

-- The texts of the refusals of an `argv`, which differ between the two entry points.
pub record ArgvTexts : Type 0 where
  pub all_null : String
  pub element_null : String
  pub not_utf8 : String

-- One turn of the loop over `argv`.
unfoldable pub read_arg : ArgvTexts → Option Bytes → Result Bytes
unfolding text_arg
read_arg texts none = err (message texts.element_null)
read_arg texts (some region) = text_arg texts.not_utf8 (some region)

-- The loop. An array that is shorter than `argc` is outside of what the caller may pass; the loop ends
-- with it.
unfoldable pub read_args : ArgvTexts → ℕ → List (Option Bytes) → Result (List Bytes)
unfolding read_arg
read_args texts (suc argc) (p ∷ ptrs) = do
  arg ← read_arg texts p
  rest ← read_args texts argc ptrs
  ok (arg ∷ rest)
read_args texts argc ptrs = ok []

unfoldable pub read_argv : ArgvTexts → Option (List (Option Bytes)) → ℕ → Result (List Bytes)
unfolding read_args
read_argv texts argv zero = ok []
read_argv texts none (suc argc) = err (message texts.all_null)
read_argv texts (some ptrs) (suc argc) = read_args texts (suc argc) ptrs
