-- ===== src/Host.antt =====
-- The calls of the kernel host, which is a parameter of the model: what a call gives, how the entry
-- points wrap it (`with_host_mut` with `map_err`), and the arguments that they read from C.
pub mod Calls
pub mod Apart
use Prim.Native.String.{String}
use flutter_experiments.Common.{
  ℕ, Bytes, Bool, true, false, Option, none, some, [], ◌∷◌, if◌then◌else◌, ◌||◌, ℤ, pos, minus_one,
  take, nat_beq,
}
use flutter_experiments.Error.{Error, message, host_failed, Result, ok, err}
use flutter_experiments.Buf.{AosBuf, fill_buf, is_null}
use flutter_experiments.Utf8.{from_utf8}
use flutter_experiments.Table.{Process, set_error, clear_error, with_host_mut, finish}

-- What a call of the host gives: its value, or the text of its failure.
pub data Outcome {ℓ} (R : Type ℓ) : Type ℓ where
  gave : R → Outcome R
  broke : Bytes → Outcome R

-- `map` and `map_err`, with the prefix that the failure gets.
unfoldable pub map_host {ℓ κ} : {R : Type ℓ} {S : Type κ} → String → (R → S) → Outcome R → Result S
map_host what f (gave r) = ok (f r)
map_host what f (broke text) = err (host_failed what text)

-- `unwrap_or`.
abbrev pub unwrap_or {ℓ} : {A : Type ℓ} → A → Option A → A
unwrap_or d none = d
unwrap_or d (some a) = a

-- `slice::from_raw_parts`, or the empty slice for a null pointer.
abbrev pub slice : Option Bytes → ℕ → Bytes
slice none n = []
slice (some region) n = take n region

-- The bytes of a C string.
abbrev pub until_nul : Bytes → Bytes
until_nul [] = []
until_nul (b ∷ s) = let rest = until_nul s in if nat_beq b 0 then [] else b ∷ rest

unfoldable pub cstr_to_str : Option Bytes → Option Bytes
unfolding from_utf8
cstr_to_str none = none
cstr_to_str (some region) = from_utf8 (until_nul region)

-- The reading of a C string, with the text of its refusal.
unfoldable pub text_arg : String → Option Bytes → Result Bytes
unfolding cstr_to_str
text_arg refusal s = elim (cstr_to_str s) [ none ↦ err (message refusal) | some text ↦ ok text ]

-- The first test of an entry point: the id and the pointers that must not be null.
unfoldable pub require_args : String → Bool → Result (Unit {0})
require_args refusal missing = if missing then err (message refusal) else ok tt

-- `let _ = fill_buf(..)` on a pointer that may be null.
unfoldable pub fill_if : Option AosBuf → Bytes → Option AosBuf
unfolding fill_buf
fill_if out bytes = (fill_buf out bytes).1

-- A cell that is written if the pointer is not null.
abbrev pub write_if {ℓ} : {A : Type ℓ} → Option A → A → Option A
write_if none a = none
write_if (some old) a = some a

module _ {H : Type 0} where
  unfoldable pub attempt {ℓ} : {R : Type ℓ} → String → Outcome R × H → Result R × H
  unfolding map_host
  attempt what (res, h) = (map_host what (λ r. r) res, h)

  -- The body of an entry point: arguments that are refused end it, accepted ones go to the host.
  unfoldable pub host_call {ℓ κ} :
      {A : Type ℓ} {R : Type κ}
      → Process H
      → ℕ
      → Result A
      → String
      → (A → H → Outcome R × H)
      → Result R × Process H
  unfolding clear_error with_host_mut attempt
  host_call p vm (err e) what f = (err e, clear_error p)
  host_call p vm (ok a) what f = with_host_mut (clear_error p) vm (λ h. attempt what (f a h))

  -- The last `match` of an entry point that fills the caller's buffer.
  unfoldable pub give_bytes :
      Option AosBuf → Result Bytes × Process H → ℤ × Option AosBuf × Process H
  unfolding set_error fill_buf
  give_bytes out (err e, p) = (minus_one, out, set_error e p)
  give_bytes out (ok bytes, p) = let (code, out') = fill_buf out bytes in (code, out', p)
