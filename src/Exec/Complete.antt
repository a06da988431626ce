-- ===== src/Exec/Complete.antt =====
-- exec.rs: `aos_vm_autocomplete`.
use flutter_experiments.Common.{
  ℕ, Bytes, Bool, Option, List, [], ◌∷◌, ◌++◌, if◌then◌else◌, ◌||◌, ◌%◌, ◌^◌, ℤ, nat_beq, ascii,
}
use flutter_experiments.Debug.{quote}
use flutter_experiments.Error.{Result, ok, err, ◌>>=◌}
use flutter_experiments.Buf.{AosBuf, is_null}
use flutter_experiments.Table.{Process}
use flutter_experiments.Host.{Outcome, text_arg, require_args, host_call, give_bytes}
use flutter_experiments.Exec.Options.{AosExecOpts, ExecOptions, read_exec_opts}

-- A suggestion; `kind` is the text that `{:?}` prints for it.
pub record CompletionItem : Type 0 where
  pub label : Bytes
  pub value : Bytes
  pub kind : Bytes

-- The two positions are the texts that `{}` prints for them.
pub record Completion : Type 0 where
  pub replace_start : Bytes
  pub replace_end : Bytes
  pub common_prefix : Bytes
  pub truncated : Bool
  pub items : List CompletionItem

-- `host::AutocompleteOptions`, by the fields that exec.rs sets.
pub record AutocompleteOptions : Type 0 where
  pub cwd : Option Bytes
  pub env : List (Bytes × Bytes)

pub record HostComplete (H : Type 0) : Type 0 where
  pub default_options : ExecOptions
  pub autocomplete : Bytes → ℕ → AutocompleteOptions → H → Outcome Completion × H

unfoldable pub encode_item : (Bytes → Bytes) → CompletionItem → Bytes
unfolding quote
encode_item escape it =
    ascii "{\"label\":"
    ++ quote escape it.label
    ++ ascii ",\"value\":"
    ++ quote escape it.value
    ++ ascii ",\"kind\":"
    ++ it.kind
    ++ ascii "}"

unfoldable pub more_items : (Bytes → Bytes) → List CompletionItem → Bytes
unfolding encode_item
more_items escape [] = []
more_items escape (it ∷ items) = ascii "," ++ encode_item escape it ++ more_items escape items

unfoldable pub encode_items : (Bytes → Bytes) → List CompletionItem → Bytes
unfolding more_items
encode_items escape [] = []
encode_items escape (it ∷ items) = encode_item escape it ++ more_items escape items

unfoldable pub encode_completion : (Bytes → Bytes) → Completion → Bytes
unfolding quote encode_items
encode_completion escape r =
    ascii "{\"replace_start\":"
    ++ r.replace_start
    ++ ascii ",\"replace_end\":"
    ++ r.replace_end
    ++ ascii ",\"common_prefix\":"
    ++ quote escape r.common_prefix
    ++ ascii ",\"truncated\":"
    ++ (if r.truncated then ascii "true" else ascii "false")
    ++ ascii ",\"items\":["
    ++ encode_items escape r.items
    ++ ascii "]}"

-- The source, and the options without the input and the number of ticks.
unfoldable pub autocomplete_args :
    ℕ
    → ExecOptions
    → ℕ
    → Option Bytes
    → Option AosExecOpts
    → Bool
    → Result (Bytes × AutocompleteOptions)
unfolding require_args text_arg read_exec_opts
autocomplete_args bits default vm source opts missing = do
  fine ←
      require_args "aos_vm_autocomplete: invalid args" (nat_beq vm 0 || (is_null source || missing))
  text ← text_arg "source not utf8" source
  options ← read_exec_opts bits default opts
  ok (text, record { cwd = options.0.cwd; env = options.0.env })

module _ {H : Type 0} where
  unfoldable pub give_completion :
      (Bytes → Bytes)
      → Option AosBuf
      → Result Completion × Process H
      → ℤ × Option AosBuf × Process H
  unfolding give_bytes encode_completion
  give_completion escape out (err e, p) = give_bytes out (err e, p)
  give_completion escape out (ok r, p) = give_bytes out (ok (encode_completion escape r), p)

  unfoldable pub aos_vm_autocomplete :
      (Bytes → Bytes)
      → ℕ
      → HostComplete H
      → Process H
      → ℕ
      → Option Bytes
      → ℕ
      → Option AosExecOpts
      → Option AosBuf
      → ℤ × Option AosBuf × Process H
  unfolding host_call autocomplete_args give_completion
  aos_vm_autocomplete escape bits hc p vm source cursor_byte opts out = give_completion escape out (
      host_call p vm (autocomplete_args bits hc.default_options vm source opts (is_null out))
        "autocomplete failed" (λ a h. hc.autocomplete a.0 (cursor_byte % 2 ^ 32) a.1 h))
