-- ===== src/Boot.antt =====
-- boot.rs: `AosBootOpts`, `BootPlan`, `read_opts` and `tick_toward_prompt`. Numbers of the C struct
-- that are only passed on are integers as they stand.
pub mod Plan
pub mod Prompt
pub mod Sinks
pub mod Start
use flutter_experiments.Common.{
  ℕ, zero, suc, Bytes, Bool, true, false, Option, none, some, List, [], ◌∷◌, not, ◌&&◌, ◌||◌,
  if◌then◌else◌, ℤ, pos, as_i32, take, nat_beq, ltb, is_empty, ◌==◌, int_eq,
}
use flutter_experiments.Error.{Error, message, Result, ok, err, ◌>>=◌}
use flutter_experiments.Buf.{is_null}
use flutter_experiments.Host.{Outcome, gave, broke}
use flutter_experiments.Tty.{TickState, runnable, waiting, exited}

-- A pointer and a length, as the caller sets them; a region has at least the bytes that its length says.
pub record AosBootOpts : Type 0 where
  pub size : ℕ
  pub base_image : Option Bytes
  pub base_image_len : ℕ
  pub layers : Option (List (Option Bytes))
  pub layer_lens : Option (List ℕ)
  pub layer_count : ℕ
  pub deterministic : ℤ
  pub has_contract : ℤ
  pub contract_tier : ℤ
  pub contract_budget_mib : ℤ
  pub contract_fuel : ℤ
  pub workers : ℕ
  pub net : ℤ
  pub host_call : ℤ
  pub host_call_sidecar_only : ℤ
  pub persist : ℤ
  pub tool_approval : ℤ
  pub connections_blob : Option Bytes
  pub connections_len : ℕ
  pub connection_policies_blob : Option Bytes
  pub connection_policies_len : ℕ

pub record BootPlan : Type 0 where
  pub base : Option Bytes
  pub layers : List Bytes
  pub deterministic : Bool
  pub contract : Option (ℤ × ℤ × ℤ)
  pub workers : Option ℤ
  pub net : ℤ
  pub host_call : ℤ
  pub host_call_sidecar_only : Bool
  pub persist : ℤ
  pub tool_approval : ℤ
  pub connections : Option Bytes
  pub policies : Option Bytes

-- The derived `Default`.
abbrev pub default_plan : BootPlan
default_plan = record {
  base = none;
  layers = [];
  deterministic = false;
  contract = none;
  workers = none;
  net = pos 0;
  host_call = pos 0;
  host_call_sidecar_only = false;
  persist = pos 0;
  tool_approval = pos 0;
  connections = none;
  policies = none;
}

-- `x != 0`.
abbrev pub is_set : ℤ → Bool
is_set x = not (x == pos 0)

-- The base image, if its length is not 0.
unfoldable pub read_base : Option Bytes → ℕ → Result (Option Bytes)
read_base ptr zero = ok none
read_base none (suc n) = err (message "base_image_len > 0 but pointer null")
read_base (some region) (suc n) = ok (some (take (suc n) region))

-- One turn of the loop over the layers.
unfoldable pub read_layer : Option Bytes → ℕ → Result Bytes
read_layer ptr zero = ok []
read_layer none (suc n) = err (message "layer pointer null")
read_layer (some region) (suc n) = ok (take (suc n) region)

-- The loop, over the first `count` entries of both arrays. An array that is shorter than `count` is
-- outside of what the caller may pass; the loop ends with it.
unfoldable pub read_layers : ℕ → List (Option Bytes) → List ℕ → Result (List Bytes)
unfolding read_layer
read_layers (suc count) (p ∷ ptrs) (n ∷ lens) = do
  layer ← read_layer p n
  rest ← read_layers count ptrs lens
  ok (layer ∷ rest)
read_layers count ptrs lens = ok []

unfoldable pub all_layers : ℕ → Option (List (Option Bytes)) → Option (List ℕ) → Result (List Bytes)
unfolding read_layers
all_layers zero ptrs lens = ok []
all_layers (suc n) (some ptrs) (some lens) = read_layers (suc n) ptrs lens
all_layers (suc n) ptrs lens = err (message "layers set but pointers null")

-- A blob of JSON, if there is one.
unfoldable pub read_blob : Option Bytes → ℕ → Option Bytes
read_blob none n = none
read_blob (some region) n = if ltb 0 n then some (take n region) else none

unfoldable pub plan_of : AosBootOpts → Option Bytes → List Bytes → BootPlan
unfolding read_blob
plan_of o base layers = record {
  base = base;
  layers = layers;
  deterministic = is_set o.deterministic;
  contract =
      if is_set o.has_contract
      then some (o.contract_tier, o.contract_budget_mib, o.contract_fuel)
      else none;
  workers = if ltb 0 o.workers then some (as_i32 (pos o.workers)) else none;
  net = o.net;
  host_call = o.host_call;
  host_call_sidecar_only = is_set o.host_call_sidecar_only;
  persist = o.persist;
  tool_approval = o.tool_approval;
  connections = read_blob o.connections_blob o.connections_len;
  policies = read_blob o.connection_policies_blob o.connection_policies_len;
}

-- The refusal of a base image beside layers.
unfoldable pub exclusive : AosBootOpts → Option Bytes → List Bytes → Result BootPlan
unfolding plan_of
exclusive o base layers =
    if not (is_null base) && not (is_empty layers)
    then err (message "base_image and layers are mutually exclusive")
    else ok (plan_of o base layers)

unfoldable pub read_opts : Option AosBootOpts → Result BootPlan
unfolding read_base all_layers exclusive
read_opts none = ok default_plan
read_opts (some o) = do
  base ← read_base o.base_image o.base_image_len
  layers ← all_layers o.layer_count o.layers o.layer_lens
  exclusive o base layers

-- Whether the loop of `tick_toward_prompt` ends after a tick: not runnable, failed, or at the prompt.
unfoldable pub ends_boot : Outcome TickState → Bool → Bool
ends_boot (gave runnable) prompt = prompt
ends_boot (gave waiting) prompt = true
ends_boot (gave exited) prompt = true
ends_boot (broke text) prompt = true

module _ {H : Type 0} (tick : H → Outcome TickState × H) (at_prompt : H → Bool) where
  unfoldable pub tick_at_most : ℕ → H → H
  unfolding ends_boot
  tick_at_most zero h = h
  tick_at_most (suc n) h =
      let rest = tick_at_most n (tick h).1 in
      if ends_boot (tick h).0 (at_prompt (tick h).1) then (tick h).1 else rest

  unfoldable pub tick_toward_prompt : H → H
  unfolding tick_at_most
  tick_toward_prompt = tick_at_most 64
