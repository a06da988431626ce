-- ===== src/Boot/Plan.antt =====
-- boot.rs `read_opts`: what an accepted plan says of the caller's options.
use flutter_experiments.Common.{
  ℕ, zero, suc, ◌≤◌, ◌≡◌, ◌≢◌, refl, ◌⊎◌, inl, inr, Bytes, Bool, true, false, Option, none, some,
  List, [], ◌∷◌, arith, ℤ, pos, negsuc, as_i32, take, ltb, nat_beq, if◌then◌else◌,
}
use flutter_experiments.Error.{ok, bind-ok}
use flutter_experiments.Boot.{
  AosBootOpts, BootPlan, read_opts, read_base, read_layer, read_layers, all_layers, read_blob,
  is_set, exclusive, plan_of,
}

-- The bytes behind a pointer that is not null, with a length above 0.
abbrev pub Given : Option Bytes → ℕ → Bytes → Type 0
Given ptr len bytes = (region : Bytes) × (ptr ≡ some region) × (1 ≤ len) × (bytes ≡ take len region)

abbrev pub BaseRead : Option Bytes → ℕ → Option Bytes → Type 0
BaseRead ptr len base =
    ((len ≡ 0) × (base ≡ none)) ⊎ ((bytes : Bytes) × (base ≡ some bytes) × Given ptr len bytes)

abbrev pub LayerRead : Option Bytes → ℕ → Bytes → Type 0
LayerRead ptr len layer = ((len ≡ 0) × (layer ≡ [])) ⊎ Given ptr len layer

-- One layer for each of the first `count` entries, in order, up to the end of the shorter array.
abbrev pub LayersRead : ℕ → List (Option Bytes) → List ℕ → List Bytes → Type 0
LayersRead (suc count) (p ∷ ptrs) (n ∷ lens) layers =
    (layer : Bytes) × (rest : List Bytes) × (layers ≡ layer ∷ rest)
    × LayerRead p n layer
    × LayersRead count ptrs lens rest
LayersRead count ptrs lens layers = layers ≡ []

-- No layers are asked for, or both arrays are there and are read.
abbrev pub AllLayersRead : ℕ → Option (List (Option Bytes)) → Option (List ℕ) → List Bytes → Type 0
AllLayersRead count ptrs lens layers =
    ((count ≡ 0) × (layers ≡ []))
    ⊎ ((ps : List (Option Bytes)) × (ns : List ℕ) × (ptrs ≡ some ps)
        × (lens ≡ some ns)
        × LayersRead count ps ns layers)

-- A blob is left out when its pointer is null or its length 0.
abbrev pub BlobRead : Option Bytes → ℕ → Option Bytes → Type 0
BlobRead ptr len blob =
    (((ptr ≡ none) ⊎ (len ≡ 0)) × (blob ≡ none))
    ⊎ ((bytes : Bytes) × (blob ≡ some bytes) × Given ptr len bytes)

-- A number of C as a truth value.
abbrev pub Flag : ℤ → Bool → Type 0
Flag x b = ((x ≡ pos 0) × (b ≡ false)) ⊎ ((x ≢ pos 0) × (b ≡ true))

abbrev pub ContractRead : AosBootOpts → Option (ℤ × ℤ × ℤ) → Type 0
ContractRead o contract =
    ((o.has_contract ≡ pos 0) × (contract ≡ none))
    ⊎ ((o.has_contract ≢ pos 0)
        × (contract ≡ some (o.contract_tier, o.contract_budget_mib, o.contract_fuel)))

abbrev pub WorkersRead : ℕ → Option ℤ → Type 0
WorkersRead workers given =
    ((workers ≡ 0) × (given ≡ none)) ⊎ ((1 ≤ workers) × (given ≡ some (as_i32 (pos workers))))

-- The fields of a plan that are neither image nor layers.
abbrev pub SettingsRead : AosBootOpts → BootPlan → Type 0
SettingsRead o plan =
    Flag o.deterministic plan.deterministic
    × ContractRead o plan.contract
    × WorkersRead o.workers plan.workers
    × (plan.net ≡ o.net)
    × (plan.host_call ≡ o.host_call)
    × Flag o.host_call_sidecar_only plan.host_call_sidecar_only
    × (plan.persist ≡ o.persist)
    × (plan.tool_approval ≡ o.tool_approval)
    × BlobRead o.connections_blob o.connections_len plan.connections
    × BlobRead o.connection_policies_blob o.connection_policies_len plan.policies

read_base-BaseRead :
    (ptr base : Option Bytes) (len : ℕ) → read_base ptr len ≡ ok base → BaseRead ptr len base
unfolding read_base
read_base-BaseRead ptr base zero h = inl (refl, cc)
read_base-BaseRead none base (suc n) h = cc
read_base-BaseRead (some region) base (suc n) h =
    inr (take (suc n) region, cc, (region, refl, omega arith, refl))

read_layer-LayerRead :
    (ptr : Option Bytes) (layer : Bytes) (len : ℕ)
    → read_layer ptr len ≡ ok layer
    → LayerRead ptr len layer
unfolding read_layer
read_layer-LayerRead ptr layer zero h = inl (refl, cc)
read_layer-LayerRead none layer (suc n) h = cc
read_layer-LayerRead (some region) layer (suc n) h = inr (region, refl, omega arith, cc)

read_layers-LayersRead :
    (count : ℕ) (ptrs : List (Option Bytes)) (lens : List ℕ) (layers : List Bytes)
    → read_layers count ptrs lens ≡ ok layers
    → LayersRead count ptrs lens layers
unfolding read_layers
read_layers-LayersRead zero ptrs lens layers h = cc
read_layers-LayersRead (suc count) [] lens layers h = cc
read_layers-LayersRead (suc count) (p ∷ ptrs) [] layers h = cc
read_layers-LayersRead (suc count) (p ∷ ptrs) (n ∷ lens) layers h =
    let (layer, one, h') = bind-ok (read_layer p n) _ layers h in
    let (rest, more, same) = bind-ok (read_layers count ptrs lens) _ layers h' in
    (
      layer,
      rest,
      cc,
      read_layer-LayerRead p layer n one,
      read_layers-LayersRead count ptrs lens rest more,
    )

all_layers-AllLayersRead :
    (count : ℕ) (ptrs : Option (List (Option Bytes))) (lens : Option (List ℕ)) (layers : List Bytes)
    → all_layers count ptrs lens ≡ ok layers
    → AllLayersRead count ptrs lens layers
unfolding all_layers
all_layers-AllLayersRead zero ptrs lens layers h = inl (refl, cc)
all_layers-AllLayersRead (suc n) none lens layers h = cc
all_layers-AllLayersRead (suc n) (some ptrs) none layers h = cc
all_layers-AllLayersRead (suc n) (some ptrs) (some lens) layers h =
    inr (ptrs, lens, refl, refl, read_layers-LayersRead (suc n) ptrs lens layers h)

positive : (n : ℕ) → ltb 0 (suc n) ≡ true
positive n = ground arith

read_blob-BlobRead : (ptr : Option Bytes) (len : ℕ) → BlobRead ptr len (read_blob ptr len)
unfolding read_blob
read_blob-BlobRead none len = inl (inl refl, refl)
read_blob-BlobRead (some region) zero = inl (inr refl, refl)
read_blob-BlobRead (some region) (suc n) =
    inr (take (suc n) region, rw (positive n), (region, refl, omega arith, refl))

is_set-Flag : (x : ℤ) → Flag x (is_set x)
is_set-Flag (pos zero) = inl (refl, refl)
is_set-Flag (pos (suc n)) =
    let nonzero : nat_beq (suc n) 0 ≡ false = ground arith in inr (λ e. cc, rw (nonzero))
is_set-Flag (negsuc n) = inr (λ e. cc, refl)

plan_of-SettingsRead :
    (o : AosBootOpts) (base : Option Bytes) (layers : List Bytes)
    → SettingsRead o (plan_of o base layers)
unfolding plan_of
plan_of-SettingsRead o base layers = (
  is_set-Flag o.deterministic,
  contract (is_set o.has_contract) (is_set-Flag o.has_contract),
  workers o.workers,
  refl,
  refl,
  is_set-Flag o.host_call_sidecar_only,
  refl,
  refl,
  read_blob-BlobRead o.connections_blob o.connections_len,
  read_blob-BlobRead o.connection_policies_blob o.connection_policies_len,
)
  where
    contract :
        (b : Bool)
        → Flag o.has_contract b
        → ContractRead o
            (if b then some (o.contract_tier, o.contract_budget_mib, o.contract_fuel) else none)
    contract b (inl (unset, e)) = inl (unset, rw (e))
    contract b (inr (set, e)) = inr (set, rw (e))

    workers : (n : ℕ) → WorkersRead n (if ltb 0 n then some (as_i32 (pos n)) else none)
    workers zero = inl (refl, refl)
    workers (suc n) = inr (omega arith, rw (positive n))

exclusive-ok :
    (o : AosBootOpts) (base : Option Bytes) (layers : List Bytes) (plan : BootPlan)
    → exclusive o base layers ≡ ok plan
    → (plan ≡ plan_of o base layers) × ((base ≡ none) ⊎ (layers ≡ []))
unfolding exclusive
exclusive-ok o none layers plan h = (cc, inl refl)
exclusive-ok o (some base) [] plan h = (cc, inr refl)
exclusive-ok o (some base) (layer ∷ layers) plan h = cc

-- Options that are accepted give a plan with no base image or no layers. Its base image is there
-- exactly if the length is above 0; then the pointer was not null, and it is the bytes there. If layers
-- are asked for, both arrays were there, and each layer in order is empty with length 0, or else the
-- bytes at a pointer that was not null. A blob of connections or policies is the bytes at its pointer,
-- or left out when the pointer is null or the length 0. The contract, the workers (as an i32) and the
-- two flags are set exactly if theirs is not 0, and the four capability settings are passed on.
pub read_opts-accepted :
    (o : AosBootOpts) (plan : BootPlan)
    → read_opts (some o) ≡ ok plan
    → ((plan.base ≡ none) ⊎ (plan.layers ≡ []))
      × BaseRead o.base_image o.base_image_len plan.base
      × AllLayersRead o.layer_count o.layers o.layer_lens plan.layers
      × SettingsRead o plan
unfolding read_opts
read_opts-accepted o plan h =
    let (base, b, h') = bind-ok (read_base o.base_image o.base_image_len) _ plan h in
    let (layers, l, h'') = bind-ok (all_layers o.layer_count o.layers o.layer_lens) _ plan h' in
    let (same, apart) = exclusive-ok o base layers plan h'' in
    rw same (
      unfold plan_of in apart,
      unfold plan_of in read_base-BaseRead o.base_image base o.base_image_len b,
      unfold plan_of in all_layers-AllLayersRead o.layer_count o.layers o.layer_lens layers l,
      plan_of-SettingsRead o base layers,
    )
