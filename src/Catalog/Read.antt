-- ===== src/Catalog/Read.antt =====
-- catalog.rs: the parsing of the catalog blob, over the crate `json`.
use Prim.Native.String.{String}
use flutter_experiments.Common.{
  ℕ, Bytes, Option, none, some, List, [], if◌then◌else◌, is_empty, ascii, ◌==◌, bytes_eq,
}
use flutter_experiments.Error.{
  message, at_item, in_item, field_error, unknown_word, root_member, item_member, Result, ok, err,
  ◌>>=◌,
}
use flutter_experiments.Buf.Env.{or_message}
use flutter_experiments.Utf8.{from_utf8}
use flutter_experiments.Host.{unwrap_or}
use flutter_experiments.Hex.{decode_hex}
use flutter_experiments.Json.{
  JsonLib, parsed, bad_parse, bad_shape, null, str, other, get_field, each_item, string_array,
}

-- The structs of the crate `host` that catalog.rs fills.
pub record HostToolDef : Type 0 where
  pub address : Bytes
  pub description : Bytes
  pub binding_name : Bytes
  pub args_mode : Bytes
  pub input_schema : Option Bytes
  pub output_schema : Option Bytes
  pub annotations : Option Bytes

-- The members that the three variants of `CatalogSpecSource` share.
pub record SpecFormat : Type 0 where
  pub format : Option Bytes
  pub source_format : Option Bytes
  pub base_url : Option Bytes
  pub endpoint : Option Bytes

pub data CatalogSpecSource : Type 0 where
  spec_bytes spec_path spec_url : Bytes → SpecFormat → CatalogSpecSource

pub record CatalogConnection : Type 0 where
  pub reference : Bytes
  pub spec : Option CatalogSpecSource
  pub tools : List Bytes

pub record CatalogInjectOptions : Type 0 where
  pub compiler_wasm : Bytes
  pub connections : List CatalogConnection
  pub tools : List Bytes
  pub host_tools : List HostToolDef
  pub generation : ℕ

abbrev nonempty : Bytes → Option Bytes
nonempty s = if is_empty s then none else some s

module _ {J : Type 0} (json : JsonLib J) where
  unfoldable pub opt_str : List (Bytes × J) → String → Option Bytes
  unfolding get_field
  opt_str obj key = elim (get_field obj (ascii key)) [
    | none ↦ none
    | some v ↦ elim (json.shape v) [ null ↦ none | str s ↦ nonempty s | other ↦ none ]
  ]

  -- `list` and `i` are the context `list[i]`.
  unfoldable pub require_str : List (Bytes × J) → String → String → ℕ → Result Bytes
  unfolding get_field
  require_str obj key list i = elim (get_field obj (ascii key)) [
    | none ↦ err (field_error list i key "missing required string field")
    | some v ↦ elim (json.shape v) [
      | null ↦ err (field_error list i key "must be a string")
      | str s ↦ or_message (nonempty s) (field_error list i key "must be a non-empty string")
      | other ↦ err (field_error list i key "must be a string")
    ]
  ]

  -- A member that may be omitted or null, and otherwise is read by `read`.
  unfoldable pub optional {ℓ} :
      {B : Type ℓ} → B → (J → Result B) → List (Bytes × J) → String → Result B
  unfolding get_field
  optional default read obj key = elim (get_field obj (ascii key)) [
    | none ↦ ok default
    | some v ↦ elim (json.shape v) [ null ↦ ok default | str s ↦ read v | other ↦ read v ]
  ]

  unfoldable pub payload_bytes : List (Bytes × J) → ℕ → Result Bytes
  unfolding opt_str decode_hex
  payload_bytes o i = elim (opt_str o "payload_hex") [
    | some hex ↦ elim (decode_hex hex) [
      | err e ↦ err (in_item "connections[].spec.payload_hex" i e)
      | ok bytes ↦ ok bytes
    ]
    | none ↦
        or_message (opt_str o "payload")
          (at_item "connections[].spec" i "kind=bytes requires payload or payload_hex")
  ]

  unfoldable pub require_payload_string : List (Bytes × J) → ℕ → Result Bytes
  unfolding opt_str
  require_payload_string o i =
      or_message (opt_str o "payload")
        (at_item "connections[].spec" i "requires string field \"payload\"")

  unfoldable pub format_of : List (Bytes × J) → SpecFormat
  unfolding opt_str
  format_of o = record {
    format = opt_str o "format";
    source_format = opt_str o "source_format";
    base_url = opt_str o "base_url";
    endpoint = opt_str o "endpoint";
  }

  -- The `match` on the kind.
  unfoldable pub spec_of : Bytes → List (Bytes × J) → ℕ → Result (Option CatalogSpecSource)
  unfolding payload_bytes require_payload_string format_of
  spec_of kind o i =
      if kind == ascii "none"
      then ok none
      else if kind == ascii "bytes"
      then (do bytes ← payload_bytes o i; ok (some (spec_bytes bytes (format_of o))))
      else if kind == ascii "path"
      then (do path ← require_payload_string o i; ok (some (spec_path path (format_of o))))
      else if kind == ascii "url"
      then (do url ← require_payload_string o i; ok (some (spec_url url (format_of o))))
      else err (unknown_word "connections[].spec.kind" i kind)

  unfoldable pub parse_spec : ℕ → J → Result (Option CatalogSpecSource)
  unfolding opt_str spec_of
  parse_spec i v = do
    o ← or_message (json.as_obj v) (at_item "connections[].spec" i "must be an object")
    spec_of (unwrap_or (ascii "none") (opt_str o "kind")) o i

  -- One turn of the loop of `parse_host_tools`.
  unfoldable pub read_host_tool : ℕ → J → Result HostToolDef
  unfolding require_str opt_str
  read_host_tool i item = do
    o ← or_message (json.as_obj item) (at_item "host_tools" i "must be an object")
    address ← require_str o "address" "host_tools" i
    binding_name ← require_str o "binding_name" "host_tools" i
    ok record {
      address = address;
      description = unwrap_or [] (opt_str o "description");
      binding_name = binding_name;
      args_mode = unwrap_or (ascii "json") (opt_str o "args_mode");
      input_schema = opt_str o "input_schema";
      output_schema = opt_str o "output_schema";
      annotations = opt_str o "annotations";
    }

  unfoldable pub parse_host_tools : J → Result (List HostToolDef)
  unfolding read_host_tool each_item
  parse_host_tools v = do
    arr ← or_message (json.as_arr v) (message "host_tools must be a JSON array")
    each_item read_host_tool 0 arr

  -- One turn of the loop of `parse_connections`; `flatten` makes no document of the kind `none`.
  unfoldable pub read_connection : ℕ → J → Result CatalogConnection
  unfolding require_str optional string_array parse_spec
  read_connection i item = do
    o ← or_message (json.as_obj item) (at_item "connections" i "must be an object")
    reference ← require_str o "reference" "connections" i
    tools ← optional [] (λ t. string_array json t (item_member "connections" i "tools")) o "tools"
    spec ← optional none (λ s. parse_spec i s) o "spec"
    ok record { reference = reference; spec = spec; tools = tools }

  unfoldable pub parse_connections : J → Result (List CatalogConnection)
  unfolding read_connection each_item
  parse_connections v = do
    arr ← or_message (json.as_arr v) (message "connections must be a JSON array")
    each_item read_connection 0 arr

  -- `json_parse(text).map_err(json_err("catalog_blob"))`.
  unfoldable pub parse_text : Bytes → Result J
  parse_text text = elim (json.parse text) [
    | parsed v ↦ ok v
    | bad_parse ↦ err (message "aos_vm_inject_catalog: catalog_blob is not valid JSON")
    | bad_shape ↦ err (message "aos_vm_inject_catalog: catalog_blob has unexpected shape")
  ]

  -- A blob that is not empty.
  unfoldable pub parse_root : Bytes → Bytes → ℕ → Result CatalogInjectOptions
  unfolding from_utf8 parse_text optional string_array parse_host_tools parse_connections
  parse_root catalog compiler_wasm generation = do
    text ←
        or_message (from_utf8 catalog)
          (message "aos_vm_inject_catalog: catalog_blob must be UTF-8 JSON")
    root ← parse_text text
    obj ←
        or_message (json.as_obj root)
          (message "aos_vm_inject_catalog: catalog_blob root must be a JSON object")
    tools ← optional [] (λ v. string_array json v (root_member "tools")) obj "tools"
    host_tools ← optional [] parse_host_tools obj "host_tools"
    connections ← optional [] parse_connections obj "connections"
    ok record {
      compiler_wasm = compiler_wasm;
      connections = connections;
      tools = tools;
      host_tools = host_tools;
      generation = generation;
    }

  unfoldable pub parse_catalog_blob : Bytes → Bytes → ℕ → Result CatalogInjectOptions
  unfolding parse_root
  parse_catalog_blob catalog compiler_wasm generation =
      if is_empty catalog
      then ok record {
        compiler_wasm = compiler_wasm;
        connections = [];
        tools = [];
        host_tools = [];
        generation = generation;
      }
      else parse_root catalog compiler_wasm generation
