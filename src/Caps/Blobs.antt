-- ===== src/Caps/Blobs.antt =====
-- relay.rs: the JSON blobs of connections and policies. The registry is of the crate `host`: a
-- parameter, as the crate `json` is.
use Prim.Native.String.{String}
use flutter_experiments.Common.{
  ℕ, suc, Bytes, Option, none, some, List, [], ◌∷◌, if◌then◌else◌, is_empty, ascii, ◌==◌, int_eq,
  bytes_eq,
}
use flutter_experiments.Error.{
  message, at_item, in_item, field_error, unknown_kind, unknown_word, refused_item, item_member,
  Result, ok, err, ◌>>=◌,
}
use flutter_experiments.Buf.Env.{or_message}
use flutter_experiments.Utf8.{from_utf8}
use flutter_experiments.Host.{Outcome, gave, broke, unwrap_or}
use flutter_experiments.Json.{
  JsonLib, parsed, bad_parse, bad_shape, null, str, other, get_field, each_item, string_array,
}

pub data ConnectionCredential : Type 0 where
  no_credential : ConnectionCredential
  bearer : Bytes → ConnectionCredential
  header query : Bytes → Bytes → ConnectionCredential

pub data ConnectionPolicyOwner : Type 0 where
  org user : ConnectionPolicyOwner

pub data ConnectionPolicyAction : Type 0 where
  approve require_approval block : ConnectionPolicyAction

pub record ConnectionPolicyRule : Type 0 where
  pub owner : ConnectionPolicyOwner
  pub pattern_text : Bytes
  pub action : ConnectionPolicyAction

-- `ConnectionRegistry` and `derive_connection_origins`. A refused insertion gives its text.
pub record HostRegistry (R : Type 0) : Type 0 where
  pub new_registry : R
  pub insert_connection : Bytes → ConnectionCredential → List Bytes → R → Outcome R
  pub derive_connection_origins : Bytes → List Bytes

unfoldable pub build_credential : Bytes → Bytes → Bytes → Result ConnectionCredential
build_credential kind a b =
    if kind == ascii "none"
    then ok no_credential
    else if kind == ascii "bearer"
    then ok (bearer a)
    else if kind == ascii "header"
    then ok (header a b)
    else if kind == ascii "query"
    then ok (query a b)
    else err (unknown_kind kind)

unfoldable pub owner_of : ℕ → Bytes → Result ConnectionPolicyOwner
owner_of i word =
    if word == ascii "org"
    then ok org
    else if word == ascii "user"
    then ok user
    else err (unknown_word "policies[].owner" i word)

unfoldable pub action_of : ℕ → Bytes → Result ConnectionPolicyAction
action_of i word =
    if word == ascii "approve"
    then ok approve
    else if word == ascii "require_approval"
    then ok require_approval
    else if word == ascii "block"
    then ok block
    else err (unknown_word "policies[].action" i word)

module _ {J : Type 0} (json : JsonLib J) where
  unfoldable pub obj_opt_str : List (Bytes × J) → String → Option Bytes
  unfolding get_field
  obj_opt_str obj key = elim (get_field obj (ascii key)) [
    | none ↦ none
    | some v ↦ elim (json.shape v) [
      | null ↦ none
      | str s ↦ if is_empty s then none else some s
      | other ↦ none
    ]
  ]

  unfoldable pub obj_require_str : List (Bytes × J) → String → ℕ → Result Bytes
  unfolding get_field
  obj_require_str obj key i = elim (get_field obj (ascii key)) [
    | none ↦ err (field_error "item" i key "missing")
    | some v ↦ elim (json.shape v) [
      | null ↦ err (field_error "item" i key "must be a string")
      | str s ↦ if is_empty s then err (field_error "item" i key "must be non-empty") else ok s
      | other ↦ err (field_error "item" i key "must be a string")
    ]
  ]

  unfoldable pub read_origins : List (Bytes × J) → ℕ → Result (List Bytes)
  unfolding get_field string_array
  read_origins obj i = elim (get_field obj (ascii "origins")) [
    | none ↦ ok []
    | some v ↦ elim (json.shape v) [
      | null ↦ ok []
      | str s ↦ string_array json v (item_member "connections" i "origins")
      | other ↦ string_array json v (item_member "connections" i "origins")
    ]
  ]

  -- The blob's text, its JSON, and the array; the three texts are those of the caller.
  unfoldable pub read_array : String → String → String → Bytes → Result (List J)
  unfolding from_utf8
  read_array not_utf8 not_json not_array blob = do
    text ← or_message (from_utf8 blob) (message not_utf8)
    root ← elim (json.parse text) [
      | parsed v ↦ ok v
      | bad_parse ↦ err (message not_json)
      | bad_shape ↦ err (message not_json)
    ]
    or_message (json.as_arr root) (message not_array)

  -- `map_err(|e| format!("connections[{i}]: {e}"))`.
  abbrev in_connection {ℓ} : {A : Type ℓ} → ℕ → Result A → Result A
  in_connection i (err e) = err (in_item "connections" i e)
  in_connection i (ok a) = ok a

  module _ {R : Type 0} (reg : HostRegistry R) where
    -- What one turn of the loop of `parse_connections_blob` inserts.
    unfoldable pub read_connection : ℕ → J → Result (Bytes × ConnectionCredential × List Bytes)
    unfolding obj_require_str obj_opt_str build_credential read_origins
    read_connection i item = do
      o ← or_message (json.as_obj item) (at_item "connections" i "must be an object")
      reference ← obj_require_str o "reference" i
      credential ← in_connection i (
          build_credential (unwrap_or (ascii "none") (obj_opt_str o "kind"))
            (unwrap_or [] (obj_opt_str o "a")) (unwrap_or [] (obj_opt_str o "b")))
      origins ← read_origins o i
      ok (
        reference,
        credential,
        if is_empty origins then reg.derive_connection_origins reference else origins,
      )

    abbrev inserted : ℕ → Bytes → Outcome R → Result R
    inserted i reference (gave r) = ok r
    inserted i reference (broke text) = err (refused_item "connections" i reference text)

    -- The loop, from index `i` on.
    unfoldable pub add_connections : ℕ → List J → R → Result R
    unfolding read_connection
    add_connections i [] registry = ok registry
    add_connections i (item ∷ items) registry = do
      entry ← read_connection i item
      more ← inserted i entry.0 (reg.insert_connection entry.0 entry.1 entry.2 registry)
      add_connections (suc i) items more

    unfoldable pub parse_connections_blob : Bytes → Result R
    unfolding read_array add_connections
    parse_connections_blob blob = if is_empty blob then ok reg.new_registry else (do
      arr ←
          read_array "connections_blob must be UTF-8 JSON" "connections_blob is not valid JSON"
            "connections_blob must be a JSON array" blob
      add_connections 0 arr reg.new_registry)

  -- One turn of the loop of `parse_policies_blob`.
  unfoldable pub read_policy : ℕ → J → Result ConnectionPolicyRule
  unfolding obj_require_str owner_of action_of
  read_policy i item = do
    o ← or_message (json.as_obj item) (at_item "policies" i "must be an object")
    owner_text ← obj_require_str o "owner" i
    owner ← owner_of i owner_text
    pattern_text ← obj_require_str o "pattern" i
    action_text ← obj_require_str o "action" i
    action ← action_of i action_text
    ok record { owner = owner; pattern_text = pattern_text; action = action }

  unfoldable pub parse_policies_blob : Bytes → Result (List ConnectionPolicyRule)
  unfolding read_array read_policy each_item
  parse_policies_blob blob = if is_empty blob then ok [] else (do
    arr ←
        read_array "connection_policies_blob must be UTF-8 JSON"
          "connection_policies_blob is not valid JSON"
          "connection_policies_blob must be a JSON array" blob
    each_item read_policy 0 arr)
