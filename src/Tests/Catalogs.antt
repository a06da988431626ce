-- ===== src/Tests/Catalogs.antt =====
-- catalog.rs and `apply_boot_caps` over a small library of JSON.
use flutter_experiments.Common.{
  ℕ, ◌≡◌, refl, Bytes, true, Option, none, some, List, [], ◌∷◌, ◌++◌, pos, if◌then◌else◌, ascii,
  ◌==◌, bytes_eq,
}
use flutter_experiments.Utf8.{is_utf8}
use flutter_experiments.Host.{gave}
use flutter_experiments.Json.{JsonLib, parsed, bad_parse, Shape, null, str, other}
use flutter_experiments.Catalog.Read.{CatalogInjectOptions, parse_catalog_blob}
use flutter_experiments.Catalog.Accepted.{AcceptedCatalog, parse_catalog_blob_accepted}
use flutter_experiments.Caps.Blobs.{HostRegistry}
use flutter_experiments.Caps.{HostNet, HostCaps, apply_boot_caps}
use flutter_experiments.Caps.Grants.{
  Grant, NetGrants, SwitchGrants, relay_persist, relay_calls, attach_all, apply_boot_caps-grants,
}

-- The values of one document: `{"host_tools":[{"address":"t","binding_name":"g"}],"tools":null}`.
pub data Doc : Type 0 where
  root tools tool nothing : Doc
  text : Bytes → Doc

abbrev members : Doc → Option (List (Bytes × Doc))
members root = some ((ascii "host_tools", tools) ∷ (ascii "tools", nothing) ∷ [])
members tools = none
members tool =
    some ((ascii "address", text (ascii "t")) ∷ (ascii "binding_name", text (ascii "g")) ∷ [])
members nothing = none
members (text s) = none

abbrev elements : Doc → Option (List Doc)
elements root = none
elements tools = some (tool ∷ [])
elements tool = none
elements nothing = none
elements (text s) = none

abbrev shape_of : Doc → Shape
shape_of root = other
shape_of tools = other
shape_of tool = other
shape_of nothing = null
shape_of (text s) = str s

abbrev text_of : Doc → Option Bytes
text_of root = none
text_of tools = none
text_of tool = none
text_of nothing = none
text_of (text s) = some s

abbrev pub docs : JsonLib Doc
docs = record {
  parse = λ t. if t == ascii "{}" then parsed root else bad_parse;
  shape = shape_of;
  as_obj = members;
  as_arr = elements;
  as_str = text_of;
  obj_of = λ entries. root;
  str_of = text;
  num_of = λ n. nothing;
  to_string = λ d. [];
}

abbrev read_opts : CatalogInjectOptions
read_opts = record {
  compiler_wasm = 1 ∷ [];
  connections = [];
  tools = [];
  host_tools =
      record {
        address = ascii "t";
        description = [];
        binding_name = ascii "g";
        args_mode = ascii "json";
        input_schema = none;
        output_schema = none;
        annotations = none;
      }
      ∷ [];
  generation = 3;
}

parse_catalog_blob_accepted_example : AcceptedCatalog docs (ascii "{}") (1 ∷ []) 3 read_opts
unfolding parse_catalog_blob is_utf8
parse_catalog_blob_accepted_example =
    parse_catalog_blob_accepted docs (ascii "{}") (1 ∷ []) 3 read_opts refl refl

abbrev pub registry : HostRegistry ℕ
registry = record {
  new_registry = 0;
  insert_connection = λ reference credential origins n. gave n;
  derive_connection_origins = λ reference. [];
}

abbrev pub nets : HostNet ℕ ℕ
nets = record {
  new_net = 5;
  with_connections = λ r n. n;
  with_connection_policies = λ rules n. gave n;
  with_tool_approver = λ n. 6;
}

-- The builder is the list of what it was given, the last first.
abbrev pub caps : HostCaps ℕ (List ℕ)
caps = record {
  with_relay_net = λ b. 1 ∷ b;
  with_real_net = λ n b. n ∷ b;
  with_relay_host_call = λ only b. (if only then 2 else 3) ∷ b;
  with_relay_persist = λ b. 4 ∷ b;
}

-- The real network with approval, host calls for the sidecar only, and no storage.
apply_boot_caps-grants_example :
    (nets_given calls_given persist_given : List (Grant ℕ)) × NetGrants docs registry nets caps
      (pos 2)
      (pos 1)
      none
      none
      nets_given
    × SwitchGrants (relay_calls true) (pos 1) calls_given
    × SwitchGrants relay_persist (pos 0) persist_given
    × (2 ∷ 6 ∷ [] ≡ attach_all caps (nets_given ++ (calls_given ++ persist_given)) [])
unfolding apply_boot_caps
apply_boot_caps-grants_example =
    apply_boot_caps-grants docs registry nets caps (pos 2) (pos 1) (pos 0) (pos 1) true none none []
      (2 ∷ 6 ∷ []) refl
