-- ===== src/Catalog/Accepted.antt =====
-- catalog.rs: what an accepted catalog blob is parsed to.
use Prim.Native.String.{String}
use mathlib.Core.Path.{subst}
use flutter_experiments.Common.{
  ℕ, suc, ◌≡◌, refl, ap, ◌∙◌, ◌⊎◌, inl, inr, Bytes, true, false, Option, none, some, List, [], ◌∷◌,
  is_empty, ascii, bytes_eq, Option-cases, Bool-cases,
}
use flutter_experiments.Common.Dict.{lookup}
use flutter_experiments.Error.{
  Error, Result, ok, ◌>>=◌, bind-ok, root_member, not_string, not_strings, message,
}
use flutter_experiments.Buf.Env.{or_message}
use flutter_experiments.Utf8.{is_utf8, from_utf8}
use flutter_experiments.Json.{
  JsonLib, Parsed, parsed, bad_parse, bad_shape, Shape, null, str, other, get_field, each_item,
  string_array,
}
use flutter_experiments.Catalog.Read.{
  CatalogInjectOptions, optional, read_host_tool, parse_host_tools, read_connection,
  parse_connections, parse_text, parse_root, parse_catalog_blob,
}

-- One result per item, in order; `f` gets the item's index.
pub data Items {J B : Type 0} (f : ℕ → J → Result B) : ℕ → List J → List B → Type 0 where
  none_left : (i : ℕ) → Items f i [] []
  next :
      (i : ℕ) (item : J) (items : List J) (b : B) (bs : List B)
      → f i item ≡ ok b
      → Items f (suc i) items bs
      → Items f i (item ∷ items) (b ∷ bs)

module _ {J B : Type 0} (f : ℕ → J → Result B) where
  -- An item that was read, before the items that were.
  next_item :
      (i : ℕ) (item : J) (items : List J) (b : B) (more bs : List B)
      → f i item ≡ ok b
      → Items f (suc i) items more
      → ok (b ∷ more) ≡ ok bs
      → Items f i (item ∷ items) bs
  next_item i item items b more [] first others whole = cc
  next_item i item items b more (c ∷ cs) first others whole =
      let same : more ≡ cs = cc in
      next i item items c cs (first ∙ ap ok cc) (subst (λ bs. Items f (suc i) items bs) same others)

  each_item-Items :
      (i : ℕ) (items : List J) (bs : List B) → each_item f i items ≡ ok bs → Items f i items bs
  unfolding each_item
  each_item-Items i [] [] good = none_left i
  each_item-Items i [] (b ∷ bs) good = cc
  each_item-Items i (item ∷ items) bs good =
      let (b, first, rest) = bind-ok (f i item) _ bs good in
      let (more, others, whole) = bind-ok (each_item f (suc i) items) _ bs rest in
      next_item i item items b more bs first (each_item-Items (suc i) items more others) whole

or_message-ok : {A : Type 0} (o : Option A) (e : Error) (a : A) → or_message o e ≡ ok a → o ≡ some a
or_message-ok none e a good = cc
or_message-ok (some b) e a good = cc

ok_same : {A : Type 0} {a b : A} → ok a ≡ ok b → a ≡ b
ok_same same = cc

from_utf8-some : (s text : Bytes) → from_utf8 s ≡ some text → (is_utf8 s ≡ true) × (s ≡ text)
unfolding from_utf8
from_utf8-some s text good = elim (Bool-cases (is_utf8 s)) [
  | inl valid ↦ (valid, let same = rw (valid) at good in cc)
  | inr bad ↦ let stuck = rw (bad) at good in cc
]

module _ {J : Type 0} (json : JsonLib J) where
  -- A member that is missing or null.
  abbrev pub Omitted : List (Bytes × J) → String → Type 0
  Omitted obj key =
      (lookup (ascii key) obj ≡ none)
      ⊎ ((v : J) × (lookup (ascii key) obj ≡ some v) × (json.shape v ≡ null))

  -- A member that gives the list `out`: none for an omitted one, and otherwise an array with one item
  -- for each.
  abbrev pub Gives : {B : Type 0} → (ℕ → J → Result B) → List (Bytes × J) → String → List B → Type 0
  Gives f obj key out =
      (Omitted obj key × (out ≡ []))
      ⊎ ((v : J) × (arr : List J) × (lookup (ascii key) obj ≡ some v)
          × (json.as_arr v ≡ some arr)
          × Items f 0 arr out)

  parse_text-ok :
      (text : Bytes) (root : J) → parse_text json text ≡ ok root → json.parse text ≡ parsed root
  unfolding parse_text
  parse_text-ok text root good = go (json.parse text) refl
    where
      go : (r : Parsed J) → json.parse text ≡ r → json.parse text ≡ parsed root
      go (parsed v) e = let same = rw (parse_text, e) at good in e ∙ ap parsed cc
      go bad_parse e = let stuck = rw (parse_text, e) at good in cc
      go bad_shape e = let stuck = rw (parse_text, e) at good in cc

  optional-ok :
      {B : Type 0} (default : B) (read : J → Result B) (obj : List (Bytes × J)) (key : String)
      (out : B)
      → optional json default read obj key ≡ ok out
      → (Omitted obj key × (out ≡ default))
        ⊎ ((v : J) × (lookup (ascii key) obj ≡ some v) × (read v ≡ ok out))
  unfolding optional get_field
  optional-ok default read obj key out good = elim (Option-cases (lookup (ascii key) obj)) [
    | inl missing ↦ let same = rw (optional, missing) at good in inl (inl missing, cc)
    | inr (v, found) ↦ go v found (json.shape v) refl
  ]
    where
      go :
          (v : J)
          → lookup (ascii key) obj ≡ some v
          → (shape : Shape) → json.shape v ≡ shape
          → (Omitted obj key × (out ≡ default))
            ⊎ ((v : J) × (lookup (ascii key) obj ≡ some v) × (read v ≡ ok out))
      go v found null e = let same = rw (optional, found, e) at good in inl (inr (v, found, e), cc)
      go v found (str t) e = inr (v, found, rw (optional, found, e) at good)
      go v found other e = inr (v, found, rw (optional, found, e) at good)

  optional-Gives :
      {B : Type 0} (f : ℕ → J → Result B) (refusal : Error) (obj : List (Bytes × J)) (key : String)
      (out : List B)
      → optional json [] (λ v. or_message (json.as_arr v) refusal >>= each_item f 0) obj key
        ≡ ok out
      → Gives f obj key out
  optional-Gives f refusal obj key out good =
      elim (optional-ok [] (λ v. or_message (json.as_arr v) refusal >>= each_item f 0) obj key out
        good) [
          | inl omitted ↦ inl omitted
          | inr (v, found, read) ↦
              let (arr, is_arr, all) = bind-ok (or_message (json.as_arr v) refusal) _ out read in
              inr (
                v,
                arr,
                found,
                or_message-ok (json.as_arr v) refusal arr is_arr,
                each_item-Items f 0 arr out all,
              )
        ]

  -- What a blob says that is accepted as the options.
  abbrev pub AcceptedCatalog : Bytes → Bytes → ℕ → CatalogInjectOptions → Type 0
  AcceptedCatalog catalog compiler_wasm generation opts =
      (root : J) × (obj : List (Bytes × J)) × (is_utf8 catalog ≡ true)
      × (json.parse catalog ≡ parsed root)
      × (json.as_obj root ≡ some obj)
      × (opts.compiler_wasm ≡ compiler_wasm)
      × (opts.generation ≡ generation)
      × Gives (λ i item. or_message (json.as_str item) (not_string (root_member "tools") i)) obj
          "tools" opts.tools
      × Gives (read_host_tool json) obj "host_tools" opts.host_tools
      × Gives (read_connection json) obj "connections" opts.connections

  -- If a catalog blob that is not empty is accepted, then it is UTF-8 and the JSON of an object, the
  -- compiler and the generation are passed on, and each of the three lists is either empty, for a
  -- member that is missing or null, or comes from an array, one entry per item and in order, with every
  -- item accepted.
  pub parse_catalog_blob_accepted :
      (catalog compiler_wasm : Bytes) (generation : ℕ) (opts : CatalogInjectOptions)
      → is_empty catalog ≡ false
      → parse_catalog_blob json catalog compiler_wasm generation ≡ ok opts
      → AcceptedCatalog catalog compiler_wasm generation opts
  unfolding parse_catalog_blob parse_root string_array parse_host_tools parse_connections
  parse_catalog_blob_accepted catalog compiler_wasm generation opts some_bytes good =
      let (text, is_text, s1) =
        bind-ok (or_message (from_utf8 catalog) _) _ opts (rw (some_bytes) at good) in
      let (root, is_root, s2) = bind-ok (parse_text json text) _ opts s1 in
      let (obj, is_obj, s3) = bind-ok (or_message (json.as_obj root) _) _ opts s2 in
      let (tools, are_tools, s4) =
        bind-ok (optional json [] (λ v. string_array json v (root_member "tools")) obj "tools") _
          opts s3 in
      let (host_tools, are_host_tools, s5) =
        bind-ok (optional json [] (parse_host_tools json) obj "host_tools") _ opts s4 in
      let (connections, are_connections, s6) =
        bind-ok (optional json [] (parse_connections json) obj "connections") _ opts s5 in
      let (valid, same_text) =
        from_utf8-some catalog text (or_message-ok (from_utf8 catalog) _ text is_text) in
      subst (AcceptedCatalog catalog compiler_wasm generation) (ok_same s6) (
        root,
        obj,
        valid,
        ap json.parse same_text ∙ parse_text-ok text root is_root,
        or_message-ok (json.as_obj root) _ obj is_obj,
        refl,
        refl,
        optional-Gives _ (not_strings (root_member "tools")) obj "tools" tools are_tools,
        optional-Gives (read_host_tool json) (message "host_tools must be a JSON array") obj
            "host_tools" host_tools are_host_tools,
        optional-Gives (read_connection json) (message "connections must be a JSON array") obj
            "connections" connections are_connections,
      )
