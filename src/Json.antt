-- ===== src/Json.antt =====
-- The interface of the crate `json`, which catalog.rs and relay.rs call, and the loops over the items
-- of a JSON array that they share.
use flutter_experiments.Common.{ℕ, suc, Bytes, Option, List, [], ◌∷◌, bytes_eq}
use flutter_experiments.Common.Dict.{lookup}
use flutter_experiments.Error.{Label, not_strings, not_string, Result, ok, ◌>>=◌}
use flutter_experiments.Buf.Env.{or_message}

-- The two errors of `json::parse`.
pub data Parsed (J : Type 0) : Type 0 where
  parsed : J → Parsed J
  bad_parse bad_shape : Parsed J

-- How a value matches the patterns `Json::Null` and `Json::Str(s)`.
pub data Shape : Type 0 where
  null : Shape
  str : Bytes → Shape
  other : Shape

-- The members of an object come in the order of the text. The last four make the values of a status;
-- `num` is `Json::Num(n as f64)`.
pub record JsonLib (J : Type 0) : Type 0 where
  pub parse : Bytes → Parsed J
  pub shape : J → Shape
  pub as_obj : J → Option (List (Bytes × J))
  pub as_arr : J → Option (List J)
  pub as_str : J → Option Bytes
  pub obj_of : List (Bytes × J) → J
  pub str_of : Bytes → J
  pub num_of : ℕ → J
  pub to_string : J → Bytes

module _ {J : Type 0} where
  -- `obj.iter().find(|(k, _)| k == key)`.
  unfoldable pub get_field : List (Bytes × J) → Bytes → Option J
  unfolding lookup
  get_field obj key = lookup key obj

  -- `for (i, item) in arr.iter().enumerate()` with a `push` at the end of each turn, from index `i` on.
  unfoldable pub each_item {ℓ} : {B : Type ℓ} → (ℕ → J → Result B) → ℕ → List J → Result (List B)
  each_item f i [] = ok []
  each_item f i (item ∷ items) = do b ← f i item; rest ← each_item f (suc i) items; ok (b ∷ rest)

  unfoldable pub string_array : JsonLib J → J → Label → Result (List Bytes)
  unfolding each_item
  string_array json v label = do
    arr ← or_message (json.as_arr v) (not_strings label)
    each_item (λ i item. or_message (json.as_str item) (not_string label i)) 0 arr
