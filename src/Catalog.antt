-- ===== src/Catalog.antt =====
-- catalog.rs: `aos_vm_inject_catalog`, which parses a JSON blob and hands the catalog to the host.
pub mod Read
pub mod Accepted
use Prim.Native.String.{String}
use flutter_experiments.Common.{
  ℕ, Bytes, Bool, Option, none, some, List, [], ◌∷◌, ◌&&◌, ℤ, pos, minus_one, ascii, nat_beq, not,
}
use flutter_experiments.Error.{Error, Result, ok, err, ◌>>=◌}
use flutter_experiments.Buf.{AosBuf, fill_buf, is_null}
use flutter_experiments.Table.{Process, set_error}
use flutter_experiments.Host.{Outcome, slice, require_args, host_call}
use flutter_experiments.Json.{JsonLib}
use flutter_experiments.Catalog.Read.{CatalogInjectOptions, parse_catalog_blob}

pub record CatalogApplyStatus : Type 0 where
  pub generation : ℕ
  pub digest : Bytes
  pub tools : ℕ

unfoldable pub encode_status : {J : Type 0} → JsonLib J → Option CatalogApplyStatus → Bytes
encode_status json none = []
encode_status json (some s) = json.to_string (
    json.obj_of (
      (ascii "generation", json.num_of s.generation)
      ∷ (ascii "digest", json.str_of s.digest)
      ∷ (ascii "tools", json.num_of s.tools)
      ∷ []))

-- The tests of the arguments, and `parse_catalog_blob` on what they point to.
unfoldable pub catalog_args :
    {J : Type 0}
    → JsonLib J
    → ℕ
    → Option Bytes
    → ℕ
    → ℕ
    → Option Bytes
    → ℕ
    → Result CatalogInjectOptions
unfolding require_args parse_catalog_blob
catalog_args json vm compiler_wasm compiler_len generation catalog_blob catalog_len = do
  handle ← require_args "aos_vm_inject_catalog: invalid handle" (nat_beq vm 0)
  compiler ←
      require_args "aos_vm_inject_catalog: compiler_wasm null with non-zero len"
        (not (nat_beq compiler_len 0) && is_null compiler_wasm)
  catalog ←
      require_args "aos_vm_inject_catalog: catalog_blob null with non-zero len"
        (not (nat_beq catalog_len 0) && is_null catalog_blob)
  parse_catalog_blob json (slice catalog_blob catalog_len) (slice compiler_wasm compiler_len)
      generation

module _ {H : Type 0} where
  -- The last `match`, with `fill_buf_result`: a status that does not fit is a failure without a text.
  unfoldable pub give_status :
      {J : Type 0}
      → JsonLib J
      → Option AosBuf
      → Result (Option CatalogApplyStatus) × Process H
      → ℤ × Option AosBuf × Process H
  unfolding set_error fill_buf encode_status
  give_status json out (err e, p) = (minus_one, out, set_error e p)
  give_status json none (ok status, p) = (pos 0, none, p)
  give_status json (some b) (ok status, p) =
      let (code, out') = fill_buf (some b) (encode_status json status) in (code, out', p)

  unfoldable pub aos_vm_inject_catalog :
      {J : Type 0}
      → JsonLib J
      → (CatalogInjectOptions → H → Outcome (Option CatalogApplyStatus) × H)
      → Process H
      → ℕ
      → Option Bytes
      → ℕ
      → ℕ
      → Option Bytes
      → ℕ
      → Option AosBuf
      → ℤ × Option AosBuf × Process H
  unfolding host_call catalog_args give_status
  aos_vm_inject_catalog json inject p vm compiler_wasm compiler_len generation catalog_blob
        catalog_len out =
      give_status json out (
        host_call p vm
          (catalog_args json vm compiler_wasm compiler_len generation catalog_blob catalog_len)
          "inject_catalog failed" inject)
