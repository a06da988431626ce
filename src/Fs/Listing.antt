-- ===== src/Fs/Listing.antt =====
-- fs.rs, `aos_vm_readdir`: the text of a listing.
pub mod Laws
use flutter_experiments.Common.{ℕ, Bytes, Bool, List, [], ◌∷◌, ◌++◌, if◌then◌else◌, ascii}
use flutter_experiments.Debug.{quote}

-- An entry that `host.readdir` gives.
pub record DirEntry : Type 0 where
  pub name : Bytes
  pub is_dir : Bool
  pub is_symlink : Bool

unfoldable pub entry_type : DirEntry → Bytes
entry_type e =
    if e.is_dir then ascii "directory" else if e.is_symlink then ascii "symlink" else ascii "file"

unfoldable pub encode_entry : (Bytes → Bytes) → DirEntry → Bytes
unfolding quote entry_type
encode_entry escape e =
    ascii "{\"name\":"
    ++ quote escape e.name
    ++ ascii ",\"type\":"
    ++ quote escape (entry_type e)
    ++ ascii "}"

-- The entries after the first, each behind a comma.
unfoldable pub more_entries : (Bytes → Bytes) → List DirEntry → Bytes
unfolding encode_entry
more_entries escape [] = []
more_entries escape (e ∷ es) = ascii "," ++ encode_entry escape e ++ more_entries escape es

unfoldable pub encode_entries : (Bytes → Bytes) → List DirEntry → Bytes
unfolding more_entries
encode_entries escape [] = []
encode_entries escape (e ∷ es) = encode_entry escape e ++ more_entries escape es

unfoldable pub encode_listing : (Bytes → Bytes) → List DirEntry → Bytes
unfolding encode_entries
encode_listing escape entries = ascii "[" ++ encode_entries escape entries ++ ascii "]"
