-- ===== src/Fs/Listing/Laws.antt =====
-- The text of a listing is JSON, and a reader of JSON gets the entries back from it.
use flutter_experiments.Common.{
  ℕ, zero, suc, ◌≡◌, ◌≤◌, refl, ap, ◌∙◌, inl, inr, Bytes, Bool, true, false, Option, none, some,
  List, [], ◌∷◌, ◌++◌, length, map, ascii, arith, Bool-cases, append_assoc, length-append,
}
use flutter_experiments.Debug.{quote}
use flutter_experiments.Debug.Laws.{unquote, unquote-quote, expect, expect-append, Plain}
use flutter_experiments.Fs.Listing.{
  DirEntry, entry_type, encode_entry, more_entries, encode_entries, encode_listing,
}

-- A failure to read ends the reader.
abbrev and_then {ℓ κ} : {A : Type ℓ} {B : Type κ} → Option A → (A → Option B) → Option B
and_then none f = none
and_then (some a) f = f a

-- The end of the text, after the closing bracket.
abbrev at_end : Bytes → Option (List (Bytes × Bytes))
at_end [] = some []
at_end (b ∷ s) = none

-- Three words around two strings.
unfoldable pub read_parts : Bytes → Bytes → Bytes → Bytes → Option ((Bytes × Bytes) × Bytes)
read_parts open_word between close_word s = and_then (expect open_word s) λ s1.
    and_then (unquote s1) λ (name, s2). and_then (expect between s2) λ s3.
      and_then (unquote s3)
        λ (kind, s4). and_then (expect close_word s4) λ s5. some ((name, kind), s5)

-- An object with the members `name` and `type`, in this order, without white space.
unfoldable pub read_entry : Bytes → Option ((Bytes × Bytes) × Bytes)
read_entry = read_parts (ascii "{\"name\":") (ascii ",\"type\":") (ascii "}")

-- The elements of an array after the first: up to the closing bracket, which ends the text.
unfoldable pub read_more : ℕ → Bytes → Option (List (Bytes × Bytes))
read_more zero s = none
read_more (suc f) s = elim (expect (ascii "]") s) [
  | some left ↦ at_end left
  | none ↦ and_then (expect (ascii ",") s) λ s1.
      and_then (read_entry s1)
        λ (entry, s2). and_then (read_more f s2) λ entries. some (entry ∷ entries)
]

unfoldable pub read_listing : Bytes → Option (List (Bytes × Bytes))
read_listing s = and_then (expect (ascii "[") s) λ s1. elim (expect (ascii "]") s1) [
  | some left ↦ at_end left
  | none ↦
      and_then (read_entry s1)
        λ (entry, s2). and_then (read_more (length s2) s2) λ entries. some (entry ∷ entries)
]

abbrev pub PlainNames : List DirEntry → Type 0
PlainNames [] = Unit {0}
PlainNames (e ∷ es) = Plain e.name × PlainNames es

-- The type of an entry in the listing: a directory, or else a symbolic link, or else a file.
abbrev pub type_word : (is_dir is_symlink : Bool) → Bytes
type_word true is_symlink = ascii "directory"
type_word false true = ascii "symlink"
type_word false false = ascii "file"

abbrev pub name_and_type : DirEntry → Bytes × Bytes
name_and_type e = (e.name, type_word e.is_dir e.is_symlink)

entry_type-type_word : (e : DirEntry) → entry_type e ≡ type_word e.is_dir e.is_symlink
unfolding entry_type
entry_type-type_word e = elim (Bool-cases e.is_dir) [
  | inl dir ↦ rw (dir)
  | inr plain ↦ elim (Bool-cases e.is_symlink) [
    | inl symlink ↦ rw (plain, symlink)
    | inr file ↦ rw (plain, file)
  ]
]

entry_type-Plain : (e : DirEntry) → Plain (entry_type e)
unfolding entry_type
entry_type-Plain e = ground arith

read_parts-append :
    (escape : Bytes → Bytes) (a c d name kind left : Bytes)
    → Plain name
    → Plain kind
    → read_parts a c d (a ++ quote escape name ++ c ++ quote escape kind ++ d ++ left)
      ≡ some ((name, kind), left)
unfolding read_parts
read_parts-append escape a c d name kind left plain_name plain_kind = rw (
  append_assoc (a ++ quote escape name ++ c ++ quote escape kind) d left,
  append_assoc (a ++ quote escape name ++ c) (quote escape kind) (d ++ left),
  append_assoc (a ++ quote escape name) c (quote escape kind ++ (d ++ left)),
  append_assoc a (quote escape name) (c ++ (quote escape kind ++ (d ++ left))),
  expect-append a (quote escape name ++ (c ++ (quote escape kind ++ (d ++ left)))),
  unquote-quote escape name (c ++ (quote escape kind ++ (d ++ left))) plain_name,
  expect-append c (quote escape kind ++ (d ++ left)),
  unquote-quote escape kind (d ++ left) plain_kind,
  expect-append d left,
)

read_entry-append :
    (escape : Bytes → Bytes) (e : DirEntry) (left : Bytes)
    → Plain e.name
    → read_entry (encode_entry escape e ++ left) ≡ some (name_and_type e, left)
unfolding read_entry encode_entry
read_entry-append escape e left plain =
    read_parts-append escape (ascii "{\"name\":") (ascii ",\"type\":") (ascii "}") e.name
      (entry_type e) left plain (entry_type-Plain e)
    ∙ ap (λ word. some ((e.name, word), left)) (entry_type-type_word e)

encode_entry-open :
    (escape : Bytes → Bytes) (e : DirEntry) (left : Bytes)
    → expect (ascii "]") (encode_entry escape e ++ left) ≡ none
unfolding expect encode_entry
encode_entry-open escape e left = refl

read_more_step :
    (f : ℕ) (s left : Bytes) (entry : Bytes × Bytes)
    → read_entry s ≡ some (entry, left)
    → read_more (suc f) (ascii "," ++ s)
      ≡ and_then (read_more f left) (λ entries. some (entry ∷ entries))
unfolding read_more expect
read_more_step f s left entry e = rw (e)

more_entries-cons :
    (escape : Bytes → Bytes) (e : DirEntry) (es : List DirEntry)
    → more_entries escape (e ∷ es) ++ ascii "]"
      ≡ ascii "," ++ (encode_entry escape e ++ (more_entries escape es ++ ascii "]"))
unfolding more_entries
more_entries-cons escape e es =
    ap (◌++◌ (ascii ","))
      (append_assoc (encode_entry escape e) (more_entries escape es) (ascii "]"))

read_more-append :
    (escape : Bytes → Bytes) (f : ℕ) (es : List DirEntry)
    → length (more_entries escape es ++ ascii "]") ≤ f
    → PlainNames es
    → read_more f (more_entries escape es ++ ascii "]") ≡ some (map name_and_type es)
read_more-append escape zero es h plain =
    absurd (omega (arith, h, length-append (more_entries escape es) (ascii "]")))
read_more-append escape (suc f) [] h plain = unfold read_more more_entries expect in refl
read_more-append escape (suc f) (e ∷ es) h plain =
    let shorter : length (more_entries escape es ++ ascii "]") ≤ f = omega (
      arith,
      h,
      ap length (more_entries-cons escape e es),
      length-append (ascii ",") (encode_entry escape e ++ (more_entries escape es ++ ascii "]")),
      length-append (encode_entry escape e) (more_entries escape es ++ ascii "]"),
    ) in
    rw (more_entries-cons escape e es) (
      read_more_step f _ _ (name_and_type e)
        (read_entry-append escape e (more_entries escape es ++ ascii "]") plain.0)
      ∙ rw (read_more-append escape f es shorter plain.1))

encode_listing-cons :
    (escape : Bytes → Bytes) (e : DirEntry) (es : List DirEntry)
    → encode_listing escape (e ∷ es)
      ≡ ascii "[" ++ (encode_entry escape e ++ (more_entries escape es ++ ascii "]"))
unfolding encode_listing encode_entries
encode_listing-cons escape e es =
    ap (◌++◌ (ascii "["))
      (append_assoc (encode_entry escape e) (more_entries escape es) (ascii "]"))

read_listing_step :
    (s left : Bytes) (entry : Bytes × Bytes)
    → expect (ascii "]") s ≡ none
    → read_entry s ≡ some (entry, left)
    → read_listing (ascii "[" ++ s)
      ≡ and_then (read_more (length left) left) (λ entries. some (entry ∷ entries))
unfolding read_listing
read_listing_step s left entry opens e = unfold expect in rw (opens, e)

-- For entries whose names are plain, a reader of JSON gets from the text of `aos_vm_readdir` the name
-- and the type of every entry, in order and with nothing left over, whatever `escape` is. The type is
-- "directory", "symlink" or "file", for a directory that is also a link the first.
pub read-encode_listing :
    (escape : Bytes → Bytes) (entries : List DirEntry)
    → PlainNames entries
    → read_listing (encode_listing escape entries) ≡ some (map name_and_type entries)
read-encode_listing escape [] plain =
    unfold read_listing encode_listing encode_entries expect in refl
read-encode_listing escape (e ∷ es) plain = rw (encode_listing-cons escape e es) (
    read_listing_step _ _ (name_and_type e)
      (encode_entry-open escape e (more_entries escape es ++ ascii "]"))
      (read_entry-append escape e (more_entries escape es ++ ascii "]") plain.0)
    ∙ rw (
        read_more-append escape (length (more_entries escape es ++ ascii "]")) es (omega arith)
          plain.1))
