-- ===== src/Catalog.antt =====
-- src/core/catalog/mod.rs and metadata.rs: the index of files. `BTreeMap<String, FileMetadata>` is
-- the list of its entries in ascending order of the key; a `HashMap` is an association list. The
-- time of a call is an argument. The bincode encoding is left to that crate.
pub mod Order
pub mod Lookup
pub mod Prefix
mod Tests
use cartridge_rs.Prelude.{
  ℕ, Bool, true, false, ◌&&◌, List, [], ◌∷◌, ◌++◌, Option, none, some, ltb, ◌==◌, if◌then◌else◌,
  bytes_eq, Text, starts_with, length,
}

pub data FileType : Type 0 where
  file directory symlink : FileType

abbrev pub TextMap : Type 0
TextMap = List (Text × Text)

unfoldable pub text_get : Text → TextMap → Option Text
text_get k [] = none
text_get k ((j, v) ∷ m) = let rest = text_get k m in if bytes_eq j k then some v else rest

unfoldable pub text_remove : Text → TextMap → TextMap
text_remove k [] = []
text_remove k ((j, v) ∷ m) =
    let rest = text_remove k m in if bytes_eq j k then rest else (j, v) ∷ rest

unfoldable pub text_insert : Text → Text → TextMap → TextMap
text_insert k v m = (k, v) ∷ text_remove k m

pub record FileMetadata : Type 0 where
  pub file_type : FileType
  pub size : ℕ
  pub blocks : List ℕ
  pub created_at : ℕ
  pub modified_at : ℕ
  pub permissions : ℕ
  pub owner : Text
  pub content_hash : Option (List ℕ)
  pub content_type : Option Text
  pub user_metadata : TextMap

-- 0o755 for a directory, 0o644 otherwise.
abbrev pub default_permissions : FileType → ℕ
default_permissions directory = 493
default_permissions _ = 420

-- The bytes of "default".
abbrev pub default_owner : Text
default_owner = 100 ∷ 101 ∷ 102 ∷ 97 ∷ 117 ∷ 108 ∷ 116 ∷ []

unfoldable pub new_metadata : ℕ → FileType → ℕ → List ℕ → FileMetadata
new_metadata now file_type size blocks = record {
  file_type = file_type;
  size = size;
  blocks = blocks;
  created_at = now;
  modified_at = now;
  permissions = default_permissions file_type;
  owner = default_owner;
  content_hash = none;
  content_type = none;
  user_metadata = [];
}

unfoldable pub directory_metadata : ℕ → FileMetadata
directory_metadata now = new_metadata now directory 0 []

abbrev pub touch : ℕ → FileMetadata → FileMetadata
touch now m = record m { modified_at = now }

abbrev pub is_directory_type : FileType → Bool
is_directory_type directory = true
is_directory_type _ = false

abbrev pub is_file_type : FileType → Bool
is_file_type file = true
is_file_type _ = false

abbrev pub is_directory : FileMetadata → Bool
is_directory m = is_directory_type m.file_type

abbrev pub is_file : FileMetadata → Bool
is_file m = is_file_type m.file_type

abbrev pub with_content_type : Text → FileMetadata → FileMetadata
with_content_type content_type m = record m { content_type = some content_type }

abbrev pub with_user_metadata : Text → Text → FileMetadata → FileMetadata
with_user_metadata key value m = record m { user_metadata = text_insert key value m.user_metadata }

-- The order of `str`.
unfoldable pub text_ltb : Text → Text → Bool
text_ltb [] [] = false
text_ltb [] (y ∷ ys) = true
text_ltb (x ∷ xs) [] = false
text_ltb (x ∷ xs) (y ∷ ys) = let rest = text_ltb xs ys in if ltb x y then true else (x == y) && rest

abbrev pub Entries : Type 0
Entries = List (Text × FileMetadata)

pub record Catalog : Type 0 where
  pub root_page : ℕ
  pub entries : Entries

unfoldable pub new : ℕ → Catalog
new root_page = record { root_page = root_page; entries = [] }

unfoldable pub entries_insert : Text → FileMetadata → Entries → Entries
entries_insert k v [] = (k, v) ∷ []
entries_insert k v ((j, w) ∷ m) =
    let rest = entries_insert k v m in
    if text_ltb k j then (k, v) ∷ (j, w) ∷ m else if bytes_eq k j then (k, v) ∷ m else (j, w) ∷ rest

unfoldable pub entries_get : Text → Entries → Option FileMetadata
entries_get k [] = none
entries_get k ((j, w) ∷ m) = let rest = entries_get k m in if bytes_eq k j then some w else rest

unfoldable pub entries_remove : Text → Entries → Entries
entries_remove k [] = []
entries_remove k ((j, w) ∷ m) =
    let rest = entries_remove k m in if bytes_eq k j then m else (j, w) ∷ rest

-- `range(prefix..)`
unfoldable pub entries_from : Text → Entries → Entries
entries_from k [] = []
entries_from k ((j, w) ∷ m) =
    let rest = entries_from k m in if text_ltb j k then rest else (j, w) ∷ m

-- `take_while(|(k, _)| k.starts_with(prefix))`
unfoldable pub take_prefixed : Text → Entries → Entries
take_prefixed prefix [] = []
take_prefixed prefix ((j, w) ∷ m) =
    let rest = take_prefixed prefix m in if starts_with prefix j then (j, w) ∷ rest else []

abbrev pub insert : Text → FileMetadata → Catalog → Catalog
insert path metadata c = record c { entries = entries_insert path metadata c.entries }

abbrev pub get : Text → Catalog → Option FileMetadata
get path c = entries_get path c.entries

abbrev pub delete : Text → Catalog → Option FileMetadata × Catalog
delete path c = (entries_get path c.entries, record c { entries = entries_remove path c.entries })

unfoldable pub list_prefix : Text → Catalog → Entries
list_prefix prefix c = take_prefixed prefix (entries_from prefix c.entries)
