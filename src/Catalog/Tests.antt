-- ===== src/Catalog/Tests.antt =====
-- The catalog at concrete inputs.
use cartridge_rs.Prelude.{◌≡◌, refl, [], ◌∷◌, Text}
use cartridge_rs.Catalog.{FileMetadata, file, Catalog, new_metadata, text_ltb, list_prefix}
use cartridge_rs.Catalog.Order.{Sorted}
use cartridge_rs.Catalog.Prefix.{with_prefix, list_prefix_lem}

-- `a/x`, `a/y`, `b` and `a/`
abbrev a_x : Text
a_x = 97 ∷ 47 ∷ 120 ∷ []

abbrev a_y : Text
a_y = 97 ∷ 47 ∷ 121 ∷ []

abbrev b : Text
b = 98 ∷ []

abbrev below_a : Text
below_a = 97 ∷ 47 ∷ []

abbrev small_file : FileMetadata
small_file = new_metadata 7 file 3 (5 ∷ [])

abbrev three_files : Catalog
three_files = record {
  root_page = 1;
  entries = (a_x, small_file) ∷ (a_y, small_file) ∷ (b, small_file) ∷ [];
}

three_files-Sorted : Sorted three_files.entries
unfolding text_ltb
three_files-Sorted = ((refl, (refl, tt)), ((refl, tt), (tt, tt)))

list_prefix_example : list_prefix below_a three_files ≡ with_prefix below_a three_files.entries
list_prefix_example = list_prefix_lem below_a three_files three_files-Sorted
