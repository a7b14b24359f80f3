-- ===== src/Cartridge/Files.antt =====
-- src/core/cartridge.rs: the operations on files and directories.
use cartridge_rs.Prelude.{
  ℕ, Bool, true, false, not, List, [], ◌∷◌, ◌++◌, map, Option, none, some, length, is_empty,
  ends_with, if◌then◌else◌, bytes_eq, Text, to_decimal, parse_decimal, Result, ok, err, allocation,
}
use cartridge_rs.Allocator.Hybrid
use cartridge_rs.Allocator.Hybrid.{HybridAllocator}
use cartridge_rs.Audit
use cartridge_rs.Catalog
use cartridge_rs.Catalog.{
  Catalog, FileMetadata, file, text_get, text_insert, text_remove, TextMap, is_file, touch,
  new_metadata, directory_metadata, list_prefix,
}
use cartridge_rs.Encryption.{EncryptionConfig, encrypt_if_enabled, decrypt_if_encrypted}
use cartridge_rs.Iam.Policy
use cartridge_rs.Cartridge.Content.{Pages, write_content, read_content, then_do}
use cartridge_rs.Cartridge.State.{Crates, Moment, Archive, check_access, audit_log}
use cartridge_rs.Cartridge.Capacity.{with_allocator, sync_header, ensure_capacity}

-- The bytes of "encrypted", "encrypted_size" and "true".
abbrev pub encrypted_key : Text
encrypted_key = 101 ∷ 110 ∷ 99 ∷ 114 ∷ 121 ∷ 112 ∷ 116 ∷ 101 ∷ 100 ∷ []

abbrev pub encrypted_size_key : Text
encrypted_size_key = encrypted_key ++ (95 ∷ 115 ∷ 105 ∷ 122 ∷ 101 ∷ [])

abbrev pub true_text : Text
true_text = 116 ∷ 114 ∷ 117 ∷ 101 ∷ []

abbrev pub slash : Text
slash = 47 ∷ []

abbrev pub mark_encrypted : ℕ → TextMap → TextMap
mark_encrypted final_size m =
    text_insert encrypted_size_key (to_decimal final_size) (text_insert encrypted_key true_text m)

abbrev pub mark_if : Bool → ℕ → FileMetadata → FileMetadata
mark_if true final_size m = record m { user_metadata = mark_encrypted final_size m.user_metadata }
mark_if false final_size m = m

-- In `write_file` the entries of an encrypted version are removed otherwise.
abbrev pub remark_if : Bool → ℕ → FileMetadata → FileMetadata
remark_if true final_size m = record m { user_metadata = mark_encrypted final_size m.user_metadata }
remark_if false final_size m = record m {
  user_metadata = text_remove encrypted_size_key (text_remove encrypted_key m.user_metadata);
}

abbrev pub is_true : Option Text → Bool
is_true none = false
is_true (some v) = bytes_eq v true_text

unfoldable pub was_encrypted : FileMetadata → Bool
was_encrypted m = is_true (text_get encrypted_key m.user_metadata)

abbrev pub size_or : Option ℕ → ℕ → ℕ
size_or none size = size
size_or (some encrypted_size) size = encrypted_size

abbrev pub parsed : Option Text → Option ℕ
parsed none = none
parsed (some text) = parse_decimal text

unfoldable pub read_size : FileMetadata → ℕ
read_size m =
    if was_encrypted m
    then size_or (parsed (text_get encrypted_size_key m.user_metadata)) m.size
    else m.size

abbrev pub ok_or {ℓ} : {A : Type ℓ} → Option A → Result A
ok_or none = err allocation
ok_or (some a) = ok a

abbrev pub require : Bool → Result (Unit {0})
require true = ok tt
require false = err allocation

abbrev pub absent : Option FileMetadata → Bool
absent none = true
absent (some metadata) = false

module _ {Json : Type 0} (crates : Crates Json) where
  -- A pure step of an operation.
  abbrev pub lift {ℓ} : {A : Type ℓ} → Result A → Archive crates → Result A × Archive crates
  lift outcome s = (outcome, s)

  unfoldable pub seal_with : Option EncryptionConfig → List ℕ → List ℕ → Result (List ℕ × Bool)
  seal_with none nonce content = ok (content, false)
  seal_with (some config) nonce content = encrypt_if_enabled crates.cipher nonce content config

  unfoldable pub ensure_for : List ℕ → Archive crates → Result (Unit {0}) × Archive crates
  ensure_for final_content s =
      if is_empty final_content then (ok tt, s) else ensure_capacity (length final_content) s

  unfoldable pub allocate_for : List ℕ → Archive crates → Result (List ℕ) × Archive crates
  allocate_for final_content s =
      if is_empty final_content
      then (ok [], s)
      else with_allocator (Hybrid.allocate (length final_content) s.allocator) s

  unfoldable pub free_blocks_of : List ℕ → Archive crates → Result (Unit {0}) × Archive crates
  free_blocks_of blocks s =
      if is_empty blocks then (ok tt, s) else with_allocator (Hybrid.free blocks s.allocator) s

  abbrev pub with_pages : Pages × List ℕ → Archive crates → Archive crates
  with_pages (pages, dirty_pages) s = record s { pages = pages; dirty_pages = dirty_pages }

  unfoldable pub store : List ℕ → List ℕ → Archive crates → Archive crates
  store blocks content s = with_pages (write_content blocks content (s.pages, s.dirty_pages)) s

  abbrev pub catalog_insert : Text → FileMetadata → Archive crates → Archive crates
  catalog_insert path metadata s = record s { catalog = Catalog.insert path metadata s.catalog }

  -- `create_file` after the allocation.
  unfoldable pub create_with :
      Moment
      → Text
      → List ℕ
      → List ℕ × Bool
      → List ℕ
      → Archive crates
      → Result (Unit {0}) × Archive crates
  create_with moment path content sealed blocks s =
      let metadata =
        mark_if sealed.1 (length sealed.0) (new_metadata moment.now file (length content) blocks) in
      (
        ok tt,
        audit_log crates moment Audit.create path
            (sync_header (catalog_insert path metadata (store blocks sealed.0 s))),
      )

  -- `create_file` after the encryption.
  unfoldable pub create_sealed :
      Moment → Text → List ℕ → List ℕ × Bool → Archive crates → Result (Unit {0}) × Archive crates
  create_sealed moment path content sealed s = then_do (ensure_for sealed.0 s) (λ _ s'.
      then_do (allocate_for sealed.0 s')
        (λ blocks s''. create_with moment path content sealed blocks s''))

  unfoldable pub create_file :
      Moment → Text → List ℕ → Archive crates → Result (Unit {0}) × Archive crates
  create_file moment path content s = then_do (check_access crates Policy.create path s) (λ _ s'.
      then_do (lift (require (absent (Catalog.get path s'.catalog))) s') (λ _ s''.
        then_do (lift (seal_with s''.encryption_config moment.nonce content) s'')
          (λ sealed s'''. create_sealed moment path content sealed s''')))

  abbrev pub with_cache :
      Result (List ℕ) × Pages → Archive crates → Result (List ℕ) × Archive crates
  with_cache (outcome, pages) s = (outcome, record s { pages = pages })

  unfoldable pub fetch : List ℕ → ℕ → Archive crates → Result (List ℕ) × Archive crates
  fetch blocks size s = with_cache (read_content blocks size s.file s.pages) s

  abbrev pub open_with : Option EncryptionConfig → List ℕ → Result (List ℕ)
  open_with none raw = err allocation
  open_with (some config) raw = decrypt_if_encrypted crates.cipher raw config true

  unfoldable pub unseal : FileMetadata → List ℕ → Archive crates → Result (List ℕ)
  unseal metadata raw s =
      if was_encrypted metadata then open_with s.encryption_config raw else ok raw

  -- `read_file` for an existing entry.
  unfoldable pub read_entry : FileMetadata → Archive crates → Result (List ℕ) × Archive crates
  read_entry metadata s = then_do (lift (require (is_file metadata)) s) (λ _ s'.
      then_do (fetch metadata.blocks (read_size metadata) s')
        (λ raw s''. (unseal metadata raw s'', s'')))

  unfoldable pub read_file : Moment → Text → Archive crates → Result (List ℕ) × Archive crates
  read_file moment path s = then_do (check_access crates Policy.read path s) (λ _ s'.
      let logged = audit_log crates moment Audit.read path s' in
      then_do (lift (ok_or (Catalog.get path logged.catalog)) logged)
        (λ metadata s''. read_entry metadata s''))

  -- `write_file` after the allocation.
  unfoldable pub replace_with :
      Moment
      → Text
      → List ℕ
      → FileMetadata
      → List ℕ × Bool
      → List ℕ
      → Archive crates
      → Result (Unit {0}) × Archive crates
  replace_with moment path content metadata sealed new_blocks s =
      let changed =
        touch moment.now (record metadata { size = length content; blocks = new_blocks }) in
      (
        ok tt,
        audit_log crates moment Audit.update path (
            sync_header (
              catalog_insert path (remark_if sealed.1 (length sealed.0) changed)
                (store new_blocks sealed.0 s))),
      )

  -- `write_file` after the encryption.
  unfoldable pub replace_sealed :
      Moment
      → Text
      → List ℕ
      → FileMetadata
      → List ℕ × Bool
      → Archive crates
      → Result (Unit {0}) × Archive crates
  replace_sealed moment path content metadata sealed s = then_do (ensure_for sealed.0 s) (λ _ s'.
      then_do (free_blocks_of metadata.blocks s') (λ _ s''.
        then_do (allocate_for sealed.0 s'')
          (λ new_blocks s'''. replace_with moment path content metadata sealed new_blocks s''')))

  unfoldable pub write_file :
      Moment → Text → List ℕ → Archive crates → Result (Unit {0}) × Archive crates
  write_file moment path content s = then_do (check_access crates Policy.write path s) (λ _ s'.
      then_do (lift (ok_or (Catalog.get path s'.catalog)) s') (λ metadata s''.
        then_do (lift (require (is_file metadata)) s'') (λ _ t.
          then_do (lift (seal_with t.encryption_config moment.nonce content) t)
            (λ sealed t'. replace_sealed moment path content metadata sealed t'))))

  unfoldable pub append_file :
      Moment → Text → List ℕ → Archive crates → Result (Unit {0}) × Archive crates
  append_file moment path content s =
      then_do (read_file moment path (audit_log crates moment Audit.update path s))
        (λ existing s'. write_file moment path (existing ++ content) s')

  -- The outcome of `delete` of the catalog, which the archive keeps.
  abbrev pub with_catalog :
      Option FileMetadata × Catalog → Archive crates → Result FileMetadata × Archive crates
  with_catalog (found, catalog) s = (ok_or found, record s { catalog = catalog })

  unfoldable pub delete_file : Moment → Text → Archive crates → Result (Unit {0}) × Archive crates
  delete_file moment path s = then_do (check_access crates Policy.delete path s) (λ _ s'.
      then_do (with_catalog (Catalog.delete path s'.catalog) s') (λ metadata s''.
        then_do (free_blocks_of metadata.blocks s'')
          (λ _ t. (ok tt, audit_log crates moment Audit.delete path (sync_header t)))))

  unfoldable pub create_dir : Moment → Text → Archive crates → Result (Unit {0}) × Archive crates
  create_dir moment path s =
      then_do (lift (require (absent (Catalog.get path s.catalog))) s)
        (λ _ s'. (ok tt, catalog_insert path (directory_metadata moment.now) s'))

  unfoldable pub list_dir : Text → Archive crates → List Text
  list_dir path s =
      let prefix =
        if is_empty path then [] else if ends_with slash path then path else path ++ slash in
      map (λ entry. entry.0) (list_prefix prefix s.catalog)

  unfoldable pub exists : Text → Archive crates → Bool
  exists path s = not (absent (Catalog.get path s.catalog))

  abbrev pub metadata_of : Text → Archive crates → Result FileMetadata
  metadata_of path s = ok_or (Catalog.get path s.catalog)

  unfoldable pub update_user_metadata :
      Text → Text → Text → Archive crates → Result (Unit {0}) × Archive crates
  update_user_metadata path key value s = then_do (lift (metadata_of path s) s) (λ metadata s'. (
    ok tt,
    catalog_insert path
        (record metadata { user_metadata = text_insert key value metadata.user_metadata }) s',
  ))
