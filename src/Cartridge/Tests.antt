-- ===== src/Cartridge/Tests.antt =====
-- The archive at concrete inputs: eight blocks, of which three are reserved, and one file.
use cartridge_rs.Prelude.{
  ℕ, ◌+◌, ◌-◌, ◌<◌, ◌^◌, ◌≡◌, refl, sym, ◌∙◌, ap, true, false, List, [], ◌∷◌, ◌++◌, Option, none,
  some, Text, length, take, replicate, is_empty, length-append, length-replicate, take-append,
  bytes_eq, Bool, arith, Result, ok, err,
}
use mathlib.Core.Path.{subst}
use cartridge_rs.Allocator.Bitmap
use cartridge_rs.Allocator.Extent
use cartridge_rs.Allocator.Hybrid
use cartridge_rs.Allocator.Hybrid.{is_allocated}
use cartridge_rs.Catalog
use cartridge_rs.Catalog.{FileMetadata, file, new_metadata, text_ltb}
use cartridge_rs.Iam.Policy
use cartridge_rs.Encryption.{Cipher, tag_size}
use cartridge_rs.Iam.Tests.{unbounded}
use cartridge_rs.Iam.Engine.{evaluate_uncached}
use cartridge_rs.Cartridge.StalePolicy.{outcome, set_policy_stale}
use cartridge_rs.Cartridge.State.{
  Crates, Moment, Archive, new, check_access, audit_log, set_policy, clear_policy_cache,
}
use cartridge_rs.Cartridge.Capacity.{ensure_capacity, grow_until}
use cartridge_rs.Cartridge.Capacity.Growth.{EndsEnsured, ensure_capacity_lem}
use cartridge_rs.Cartridge.Files.{
  create_file, create_sealed, create_with, seal_with, ensure_for, allocate_for, store,
  free_blocks_of, replace_sealed, replace_with, read_file, write_file, delete_file,
}
use cartridge_rs.Cartridge.Consistency.{IsConsistent, with_engine}
use cartridge_rs.Cartridge.Consistency.Create.{EndsCreated, create_file_lem}
use cartridge_rs.Cartridge.Consistency.Delete.{EndsDeleted, delete_file_lem}
use cartridge_rs.Cartridge.RoundTrip.{read_file-create_file}
use cartridge_rs.Cartridge.RoundTrip.Rewrite.{read_file-write_file}
use cartridge_rs.Cartridge.Consistency.Write.{EndsWritten, HasRoom, write_file_lem}
use cartridge_rs.Cartridge.Created.{new-IsConsistent}

abbrev padding : List ℕ
padding = replicate tag_size 0

bytes_or : List ℕ → Option (List ℕ) → List ℕ
bytes_or d none = d
bytes_or d (some a) = a

unpadded : (plain : List ℕ) → take (length (plain ++ padding) - tag_size) (plain ++ padding) ≡ plain
unpadded plain =
    take-append (length (plain ++ padding) - tag_size) plain padding
      (omega (arith, length-append plain padding, length-replicate {A = ℕ} tag_size 0))

-- A cipher that only appends the tag.
plain_cipher : Cipher
unfolding bytes_or
plain_cipher = record {
  encrypt = λ key nonce plain. some (plain ++ padding);
  decrypt = λ key nonce sealed. some (take (length sealed - tag_size) sealed);
  decrypt-encrypt = λ key nonce plain sealed h.
      subst (λ x. some (take (length x - tag_size) x) ≡ some plain) (ap (bytes_or []) h)
        (ap some (unpadded plain));
  length-encrypt = λ key nonce plain sealed h.
      subst (λ x. length x ≡ length plain + tag_size) (ap (bytes_or []) h)
        (length-append plain padding ∙ ap (λ k. length plain + k) (length-replicate tag_size 0));
}

crates : Crates (Unit {0})
crates = record {
  is_empty_object = λ _. true;
  lru = unbounded;
  cipher = plain_cipher;
  hash_path = length;
}

abbrev moment : Moment
moment = record { now = 7; now_us = 7000000; nonce = replicate 12 1 }

-- `a` and three bytes.
abbrev path : Text
path = 97 ∷ []

abbrev content : List ℕ
content = 1 ∷ 2 ∷ 3 ∷ []

-- Four blocks are not enough for five pages.
four : Archive crates
four = new 4

four-IsConsistent : IsConsistent four
unfolding four
four-IsConsistent = (new-IsConsistent 4 (omega arith) (omega arith)).0

four-auto_grow : four.auto_grow ≡ true
unfolding four new
four-auto_grow = refl

ensure_capacity_example : EndsEnsured 5 four (ensure_capacity 20000 four)
ensure_capacity_example = ensure_capacity_lem 20000 four four-auto_grow four-IsConsistent.sized

eight : Archive crates
eight = new 8

eight-IsConsistent : IsConsistent eight
unfolding eight
eight-IsConsistent = (new-IsConsistent 8 (omega arith) (omega arith)).0

create_file_example :
    EndsCreated crates moment path content eight.encryption_config
      (create_file crates moment path content eight)
create_file_example = create_file_lem crates moment path content eight eight-IsConsistent

-- The file is there.
with_file : Archive crates
with_file = (create_file crates moment path content eight).1

created : (create_file crates moment path content eight).0 ≡ ok tt
unfolding eight new create_file create_sealed create_with check_access seal_with ensure_for
    ensure_capacity grow_until allocate_for is_empty Hybrid.new Hybrid.allocate
    Hybrid.allocate_small Bitmap.allocate_blocks Bitmap.scan_words Bitmap.scan_word Bitmap.all_set
    Bitmap.new Bitmap.zero_word replicate Extent.mark_allocated Catalog.new Catalog.entries_get
created = refl

run : create_file crates moment path content eight ≡ (ok tt, with_file)
unfolding with_file
run = ap (λ r. (r, with_file)) created

with_file-IsConsistent : IsConsistent with_file
with_file-IsConsistent =
    let x = create_file_lem crates moment path content eight eight-IsConsistent in
    subst IsConsistent (ap (λ o. o.1) (sym x.ran ∙ run)) x.consistent

readable : (check_access crates Policy.read path with_file).0 ≡ ok tt
unfolding with_file store audit_log eight new create_file create_sealed create_with check_access
    seal_with ensure_for ensure_capacity grow_until allocate_for is_empty Hybrid.new Hybrid.allocate
    Hybrid.allocate_small Bitmap.allocate_blocks Bitmap.scan_words Bitmap.scan_word Bitmap.all_set
    Bitmap.new Bitmap.zero_word replicate Extent.mark_allocated Catalog.new Catalog.entries_get
readable = refl

read_file-create_file_example : (read_file crates moment path with_file).0 ≡ ok content
read_file-create_file_example =
    read_file-create_file crates moment moment path content eight with_file eight-IsConsistent run
      readable (length-replicate {A = ℕ} 12 1) (omega arith)

abbrev blocks_of : Option FileMetadata → ℕ
blocks_of none = 0
blocks_of (some m) = length m.blocks

one_block : blocks_of (Catalog.get path with_file.catalog) ≡ 1
unfolding with_file store audit_log new_metadata Catalog.entries_insert text_ltb bytes_eq eight new
    create_file create_sealed create_with check_access seal_with ensure_for ensure_capacity
    grow_until allocate_for is_empty Hybrid.new Hybrid.allocate Hybrid.allocate_small
    Bitmap.allocate_blocks Bitmap.scan_words Bitmap.scan_word Bitmap.all_set Bitmap.new
    Bitmap.zero_word replicate Extent.mark_allocated Catalog.new Catalog.entries_get
one_block = refl

eight_extents : with_file.allocator.extent.free_blocks ≡ 8
unfolding with_file store audit_log Extent.new eight new create_file create_sealed create_with
    check_access seal_with ensure_for ensure_capacity grow_until allocate_for is_empty Hybrid.new
    Hybrid.allocate Hybrid.allocate_small Bitmap.allocate_blocks Bitmap.scan_words Bitmap.scan_word
    Bitmap.all_set Bitmap.new Bitmap.zero_word replicate Extent.mark_allocated Catalog.new
    Catalog.entries_get
eight_extents = refl

room :
    (m : FileMetadata)
    → Catalog.get path with_file.catalog ≡ some m
    → with_file.allocator.extent.free_blocks + length m.blocks < 2 ^ 64
room m g =
    let n : length m.blocks ≡ 1 = sym (ap blocks_of g) ∙ one_block in
    omega (arith, n, eight_extents)

delete_file_example :
    EndsDeleted crates moment path with_file (delete_file crates moment path with_file)
delete_file_example = delete_file_lem crates moment path with_file with_file-IsConsistent room

abbrev entry : FileMetadata
entry = new_metadata 7 file 3 (3 ∷ [])

entry_found : Catalog.get path with_file.catalog ≡ some entry
unfolding with_file store audit_log new_metadata Catalog.entries_insert text_ltb bytes_eq eight new
    create_file create_sealed create_with check_access seal_with ensure_for ensure_capacity
    grow_until allocate_for is_empty Hybrid.new Hybrid.allocate Hybrid.allocate_small
    Bitmap.allocate_blocks Bitmap.scan_words Bitmap.scan_word Bitmap.all_set Bitmap.new
    Bitmap.zero_word replicate Extent.mark_allocated Catalog.new Catalog.entries_get
entry_found = refl

entry_blocks : length entry.blocks ≡ 1
unfolding new_metadata
entry_blocks = refl

abbrev sealed_of : List ℕ × Bool → Result (List ℕ × Bool) → List ℕ × Bool
sealed_of d (ok sealed) = sealed
sealed_of d (err e) = d

not_sealed : seal_with crates with_file.encryption_config moment.nonce content ≡ ok (content, false)
unfolding with_file store audit_log Extent.new eight new create_file create_sealed create_with
    check_access seal_with ensure_for ensure_capacity grow_until allocate_for is_empty Hybrid.new
    Hybrid.allocate Hybrid.allocate_small Bitmap.allocate_blocks Bitmap.scan_words Bitmap.scan_word
    Bitmap.all_set Bitmap.new Bitmap.zero_word replicate Extent.mark_allocated Catalog.new
    Catalog.entries_get
not_sealed = refl

-- A free block is left, so the archive does not grow.
same_extents :
    (engine : Option crates.lru.State)
    → (ensure_for crates content (with_engine engine with_file)).1.allocator.extent.free_blocks ≡ 8
unfolding with_file store audit_log Extent.new eight new create_file create_sealed create_with
    check_access seal_with ensure_for ensure_capacity grow_until allocate_for is_empty Hybrid.new
    Hybrid.allocate Hybrid.allocate_small Bitmap.allocate_blocks Bitmap.scan_words Bitmap.scan_word
    Bitmap.all_set Bitmap.new Bitmap.zero_word replicate Extent.mark_allocated Catalog.new
    Catalog.entries_get
same_extents engine = refl

-- The file is written again in the space that it gives back.
with_file-HasRoom :
    (engine : Option crates.lru.State) (m : FileMetadata) (sealed : List ℕ × Bool)
    → Catalog.get path with_file.catalog ≡ some m
    → seal_with crates with_file.encryption_config moment.nonce content ≡ ok sealed
    → HasRoom crates moment path content m sealed (with_engine engine with_file)
with_file-HasRoom engine m sealed g h =
    let n : length m.blocks ≡ length entry.blocks = ap blocks_of (sym g ∙ entry_found) in
    let plain : sealed ≡ (content, false) =
      ap (sealed_of (content, false)) (sym h) ∙ ap (sealed_of (content, false)) not_sealed in
    rw plain (omega (arith, n, entry_blocks, same_extents engine))

write_file_example :
    EndsWritten crates moment path content with_file
      (write_file crates moment path content with_file)
write_file_example =
    write_file_lem crates moment path content with_file with_file-IsConsistent with_file-HasRoom

rewritten_file : Archive crates
rewritten_file = (write_file crates moment path content with_file).1

rewriting : (write_file crates moment path content with_file).0 ≡ ok tt
unfolding with_file store audit_log new_metadata Catalog.entries_insert text_ltb bytes_eq write_file
    replace_sealed replace_with free_blocks_of Hybrid.free Hybrid.free_small
    Bitmap.free_allocated_blocks Bitmap.free_loop Extent.mark_free eight new create_file
    create_sealed create_with check_access seal_with ensure_for ensure_capacity grow_until
    allocate_for is_empty Hybrid.new Hybrid.allocate Hybrid.allocate_small Bitmap.allocate_blocks
    Bitmap.scan_words Bitmap.scan_word Bitmap.all_set Bitmap.new Bitmap.zero_word replicate
    Extent.mark_allocated Catalog.new Catalog.entries_get Bitmap.get_bit Bitmap.put_bit
rewriting = refl

rewriting_run : write_file crates moment path content with_file ≡ (ok tt, rewritten_file)
unfolding rewritten_file
rewriting_run = ap (λ r. (r, rewritten_file)) rewriting

readable_again : (check_access crates Policy.read path rewritten_file).0 ≡ ok tt
unfolding rewritten_file with_file store audit_log new_metadata Catalog.entries_insert text_ltb
    bytes_eq write_file replace_sealed replace_with free_blocks_of Hybrid.free Hybrid.free_small
    Bitmap.free_allocated_blocks Bitmap.free_loop Extent.mark_free eight new create_file
    create_sealed create_with check_access seal_with ensure_for ensure_capacity grow_until
    allocate_for is_empty Hybrid.new Hybrid.allocate Hybrid.allocate_small Bitmap.allocate_blocks
    Bitmap.scan_words Bitmap.scan_word Bitmap.all_set Bitmap.new Bitmap.zero_word replicate
    Extent.mark_allocated Catalog.new Catalog.entries_get Bitmap.get_bit Bitmap.put_bit
readable_again = refl

read_file-write_file_example : (read_file crates moment path rewritten_file).0 ≡ ok content
read_file-write_file_example =
    read_file-write_file crates moment path content moment with_file rewritten_file
      with_file-IsConsistent with_file-HasRoom rewriting_run readable_again
      (length-replicate {A = ℕ} 12 1) (omega arith)

-- Reading the file is allowed, then denied.
allowing : Policy.Policy (Unit {0})
allowing = record {
  version = [];
  statement = Policy.new_statement Policy.allow (Policy.read ∷ []) (path ∷ []) ∷ [];
}

denying : Policy.Policy (Unit {0})
denying = record {
  version = [];
  statement = Policy.new_statement Policy.deny (Policy.read ∷ []) (path ∷ []) ∷ [];
}

set_policy_stale_example :
    ((check_access crates Policy.read path (
        set_policy crates denying
          (check_access crates Policy.read path (set_policy crates allowing with_file)).1)).0
      ≡ (check_access crates Policy.read path (set_policy crates allowing with_file)).0)
    × ((check_access crates Policy.read path (
          clear_policy_cache crates (
            set_policy crates denying
              (check_access crates Policy.read path (set_policy crates allowing with_file)).1))).0
        ≡ outcome (
            evaluate_uncached {Context = Unit {0}} crates.is_empty_object denying Policy.read path
              none))
set_policy_stale_example = set_policy_stale crates allowing denying Policy.read path with_file
