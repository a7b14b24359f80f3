-- ===== src/Cartridge/Consistency/Delete.antt =====
-- `delete_file` keeps the invariant and frees the blocks of the file.
use cartridge_rs.Prelude.{
  ℕ, ◌+◌, ◌^◌, ◌<◌, ◌≡◌, refl, sym, ◌∙◌, inl, inr, true, not, ◌&&◌, List, [], ◌∷◌, none, some,
  Option-cases, Bool-cases, Text, length, is_empty, contains, Distinct, arith, Result, ok, err,
  CartridgeError, allocation,
}
use mathlib.Core.Path.{subst}
use cartridge_rs.Allocator.Hybrid.{HybridAllocator, is_allocated}
use cartridge_rs.Allocator.Hybrid.Sync.{IsSynced}
use cartridge_rs.Allocator.Hybrid.Free.{AreAllocated, IsReleased, free_lem}
use cartridge_rs.Audit
use cartridge_rs.Catalog
use cartridge_rs.Catalog.{Catalog, FileMetadata, Entries, entries_get, entries_remove}
use cartridge_rs.Catalog.Order.{entries_remove-Sorted}
use cartridge_rs.Catalog.Lookup.{entries_get-remove, remove_absent}
use cartridge_rs.Iam.Policy
use cartridge_rs.Cartridge.Content.{then_do}
use cartridge_rs.Cartridge.State.{Crates, Moment, Archive, audit_log}
use cartridge_rs.Cartridge.Capacity.{sync_header}
use cartridge_rs.Cartridge.Files.{free_blocks_of, with_catalog, delete_file}
use cartridge_rs.Cartridge.Ownership.{blocks-get, blocks-remove, remove-Owned}
use cartridge_rs.Cartridge.Consistency.{
  IsConsistent, IsConsistent-engine, with_engine, check_access_lem,
}

module _ {Json : Type 0} (crates : Crates Json) where
  IsReleased-nothing : (s : HybridAllocator) → IsSynced s → IsReleased s s []
  IsReleased-nothing s y = record {
    exactly = λ b. unfold contains in ground arith;
    counter = omega arith;
    same_total = refl;
    synced = y;
  }

  length-empty : (xs : List ℕ) → is_empty xs ≡ true → xs ≡ []
  unfolding is_empty
  length-empty [] h = refl
  length-empty (x ∷ xs) h = absurd (cc h)

  pub free_blocks_of_lem :
      (blocks : List ℕ) (s : Archive crates)
      → IsSynced s.allocator
      → Distinct blocks
      → AreAllocated s.allocator blocks
      → s.allocator.extent.free_blocks + length blocks < 2 ^ 64
      → (a : HybridAllocator) × (free_blocks_of crates blocks s
          ≡ (ok tt, record s { allocator = a }))
        × IsReleased s.allocator a blocks
  unfolding free_blocks_of
  free_blocks_of_lem blocks s y d h u = elim (Bool-cases (is_empty blocks)) [
    | inl nothing ↦ (
      s.allocator,
      rw nothing refl,
      subst (IsReleased s.allocator s.allocator) (sym (length-empty blocks nothing))
          (IsReleased-nothing s.allocator y),
    )
    | inr e ↦ let (a, run, g) = free_lem blocks s.allocator y d h u in (a, rw (e, run) refl, g)
  ]

  module _ (moment : Moment) (path : Text) where
    -- What `delete_file` leaves. When it succeeds the path is gone, and exactly the blocks of the file
    -- are free that were not.
    pub record EndsDeleted (s : Archive crates) (run : Result (Unit {0}) × Archive crates)
        : Type 0 where
      pub outcome : Result (Unit {0})
      pub after : Archive crates
      pub ran : run ≡ (outcome, after)
      pub consistent : IsConsistent after
      pub deleted :
          (outcome ≡ ok tt)
          → (metadata : FileMetadata) × (Catalog.get path s.catalog ≡ some metadata)
            × (Catalog.get path after.catalog ≡ none)
            × (after.header.free_blocks ≡ s.header.free_blocks + length metadata.blocks)
            × ((b : ℕ)
                → is_allocated after.allocator b
                  ≡ (is_allocated s.allocator b && not (contains metadata.blocks b)))

    refused :
        (e : CartridgeError) (s t : Archive crates) → IsConsistent t → EndsDeleted s (err e, t)
    refused e s t c = record {
      outcome = err e;
      after = t;
      ran = refl;
      consistent = c;
      deleted = λ h. absurd (cc h);
    }

    abbrev without : Archive crates → Archive crates
    without s = record s {
      catalog = record s.catalog { entries = entries_remove path s.catalog.entries };
    }

    after_removal :
        (metadata : FileMetadata) (s : Archive crates)
        → IsConsistent s
        → Catalog.get path s.catalog ≡ some metadata
        → s.allocator.extent.free_blocks + length metadata.blocks < 2 ^ 64
        → EndsDeleted s (
            then_do
              (free_blocks_of crates metadata.blocks (without s))
              (λ _ t. (ok tt, audit_log crates moment Audit.delete path (sync_header t))))
    unfolding audit_log
    after_removal m s c g u =
        let es = s.catalog.entries in
        let (owned, d) = remove-Owned path m es g c.owned in
        let (a, run, x) =
          free_blocks_of_lem m.blocks (without s) c.sized.synced d
            (λ b i. c.allocated b (blocks-get path m es b g i)) u in
        rw run (record {
          outcome = ok tt;
          after = _;
          ran = refl;
          consistent = record {
            sized = record {
              synced = x.synced;
              counted = refl;
              total = c.sized.total ∙ sym x.same_total;
              within = c.sized.within;
              limit = c.sized.limit;
            };
            sorted = entries_remove-Sorted path es c.sorted;
            owned = owned;
            allocated = λ b i.
                x.exactly b ∙ ground (arith, i, blocks-remove path m es b g c.owned, c.allocated b);
          };
          deleted = λ _. (
            m,
            g,
            entries_get-remove path es c.sorted,
            omega (arith, x.counter, c.sized.counted),
            x.exactly,
          );
        })

    after_check :
        (r : Result (Unit {0})) (s : Archive crates)
        → IsConsistent s
        → ((m : FileMetadata)
            → Catalog.get path s.catalog ≡ some m
            → s.allocator.extent.free_blocks + length m.blocks < 2 ^ 64)
        → EndsDeleted s (
            then_do
              (r, s)
              (λ _ s'.
                then_do (with_catalog crates (Catalog.delete path s'.catalog) s') (λ metadata s''.
                  then_do
                    (free_blocks_of crates metadata.blocks s'')
                    (λ _ t. (ok tt, audit_log crates moment Audit.delete path (sync_header t))))))
    after_check (err e) s c u = refused e s s c
    after_check (ok _) s c u = elim (Option-cases (entries_get path s.catalog.entries)) [
      | inl n ↦ rw (n, remove_absent path s.catalog.entries n) (refused allocation s s c)
      | inr (m, found) ↦ rw found (after_removal m s c found (u m found))
    ]

    -- On a consistent archive `delete_file` leaves a consistent archive, whether it succeeds or
    -- fails, if the counter of the extents does not overflow. When it succeeds, the path is gone,
    -- exactly the blocks of its file are free that were not, and the header counts them.
    pub delete_file_lem :
        (s : Archive crates)
        → IsConsistent s
        → ((m : FileMetadata)
            → Catalog.get path s.catalog ≡ some m
            → s.allocator.extent.free_blocks + length m.blocks < 2 ^ 64)
        → EndsDeleted s (delete_file crates moment path s)
    unfolding delete_file
    delete_file_lem s c u =
        let (r, engine, run) = check_access_lem crates Policy.delete path s in
        let x = after_check r (with_engine engine s) (IsConsistent-engine engine s c) u in
        rw run (record {
          outcome = x.outcome;
          after = x.after;
          ran = x.ran;
          consistent = x.consistent;
          deleted = x.deleted;
        })
