-- ===== src/Cartridge/Consistency/Write.antt =====
-- `write_file` keeps the invariant when it succeeds.
use cartridge_rs.Prelude.{
  ℕ, ◌+◌, ◌^◌, ◌<◌, ◌≡◌, refl, sym, ◌∙◌, ap, inl, inr, Bool, true, false, List, Option, none, some,
  Option-cases, Bool-cases, Text, bytes_eq, length, contains, Distinct, arith, Result, ok, err,
  CartridgeError, allocation, out_of_space,
}
use mathlib.Core.Path.{subst}
use cartridge_rs.Allocator.Bitmap.{blocks_for}
use cartridge_rs.Allocator.Hybrid.{HybridAllocator, is_allocated}
use cartridge_rs.Allocator.Hybrid.Sync.{IsGranted}
use cartridge_rs.Allocator.Hybrid.Free.{IsReleased}
use cartridge_rs.Catalog
use cartridge_rs.Catalog.{
  Catalog, FileMetadata, Entries, touch, is_file, entries_get, entries_insert, entries_remove,
}
use cartridge_rs.Catalog.Order.{entries_insert-Sorted}
use cartridge_rs.Catalog.Lookup.{
  entries_get-insert, entries_get-insert_other, entries_get-remove, insert-remove,
}
use cartridge_rs.Iam.Policy
use cartridge_rs.Cartridge.Content.{then_do}
use cartridge_rs.Cartridge.Content.RoundTrip.{Written, write_content-Written}
use cartridge_rs.Cartridge.State.{Crates, Moment, Archive, audit_log}
use cartridge_rs.Cartridge.Files.{
  seal_with, remark_if, require, ok_or, lift, store, ensure_for, free_blocks_of, allocate_for,
  replace_with, replace_sealed, write_file,
}
use cartridge_rs.Cartridge.Ownership.{
  Owned, all_blocks, blocks-get, blocks-insert, blocks-remove, insert-Owned, remove-Owned,
}
use cartridge_rs.Cartridge.Consistency.{
  IsConsistent, IsConsistent-engine, IsConsistent-grown, with_engine, check_access_lem,
  ensure_for_lem, allocate_for_lem,
}
use cartridge_rs.Cartridge.Consistency.Delete.{free_blocks_of_lem}

pub remark_if_blocks : (b : Bool) (n : ℕ) (m : FileMetadata) → (remark_if b n m).blocks ≡ m.blocks
remark_if_blocks true n m = refl
remark_if_blocks false n m = refl

module _ {Json : Type 0} (crates : Crates Json) where
  module _ (moment : Moment) (path : Text) (content : List ℕ) where
    -- The metadata that `write_file` leaves.
    abbrev pub rewritten : FileMetadata → List ℕ × Bool → List ℕ → FileMetadata
    rewritten m sealed ids =
        remark_if sealed.1 (length sealed.0)
          (touch moment.now (record m { size = length content; blocks = ids }))

    -- The file as `write_file` leaves it: new blocks that hold the bytes, and every other path as it
    -- was.
    pub record IsReplaced (m : FileMetadata) (sealed : List ℕ × Bool) (s s' : Archive crates)
        : Type 0 where
      pub consistent : IsConsistent s'
      pub blocks : List ℕ
      pub found : Catalog.get path s'.catalog ≡ some (rewritten m sealed blocks)
      pub written : Written blocks sealed.0 s'.pages
      pub granted : length blocks ≡ blocks_for (length sealed.0)
      pub plain_file : is_file m ≡ true
      pub same_config : s'.encryption_config ≡ s.encryption_config
      pub others :
          (other : Text)
          → bytes_eq other path ≡ false
          → Catalog.get other s'.catalog ≡ Catalog.get other s.catalog

    module _ (m : FileMetadata) (sealed : List ℕ × Bool) (ids : List ℕ) (a b : HybridAllocator)
        (s : Archive crates) (c : IsConsistent s) (g : Catalog.get path s.catalog ≡ some m)
        (x : IsReleased s.allocator a m.blocks)
        (y : IsGranted (blocks_for (length sealed.0)) a b ids) (t : b.total_blocks ≡ a.total_blocks)
        (f : is_file m ≡ true) where
      left : Entries
      left = entries_remove path s.catalog.entries

      new_blocks : (rewritten m sealed ids).blocks ≡ ids
      new_blocks =
          remark_if_blocks sealed.1 (length sealed.0)
            (touch moment.now (record m { size = length content; blocks = ids }))

      mine : (e : ℕ) → contains (rewritten m sealed ids).blocks e ≡ contains ids e
      mine e = ap (λ z. contains z e) new_blocks

      kept : (e : ℕ) → contains (all_blocks left) e ≡ true → is_allocated a e ≡ true
      unfolding left
      kept e i =
          x.exactly e
          ∙ ground (arith, i, blocks-remove path m s.catalog.entries e g c.owned, c.allocated e)

      gone : entries_get path left ≡ none
      unfolding left
      gone = entries_get-remove path s.catalog.entries c.sorted

      same_entries :
          entries_insert path (rewritten m sealed ids) s.catalog.entries
          ≡ entries_insert path (rewritten m sealed ids) left
      unfolding left
      same_entries = insert-remove path (rewritten m sealed ids) s.catalog.entries c.sorted

      owned : Owned (entries_insert path (rewritten m sealed ids) left)
      owned =
          insert-Owned path (rewritten m sealed ids) left gone
            (subst Distinct (sym new_blocks) y.distinct)
            (λ e i. ground (arith, mine e, y.were_free e, kept e))
            (unfold left in (remove-Owned path m s.catalog.entries g c.owned).0)

      allocated :
          (e : ℕ)
          → contains (all_blocks (entries_insert path (rewritten m sealed ids) left)) e ≡ true
          → is_allocated b e ≡ true
      allocated e i =
          y.exactly e
          ∙ ground
              (arith, i, blocks-insert path (rewritten m sealed ids) left e gone, mine e, kept e)

      replace_with_lem :
          (s' : Archive crates) × (replace_with crates moment path content m sealed ids
              (record s { allocator = b })
            ≡ (ok tt, s'))
          × IsReplaced m sealed s s'
      unfolding replace_with audit_log store
      replace_with_lem = (
        _,
        refl,
        record {
          consistent = record {
            sized = record {
              synced = y.synced;
              counted = refl;
              total = c.sized.total ∙ sym (t ∙ x.same_total);
              within = c.sized.within;
              limit = c.sized.limit;
            };
            sorted = entries_insert-Sorted path (rewritten m sealed ids) s.catalog.entries c.sorted;
            owned = subst Owned (sym same_entries) owned;
            allocated =
                λ e i. allocated e (ap (λ z. contains (all_blocks z) e) (sym same_entries) ∙ i);
          };
          blocks = ids;
          found = entries_get-insert path (rewritten m sealed ids) s.catalog.entries;
          written = write_content-Written ids sealed.0 (s.pages, s.dirty_pages) y.distinct;
          granted = y.count;
          plain_file = f;
          same_config = refl;
          others = λ other d.
              entries_get-insert_other path other (rewritten m sealed ids) s.catalog.entries d;
        },
      )

    -- What `write_file` leaves when it succeeds.
    pub record EndsWritten (s : Archive crates) (run : Result (Unit {0}) × Archive crates)
        : Type 0 where
      pub outcome : Result (Unit {0})
      pub after : Archive crates
      pub ran : run ≡ (outcome, after)
      pub written :
          (outcome ≡ ok tt)
          → (m : FileMetadata) × (sealed : List ℕ × Bool) × (Catalog.get path s.catalog ≡ some m)
            × (seal_with crates s.encryption_config moment.nonce content ≡ ok sealed)
            × IsReplaced m sealed s after

    failed : (e : CartridgeError) (s t : Archive crates) → EndsWritten s (err e, t)
    failed e s t = record { outcome = err e; after = t; ran = refl; written = λ h. absurd (cc h) }

    -- After the capacity was ensured.
    after_ensure :
        (m : FileMetadata) (sealed : List ℕ × Bool) (r : Result (Unit {0})) (s : Archive crates)
        → IsConsistent s
        → Catalog.get path s.catalog ≡ some m
        → seal_with crates s.encryption_config moment.nonce content ≡ ok sealed
        → is_file m ≡ true
        → s.allocator.extent.free_blocks + length m.blocks < 2 ^ 64
        → EndsWritten s (
            then_do
              (r, s)
              (λ _ s'. then_do (free_blocks_of crates m.blocks s') (λ _ s''.
                then_do (allocate_for crates sealed.0 s'') (λ new_blocks s'''.
                  replace_with crates moment path content m sealed new_blocks s'''))))
    after_ensure m sealed (err e) s c g h f u = failed e s s
    after_ensure m sealed (ok _) s c g h f u =
        let es = s.catalog.entries in
        let (a, freed, x) =
          free_blocks_of_lem crates m.blocks s c.sized.synced (remove-Owned path m es g c.owned).1
            (λ b i. c.allocated b (blocks-get path m es b g i)) u in
        rw freed (elim (allocate_for_lem crates sealed.0 (record s { allocator = a }) x.synced) [
          | inr refused ↦ rw refused (failed out_of_space s (record s { allocator = a }))
          | inl (ids, b, run, y, t) ↦
              let (s', made, i) = replace_with_lem m sealed ids a b s c g x y t f in
              rw run (record {
                outcome = ok tt;
                after = s';
                ran = made;
                written = λ _. (m, sealed, g, h, i);
              })
        ])

    -- Only the catalog and the key of the state before matter.
    EndsWritten-same :
        (s t : Archive crates) (run : Result (Unit {0}) × Archive crates)
        → t.catalog ≡ s.catalog
        → t.encryption_config ≡ s.encryption_config
        → EndsWritten t run
        → EndsWritten s run
    EndsWritten-same s t run same config w = record {
      outcome = w.outcome;
      after = w.after;
      ran = w.ran;
      written = λ done.
          let (m, sealed, g, h, i) = w.written done in
          (
            m,
            sealed,
            ap (Catalog.get path) (sym same) ∙ g,
            ap (λ k. seal_with crates k moment.nonce content) (sym config) ∙ h,
            record {
              consistent = i.consistent;
              blocks = i.blocks;
              found = i.found;
              written = i.written;
              granted = i.granted;
              plain_file = i.plain_file;
              same_config = i.same_config ∙ config;
              others = λ other d. i.others other d ∙ ap (Catalog.get other) same;
            },
          );
    }

    -- After the growth for these bytes, the counter of the extents has room for the old blocks.
    abbrev pub HasRoom : FileMetadata → List ℕ × Bool → Archive crates → Type 0
    HasRoom m sealed s =
        (ensure_for crates sealed.0 s).1.allocator.extent.free_blocks + length m.blocks < 2 ^ 64

    after_seal :
        (m : FileMetadata) (o : Result (List ℕ × Bool)) (s : Archive crates)
        → IsConsistent s
        → Catalog.get path s.catalog ≡ some m
        → seal_with crates s.encryption_config moment.nonce content ≡ o
        → is_file m ≡ true
        → ((sealed : List ℕ × Bool) → o ≡ ok sealed → HasRoom m sealed s)
        → EndsWritten s (
            then_do
              (lift crates o s)
              (λ sealed s'. replace_sealed crates moment path content m sealed s'))
    unfolding replace_sealed
    after_seal m (err e) s c g h f u = failed e s s
    after_seal m (ok sealed) s c g h f u =
        let (r, s', run, k) = ensure_for_lem crates sealed.0 s c.sized in
        let same : s'.catalog ≡ s.catalog = ap (λ z. z.catalog) k.state in
        let config : s'.encryption_config ≡ s.encryption_config =
          ap (λ z. z.encryption_config) k.state in
        let room : s'.allocator.extent.free_blocks + length m.blocks < 2 ^ 64 =
          subst (λ z. z.1.allocator.extent.free_blocks + length m.blocks < 2 ^ 64) run
            (u sealed refl) in
        rw run (
          EndsWritten-same s s' _ same config (
            after_ensure m sealed r s' (IsConsistent-grown s s' c k)
              (ap (Catalog.get path) same ∙ g)
              (ap (λ z. seal_with crates z moment.nonce content) config ∙ h) f room))

    after_check :
        (r : Result (Unit {0})) (s : Archive crates)
        → IsConsistent s
        → ((m : FileMetadata) (sealed : List ℕ × Bool)
            → Catalog.get path s.catalog ≡ some m
            → seal_with crates s.encryption_config moment.nonce content ≡ ok sealed
            → HasRoom m sealed s)
        → EndsWritten s (
            then_do
              (r, s)
              (λ _ s'.
                then_do (lift crates (ok_or (Catalog.get path s'.catalog)) s') (λ metadata s''.
                  then_do (lift crates (require (is_file metadata)) s'') (λ _ t.
                    then_do
                      (lift crates (seal_with crates t.encryption_config moment.nonce content) t)
                      (λ sealed t'.
                        replace_sealed crates moment path content metadata sealed t')))))
    after_check (err e) s c u = failed e s s
    after_check (ok _) s c u = elim (Option-cases (entries_get path s.catalog.entries)) [
      | inl n ↦ rw n (failed allocation s s)
      | inr (m, found) ↦ elim (Bool-cases (is_file m)) [
        | inr other ↦ rw (found, other) (failed allocation s s)
        | inl plain ↦
            rw (found, plain)
              (after_seal m (seal_with crates s.encryption_config moment.nonce content) s c found
                refl plain (λ sealed h. u m sealed found h))
      ]
    ]

    -- On a consistent archive `write_file` returns, and when it succeeds the archive is consistent
    -- again, the path has the new metadata, whose blocks, as many as the bytes need once encrypted,
    -- hold these bytes, and every other path is as it was. The counter of the extents must have
    -- room for the old blocks after the growth.
    pub write_file_lem :
        (s : Archive crates)
        → IsConsistent s
        → ((engine : Option crates.lru.State) (m : FileMetadata) (sealed : List ℕ × Bool)
            → Catalog.get path s.catalog ≡ some m
            → seal_with crates s.encryption_config moment.nonce content ≡ ok sealed
            → HasRoom m sealed (with_engine engine s))
        → EndsWritten s (write_file crates moment path content s)
    unfolding write_file
    write_file_lem s c u =
        let (r, engine, run) = check_access_lem crates Policy.write path s in
        rw run (
          EndsWritten-same s (with_engine engine s) _ refl refl (
            after_check r (with_engine engine s) (IsConsistent-engine engine s c)
              (λ m sealed g h. u engine m sealed g h)))
