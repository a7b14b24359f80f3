-- ===== src/Cartridge/Consistency/Create.antt =====
-- `create_file` keeps the invariant, and what it leaves when it succeeds.
use cartridge_rs.Prelude.{
  ℕ, ◌≡◌, refl, sym, ◌∙◌, ap, inl, inr, Bool, true, false, List, Option, none, some, Option-cases,
  Text, length, contains, Distinct, arith, Result, ok, err, CartridgeError, out_of_space,
  allocation,
}
use mathlib.Core.Path.{subst}
use cartridge_rs.Allocator.Hybrid.{HybridAllocator}
use cartridge_rs.Allocator.Bitmap.{blocks_for}
use cartridge_rs.Allocator.Hybrid.Sync.{IsGranted}
use cartridge_rs.Catalog
use cartridge_rs.Catalog.{Catalog, FileMetadata, file, new_metadata, entries_get}
use cartridge_rs.Catalog.Order.{entries_insert-Sorted}
use cartridge_rs.Catalog.Lookup.{entries_get-insert}
use cartridge_rs.Encryption.{EncryptionConfig}
use cartridge_rs.Iam.Policy
use cartridge_rs.Cartridge.Content.{then_do}
use cartridge_rs.Cartridge.Content.RoundTrip.{Written, write_content-Written}
use cartridge_rs.Cartridge.State.{Crates, Moment, Archive, audit_log}
use cartridge_rs.Cartridge.Files.{
  seal_with, mark_if, absent, require, allocate_for, store, create_with, create_sealed, create_file,
  lift,
}
use cartridge_rs.Cartridge.Ownership.{blocks-insert, insert-Owned}
use cartridge_rs.Cartridge.Consistency.{
  IsConsistent, IsConsistent-engine, IsConsistent-grown, with_engine, check_access_lem,
  ensure_for_lem, allocate_for_lem,
}

pub mark_if_blocks : (b : Bool) (n : ℕ) (m : FileMetadata) → (mark_if b n m).blocks ≡ m.blocks
mark_if_blocks true n m = refl
mark_if_blocks false n m = refl

absent-none : (o : Option FileMetadata) → absent o ≡ true → o ≡ none
absent-none none h = refl
absent-none (some m) h = absurd (cc h)

module _ {Json : Type 0} (crates : Crates Json) where
  -- The file as `create_file` leaves it.
  pub record IsStored (moment : Moment) (path : Text) (content : List ℕ) (sealed : List ℕ × Bool)
      (config : Option EncryptionConfig) (s : Archive crates) : Type 0 where
    pub blocks : List ℕ
    pub found :
        Catalog.get path s.catalog
        ≡ some (
            mark_if sealed.1
              (length sealed.0)
              (new_metadata moment.now file (length content) blocks))
    pub written : Written blocks sealed.0 s.pages
    pub granted : length blocks ≡ blocks_for (length sealed.0)
    pub same_config : s.encryption_config ≡ config

  module _ (moment : Moment) (path : Text) (content : List ℕ) (sealed : List ℕ × Bool) where
    abbrev entry : List ℕ → FileMetadata
    entry ids =
        mark_if sealed.1 (length sealed.0) (new_metadata moment.now file (length content) ids)

    create_with_lem :
        (ids : List ℕ) (a : HybridAllocator) (s : Archive crates)
        → IsConsistent s
        → Catalog.get path s.catalog ≡ none
        → IsGranted (blocks_for (length sealed.0)) s.allocator a ids
        → a.total_blocks ≡ s.allocator.total_blocks
        → (s' : Archive crates) × (create_with crates moment path content sealed ids
              (record s { allocator = a })
            ≡ (ok tt, s'))
          × IsConsistent s'
          × IsStored moment path content sealed s.encryption_config s'
    unfolding create_with audit_log store new_metadata
    create_with_lem ids a s c n g t =
        let same : (entry ids).blocks ≡ ids =
          mark_if_blocks sealed.1 (length sealed.0)
            (new_metadata moment.now file (length content) ids) in
        let mine : (b : ℕ) → contains (entry ids).blocks b ≡ contains ids b =
          λ b. ap (λ x. contains x b) same in
        (
          _,
          refl,
          record {
            sized = record {
              synced = g.synced;
              counted = refl;
              total = c.sized.total ∙ sym t;
              within = c.sized.within;
              limit = c.sized.limit;
            };
            sorted = entries_insert-Sorted path (entry ids) s.catalog.entries c.sorted;
            owned =
                insert-Owned path (entry ids) s.catalog.entries n
                  (subst Distinct (sym same) g.distinct)
                  (λ b i. ground (arith, mine b, g.were_free b, c.allocated b)) c.owned;
            allocated = λ b i.
                g.exactly b
                ∙ ground (
                  arith,
                  i,
                  blocks-insert path (entry ids) s.catalog.entries b n,
                  mine b,
                  c.allocated b,
                );
          },
          record {
            blocks = ids;
            found = entries_get-insert path (entry ids) s.catalog.entries;
            written = write_content-Written ids sealed.0 (s.pages, s.dirty_pages) g.distinct;
            granted = g.count;
            same_config = refl;
          },
        )

    -- The file is stored, or an error says why not; either way the invariant holds.
    pub record EndsStored (config : Option EncryptionConfig)
        (run : Result (Unit {0}) × Archive crates) : Type 0 where
      pub outcome : Result (Unit {0})
      pub after : Archive crates
      pub ran : run ≡ (outcome, after)
      pub consistent : IsConsistent after
      pub stored : (outcome ≡ ok tt) → IsStored moment path content sealed config after

    failed :
        (e : CartridgeError) (config : Option EncryptionConfig) (s : Archive crates)
        → IsConsistent s
        → EndsStored config (err e, s)
    failed e config s c = record {
      outcome = err e;
      after = s;
      ran = refl;
      consistent = c;
      stored = λ h. absurd (cc h);
    }

    after_ensure :
        (r : Result (Unit {0})) (s : Archive crates)
        → IsConsistent s
        → Catalog.get path s.catalog ≡ none
        → EndsStored s.encryption_config (
            then_do
              (r, s)
              (λ _ s'.
                then_do
                  (allocate_for crates sealed.0 s')
                  (λ blocks s''. create_with crates moment path content sealed blocks s'')))
    after_ensure (err e) s c n = failed e s.encryption_config s c
    after_ensure (ok _) s c n = elim (allocate_for_lem crates sealed.0 s c.sized.synced) [
      | inr refused ↦ rw refused (failed out_of_space s.encryption_config s c)
      | inl (ids, a, run, g, t) ↦
          let (s', made, c', i) = create_with_lem ids a s c n g t in
          rw run
            (record { outcome = ok tt; after = s'; ran = made; consistent = c'; stored = λ _. i })
    ]

    create_sealed_lem :
        (s : Archive crates)
        → IsConsistent s
        → Catalog.get path s.catalog ≡ none
        → EndsStored s.encryption_config (create_sealed crates moment path content sealed s)
    unfolding create_sealed
    create_sealed_lem s c n =
        let (r, s', run, g) = ensure_for_lem crates sealed.0 s c.sized in
        rw run (
          subst
            (λ config. EndsStored config (
              then_do (r, s')
                (λ _ t.
                  then_do (allocate_for crates sealed.0 t)
                    (λ blocks t'. create_with crates moment path content sealed blocks t'))))
            (ap (λ x. x.encryption_config) g.state)
            (after_ensure r s' (IsConsistent-grown s s' c g)
              (ap (λ x. Catalog.get path x.catalog) g.state ∙ n)))

  module _ (moment : Moment) (path : Text) (content : List ℕ) where
    -- What `create_file` leaves: an archive that is still consistent, with the file when it succeeds.
    pub record EndsCreated (config : Option EncryptionConfig)
        (run : Result (Unit {0}) × Archive crates) : Type 0 where
      pub outcome : Result (Unit {0})
      pub after : Archive crates
      pub ran : run ≡ (outcome, after)
      pub consistent : IsConsistent after
      pub stored :
          (outcome ≡ ok tt)
          → (sealed : List ℕ × Bool) × (seal_with crates config moment.nonce content ≡ ok sealed)
            × IsStored moment path content sealed config after

    refused :
        (e : CartridgeError) (config : Option EncryptionConfig) (s : Archive crates)
        → IsConsistent s
        → EndsCreated config (err e, s)
    refused e config s c = record {
      outcome = err e;
      after = s;
      ran = refl;
      consistent = c;
      stored = λ h. absurd (cc h);
    }

    after_seal :
        (o : Result (List ℕ × Bool)) (s : Archive crates)
        → seal_with crates s.encryption_config moment.nonce content ≡ o
        → IsConsistent s
        → Catalog.get path s.catalog ≡ none
        → EndsCreated s.encryption_config (
            then_do
              (lift crates o s)
              (λ sealed s'. create_sealed crates moment path content sealed s'))
    after_seal (err e) s h c n = refused e s.encryption_config s c
    after_seal (ok sealed) s h c n =
        let x = create_sealed_lem moment path content sealed s c n in
        record {
          outcome = x.outcome;
          after = x.after;
          ran = x.ran;
          consistent = x.consistent;
          stored = λ done. (sealed, h, x.stored done);
        }

    after_check :
        (r : Result (Unit {0})) (s : Archive crates)
        → IsConsistent s
        → EndsCreated s.encryption_config (
            then_do
              (r, s)
              (λ _ s'.
                then_do (lift crates (require (absent (Catalog.get path s'.catalog))) s') (λ _ s''.
                  then_do
                    (lift crates (seal_with crates s''.encryption_config moment.nonce content) s'')
                    (λ sealed s'''. create_sealed crates moment path content sealed s'''))))
    after_check (err e) s c = refused e s.encryption_config s c
    after_check (ok _) s c = elim (Option-cases (entries_get path s.catalog.entries)) [
      | inr (m, found) ↦ rw found (refused allocation s.encryption_config s c)
      | inl n ↦
          rw n (after_seal (seal_with crates s.encryption_config moment.nonce content) s refl c n)
    ]

    -- On a consistent archive `create_file` returns and leaves a consistent archive, whether it
    -- succeeds or fails. When it succeeds, the path has the metadata of the new file, whose blocks,
    -- as many as its bytes need once encrypted, hold these bytes.
    pub create_file_lem :
        (s : Archive crates)
        → IsConsistent s
        → EndsCreated s.encryption_config (create_file crates moment path content s)
    unfolding create_file
    create_file_lem s c =
        let (r, engine, run) = check_access_lem crates Policy.create path s in
        rw run (after_check r (with_engine engine s) (IsConsistent-engine engine s c))
