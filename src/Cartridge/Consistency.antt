-- ===== src/Cartridge/Consistency.antt =====
-- The invariant of an archive, and the steps that the operations are made of.
pub mod Create
pub mod Delete
pub mod Write
use cartridge_rs.Prelude.{
  ℕ, ◌+◌, ◌-◌, ◌*◌, ◌/◌, ◌^◌, ◌≤◌, ◌<◌, ◌≡◌, refl, sym, ◌∙◌, ap, ◌⊎◌, inl, inr, Bool, true, false,
  ◌||◌, List, [], ◌∷◌, Option, none, some, Option-cases, Text, length, is_empty, contains, Distinct,
  if◌then◌else◌, Bool-cases, arith, Result, ok, err, out_of_space, allocation,
}
use mathlib.Core.Path.{subst}
use cartridge_rs.Header.{page_size}
use cartridge_rs.Allocator.Hybrid
use cartridge_rs.Allocator.Hybrid.{HybridAllocator, is_allocated}
use cartridge_rs.Allocator.Bitmap.{blocks_for}
use cartridge_rs.Allocator.Hybrid.Sync.{IsSynced, IsGranted}
use cartridge_rs.Allocator.Hybrid.Allocate.{allocate_lem}
use cartridge_rs.Allocator.Hybrid.Free.{AreAllocated}
use cartridge_rs.Catalog.Order.{Sorted}
use cartridge_rs.Iam.Policy.{Action, Policy}
use cartridge_rs.Iam.Engine.{evaluate}
use cartridge_rs.Cartridge.State.{Cartridge, Crates, Archive, check_access, check_with, answer}
use cartridge_rs.Cartridge.Capacity.{ensure_capacity, grow_until}
use cartridge_rs.Cartridge.Capacity.Growth.{IsSized, IsGrown, IsGrown-refl, ensure_capacity_lem}
use cartridge_rs.Allocator.Hybrid.Total.{allocate_total}
use cartridge_rs.Cartridge.Content.RoundTrip.{is_empty-length}
use cartridge_rs.Cartridge.Files.{ensure_for, allocate_for}
use cartridge_rs.Cartridge.Ownership.{all_blocks, Owned}

module _ {Json Engine : Type 0} where
  -- Header and allocator agree, the catalog is sorted, and every block of a file is allocated and
  -- belongs to no other file.
  pub record IsConsistent (s : Cartridge Json Engine) : Type 0 where
    pub sized : IsSized s
    pub sorted : Sorted s.catalog.entries
    pub owned : Owned s.catalog.entries
    pub allocated : AreAllocated s.allocator (all_blocks s.catalog.entries)

  -- Only the cache of the policy engine differs.
  abbrev pub with_engine : Option Engine → Cartridge Json Engine → Cartridge Json Engine
  with_engine engine s = record s { policy_engine = engine }

  pub IsConsistent-engine :
      (engine : Option Engine) (s : Cartridge Json Engine)
      → IsConsistent s
      → IsConsistent (with_engine engine s)
  IsConsistent-engine engine s c = record {
    sized = record {
      synced = c.sized.synced;
      counted = c.sized.counted;
      total = c.sized.total;
      within = c.sized.within;
      limit = c.sized.limit;
    };
    sorted = c.sorted;
    owned = c.owned;
    allocated = c.allocated;
  }

  pub IsConsistent-grown :
      (s s' : Cartridge Json Engine) → IsConsistent s → IsGrown s s' → IsConsistent s'
  IsConsistent-grown s s' c g =
      let same : s'.catalog ≡ s.catalog = ap (λ x. x.catalog) g.state in
      record {
        sized = g.sized;
        sorted = subst (λ x. Sorted x.entries) (sym same) c.sorted;
        owned = subst (λ x. Owned x.entries) (sym same) c.owned;
        allocated = λ b i.
            g.same_blocks b
            ∙ c.allocated b (ap (λ x. contains (all_blocks x.entries) b) (sym same) ∙ i);
      }

  pub ensure_manual :
      (bytes_needed : ℕ) (s : Cartridge Json Engine)
      → s.auto_grow ≡ false
      → ensure_capacity bytes_needed s ≡ (ok tt, s)
  unfolding ensure_capacity
  ensure_manual bytes_needed s h =
      ap
        (λ b.
          if b
          then grow_until (s.max_blocks + 2) ((bytes_needed + page_size - 1) / page_size) s
          else (ok tt, s))
        h

module _ {Json : Type 0} (crates : Crates Json) where
  answer_lem :
      (out : Bool × crates.lru.State) (s : Archive crates)
      → (r : Result (Unit {0})) × (engine : Option crates.lru.State) × (answer crates out s
          ≡ (r, with_engine engine s))
  answer_lem (true, engine) s = (ok tt, some engine, refl)
  answer_lem (false, engine) s = (err allocation, some engine, refl)

  check_with_lem :
      (policy : Option (Policy Json)) (engine : Option crates.lru.State) (action : Action)
      (path : Text) (s : Archive crates)
      → (r : Result (Unit {0})) × (engine' : Option crates.lru.State) × (check_with crates policy
            engine action path s
          ≡ (r, with_engine engine' s))
  check_with_lem (some policy) (some engine) action path s =
      answer_lem
        (evaluate crates.lru {Context = Json} crates.is_empty_object policy action path none engine)
        s
  check_with_lem (some policy) none action path s = (ok tt, s.policy_engine, refl)
  check_with_lem none engine action path s = (ok tt, s.policy_engine, refl)

  pub check_access_lem :
      (action : Action) (path : Text) (s : Archive crates)
      → (r : Result (Unit {0})) × (engine : Option crates.lru.State) × (check_access crates action
            path s
          ≡ (r, with_engine engine s))
  unfolding check_access
  check_access_lem action path s = check_with_lem s.policy s.policy_engine action path s

  pub ensure_for_lem :
      (content : List ℕ) (s : Archive crates)
      → IsSized s
      → (r : Result (Unit {0})) × (s' : Archive crates) × (ensure_for crates content s ≡ (r, s'))
        × IsGrown s s'
  unfolding ensure_for
  ensure_for_lem content s z = elim (Bool-cases (is_empty content)) [
    | inl nothing ↦ (ok tt, s, rw nothing refl, IsGrown-refl s z)
    | inr e ↦ elim (Bool-cases s.auto_grow) [
      | inl auto ↦
          let (r, s', run, g, i) = ensure_capacity_lem (length content) s auto z in
          (r, s', rw e run, g)
      | inr manual ↦ (ok tt, s, rw e (ensure_manual (length content) s manual), IsGrown-refl s z)
    ]
  ]

  IsGranted-nothing : (s : HybridAllocator) → IsSynced s → IsGranted 0 s s []
  IsGranted-nothing s y = record {
    count = refl;
    distinct = tt;
    were_free = λ b i. unfold contains in absurd (cc i);
    exactly = λ b. unfold contains in ground arith;
    counter = omega arith;
    synced = y;
  }

  -- Either blocks for the content are granted, or none and the archive stays as it is.
  pub allocate_for_lem :
      (content : List ℕ) (s : Archive crates)
      → IsSynced s.allocator
      → ((ids : List ℕ) × (a : HybridAllocator) × (allocate_for crates content s
            ≡ (ok ids, record s { allocator = a }))
          × IsGranted (blocks_for (length content)) s.allocator a ids
          × (a.total_blocks ≡ s.allocator.total_blocks))
        ⊎ (allocate_for crates content s ≡ (err out_of_space, s))
  unfolding allocate_for
  allocate_for_lem content s y = elim (Bool-cases (is_empty content)) [
    | inl nothing ↦ inl (
      [],
      s.allocator,
      rw nothing refl,
      subst (λ n. IsGranted (blocks_for n) s.allocator s.allocator [])
          (sym (is_empty-length content nothing)) (IsGranted-nothing s.allocator y),
      refl,
    )
    | inr e ↦ elim (allocate_lem (length content) s.allocator y) [
      | inl (ids, a, run, g) ↦ inl (
        ids,
        a,
        rw (e, run) refl,
        g,
        ap (λ x. x.1.total_blocks) (sym run) ∙ allocate_total (length content) s.allocator,
      )
      | inr (why, run) ↦ inr (rw (e, run) refl)
    ]
  ]
