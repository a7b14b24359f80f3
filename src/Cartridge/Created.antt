-- ===== src/Cartridge/Created.antt =====
-- A new archive satisfies the invariant.
use cartridge_rs.Prelude.{ℕ, ◌+◌, ◌*◌, ◌≤◌, ◌≡◌, sym, ap, inl, inr, List, contains, arith, ok}
use mathlib.Core.Path.{subst}
use cartridge_rs.Header.{page_size}
use cartridge_rs.Allocator.Bitmap
use cartridge_rs.Allocator.Bitmap.{blocks_for}
use cartridge_rs.Allocator.Hybrid
use cartridge_rs.Allocator.Hybrid.{HybridAllocator, is_allocated}
use cartridge_rs.Allocator.Hybrid.Sync.{IsSynced, IsGranted, new-IsSynced}
use cartridge_rs.Allocator.Hybrid.Allocate.{allocate_lem, IsRefused}
use cartridge_rs.Allocator.Hybrid.Total.{allocate_total}
use cartridge_rs.Catalog
use cartridge_rs.Cartridge.State.{new, unwrap_state, default_max_blocks}
use cartridge_rs.Cartridge.Ownership.{all_blocks}
use cartridge_rs.Cartridge.Consistency.{IsConsistent}

not-IsRefused : (total : ℕ) → 3 ≤ total → ¬ IsRefused (3 * page_size) (Hybrid.new total)
unfolding Hybrid.new Bitmap.new
not-IsRefused total h (inl low) = omega arith
not-IsRefused total h (inr (inl (small, low))) = omega arith
not-IsRefused total h (inr (inr (large, x))) = cc large

-- The allocator of a new archive: three reserved blocks.
reserved_lem :
    (total : ℕ)
    → 3 ≤ total
    → total ≤ default_max_blocks
    → (ids : List ℕ) × (a : HybridAllocator) × (Hybrid.allocate (3 * page_size) (Hybrid.new total)
        ≡ (ok ids, a))
      × IsGranted 3 (Hybrid.new total) a ids
reserved_lem total h m =
    elim (allocate_lem (3 * page_size) (Hybrid.new total) (new-IsSynced total (omega arith)).0) [
      | inl (ids, a, run, g) ↦ (ids, a, run, g)
      | inr (why, run) ↦ absurd (not-IsRefused total h why)
    ]

module _ {Json Engine : Type 0} where
  -- An archive created in memory with at least three blocks, and no more than the limit, is
  -- consistent, has three blocks allocated and no path.
  pub new-IsConsistent :
      (total : ℕ)
      → 3 ≤ total
      → total ≤ default_max_blocks
      → IsConsistent {Json = Json} {Engine = Engine} (new total)
        × ((new {Json = Json} {Engine = Engine} total).allocator.free_blocks + 3 ≡ total)
  unfolding new Hybrid.new Catalog.new all_blocks contains
  new-IsConsistent total h m =
      let (ids, a, run, g) = reserved_lem total h m in
      let same : unwrap_state (Hybrid.allocate (3 * page_size) (Hybrid.new total)) ≡ a =
        ap unwrap_state run in
      let free : (Hybrid.allocate (3 * page_size) (Hybrid.new total)).1.free_blocks
          ≡ a.free_blocks =
        ap (λ x. x.free_blocks) same in
      (
        record {
          sized = record {
            synced = subst IsSynced (sym same) g.synced;
            counted = omega (arith, free, g.counter);
            total = sym (allocate_total (3 * page_size) (Hybrid.new total));
            within = m;
            limit = omega arith;
          };
          sorted = tt;
          owned = tt;
          allocated = λ b i. absurd (cc i);
        },
        omega (arith, free, g.counter),
      )
