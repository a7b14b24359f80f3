-- ===== src/Allocator/Extent/Tests.antt =====
-- The extent allocator at concrete inputs: ten blocks, of which 2 and 3 are free, and 6 to 9.
use cartridge_rs.Prelude.{
  ℕ, ◌<◌, ◌≡◌, refl, true, false, not, ◌&&◌, ◌||◌, List, [], ◌∷◌, contains, Distinct, ok, arith,
}
use cartridge_rs.Allocator.Extent.{
  Extent, ExtentMap, ExtentAllocator, has, free_at, block_range, allocate_contiguous, free_extent,
  mark_free, best_fit, insert_and_coalesce, add_free_extent_with_coalesce, carve_all,
}
use cartridge_rs.Allocator.Extent.Valid.{Wf}
use cartridge_rs.Allocator.Extent.Absorb.{IsNew}
use cartridge_rs.Allocator.Extent.Neighbours.{insertions_agree}
use cartridge_rs.Allocator.Extent.Carve.{carve_all_lem}
use cartridge_rs.Allocator.Extent.Runs.{IsFreed, free_extent_lem}

abbrev extent : ℕ → ℕ → ℕ × Extent
extent start n = (start, record { start = start; length = n })

abbrev two_extents : ExtentMap
two_extents = extent 2 2 ∷ extent 6 4 ∷ []

two_extents-Wf : Wf 0 10 two_extents
two_extents-Wf =
    (refl, omega arith, omega arith, omega arith, (refl, omega arith, omega arith, omega arith, tt))

abbrev some_free : ExtentAllocator
some_free = record { free_extents = two_extents; total_blocks = 10; free_blocks = 6 }

best_fit_is_taken : (allocate_contiguous 2 some_free).0 ≡ ok (2 ∷ 3 ∷ [])
unfolding allocate_contiguous best_fit block_range
best_fit_is_taken = refl

abbrev gap : List ℕ
gap = 5 ∷ 4 ∷ []

gap-Distinct : Distinct gap
unfolding contains
gap-Distinct = (refl, (refl, tt))

gap_in_range : (c : ℕ) → contains gap c ≡ true → c < 10
unfolding contains
gap_in_range c h = ground arith

gap_not_free : (c : ℕ) → contains gap c ≡ true → free_at two_extents c ≡ false
unfolding contains free_at has
gap_not_free c h = ground arith

free_extent_example :
    (m : ExtentMap) × (free_extent gap some_free
      ≡ (ok tt, record some_free { free_extents = m; free_blocks = 8 }))
    × (mark_free gap some_free ≡ (ok tt, record some_free { free_extents = m }))
    × IsFreed some_free (record some_free { free_extents = m }) gap
free_extent_example =
    free_extent_lem some_free gap two_extents-Wf gap-Distinct gap_in_range gap_not_free
      (omega arith)

abbrev middle : Extent
middle = record { start = 4; length = 2 }

middle-IsNew : IsNew middle two_extents
unfolding free_at has
middle-IsNew c h = ground arith

insertions_agree_example :
    (insert_and_coalesce middle two_extents ≡ add_free_extent_with_coalesce middle two_extents)
    × Wf 0 10 (insert_and_coalesce middle two_extents)
    × ((c : ℕ)
        → free_at (insert_and_coalesce middle two_extents) c
          ≡ (has middle c || free_at two_extents c))
insertions_agree_example =
    insertions_agree 10 middle two_extents two_extents-Wf (omega arith) (omega arith) middle-IsNew

carve_all_example :
    Wf 0 10 (carve_all (7 ∷ []) two_extents)
    × ((c : ℕ)
        → free_at (carve_all (7 ∷ []) two_extents) c
          ≡ (free_at two_extents c && not (contains (7 ∷ []) c)))
carve_all_example = carve_all_lem 10 (7 ∷ []) two_extents two_extents-Wf
