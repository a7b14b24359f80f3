-- ===== src/Allocator/Extent/Runs.antt =====
-- `free_extent` and `mark_free`: sorting blocks, grouping them into runs and adding each run.
use cartridge_rs.Prelude.{
  ℕ, ◌+◌, ◌^◌, ◌≤◌, ◌<◌, ◌≡◌, refl, sym, ◌∙◌, Bool, true, false, ◌||◌, List, [], ◌∷◌, inl, inr,
  none, Bool-cases, leb, ◌==◌, contains, Distinct, ok, length, add64, arith, tests,
}
use cartridge_rs.Allocator.Extent.{
  Extent, ExtentMap, ExtentAllocator, has, free_at, insert_sorted, sort, runs, extents_of, add_each,
  insert_each, insert_and_coalesce, first_invalid, free_extent, mark_free,
}
use cartridge_rs.Allocator.Extent.Valid.{Wf}
use cartridge_rs.Allocator.Extent.Neighbours.{insertions_agree}

contains-insert_sorted :
    (b c : ℕ) (bs : List ℕ) → contains (insert_sorted b bs) c ≡ (b == c || contains bs c)
unfolding insert_sorted contains
contains-insert_sorted b c [] = refl
contains-insert_sorted b c (x ∷ bs) = ground (arith, contains-insert_sorted b c bs)

contains-sort : (c : ℕ) (bs : List ℕ) → contains (sort bs) c ≡ contains bs c
unfolding sort contains
contains-sort c [] = refl
contains-sort c (b ∷ bs) = ground (arith, contains-insert_sorted b c (sort bs), contains-sort c bs)

-- Strictly ascending from `lo` on and below `hi`.
abbrev Ascending : ℕ → ℕ → List ℕ → Type 0
Ascending lo hi [] = Unit
Ascending lo hi (b ∷ bs) = (lo ≤ b) × (b < hi) × Ascending (b + 1) hi bs

insert_sorted-Ascending :
    (lo hi b : ℕ) (bs : List ℕ)
    → Ascending lo hi bs
    → lo ≤ b
    → b < hi
    → contains bs b ≡ false
    → Ascending lo hi (insert_sorted b bs)
unfolding insert_sorted contains
insert_sorted-Ascending lo hi b [] a l h n = (l, h, tt)
insert_sorted-Ascending lo hi b (c ∷ bs) a l h n = elim (Bool-cases (leb b c)) [
  | inl first ↦ rw first (l, h, (ground arith, a.1, a.2))
  | inr later ↦ rw later (
    a.0,
    a.1,
    insert_sorted-Ascending (c + 1) hi b bs a.2 (omega (tests, later)) h (ground arith),
  )
]

abbrev AllBelow : ℕ → List ℕ → Type 0
AllBelow hi [] = Unit
AllBelow hi (b ∷ bs) = (b < hi) × AllBelow hi bs

sort-Ascending : (hi : ℕ) (bs : List ℕ) → AllBelow hi bs → Distinct bs → Ascending 0 hi (sort bs)
unfolding sort
sort-Ascending hi [] a d = tt
sort-Ascending hi (b ∷ bs) a d =
    insert_sorted-Ascending 0 hi b (sort bs) (sort-Ascending hi bs a.1 d.1) (omega arith) a.0
      (contains-sort b bs ∙ d.0)

-- Whether one of the extents has a block.
any_has : List Extent → ℕ → Bool
any_has [] c = false
any_has (e ∷ es) c = has e c || any_has es c

-- Ascending extents that do not overlap.
abbrev Apart : ℕ → ℕ → List Extent → Type 0
Apart lo hi [] = Unit
Apart lo hi (e ∷ es) =
    (lo ≤ e.start) × (0 < e.length) × (e.start + e.length ≤ hi) × Apart (e.start + e.length) hi es

any_has_below : (lo hi c : ℕ) (es : List Extent) → Apart lo hi es → c < lo → any_has es c ≡ false
unfolding any_has has
any_has_below lo hi c [] a h = refl
any_has_below lo hi c (e ∷ es) a h = ground (arith, any_has_below (e.start + e.length) hi c es a.3)

runs-has :
    (start len prev c : ℕ) (bs : List ℕ)
    → start + len ≡ prev + 1
    → any_has (runs start len prev bs) c
      ≡ (has (record { start = start; length = len }) c || contains bs c)
unfolding runs any_has has contains
runs-has start len prev c [] e = refl
runs-has start len prev c (b ∷ bs) e =
    ground (arith, runs-has start (len + 1) b c bs, runs-has b 1 b c bs)

runs-Apart :
    (lo hi start len prev : ℕ) (bs : List ℕ)
    → lo ≤ start
    → 0 < len
    → start + len ≡ prev + 1
    → prev < hi
    → Ascending (prev + 1) hi bs
    → Apart lo hi (runs start len prev bs)
unfolding runs
runs-Apart lo hi start len prev [] l p e h a = (l, p, omega arith, tt)
runs-Apart lo hi start len prev (b ∷ bs) l p e h a = elim (Bool-cases (b == prev + 1)) [
  | inl next ↦
      rw next (runs-Apart lo hi start (len + 1) b bs l (omega arith) (ground arith) a.1 a.2)
  | inr gap ↦ rw gap (
    l,
    p,
    omega arith,
    runs-Apart (start + len) hi b 1 b bs (omega arith) (omega arith) (omega arith) a.1 a.2,
  )
]

extents_of_has : (c : ℕ) (bs : List ℕ) → any_has (extents_of bs) c ≡ contains bs c
unfolding extents_of contains
extents_of_has c [] = unfold any_has in refl
extents_of_has c (b ∷ bs) = runs-has b 1 b c bs refl ∙ unfold has in ground arith

extents_of-Apart : (hi : ℕ) (bs : List ℕ) → Ascending 0 hi bs → Apart 0 hi (extents_of bs)
unfolding extents_of
extents_of-Apart hi [] a = tt
extents_of-Apart hi (b ∷ bs) a = runs-Apart 0 hi b 1 b bs (omega arith) (omega arith) refl a.1 a.2

has_end : (e : Extent) (c : ℕ) → has e c ≡ true → c < e.start + e.length
unfolding has
has_end e c h = ground arith

-- Adding extents that do not overlap one another and hold no free block, by either routine.
record Added (hi : ℕ) (es : List Extent) (m out : ExtentMap) : Type 0 where
  valid : Wf 0 hi out
  exactly : (c : ℕ) → free_at out c ≡ (any_has es c || free_at m c)

each_Added :
    (lo hi : ℕ) (es : List Extent) (m : ExtentMap)
    → Wf 0 hi m
    → Apart lo hi es
    → ((c : ℕ) → any_has es c ≡ true → free_at m c ≡ false)
    → (insert_each es m ≡ add_each es m) × Added hi es m (insert_each es m)
unfolding insert_each add_each any_has
each_Added lo hi [] m w a n = (refl, record { valid = w; exactly = λ c. refl })
each_Added lo hi (e ∷ es) m w a n =
    let (same, w', f) = insertions_agree hi e m w a.1 a.2 (λ c i. n c (ground arith)) in
    let (ih, added) = each_Added (e.start + e.length) hi es (insert_and_coalesce e m) w' a.3 (λ c i.
      ground (arith, f c, n c, any_has_below (e.start + e.length) hi c es a.3, has_end e c)) in
    (
      rw (← same) ih,
      record { valid = added.valid; exactly = λ c. ground (arith, added.exactly c, f c) },
    )

-- Blocks that are in range, distinct and not free are added to the free extents, exactly they, by
-- the routine of `free_extent` and by that of `mark_free`, with the same map as the result.
pub runs_lem :
    (hi : ℕ) (blocks : List ℕ) (m : ExtentMap)
    → Wf 0 hi m
    → AllBelow hi blocks
    → Distinct blocks
    → ((c : ℕ) → contains blocks c ≡ true → free_at m c ≡ false)
    → (insert_each (extents_of (sort blocks)) m ≡ add_each (extents_of (sort blocks)) m)
      × Wf 0 hi (insert_each (extents_of (sort blocks)) m)
      × ((c : ℕ)
          → free_at (insert_each (extents_of (sort blocks)) m) c
            ≡ (contains blocks c || free_at m c))
runs_lem hi blocks m w b d n =
    let covers = λ (c : ℕ). extents_of_has c (sort blocks) ∙ contains-sort c blocks in
    let (same, added) =
      each_Added 0 hi (extents_of (sort blocks)) m w
        (extents_of-Apart hi (sort blocks) (sort-Ascending hi blocks b d))
        (λ c i. n c (sym (covers c) ∙ i)) in
    (same, added.valid, λ c. ground (arith, added.exactly c, covers c))

-- What freeing promises of the free map.
pub record IsFreed (s s' : ExtentAllocator) (blocks : List ℕ) : Type 0 where
  pub valid : Wf 0 s'.total_blocks s'.free_extents
  pub exactly :
      (c : ℕ) → free_at s'.free_extents c ≡ (contains blocks c || free_at s.free_extents c)
  pub same_total : s'.total_blocks ≡ s.total_blocks

first_invalid_none : (hi : ℕ) (bs : List ℕ) → AllBelow hi bs → first_invalid hi bs ≡ none
unfolding first_invalid
first_invalid_none hi [] a = refl
first_invalid_none hi (b ∷ bs) a = ground (arith, first_invalid_none hi bs a.1)

pub AllBelow-of_contains :
    (hi : ℕ) (bs : List ℕ) → ((c : ℕ) → contains bs c ≡ true → c < hi) → AllBelow hi bs
unfolding contains
AllBelow-of_contains hi [] h = tt
AllBelow-of_contains hi (b ∷ bs) h =
    (h b (ground arith), AllBelow-of_contains hi bs (λ c i. h c (ground arith)))

-- Freeing distinct blocks in range that are not free succeeds and makes exactly those blocks free,
-- in a map that is again fully coalesced and the same for `free_extent` and `mark_free`. The first
-- adds their number to the counter, the second leaves the counter alone.
pub free_extent_lem :
    (s : ExtentAllocator) (blocks : List ℕ)
    → Wf 0 s.total_blocks s.free_extents
    → Distinct blocks
    → ((c : ℕ) → contains blocks c ≡ true → c < s.total_blocks)
    → ((c : ℕ) → contains blocks c ≡ true → free_at s.free_extents c ≡ false)
    → s.free_blocks + length blocks < 2 ^ 64
    → (m : ExtentMap) × (free_extent blocks s
        ≡ (ok tt, record s { free_extents = m; free_blocks = s.free_blocks + length blocks }))
      × (mark_free blocks s ≡ (ok tt, record s { free_extents = m }))
      × IsFreed s (record s { free_extents = m }) blocks
unfolding free_extent mark_free
free_extent_lem s [] w d r n u =
    let (same, w', f) = runs_lem s.total_blocks [] s.free_extents w tt d n in
    let e : s.free_blocks + 0 ≡ s.free_blocks = omega arith in
    (
      insert_each (extents_of (sort [])) s.free_extents,
      unfold insert_each extents_of sort in rw e,
      rw same,
      record { valid = w'; exactly = f; same_total = refl },
    )
free_extent_lem s (b ∷ bs) w d r n u =
    let below = AllBelow-of_contains s.total_blocks (b ∷ bs) r in
    let (same, w', f) = runs_lem s.total_blocks (b ∷ bs) s.free_extents w below d n in
    let e : add64 s.free_blocks (length (b ∷ bs)) ≡ s.free_blocks + length (b ∷ bs) = omega arith in
    (
      insert_each (extents_of (sort (b ∷ bs))) s.free_extents,
      rw (first_invalid_none s.total_blocks (b ∷ bs) below, free_extent, e),
      rw same,
      record { valid = w'; exactly = f; same_total = refl },
    )
