-- ===== src/Allocator/Extent/Allocate.antt =====
-- `allocate_contiguous`: best fit, from the front of the chosen extent.
use cartridge_rs.Prelude.{
  ℕ, zero, suc, ◌+◌, ◌-◌, ◌≤◌, ◌<◌, ◌≡◌, refl, sym, ap, Bool, true, not, ◌&&◌, ◌⊎◌, [], ◌∷◌, inl,
  inr, none, some, Bool-cases, length, ltb, leb, ge→ltb, contains, Distinct, ok, err, out_of_space,
  if◌then◌else◌, arith, tests,
}
use mathlib.Core.Path.{subst}
use cartridge_rs.Allocator.Extent.{
  Extent, ExtentMap, ExtentAllocator, has, free_at, remove, best_fit, block_range, take_front,
  allocate_contiguous,
}
use cartridge_rs.Allocator.Extent.Valid.{
  Wf, Wf-weaken, free_at_below, insert_front, insert_after, remove_head, remove_after,
}

-- The map holds the extent `e` under the key `k`.
abbrev pub Holds : ℕ → Extent → ExtentMap → Type 0
Holds k e [] = ⊥
Holds k e ((j, f) ∷ m) = ((k ≡ j) × (e ≡ f)) ⊎ Holds k e m

-- The extent `e` fits, and no shorter one of the map does.
abbrev pub IsBestFit : ℕ → Extent → ExtentMap → Type 0
IsBestFit num e [] = num ≤ e.length
IsBestFit num e ((j, f) ∷ m) = (num ≤ f.length → e.length ≤ f.length) × IsBestFit num e m

-- No extent of the map fits.
abbrev pub NoFit : ℕ → ExtentMap → Type 0
NoFit num [] = Unit
NoFit num ((j, f) ∷ m) = (f.length < num) × NoFit num m

-- The search, from a candidate that fits: it is kept or replaced by a shorter one of the map.
best_fit_from :
    (num j : ℕ) (f : Extent) (m : ExtentMap)
    → num ≤ f.length
    → (k : ℕ) × (e : Extent) × (best_fit num m (some (j, f)) ≡ some (k, e))
      × (((k ≡ j) × (e ≡ f)) ⊎ Holds k e m)
      × (e.length ≤ f.length)
      × IsBestFit num e m
unfolding best_fit
best_fit_from num j f [] h = (j, f, refl, inl (refl, refl), omega arith, h)
best_fit_from num j f ((i, g) ∷ m) h = elim (Bool-cases (ltb g.length num)) [
  | inl short ↦
      let (k, e, run, from, le, best) = best_fit_from num j f m h in
      (
        k,
        e,
        rw short run,
        elim from [ inl p ↦ inl p | inr q ↦ inr (inr q) ],
        le,
        (λ p. absurd (omega (tests, short)), best),
      )
  | inr fits ↦ elim (Bool-cases (ltb g.length f.length)) [
    | inl better ↦
        let (k, e, run, from, le, best) = best_fit_from num i g m (omega (tests, fits)) in
        (k, e, rw (fits, better) run, inr from, omega (tests, better), (λ p. le, best))
    | inr worse ↦
        let (k, e, run, from, le, best) = best_fit_from num j f m h in
        (
          k,
          e,
          rw (fits, worse) run,
          elim from [ inl p ↦ inl p | inr q ↦ inr (inr q) ],
          le,
          (λ p. omega (tests, worse), best),
        )
  ]
]

fit_of_best : (num : ℕ) (e : Extent) (m : ExtentMap) → IsBestFit num e m → num ≤ e.length
fit_of_best num e [] b = b
fit_of_best num e ((j, f) ∷ m) b = fit_of_best num e m b.1

best_fit_lem :
    (num : ℕ) (m : ExtentMap)
    → (NoFit num m × (best_fit num m none ≡ none))
      ⊎ ((k : ℕ) × (e : Extent) × (best_fit num m none ≡ some (k, e))
          × Holds k e m
          × (num ≤ e.length)
          × IsBestFit num e m)
unfolding best_fit
best_fit_lem num [] = inl (tt, refl)
best_fit_lem num ((i, g) ∷ m) = elim (Bool-cases (ltb g.length num)) [
  | inl short ↦ elim (best_fit_lem num m) [
    | inl (none_fits, run) ↦ inl ((omega (tests, short), none_fits), rw short run)
    | inr (k, e, run, from, fits, best) ↦
        inr (k, e, rw short run, inr from, fits, (λ p. absurd (omega (tests, short)), best))
  ]
  | inr long ↦
      let fits : num ≤ g.length = omega (tests, long) in
      let (k, e, run, from, le, best) = best_fit_from num i g m fits in
      inr (k, e, rw long run, from, fit_of_best num e m best, (λ p. le, best))
]

Holds-facts :
    (lo hi k : ℕ) (e : Extent) (m : ExtentMap)
    → Wf lo hi m
    → Holds k e m
    → (lo ≤ k) × (e.start ≡ k) × (0 < e.length) × (e.start + e.length ≤ hi)
Holds-facts lo hi k e [] w h = absurd h
Holds-facts lo hi k e ((j, g) ∷ m) w (inl (p, q)) =
    rw (p, q) (w.1, w.0, w.2, omega (arith, w.0, w.3))
Holds-facts lo hi k e ((j, g) ∷ m) w (inr h) =
    omega (arith, Holds-facts (j + g.length + 1) hi k e m w.4 h)

-- The blocks taken, from the front of `e`.
abbrev pub in_front : ℕ → Extent → ℕ → Bool
in_front num e c = leb e.start c && ltb c (e.start + num)

-- What taking `num` blocks from the front of `e` does to a map.
pub record IsTaken (lo hi num : ℕ) (e : Extent) (m out : ExtentMap) : Type 0 where
  pub valid : Wf lo hi out
  pub exactly : (c : ℕ) → free_at out c ≡ (free_at m c && not (in_front num e c))
  pub was_free : (c : ℕ) → in_front num e c ≡ true → free_at m c ≡ true

take_front_head :
    (hi num : ℕ) (k : ℕ) (e : Extent) (m : ExtentMap)
    → Wf (k + e.length + 1) hi m
    → e.start ≡ k
    → num ≤ e.length
    → take_front num k e ((k, e) ∷ m) ≡ (
        if ltb 0 (e.length - num)
        then (e.start + num, record { start = e.start + num; length = e.length - num }) ∷ m
        else m)
unfolding take_front
take_front_head hi num k e m w s f = rw (remove_head k e m) (
    ap (λ r. if ltb 0 (e.length - num) then r else m)
      (insert_front (k + e.length + 1) hi (e.start + num)
        (record { start = e.start + num; length = e.length - num }) m (omega arith) w))

take_front_after :
    (num j k : ℕ) (g e : Extent) (m : ExtentMap)
    → j < k
    → e.start ≡ k
    → take_front num k e ((j, g) ∷ m) ≡ (j, g) ∷ take_front num k e m
unfolding take_front
take_front_after num j k g e m p s = rw (remove_after j k g m p) (
    ground (
      arith,
      insert_after j (e.start + num) g (record { start = e.start + num; length = e.length - num })
          (remove k m) (omega arith),
    ))

front_Taken :
    (lo hi num : ℕ) (k : ℕ) (e : Extent) (m : ExtentMap)
    → Wf lo hi ((k, e) ∷ m)
    → num ≤ e.length
    → IsTaken lo hi num e ((k, e) ∷ m) (take_front num k e ((k, e) ∷ m))
unfolding free_at has
front_Taken lo hi num k e m w f =
    rw (take_front_head hi num k e m w.4 w.0 f) (elim (Bool-cases (ltb 0 (e.length - num))) [
      | inl more ↦ rw more (record {
        valid = (
          refl,
          omega (arith, w.0, w.1),
          omega (tests, more),
          omega (arith, w.0, w.3),
          Wf-weaken (k + e.length + 1) (e.start + num + (e.length - num) + 1) hi m
              (omega (arith, w.0)) w.4,
        );
        exactly = λ c. ground (arith, w.0, free_at_below (k + e.length + 1) hi c m);
        was_free = λ c i. ground arith;
      })
      | inr all ↦ rw all (record {
        valid = Wf-weaken (k + e.length + 1) lo hi m (omega (arith, w.1)) w.4;
        exactly = λ c. ground (arith, w.0, free_at_below (k + e.length + 1) hi c m);
        was_free = λ c i. ground arith;
      })
    ])

take_front-IsTaken :
    (lo hi num k : ℕ) (e : Extent) (m : ExtentMap)
    → Wf lo hi m
    → Holds k e m
    → num ≤ e.length
    → IsTaken lo hi num e m (take_front num k e m)
unfolding free_at has
take_front-IsTaken lo hi num k e [] w h f = absurd h
take_front-IsTaken lo hi num k e ((j, g) ∷ m) w (inl (p, q)) f =
    rw (p, q) (front_Taken lo hi num j g m w (rw (← q) f))
take_front-IsTaken lo hi num k e ((j, g) ∷ m) w (inr h) f =
    let facts = Holds-facts (j + g.length + 1) hi k e m w.4 h in
    let ih = take_front-IsTaken (j + g.length + 1) hi num k e m w.4 h f in
    rw (take_front_after num j k g e m (omega (arith, facts)) facts.1) (record {
      valid = (w.0, w.1, w.2, w.3, ih.valid);
      exactly = λ c. ground (arith, facts, w.0, ih.exactly c);
      was_free = λ c i. ground (arith, ih.was_free c i);
    })

pub contains-block_range :
    (start n c : ℕ) → contains (block_range start n) c ≡ (leb start c && ltb c (start + n))
unfolding contains block_range
contains-block_range start zero c = ground arith
contains-block_range start (suc n) c = ground (arith, contains-block_range (start + 1) n c)

pub length-block_range : (start n : ℕ) → length (block_range start n) ≡ n
unfolding block_range
length-block_range start zero = refl
length-block_range start (suc n) = ap suc (length-block_range (start + 1) n)

pub block_range-Distinct : (start n : ℕ) → Distinct (block_range start n)
unfolding block_range
block_range-Distinct start zero = tt
block_range-Distinct start (suc n) =
    (ground (arith, contains-block_range (start + 1) n start), block_range-Distinct (start + 1) n)

pub allocate_contiguous_lem :
    (num : ℕ) (s : ExtentAllocator)
    → Wf 0 s.total_blocks s.free_extents
    → num ≤ s.free_blocks
    → (NoFit num s.free_extents × (allocate_contiguous num s ≡ (err out_of_space, s)))
      ⊎ ((e : Extent) × (m : ExtentMap) × Holds e.start e s.free_extents
          × IsBestFit num e s.free_extents
          × (num ≤ e.length)
          × (e.start + e.length ≤ s.total_blocks)
          × (allocate_contiguous num s ≡ (
            ok (block_range e.start num),
            record s { free_extents = m; free_blocks = s.free_blocks - num },
          ))
          × IsTaken 0 s.total_blocks num e s.free_extents m)
unfolding allocate_contiguous
allocate_contiguous_lem num s w h = elim (best_fit_lem num s.free_extents) [
  | inl (none_fits, run) ↦ inl (none_fits, rw (ge→ltb s.free_blocks num h) (ground (arith, run)))
  | inr (k, e, run, held, fits, best) ↦
      let facts = Holds-facts 0 s.total_blocks k e s.free_extents w held in
      inr (
        e,
        take_front num k e s.free_extents,
        subst (λ x. Holds x e s.free_extents) (sym facts.1) held,
        best,
        fits,
        facts.3,
        rw (ge→ltb s.free_blocks num h) (ground (arith, run)),
        take_front-IsTaken 0 s.total_blocks num k e s.free_extents w held fits,
      )
]
