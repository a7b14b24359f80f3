-- ===== src/Cartridge/Capacity/Growth.antt =====
-- The loop of `ensure_capacity` ends, with enough free blocks or at the limit.
use cartridge_rs.Prelude.{
  ℕ, zero, suc, ◌+◌, ◌-◌, ◌*◌, ◌/◌, ◌^◌, ◌≤◌, ◌<◌, min, ◌≡◌, refl, ◌∙◌, ap, ◌⊎◌, inl, inr, true,
  false, Option, ltb, ltb→lt, ltb→ge, ◌==◌, ==→eq, if◌then◌else◌, Bool-cases, arith, Result, ok,
  err, out_of_space,
}
use cartridge_rs.Header.{Header, page_size}
use cartridge_rs.Allocator.Hybrid
use cartridge_rs.Allocator.Hybrid.{HybridAllocator, is_allocated}
use cartridge_rs.Allocator.Hybrid.Sync.{IsSynced}
use cartridge_rs.Allocator.Hybrid.Extend.{extend_capacity_synced}
use cartridge_rs.Cartridge.Content.{Disk}
use cartridge_rs.Cartridge.State.{Cartridge}
use cartridge_rs.Cartridge.Capacity.{
  sync_header, new_total_of, enlarge, grow, grow_until, ensure_capacity,
}

at_limit : (n t m : ℕ) → n ≡ min (t * 2) m → t ≤ m → (n == t) ≡ true → (t ≡ m) ⊎ (t ≡ 0)
at_limit n t m d w h = elim (Bool-cases (t == 0)) [
  | inl nothing ↦ inr (==→eq t 0 nothing)
  | inr some_blocks ↦ inl (ground (arith, ==→eq n t h))
]

below_limit : (n t m : ℕ) → n ≡ min (t * 2) m → t ≤ m → (n == t) ≡ false → t < n
below_limit n t m d w h = ground arith

module _ {Json Engine : Type 0} where
  -- The header and the allocator agree, within the limit on the blocks.
  pub record IsSized (s : Cartridge Json Engine) : Type 0 where
    pub synced : IsSynced s.allocator
    pub counted : s.header.free_blocks ≡ s.allocator.free_blocks
    pub total : s.header.total_blocks ≡ s.allocator.total_blocks
    pub within : s.header.total_blocks ≤ s.max_blocks
    pub limit : s.max_blocks < 2 ^ 63

  -- Growing touches nothing but these three.
  abbrev pub resized :
      Cartridge Json Engine → Header → Option Disk → HybridAllocator → Cartridge Json Engine
  resized s header file allocator = record s { header = header; file = file; allocator = allocator }

  pub record IsGrown (s s' : Cartridge Json Engine) : Type 0 where
    pub header : Header
    pub file : Option Disk
    pub allocator : HybridAllocator
    pub state : s' ≡ resized s header file allocator
    pub sized : IsSized s'
    pub larger : s.header.total_blocks ≤ s'.header.total_blocks
    pub same_blocks : (b : ℕ) → is_allocated s'.allocator b ≡ is_allocated s.allocator b

  abbrev pub AtLimit : Cartridge Json Engine → Type 0
  AtLimit s = (s.header.total_blocks ≡ s.max_blocks) ⊎ (s.header.total_blocks ≡ 0)

  doubled :
      (s : Cartridge Json Engine)
      → IsSized s
      → new_total_of s ≡ min (s.header.total_blocks * 2) s.max_blocks
  unfolding new_total_of
  doubled s z = omega (arith, z.within, z.limit)

  grow_run :
      (s : Cartridge Json Engine) (a : HybridAllocator)
      → (new_total_of s == s.header.total_blocks) ≡ false
      → Hybrid.extend_capacity (new_total_of s) s.allocator ≡ (ok tt, a)
      → grow s ≡ (ok tt, sync_header (record (enlarge (new_total_of s) s) { allocator = a }))
  unfolding grow
  grow_run s a h run = rw (h, run) refl

  grow_refused :
      (s : Cartridge Json Engine)
      → (new_total_of s == s.header.total_blocks) ≡ true
      → grow s ≡ (err out_of_space, s)
  unfolding grow
  grow_refused s h = rw h refl

  grow_lem :
      (s : Cartridge Json Engine)
      → IsSized s
      → ((grow s ≡ (err out_of_space, s)) × AtLimit s)
        ⊎ ((s' : Cartridge Json Engine) × (grow s ≡ (ok tt, s'))
            × IsGrown s s'
            × (s.header.total_blocks < s'.header.total_blocks))
  grow_lem s z =
      let d = doubled s z in
      elim (Bool-cases (new_total_of s == s.header.total_blocks)) [
        | inl stuck ↦ inl (
          grow_refused s stuck,
          at_limit (new_total_of s) s.header.total_blocks s.max_blocks d z.within stuck,
        )
        | inr more ↦
            let (a, run, x) =
              extend_capacity_synced (new_total_of s) s.allocator z.synced
                (omega (arith, d, z.limit, z.within)) in
            let bigger : s.header.total_blocks < new_total_of s =
              below_limit (new_total_of s) s.header.total_blocks s.max_blocks d z.within more in
            inr (
              sync_header (record (enlarge (new_total_of s) s) { allocator = a }),
              grow_run s a more run,
              record {
                header = _;
                file = _;
                allocator = _;
                state = refl;
                sized = record {
                  synced = x.synced;
                  counted = refl;
                  total = omega (arith, x.total, z.total);
                  within = omega (arith, d);
                  limit = z.limit;
                };
                larger = omega arith;
                same_blocks = x.same_blocks;
              },
              bigger,
            )
      ]

  pub IsGrown-refl : (s : Cartridge Json Engine) → IsSized s → IsGrown s s
  IsGrown-refl s z = record {
    header = s.header;
    file = s.file;
    allocator = s.allocator;
    state = refl;
    sized = z;
    larger = omega arith;
    same_blocks = λ b. refl;
  }

  IsGrown-trans : (s t v : Cartridge Json Engine) → IsGrown s t → IsGrown t v → IsGrown s v
  IsGrown-trans s t v g k = record {
    header = k.header;
    file = k.file;
    allocator = k.allocator;
    state = k.state ∙ ap (λ x. resized x k.header k.file k.allocator) g.state;
    sized = k.sized;
    larger = omega (arith, g.larger, k.larger);
    same_blocks = λ b. k.same_blocks b ∙ g.same_blocks b;
  }

  -- Enough free blocks, or too few at the limit.
  pub data IsEnsured (needed : ℕ) (s' : Cartridge Json Engine) : Result (Unit {0}) → Type 0 where
    enough : needed ≤ s'.header.free_blocks → IsEnsured needed s' (ok tt)
    exhausted : s'.header.free_blocks < needed → AtLimit s' → IsEnsured needed s' (err out_of_space)

  abbrev pub EndsEnsured :
      ℕ → Cartridge Json Engine → Result (Unit {0}) × Cartridge Json Engine → Type 0
  EndsEnsured needed s run =
      (r : Result (Unit {0})) × (s' : Cartridge Json Engine) × (run ≡ (r, s'))
      × IsGrown s s'
      × IsEnsured needed s' r

  grow_until_lem :
      (fuel needed : ℕ) (s : Cartridge Json Engine)
      → IsSized s
      → s.max_blocks - s.header.total_blocks + 2 ≤ fuel
      → EndsEnsured needed s (grow_until fuel needed s)
  unfolding grow_until
  grow_until_lem zero needed s z f = absurd (omega arith)
  grow_until_lem (suc fuel) needed s z f = elim (Bool-cases (ltb s.header.free_blocks needed)) [
    | inr e ↦ (ok tt, s, rw e refl, IsGrown-refl s z, enough (ltb→ge s.header.free_blocks needed e))
    | inl short ↦ elim (grow_lem s z) [
      | inl (run, limit) ↦ (
        err out_of_space,
        s,
        rw (short, run) refl,
        IsGrown-refl s z,
        exhausted (ltb→lt s.header.free_blocks needed short) limit,
      )
      | inr (s', run, g, more) ↦
          let m : s'.max_blocks ≡ s.max_blocks = ap (λ x. x.max_blocks) g.state in
          let (r, t, run', k, i) =
            grow_until_lem fuel needed s' g.sized (omega (arith, m, g.sized.within)) in
          (r, t, rw (short, run) run', IsGrown-trans s s' t g k, i)
    ]
  ]

  -- With automatic growth, `ensure_capacity` of a well-formed archive returns: either with enough
  -- free blocks for the bytes, or, with too few, out of space because the archive is at its limit
  -- or has no block to double. It changes only the header, the file and the allocator, keeps them in
  -- agreement, and changes no block.
  pub ensure_capacity_lem :
      (bytes_needed : ℕ) (s : Cartridge Json Engine)
      → s.auto_grow ≡ true
      → IsSized s
      → EndsEnsured ((bytes_needed + page_size - 1) / page_size) s (ensure_capacity bytes_needed s)
  unfolding ensure_capacity
  ensure_capacity_lem bytes_needed s auto z =
      let needed = (bytes_needed + page_size - 1) / page_size in
      let (r, s', run, g, i) = grow_until_lem (s.max_blocks + 2) needed s z (omega arith) in
      (
        r,
        s',
        ap (λ b. if b then grow_until (s.max_blocks + 2) needed s else (ok tt, s)) auto ∙ run,
        g,
        i,
      )
