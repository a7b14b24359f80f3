-- ===== src/Allocator/Extent/Neighbours.antt =====
-- `insert_and_coalesce`, which looks up the two neighbours of an extent, is `absorb` on a valid map.
use cartridge_rs.Prelude.{
  ℕ, suc, ◌+◌, ◌≤◌, ◌<◌, ◌≡◌, refl, sym, ◌∙◌, ◌||◌, List, [], ◌∷◌, ◌++◌, Option, none, some,
  Option-cases, ◌⊎◌, inl, inr, arith,
}
use native.Mathlib.Nat.{le_refl}
use cartridge_rs.Allocator.Extent.{
  Extent, ExtentMap, has, free_at, coalesce, insert, remove_all, merge_neighbour, last_below,
  first_from, insert_and_coalesce, is_adjacent, add_free_extent_with_coalesce,
}
use cartridge_rs.Allocator.Extent.Valid.{
  Wf, Wf-weaken, KeysAfter, insert_front, insert_after, remove_all_after,
}
use cartridge_rs.Allocator.Extent.Absorb.{
  absorb, absorb_lem, IsNew, IsNew-tail, IsNew-joined, before, joins, touches, beyond, place,
  absorb_before, absorb_joins, absorb_touches, absorb_beyond,
}
use cartridge_rs.Allocator.Extent.Coalesce.{
  remove_all_head, remove_all_one, remove_all_none, add_free-eq-absorb,
}

-- A neighbour across a gap is left alone; one that touches is merged, and its key is to be removed.
neighbour_gap :
    (j : ℕ) (e f : Extent)
    → 0 < e.length
    → 0 < f.length
    → (f.start + f.length < e.start) ⊎ (e.start + e.length < f.start)
    → merge_neighbour e (some (j, f)) ≡ (e, [])
unfolding merge_neighbour is_adjacent
neighbour_gap j e f p q g = ground arith

neighbour_joined :
    (k : ℕ) (e h : Extent)
    → 0 < e.length
    → 0 < h.length
    → h.start ≡ k
    → k + h.length ≡ e.start
    → merge_neighbour e (some (k, h)) ≡ (record { start = k; length = h.length + e.length }, k ∷ [])
unfolding merge_neighbour is_adjacent coalesce
neighbour_joined k e h p q s t = ground arith

neighbour_above :
    (j : ℕ) (e f : Extent)
    → 0 < e.length
    → 0 < f.length
    → e.start + e.length ≡ f.start
    → merge_neighbour e (some (j, f))
      ≡ (record { start = e.start; length = e.length + f.length }, j ∷ [])
unfolding merge_neighbour is_adjacent coalesce
neighbour_above j e f p q t = ground arith

abbrev EntryAfter : ℕ → Option (ℕ × Extent) → Type 0
EntryAfter lo none = Unit
EntryAfter lo (some (j, f)) = (lo < j) × (lo < f.start)

-- What a merge with a neighbour after `lo` gives lies after `lo` and ends no earlier.
record GrownAfter (lo : ℕ) (e : Extent) (out : Extent × List ℕ) : Type 0 where
  start_after : lo < out.0.start
  keys_after : KeysAfter lo out.1
  end_kept : e.start + e.length ≤ out.0.start + out.0.length

merge_neighbour_after :
    (lo : ℕ) (e : Extent) (o : Option (ℕ × Extent))
    → lo < e.start
    → EntryAfter lo o
    → GrownAfter lo e (merge_neighbour e o)
unfolding merge_neighbour is_adjacent coalesce
merge_neighbour_after lo e none h a = record {
  start_after = h;
  keys_after = tt;
  end_kept = omega arith;
}
merge_neighbour_after lo e (some (j, f)) h a = ground arith

last_below_after : (lo hi x : ℕ) (m : ExtentMap) → Wf (suc lo) hi m → EntryAfter lo (last_below x m)
unfolding last_below
last_below_after lo hi x [] w = tt
last_below_after lo hi x ((k, h) ∷ m) w = ground (
  arith,
  last_below_after lo hi x m (Wf-weaken (k + h.length + 1) (suc lo) hi m (omega arith) w.4),
)

first_from_after : (lo hi x : ℕ) (m : ExtentMap) → Wf (suc lo) hi m → EntryAfter lo (first_from x m)
unfolding first_from
first_from_after lo hi x [] w = tt
first_from_after lo hi x ((k, h) ∷ m) w = ground (
  arith,
  first_from_after lo hi x m (Wf-weaken (k + h.length + 1) (suc lo) hi m (omega arith) w.4),
)

last_below_none : (lo hi x : ℕ) (m : ExtentMap) → Wf lo hi m → x ≤ lo → last_below x m ≡ none
unfolding last_below
last_below_none lo hi x [] w h = refl
last_below_none lo hi x ((k, f) ∷ m) w h = ground arith

first_from_skip :
    (x k : ℕ) (h : Extent) (m : ExtentMap) → k < x → first_from x ((k, h) ∷ m) ≡ first_from x m
unfolding first_from
first_from_skip x k h m p = ground arith

first_from_head :
    (x k : ℕ) (h : Extent) (m : ExtentMap) → x ≤ k → first_from x ((k, h) ∷ m) ≡ some (k, h)
unfolding first_from
first_from_head x k h m p = ground arith

module _ (x k : ℕ) (h : Extent) where
  last_below_only :
      (m : ExtentMap) → k < x → last_below x m ≡ none → last_below x ((k, h) ∷ m) ≡ some (k, h)
  unfolding last_below
  last_below_only m p e = ground arith

  last_below_more :
      (r : ℕ × Extent) (m : ExtentMap)
      → k < x
      → last_below x m ≡ some r
      → last_below x ((k, h) ∷ m) ≡ some r
  unfolding last_below
  last_below_more r m p e = ground arith

neighbour_missing : (e : Extent) → merge_neighbour e none ≡ (e, [])
unfolding merge_neighbour
neighbour_missing e = refl

-- An entry across a gap makes no difference to the lookup of the lower neighbour.
last_below_skip :
    (k : ℕ) (e h : Extent) (m : ExtentMap)
    → h.start ≡ k
    → 0 < e.length
    → 0 < h.length
    → k + h.length < e.start
    → merge_neighbour e (last_below e.start ((k, h) ∷ m)) ≡ merge_neighbour e (last_below e.start m)
last_below_skip k e h m s p q r = elim (Option-cases (last_below e.start m)) [
  | inl alone ↦
      rw (last_below_only e.start k h m (omega arith) alone, alone)
        (neighbour_gap k e h p q (inl (omega arith)) ∙ sym (neighbour_missing e))
  | inr (found, eq) ↦ rw (last_below_more e.start k h found m (omega arith) eq, eq)
]

KeysAfter-append :
    (lo : ℕ) (js ks : List ℕ) → KeysAfter lo js → KeysAfter lo ks → KeysAfter lo (js ++ ks)
KeysAfter-append lo [] ks a b = b
KeysAfter-append lo (j ∷ js) ks a b = (a.0, KeysAfter-append lo js ks a.1 b)

-- The second half: the upper neighbour of `e1`, the removals and the insertion.
finish : Extent × List ℕ → ExtentMap → ExtentMap
finish (e1, prev_key) m =
    let (e2, next_key) = merge_neighbour e1 (first_from (e1.start + e1.length) m) in
    insert e2.start e2 (remove_all (prev_key ++ next_key) m)

insert_and_coalesce-eq-finish :
    (e : Extent) (m : ExtentMap)
    → insert_and_coalesce e m ≡ finish (merge_neighbour e (last_below e.start m)) m
unfolding insert_and_coalesce finish
insert_and_coalesce-eq-finish e m = refl

finish_before :
    (hi k : ℕ) (e h : Extent) (out : Extent × List ℕ) (m : ExtentMap)
    → Wf (suc k) hi m
    → k < e.start + e.length
    → GrownAfter k e out
    → finish out ((k, h) ∷ m) ≡ (k, h) ∷ finish out m
unfolding finish
finish_before hi k e h (e1, keys) m w p g =
    let x = e1.start + e1.length in
    let o = first_from x m in
    let g2 : GrownAfter k e1 (merge_neighbour e1 o) =
      merge_neighbour_after k e1 o g.start_after (first_from_after k hi x m w) in
    rw
      (
        first_from_skip x k h m (omega (arith, g.end_kept)),
        remove_all_after k h (keys ++ (merge_neighbour e1 o).1) m
            (KeysAfter-append k keys (merge_neighbour e1 o).1 g.keys_after g2.keys_after),
      )
      (insert_after k (merge_neighbour e1 o).0.start h (merge_neighbour e1 o).0
        (remove_all (keys ++ (merge_neighbour e1 o).1) m) g2.start_after)

-- With nothing to remove, and every entry of the map above the extent.
finish_front :
    (lo hi : ℕ) (e : Extent) (m : ExtentMap)
    → Wf lo hi m
    → e.start < lo
    → 0 < e.length
    → IsNew e m
    → finish (e, []) m ≡ absorb e m
unfolding finish
finish_front lo hi e [] w l p n = unfold first_from merge_neighbour remove_all insert absorb in refl
finish_front lo hi e ((j, f) ∷ m) w l p n =
    let x = e.start + e.length in
    elim (place lo hi j e f m w p n) [
      | before q ↦ absurd (omega arith)
      | joins q ↦ absurd (omega arith)
      | touches q ↦
          let merged : Extent = record { start = e.start; length = e.length + f.length } in
          rw
            (
              absorb_touches j e f m w.2 q p,
              first_from_head x j f m (omega arith),
              neighbour_above j e f p w.2 (omega arith),
              remove_all_one j f m,
            )
            (insert_front (j + f.length + 1) hi e.start merged m (omega arith) w.4)
      | beyond q ↦
          rw
            (
              absorb_beyond j e f m q,
              first_from_head x j f m (omega arith),
              neighbour_gap j e f p w.2 (inr (omega arith)),
              remove_all_none ((j, f) ∷ m),
            )
            (insert_front lo hi e.start e ((j, f) ∷ m) l w)
    ]

-- A lower neighbour that was merged is removed from the map.
finish_drop :
    (k : ℕ) (h e1 : Extent) (m : ExtentMap)
    → k < e1.start + e1.length
    → finish (e1, k ∷ []) ((k, h) ∷ m) ≡ finish (e1, []) m
unfolding finish
finish_drop k h e1 m p = rw (
  first_from_skip (e1.start + e1.length) k h m p,
  remove_all_head k h (merge_neighbour e1 (first_from (e1.start + e1.length) m)).1 m,
)

-- An extent below every entry has no lower neighbour.
insert_alone :
    (hi k : ℕ) (e : Extent) (m : ExtentMap)
    → Wf k hi m
    → e.start < k
    → 0 < e.length
    → IsNew e m
    → insert_and_coalesce e m ≡ absorb e m
insert_alone hi k e m w q p n =
    rw
      (
        insert_and_coalesce-eq-finish e m,
        last_below_none k hi e.start m w (omega arith),
        neighbour_missing e,
      )
      (finish_front k hi e m w q p n)

-- The lower neighbour touches.
insert_joined :
    (lo hi k : ℕ) (e h : Extent) (m : ExtentMap)
    → Wf lo hi ((k, h) ∷ m)
    → 0 < e.length
    → k + h.length ≡ e.start
    → IsNew e ((k, h) ∷ m)
    → insert_and_coalesce e ((k, h) ∷ m)
      ≡ absorb (record { start = k; length = h.length + e.length }) m
insert_joined lo hi k e h m w p q n =
    let e1 : Extent = record { start = k; length = h.length + e.length } in
    let none_below : last_below e.start m ≡ none =
      last_below_none (k + h.length + 1) hi e.start m w.4 (omega arith) in
    rw
      (
        insert_and_coalesce-eq-finish e ((k, h) ∷ m),
        last_below_only e.start k h m (omega arith) none_below,
        neighbour_joined k e h p w.2 w.0 q,
        finish_drop k h e1 m (omega arith),
      )
      (finish_front (k + h.length + 1) hi e1 m w.4 (omega arith) (omega arith)
        (IsNew-joined lo hi k e h m w q n))

pub insert_and_coalesce-eq-absorb :
    (lo hi : ℕ) (e : Extent) (m : ExtentMap)
    → Wf lo hi m
    → 0 < e.length
    → IsNew e m
    → insert_and_coalesce e m ≡ absorb e m
insert_and_coalesce-eq-absorb lo hi e [] w p n =
    unfold insert_and_coalesce merge_neighbour last_below first_from remove_all insert absorb in
    refl
insert_and_coalesce-eq-absorb lo hi e ((k, h) ∷ m) w p n =
    let tail =
      insert_and_coalesce-eq-absorb (k + h.length + 1) hi e m w.4 p (IsNew-tail k e h m n) in
    let here : Wf k hi ((k, h) ∷ m) = (w.0, le_refl k, w.2, w.3, w.4) in
    elim (place lo hi k e h m w p n) [
      | before q ↦
          let wider = Wf-weaken (k + h.length + 1) (suc k) hi m (omega arith) w.4 in
          rw
            (
              absorb_before k e h m q,
              ← tail,
              insert_and_coalesce-eq-finish e ((k, h) ∷ m),
              insert_and_coalesce-eq-finish e m,
              last_below_skip k e h m w.0 p w.2 q,
            )
            (finish_before hi k e h (merge_neighbour e (last_below e.start m)) m wider (omega arith)
              (merge_neighbour_after k e (last_below e.start m) (omega arith)
                (last_below_after k hi e.start m wider)))
      | joins q ↦ rw (absorb_joins k e h m q) (insert_joined lo hi k e h m w p q n)
      | touches q ↦ insert_alone hi k e ((k, h) ∷ m) here (omega arith) p n
      | beyond q ↦ insert_alone hi k e ((k, h) ∷ m) here (omega arith) p n
    ]

-- On a valid map, and for an extent of which no block is free yet, the two insertion routines give
-- the same map. It is again sorted, disjoint and fully coalesced, and its free blocks are exactly
-- the old ones and those of the extent.
pub insertions_agree :
    (hi : ℕ) (e : Extent) (m : ExtentMap)
    → Wf 0 hi m
    → 0 < e.length
    → e.start + e.length ≤ hi
    → IsNew e m
    → (insert_and_coalesce e m ≡ add_free_extent_with_coalesce e m)
      × Wf 0 hi (insert_and_coalesce e m)
      × ((c : ℕ) → free_at (insert_and_coalesce e m) c ≡ (has e c || free_at m c))
insertions_agree hi e m w p b n =
    let same = insert_and_coalesce-eq-absorb 0 hi e m w p n in
    let (w', f) = absorb_lem 0 hi e m w (omega arith) p b n in
    (same ∙ sym (add_free-eq-absorb 0 hi e m w p n), rw same w', rw same f)
