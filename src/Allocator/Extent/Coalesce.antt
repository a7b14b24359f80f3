-- ===== src/Allocator/Extent/Coalesce.antt =====
-- `insert_and_coalesce` and `add_free_extent_with_coalesce` are both `absorb` on a valid map.
use cartridge_rs.Prelude.{
  ℕ, suc, ◌+◌, ◌<◌, ◌≡◌, refl, min, List, [], ◌∷◌, none, some, Option-cases, inl, inr, arith,
}
use cartridge_rs.Allocator.Extent.{
  Extent, ExtentMap, coalesce, insert, remove_all, merge_all, add_free_extent_with_coalesce,
}
use cartridge_rs.Allocator.Extent.Valid.{
  Wf, Wf-weaken, KeysAfter, insert_front, insert_after, remove_head, remove_all_after,
}
use cartridge_rs.Allocator.Extent.Absorb.{
  absorb, IsNew, IsNew-tail, IsNew-joined, before, joins, touches, beyond, place, absorb_before,
  absorb_joins, absorb_touches, absorb_beyond,
}

module _ (k : ℕ) (e h : Extent) (s : h.start ≡ k) (p : 0 < e.length) (q : 0 < h.length) where
  coalesce_before : k + h.length < e.start → coalesce e h ≡ none
  unfolding coalesce
  coalesce_before r = ground arith

  coalesce_beyond : e.start + e.length < k → coalesce e h ≡ none
  unfolding coalesce
  coalesce_beyond r = ground arith

  coalesce_joins :
      k + h.length ≡ e.start
      → coalesce e h ≡ some (record { start = k; length = h.length + e.length })
  unfolding coalesce
  coalesce_joins r = ground arith

  coalesce_touches :
      e.start + e.length ≡ k
      → coalesce e h ≡ some (record { start = e.start; length = e.length + h.length })
  unfolding coalesce
  coalesce_touches r = ground arith

coalesce_start : (e f g : Extent) → coalesce e f ≡ some g → g.start ≡ min e.start f.start
unfolding coalesce
coalesce_start e f g h = ground arith

module _ (k : ℕ) (e h : Extent) (m : ExtentMap) where
  merge_all_skip : coalesce e h ≡ none → merge_all e ((k, h) ∷ m) ≡ merge_all e m
  unfolding merge_all
  merge_all_skip c = rw (c, merge_all)

  merge_all_join :
      (g : Extent)
      → coalesce e h ≡ some g
      → merge_all e ((k, h) ∷ m) ≡ ((merge_all g m).0, k ∷ (merge_all g m).1)
  unfolding merge_all
  merge_all_join g c = rw (c, merge_all)

-- Extents that lie beyond a gap are not merged.
merge_all_far :
    (lo hi : ℕ) (e : Extent) (m : ExtentMap)
    → Wf lo hi m
    → 0 < e.length
    → e.start + e.length < lo
    → merge_all e m ≡ (e, [])
unfolding merge_all
merge_all_far lo hi e [] w p r = refl
merge_all_far lo hi e ((k, h) ∷ m) w p r =
    rw (merge_all_skip k e h m (coalesce_beyond k e h w.0 p w.2 (omega arith)))
      (merge_all_far (k + h.length + 1) hi e m w.4 p (omega arith))

merge_all_after :
    (lo hi : ℕ) (e : Extent) (m : ExtentMap)
    → Wf (suc lo) hi m
    → lo < e.start
    → (lo < (merge_all e m).0.start) × KeysAfter lo (merge_all e m).1
unfolding merge_all
merge_all_after lo hi e [] w r = (r, tt)
merge_all_after lo hi e ((k, h) ∷ m) w r =
    let tail = Wf-weaken (k + h.length + 1) (suc lo) hi m (omega arith) w.4 in
    elim (Option-cases (coalesce e h)) [
      | inl apart ↦ rw (merge_all_skip k e h m apart) (merge_all_after lo hi e m tail r)
      | inr (g, found) ↦
          let ih = merge_all_after lo hi g m tail (omega (arith, coalesce_start e h g found)) in
          rw (merge_all_join k e h m g found) (ih.0, (omega arith, ih.1))
    ]

pub remove_all_head :
    (k : ℕ) (h : Extent) (keys : List ℕ) (m : ExtentMap)
    → remove_all (k ∷ keys) ((k, h) ∷ m) ≡ remove_all keys m
unfolding remove_all
remove_all_head k h keys m = rw (remove_head k h m)

pub remove_all_one : (k : ℕ) (h : Extent) (m : ExtentMap) → remove_all (k ∷ []) ((k, h) ∷ m) ≡ m
unfolding remove_all
remove_all_one k h m = remove_head k h m

pub remove_all_none : (m : ExtentMap) → remove_all [] m ≡ m
unfolding remove_all
remove_all_none m = refl

pub add_free-eq-absorb :
    (lo hi : ℕ) (e : Extent) (m : ExtentMap)
    → Wf lo hi m
    → 0 < e.length
    → IsNew e m
    → add_free_extent_with_coalesce e m ≡ absorb e m
unfolding add_free_extent_with_coalesce
add_free-eq-absorb lo hi e [] w p n = unfold merge_all remove_all insert absorb in refl
add_free-eq-absorb lo hi e ((k, h) ∷ m) w p n =
    let e' : Extent = record { start = k; length = h.length + e.length } in
    let tail = add_free-eq-absorb (k + h.length + 1) hi e m w.4 p (IsNew-tail k e h m n) in
    let joined = add_free-eq-absorb (k + h.length + 1) hi e' m w.4 (omega arith) in
    elim (place lo hi k e h m w p n) [
      | before q ↦
          let after =
            merge_all_after k hi e m (Wf-weaken (k + h.length + 1) (suc k) hi m (omega arith) w.4)
              (omega arith) in
          rw
            (
              absorb_before k e h m q,
              ← tail,
              merge_all_skip k e h m (coalesce_before k e h w.0 p w.2 q),
              remove_all_after k h (merge_all e m).1 m after.1,
            )
            (insert_after k (merge_all e m).0.start h (merge_all e m).0
              (remove_all (merge_all e m).1 m) after.0)
      | joins q ↦ rw (
        absorb_joins k e h m q,
        ← joined (IsNew-joined lo hi k e h m w q n),
        merge_all_join k e h m e' (coalesce_joins k e h w.0 p w.2 q),
        remove_all_head k h (merge_all e' m).1 m,
      )
      | touches q ↦
          let e'' : Extent = record { start = e.start; length = e.length + h.length } in
          rw
            (
              absorb_touches k e h m w.2 q p,
              merge_all_join k e h m e'' (coalesce_touches k e h w.0 p w.2 q),
              merge_all_far (k + h.length + 1) hi e'' m w.4 (omega arith) (omega arith),
              remove_all_one k h m,
            )
            (insert_front (k + h.length + 1) hi e.start e'' m (omega arith) w.4)
      | beyond q ↦
          rw
            (
              absorb_beyond k e h m q,
              merge_all_skip k e h m (coalesce_beyond k e h w.0 p w.2 q),
              merge_all_far (k + h.length + 1) hi e m w.4 p (omega arith),
              remove_all_none ((k, h) ∷ m),
            )
            (insert_front k hi e.start e ((k, h) ∷ m) (omega arith)
              (w.0, omega arith, w.2, w.3, w.4))
    ]
