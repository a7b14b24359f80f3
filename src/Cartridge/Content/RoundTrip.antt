-- ===== src/Cartridge/Content/RoundTrip.antt =====
-- What `write_content` stores, `read_content` returns.
use cartridge_rs.Prelude.{
  ℕ, ◌*◌, ◌-◌, ◌≤◌, ◌<◌, min, ◌≡◌, refl, sym, ◌∙◌, ap, true, false, List, [], ◌∷◌, ◌++◌, Option,
  some, length, ◌==◌, ==_refl, take, drop, resize, contains, Distinct, is_empty, if◌then◌else◌,
  Result, ok, arith, Bool-cases, inl, inr, length-take, length-drop, take-append-drop, take-resize,
}
use mathlib.Core.List.{append_assoc, append-nil}
use cartridge_rs.Header.{page_size}
use cartridge_rs.Cartridge.Content.{
  Disk, Pages, insert_page, insert_dirty, write_content, load_page, load_from, read_blocks,
  read_content,
}

pub insert_page_self : (b : ℕ) (d : List ℕ) (pages : Pages) → insert_page b d pages b ≡ some d
unfolding insert_page
insert_page_self b d pages = rw (==_refl b) refl

insert_page_other :
    (b c : ℕ) (d : List ℕ) (pages : Pages) → (b == c) ≡ false → insert_page b d pages c ≡ pages c
unfolding insert_page
insert_page_other b c d pages h = rw h refl

-- The page of a block that holds the front of `content`.
abbrev front_page : List ℕ → List ℕ
front_page content = resize page_size 0 (take page_size content)

abbrev stored : ℕ → List ℕ → Pages × List ℕ → Pages × List ℕ
stored b content s = (insert_page b (front_page content) s.0, insert_dirty b s.1)

write_content_last :
    (b : ℕ) (blocks content : List ℕ) (s : Pages × List ℕ)
    → is_empty (drop page_size content) ≡ true
    → write_content (b ∷ blocks) content s ≡ stored b content s
unfolding write_content
write_content_last b blocks content s h = rw h refl

write_content_more :
    (b : ℕ) (blocks content : List ℕ) (s : Pages × List ℕ)
    → is_empty (drop page_size content) ≡ false
    → write_content (b ∷ blocks) content s
      ≡ write_content blocks (drop page_size content) (stored b content s)
unfolding write_content
write_content_more b blocks content s h = rw h refl

-- Pages that are not among the blocks stay as they are.
pub write_content_other :
    (blocks content : List ℕ) (s : Pages × List ℕ) (b : ℕ)
    → contains blocks b ≡ false
    → (write_content blocks content s).0 b ≡ s.0 b
unfolding contains
write_content_other [] content s b h = unfold write_content in refl
write_content_other (x ∷ blocks) content s b h =
    let e : (x == b) ≡ false = ground (arith) in
    let other = insert_page_other x b (front_page content) s.0 e in
    elim (Bool-cases (is_empty (drop page_size content))) [
      | inl last ↦ ap (λ t. t.0 b) (write_content_last x blocks content s last) ∙ other
      | inr more ↦
          ap (λ t. t.0 b) (write_content_more x blocks content s more)
          ∙ write_content_other blocks (drop page_size content) (stored x content s) b
              (ground arith)
          ∙ other
    ]

-- The pages of the blocks hold `content`, one page after the other, as far as it goes.
abbrev pub Written : List ℕ → List ℕ → Pages → Type 0
Written [] content pages = Unit
Written (b ∷ blocks) content pages =
    (pages b ≡ some (front_page content))
    × (is_empty (drop page_size content) ≡ false → Written blocks (drop page_size content) pages)

pub write_content-Written :
    (blocks content : List ℕ) (s : Pages × List ℕ)
    → Distinct blocks
    → Written blocks content (write_content blocks content s).0
write_content-Written [] content s d = tt
write_content-Written (b ∷ blocks) content s d =
    let page = insert_page_self b (front_page content) s.0 in
    elim (Bool-cases (is_empty (drop page_size content))) [
      | inl last ↦
          rw (write_content_last b blocks content s last) (page, λ more. absurd (cc (last, more)))
      | inr more ↦ rw (write_content_more b blocks content s more) (
        write_content_other blocks (drop page_size content) (stored b content s) b d.0 ∙ page,
        λ _. write_content-Written blocks (drop page_size content) (stored b content s) d.1,
      )
    ]

-- Pages that agree on the blocks hold the same content.
pub Written-agree :
    (blocks content : List ℕ) (p q : Pages)
    → ((b : ℕ) → contains blocks b ≡ true → q b ≡ p b)
    → Written blocks content p
    → Written blocks content q
unfolding contains
Written-agree [] content p q h w = tt
Written-agree (b ∷ blocks) content p q h w = (
  h b (rw (==_refl b) refl) ∙ w.0,
  λ more. Written-agree blocks (drop page_size content) p q (λ c i. h c (ground arith)) (w.1 more),
)

load_cached :
    (b : ℕ) (file : Option Disk) (pages : Pages) (d : List ℕ)
    → pages b ≡ some d
    → load_page b file pages ≡ (ok d, pages)
unfolding load_page
load_cached b file pages d h = ap (λ o. load_from o b file pages) h

-- The chunk read from the front page is the front of the content.
front_chunk :
    (content : List ℕ)
    → take (min (length content) page_size) (front_page content) ≡ take page_size content
front_chunk content =
    let n : length (take page_size content) ≡ min (length content) page_size =
      omega (arith, length-take page_size content) in
    ap (λ k. take k (front_page content)) (sym n)
    ∙ take-resize page_size 0 (take page_size content) (omega (arith, n))

pub is_empty-length : (xs : List ℕ) → is_empty xs ≡ true → length xs ≡ 0
unfolding is_empty
is_empty-length [] h = refl
is_empty-length (x ∷ xs) h = absurd (cc h)

not_empty-length : (xs : List ℕ) → is_empty xs ≡ false → 0 < length xs
unfolding is_empty
not_empty-length [] h = absurd (cc h)
not_empty-length (x ∷ xs) h = omega arith

is_empty-eq : (xs : List ℕ) → is_empty xs ≡ true → xs ≡ []
unfolding is_empty
is_empty-eq [] h = refl
is_empty-eq (x ∷ xs) h = absurd (cc h)

neq→== : (a b : ℕ) → b < a → (a == b) ≡ false
neq→== a b h = ground arith

read_step :
    (b : ℕ) (blocks content acc : List ℕ) (file : Option Disk) (pages : Pages)
    → pages b ≡ some (front_page content)
    → read_blocks (b ∷ blocks) (length content) acc file pages ≡ (
        if length (drop page_size content) == 0
        then (ok (acc ++ take page_size content), pages)
        else read_blocks blocks
            (length (drop page_size content))
            (acc ++ take page_size content)
            file
            pages)
unfolding read_blocks
read_step b blocks content acc file pages h =
    let left : length content - min (length content) page_size ≡ length (drop page_size content) =
      omega (arith, length-drop page_size content) in
    rw (load_cached b file pages (front_page content) h, left, front_chunk content) refl

abbrev done : Pages → List ℕ → Result (List ℕ) × Pages
done pages content = (ok content, pages)

pub read_blocks-Written :
    (blocks content acc : List ℕ) (file : Option Disk) (pages : Pages)
    → Written blocks content pages
    → length content ≤ page_size * length blocks
    → read_blocks blocks (length content) acc file pages ≡ (ok (acc ++ content), pages)
read_blocks-Written [] [] acc file pages w h =
    unfold read_blocks in ap (done pages) (sym (append-nil acc))
read_blocks-Written [] (x ∷ content) acc file pages w h = absurd (omega arith)
read_blocks-Written (b ∷ blocks) content acc file pages w h =
    let rest = drop page_size content in
    let whole : (acc ++ take page_size content) ++ rest ≡ acc ++ content =
      append_assoc acc (take page_size content) rest
      ∙ ap (λ c. acc ++ c) (take-append-drop page_size content) in
    read_step b blocks content acc file pages w.0 ∙ elim (Bool-cases (is_empty rest)) [
      | inl last ↦
          let none_left : (length rest == 0) ≡ true =
            ap (λ k. k == 0) (is_empty-length rest last) in
          let all : acc ++ take page_size content ≡ acc ++ content =
            sym (
              ap (λ r. (acc ++ take page_size content) ++ r) (is_empty-eq rest last)
              ∙ append-nil (acc ++ take page_size content))
            ∙ whole in
          rw none_left (ap (done pages) all)
      | inr more ↦
          let some_left : (length rest == 0) ≡ false =
            neq→== (length rest) 0 (not_empty-length rest more) in
          rw some_left (
            read_blocks-Written blocks rest (acc ++ take page_size content) file pages (w.1 more)
              (omega (arith, length-drop page_size content))
            ∙ ap (done pages) whole)
    ]

-- When the content fits its blocks, which are distinct, `read_content` of its length returns it
-- from the pages that `write_content` stored, and changes no page.
pub read_content-write_content :
    (blocks content : List ℕ) (s : Pages × List ℕ) (file : Option Disk)
    → Distinct blocks
    → length content ≤ page_size * length blocks
    → read_content blocks (length content) file (write_content blocks content s).0
      ≡ (ok content, (write_content blocks content s).0)
unfolding read_content
read_content-write_content blocks content s file d h =
    read_blocks-Written blocks content [] file (write_content blocks content s).0
      (write_content-Written blocks content s d) h
