-- ===== src/Cartridge/Content.antt =====
-- src/core/cartridge.rs: `write_content` and `read_content`, and the raw pages of src/core/io.rs.
-- The cache of pages is a function, and the file is the list of its pages. Errors of the operating
-- system other than a read past the end are not modelled.
pub mod RoundTrip
use cartridge_rs.Prelude.{
  ℕ, ◌-◌, min, Bool, List, [], ◌∷◌, ◌++◌, Option, none, some, get_elem?, set, length, ltb, ◌==◌,
  take, drop, resize, replicate, contains, is_empty, if◌then◌else◌, Result, ok, err, io, allocation,
}
use cartridge_rs.Header.{page_size}

-- The state is threaded through `?`: an error ends the computation with the changes made so far.
abbrev pub then_do {ℓ κ μ} :
    {A : Type ℓ} {B : Type κ} {S : Type μ} → Result A × S → (A → S → Result B × S) → Result B × S
then_do (ok a, s) next = next a s
then_do (err e, s) next = (err e, s)

abbrev pub Page : Type 0
Page = List ℕ

abbrev pub Disk : Type 0
Disk = List Page

abbrev pub Pages : Type 0
Pages = ℕ → Option Page

abbrev pub no_pages : Pages
no_pages page_id = none

abbrev pub zero_page : Page
zero_page = replicate page_size 0

-- `read_exact` fails past the end of the file.
abbrev pub read_page_data : ℕ → Disk → Result Page
read_page_data page_id disk = elim (get_elem? disk page_id) [
  | none ↦ err io
  | some page_data ↦ ok page_data
]

unfoldable pub extend : ℕ → Disk → Disk
extend new_total_blocks disk = resize new_total_blocks zero_page disk

unfoldable pub insert_page : ℕ → Page → Pages → Pages
insert_page page_id page_data pages id = if page_id == id then some page_data else pages id

unfoldable pub insert_dirty : ℕ → List ℕ → List ℕ
insert_dirty page_id dirty_pages =
    if contains dirty_pages page_id then dirty_pages else page_id ∷ dirty_pages

-- `content` is what is left from `offset` on.
unfoldable pub write_content : List ℕ → List ℕ → Pages × List ℕ → Pages × List ℕ
write_content [] content s = s
write_content (block_id ∷ blocks) content s =
    let page_data = resize page_size 0 (take page_size content) in
    let stored : Pages × List ℕ = (insert_page block_id page_data s.0, insert_dirty block_id s.1) in
    let rest = write_content blocks (drop page_size content) stored in
    if is_empty (drop page_size content) then stored else rest

-- The page from the file goes to the cache.
abbrev pub cache_page : ℕ → Result Page → Pages → Result Page × Pages
cache_page block_id (err e) pages = (err e, pages)
cache_page block_id (ok page_data) pages = (ok page_data, insert_page block_id page_data pages)

abbrev pub load_uncached : ℕ → Option Disk → Pages → Result Page × Pages
load_uncached block_id none pages = (err allocation, pages)
load_uncached block_id (some file) pages = cache_page block_id (read_page_data block_id file) pages

abbrev pub load_from : Option Page → ℕ → Option Disk → Pages → Result Page × Pages
load_from (some page_data) block_id file pages = (ok page_data, pages)
load_from none block_id file pages = load_uncached block_id file pages

unfoldable pub load_page : ℕ → Option Disk → Pages → Result Page × Pages
load_page block_id file pages = load_from (pages block_id) block_id file pages

-- The slice `page_data[..chunk_size]` is within the page, which has `page_size` bytes.
unfoldable pub read_blocks : List ℕ → ℕ → List ℕ → Option Disk → Pages → Result (List ℕ) × Pages
read_blocks [] remaining content file pages = (ok content, pages)
read_blocks (block_id ∷ blocks) remaining content file pages =
    then_do (load_page block_id file pages) (λ page_data pages'.
      let content' = content ++ take (min remaining page_size) page_data in
      let left = remaining - min remaining page_size in
      let rest = read_blocks blocks left content' file pages' in
      if left == 0 then (ok content', pages') else rest)

unfoldable pub read_content : List ℕ → ℕ → Option Disk → Pages → Result (List ℕ) × Pages
read_content blocks total_size file pages = read_blocks blocks total_size [] file pages
