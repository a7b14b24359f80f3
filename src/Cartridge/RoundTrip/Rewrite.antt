-- ===== src/Cartridge/RoundTrip/Rewrite.antt =====
-- A file that was written again is read back.
use cartridge_rs.Prelude.{
  ℕ, ◌+◌, ◌^◌, ◌<◌, ◌≡◌, refl, sym, ◌∙◌, ap, inl, inr, Bool, true, false, List, [], ◌∷◌, Option,
  none, some, Text, length, bytes_eq, bytes_eq→eq, if◌then◌else◌, Bool-cases, arith, ok,
  parse-to_decimal,
}
use mathlib.Core.Path.{subst}
use cartridge_rs.Header.{page_size}
use cartridge_rs.Catalog
use cartridge_rs.Catalog.{FileMetadata, TextMap, touch, text_get, text_insert, text_remove, is_file}
use cartridge_rs.Encryption.{
  EncryptionConfig, encryption_overhead, nonce_size, decrypt_if_encrypted,
}
use cartridge_rs.Encryption.RoundTrip.{decrypt-encrypt}
use cartridge_rs.Iam.Policy
use cartridge_rs.Allocator.Bitmap.{blocks_for}
use cartridge_rs.Cartridge.Content.RoundTrip.{Written}
use cartridge_rs.Cartridge.State.{Crates, Moment, Archive, check_access}
use cartridge_rs.Cartridge.Files.{
  encrypted_key, encrypted_size_key, was_encrypted, read_size, open_with, unseal, fetch, read_entry,
  read_file, write_file, seal_with,
}
use cartridge_rs.Cartridge.Consistency.{IsConsistent, with_engine, check_access_lem}
use cartridge_rs.Cartridge.Consistency.Write.{
  rewritten, remark_if_blocks, IsReplaced, HasRoom, write_file_lem,
}
use cartridge_rs.Cartridge.RoundTrip.{
  IsSealing, plain, encrypted, seal_lem, sealed_size, fetch_lem, read_entry_of, read_permitted,
}

text_get-remove : (k : Text) (m : TextMap) → text_get k (text_remove k m) ≡ none
unfolding text_get text_remove
text_get-remove k [] = refl
text_get-remove k ((j, v) ∷ m) = elim (Bool-cases (bytes_eq j k)) [
  | inl same ↦ rw same (text_get-remove k m)
  | inr other ↦ rw (other, other) (text_get-remove k m)
]

text_get-remove_other :
    (k i : Text) (m : TextMap) → bytes_eq i k ≡ false → text_get k (text_remove i m) ≡ text_get k m
unfolding text_get text_remove
text_get-remove_other k i [] d = refl
text_get-remove_other k i ((j, v) ∷ m) d = elim (Bool-cases (bytes_eq j i)) [
  | inl same ↦
      let e : bytes_eq j k ≡ false = ap (λ x. bytes_eq x k) (bytes_eq→eq j i same) ∙ d in
      rw (same, e) (text_get-remove_other k i m d)
  | inr other ↦
      rw other (ap (λ t. if bytes_eq j k then some v else t) (text_get-remove_other k i m d))
]

keys_differ : bytes_eq encrypted_size_key encrypted_key ≡ false
unfolding bytes_eq
keys_differ = refl

unmarked :
    (m : TextMap)
    → text_get encrypted_key (text_remove encrypted_size_key (text_remove encrypted_key m)) ≡ none
unmarked m =
    text_get-remove_other encrypted_key encrypted_size_key (text_remove encrypted_key m) keys_differ
    ∙ text_get-remove encrypted_key m

module _ {Json : Type 0} (crates : Crates Json) where
  module _ (moment : Moment) (path : Text) (content : List ℕ) where
    is_file-rewritten :
        (m : FileMetadata) (sealed : List ℕ × Bool) (ids : List ℕ)
        → is_file m ≡ true
        → is_file (rewritten crates moment path content m sealed ids) ≡ true
    is_file-rewritten m (out, true) ids f = f
    is_file-rewritten m (out, false) ids f = f

    was_plain :
        (m : FileMetadata) (ids : List ℕ)
        → was_encrypted (rewritten crates moment path content m (content, false) ids) ≡ false
    unfolding was_encrypted
    was_plain m ids = rw (unmarked m.user_metadata) refl

    read_size-rewritten :
        (config : Option EncryptionConfig) (m : FileMetadata) (sealed : List ℕ × Bool)
        (ids : List ℕ)
        → IsSealing crates config moment.nonce content sealed
        → length sealed.0 < 2 ^ 64
        → read_size (rewritten crates moment path content m sealed ids) ≡ length sealed.0
    unfolding read_size
    read_size-rewritten config m sealed ids plain u = rw (was_plain m ids) refl
    read_size-rewritten config m sealed ids (encrypted k out c run) u =
        unfold was_encrypted text_get text_insert text_remove bytes_eq in
        rw (parse-to_decimal (length out) u) refl

    unseal-rewritten :
        (config : Option EncryptionConfig) (m : FileMetadata) (sealed : List ℕ × Bool)
        (ids : List ℕ) (s : Archive crates)
        → length moment.nonce ≡ nonce_size
        → s.encryption_config ≡ config
        → IsSealing crates config moment.nonce content sealed
        → unseal crates (rewritten crates moment path content m sealed ids) sealed.0 s ≡ ok content
    unfolding unseal
    unseal-rewritten config m sealed ids s n e plain = rw (was_plain m ids) refl
    unseal-rewritten config m sealed ids s n e (encrypted k out c run) =
        unfold was_encrypted text_get text_insert text_remove bytes_eq in
        ap (λ o. open_with crates o out) (e ∙ c)
        ∙ unfold decrypt_if_encrypted in
          (decrypt-encrypt crates.cipher moment.nonce content k.master_key out n run).0

    -- The entry that `write_file` left can be read in every state with its pages.
    rewritten_entry :
        (config : Option EncryptionConfig) (m : FileMetadata) (sealed : List ℕ × Bool)
        (ids : List ℕ) (s : Archive crates)
        → is_file m ≡ true
        → Written ids sealed.0 s.pages
        → length ids ≡ blocks_for (length sealed.0)
        → s.encryption_config ≡ config
        → IsSealing crates config moment.nonce content sealed
        → length moment.nonce ≡ nonce_size
        → length content + encryption_overhead + page_size < 2 ^ 64
        → read_entry crates (rewritten crates moment path content m sealed ids) s ≡ (ok content, s)
    rewritten_entry config m sealed ids s f w granted e x n u =
        let small = sealed_size crates config moment.nonce content sealed n x in
        let m' = rewritten crates moment path content m sealed ids in
        read_entry_of crates m' sealed.0 content s (is_file-rewritten m sealed ids f)
          (ap (λ b. fetch crates b (read_size m') s)
              (remark_if_blocks sealed.1 (length sealed.0)
                (touch moment.now (record m { size = length content; blocks = ids })))
            ∙ ap (λ k. fetch crates ids k s)
                (read_size-rewritten config m sealed ids x (omega (arith, small)))
            ∙ fetch_lem crates ids sealed.0 s w (omega (arith, granted, small)))
          (unseal-rewritten config m sealed ids s n e x)

    -- On a consistent archive, when `write_file` succeeds and the policy lets the path be read, then
    -- `read_file` returns the content that was written, encrypted or not, if nonces have twelve
    -- bytes, the content with its overhead is less than 2^64 bytes and the counter of the extents
    -- has room for the old blocks.
    pub read_file-write_file :
        (later : Moment) (s s' : Archive crates)
        → IsConsistent s
        → ((engine : Option crates.lru.State) (m : FileMetadata) (sealed : List ℕ × Bool)
            → Catalog.get path s.catalog ≡ some m
            → seal_with crates s.encryption_config moment.nonce content ≡ ok sealed
            → HasRoom crates moment path content m sealed (with_engine engine s))
        → write_file crates moment path content s ≡ (ok tt, s')
        → (check_access crates Policy.read path s').0 ≡ ok tt
        → length moment.nonce ≡ nonce_size
        → length content + encryption_overhead + page_size < 2 ^ 64
        → (read_file crates later path s').0 ≡ ok content
    unfolding read_file
    read_file-write_file later s s' c room run permitted n u =
        let x = write_file_lem crates moment path content s c room in
        let same : (x.outcome, x.after) ≡ (ok tt, s') = sym x.ran ∙ run in
        let (m, sealed, g, h, i) = x.written (ap (λ o. o.0) same) in
        let i' : IsReplaced crates moment path content m sealed s s' =
          subst (IsReplaced crates moment path content m sealed s) (ap (λ o. o.1) same) i in
        let (r, engine, checked) = check_access_lem crates Policy.read path s' in
        rw checked (
          read_permitted crates later path _ content r (with_engine engine s')
            (ap (λ o. o.0) (sym checked) ∙ permitted) i'.found
            (λ logger.
              rewritten_entry s.encryption_config m sealed i'.blocks
                (record s' { audit_logger = logger; policy_engine = engine }) i'.plain_file
                i'.written i'.granted i'.same_config
                (seal_lem crates s.encryption_config moment.nonce content sealed h) n u))
