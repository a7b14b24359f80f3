-- ===== src/Cartridge/RoundTrip.antt =====
-- A file that was created is read back.
pub mod Rewrite
use cartridge_rs.Prelude.{
  ℕ, ◌+◌, ◌*◌, ◌^◌, ◌≤◌, ◌<◌, ◌≡◌, refl, sym, ◌∙◌, ap, inl, inr, Bool, true, false, List, [],
  Option, none, some, Text, length, bytes_eq, if◌then◌else◌, arith, Result, ok, err, ◌>>=◌,
  parse-to_decimal, Bool-cases,
}
use mathlib.Core.Path.{subst}
use cartridge_rs.Header.{page_size}
use cartridge_rs.Audit
use cartridge_rs.Audit.{AuditLogger}
use cartridge_rs.Catalog
use cartridge_rs.Catalog.{
  FileMetadata, file, new_metadata, text_get, text_insert, text_remove, is_file,
}
use cartridge_rs.Encryption.{
  EncryptionConfig, encryption_overhead, nonce_size, encrypt, encrypt_if_enabled,
  decrypt_if_encrypted,
}
use cartridge_rs.Encryption.RoundTrip.{decrypt-encrypt}
use cartridge_rs.Iam.Policy
use cartridge_rs.Cartridge.Content.{then_do, read_content}
use cartridge_rs.Cartridge.Content.RoundTrip.{Written, read_blocks-Written}
use cartridge_rs.Cartridge.State.{Crates, Moment, Archive, check_access, audit_log}
use cartridge_rs.Cartridge.Files.{
  ok_or, seal_with, mark_if, was_encrypted, read_size, open_with, unseal, fetch, read_entry,
  read_file, create_file, lift,
}
use cartridge_rs.Cartridge.Consistency.{IsConsistent, with_engine, check_access_lem}
use cartridge_rs.Cartridge.Consistency.Create.{IsStored, create_file_lem, mark_if_blocks}

abbrev sealed_or : List ℕ × Bool → Result (List ℕ × Bool) → List ℕ × Bool
sealed_or d (err e) = d
sealed_or d (ok a) = a

ok_inj : (a b : List ℕ × Bool) → ok a ≡ ok b → a ≡ b
ok_inj a b h = ap (sealed_or a) h

module _ {Json : Type 0} (crates : Crates Json) where
  -- Either the content as it is, or encrypted with the key of the archive.
  pub data IsSealing (config : Option EncryptionConfig) (nonce content : List ℕ)
      : List ℕ × Bool → Type 0 where
    plain : IsSealing config nonce content (content, false)
    encrypted :
        (k : EncryptionConfig) (out : List ℕ)
        → config ≡ some k
        → encrypt crates.cipher nonce content k.master_key ≡ ok out
        → IsSealing config nonce content (out, true)

  seal_result :
      (k : EncryptionConfig) (nonce content : List ℕ) (o : Result (List ℕ)) (sealed : List ℕ × Bool)
      → encrypt crates.cipher nonce content k.master_key ≡ o
      → (o >>= λ out. ok (out, true)) ≡ ok sealed
      → IsSealing (some k) nonce content sealed
  seal_result k nonce content (err e) sealed run h = absurd (cc h)
  seal_result k nonce content (ok out) sealed run h =
      subst (IsSealing (some k) nonce content) (ok_inj (out, true) sealed h)
        (encrypted k out refl run)

  pub seal_lem :
      (config : Option EncryptionConfig) (nonce content : List ℕ) (sealed : List ℕ × Bool)
      → seal_with crates config nonce content ≡ ok sealed
      → IsSealing config nonce content sealed
  unfolding seal_with encrypt_if_enabled
  seal_lem none nonce content sealed h =
      subst (IsSealing none nonce content) (ok_inj (content, false) sealed h) plain
  seal_lem (some k) nonce content sealed h = elim (Bool-cases k.enabled) [
    | inl on ↦
        seal_result k nonce content (encrypt crates.cipher nonce content k.master_key) sealed refl (
          sym (
            ap
              (λ b.
                if b
                then (encrypt crates.cipher nonce content k.master_key >>= λ out. ok (out, true))
                else ok (content, false))
              on)
          ∙ h)
    | inr off ↦
        subst (IsSealing (some k) nonce content)
          (ok_inj (content, false) sealed
            (sym (
                ap
                  (λ b.
                    if b
                    then (encrypt crates.cipher nonce content k.master_key >>= λ out.
                        ok (out, true))
                    else ok (content, false))
                  off)
              ∙ h))
          plain
  ]

  module _ (config : Option EncryptionConfig) (nonce content : List ℕ) where
    pub sealed_size :
        (sealed : List ℕ × Bool)
        → length nonce ≡ nonce_size
        → IsSealing config nonce content sealed
        → length sealed.0 ≤ length content + encryption_overhead
    sealed_size sealed n plain = omega arith
    sealed_size sealed n (encrypted k out c run) =
        omega (arith, (decrypt-encrypt crates.cipher nonce content k.master_key out n run).1)

    read_size_lem :
        (sealed : List ℕ × Bool) (now : ℕ) (ids : List ℕ)
        → IsSealing config nonce content sealed
        → length sealed.0 < 2 ^ 64
        → read_size
            (mark_if sealed.1 (length sealed.0) (new_metadata now file (length content) ids))
          ≡ length sealed.0
    unfolding read_size was_encrypted new_metadata text_get text_insert text_remove bytes_eq
    read_size_lem sealed now ids plain u = refl
    read_size_lem sealed now ids (encrypted k out c run) u =
        rw (parse-to_decimal (length out) u) refl

    unseal_lem :
        (sealed : List ℕ × Bool) (now : ℕ) (ids : List ℕ) (s : Archive crates)
        → length nonce ≡ nonce_size
        → s.encryption_config ≡ config
        → IsSealing config nonce content sealed
        → unseal crates
            (mark_if sealed.1 (length sealed.0) (new_metadata now file (length content) ids))
            sealed.0
            s
          ≡ ok content
    unfolding unseal was_encrypted new_metadata text_get text_insert text_remove bytes_eq
    unseal_lem sealed now ids s n e plain = refl
    unseal_lem sealed now ids s n e (encrypted k out c run) =
        ap (λ o. open_with crates o out) (e ∙ c)
        ∙ unfold decrypt_if_encrypted in
          (decrypt-encrypt crates.cipher nonce content k.master_key out n run).0

  pub fetch_lem :
      (ids raw : List ℕ) (s : Archive crates)
      → Written ids raw s.pages
      → length raw ≤ page_size * length ids
      → fetch crates ids (length raw) s ≡ (ok raw, s)
  unfolding fetch read_content
  fetch_lem ids raw s w f = rw (read_blocks-Written ids raw [] s.file s.pages w f) refl

  is_file_marked :
      (b : Bool) (n now size : ℕ) (ids : List ℕ)
      → is_file (mark_if b n (new_metadata now file size ids)) ≡ true
  unfolding new_metadata
  is_file_marked true n now size ids = refl
  is_file_marked false n now size ids = refl

  pub read_entry_of :
      (m : FileMetadata) (raw content : List ℕ) (s : Archive crates)
      → is_file m ≡ true
      → fetch crates m.blocks (read_size m) s ≡ (ok raw, s)
      → unseal crates m raw s ≡ ok content
      → read_entry crates m s ≡ (ok content, s)
  unfolding read_entry
  read_entry_of m raw content s f r u = rw (f, r, u) refl

  -- The entry that `create_file` stored can be read in every state with its pages.
  stored_entry :
      (moment : Moment) (path : Text) (content : List ℕ) (config : Option EncryptionConfig)
      (sealed : List ℕ × Bool) (s : Archive crates)
      → (i : IsStored crates moment path content sealed config s)
      → seal_with crates config moment.nonce content ≡ ok sealed
      → length moment.nonce ≡ nonce_size
      → length content + encryption_overhead + page_size < 2 ^ 64
      → (logger : Option AuditLogger) (engine : Option crates.lru.State)
      → read_entry crates
          (mark_if sealed.1
            (length sealed.0)
            (new_metadata moment.now file (length content) i.blocks))
          (record s { audit_logger = logger; policy_engine = engine })
        ≡ (ok content, record s { audit_logger = logger; policy_engine = engine })
  stored_entry moment path content config sealed s i h n u logger engine =
      let x = seal_lem config moment.nonce content sealed h in
      let small = sealed_size config moment.nonce content sealed n x in
      let t : Archive crates = record s { audit_logger = logger; policy_engine = engine } in
      let m = new_metadata moment.now file (length content) i.blocks in
      let blocks : (mark_if sealed.1 (length sealed.0) m).blocks ≡ i.blocks =
        mark_if_blocks sealed.1 (length sealed.0) m ∙ unfold new_metadata in refl in
      let size =
        read_size_lem config moment.nonce content sealed moment.now i.blocks x
          (omega (arith, small)) in
      read_entry_of (mark_if sealed.1 (length sealed.0) m) sealed.0 content t
        (is_file_marked sealed.1 (length sealed.0) moment.now (length content) i.blocks)
        (ap (λ b. fetch crates b (read_size (mark_if sealed.1 (length sealed.0) m)) t) blocks
          ∙ ap (λ k. fetch crates i.blocks k t) size
          ∙ fetch_lem i.blocks sealed.0 t i.written (omega (arith, i.granted, small)))
        (unseal_lem config moment.nonce content sealed moment.now i.blocks t n i.same_config x)

  pub read_permitted :
      (moment : Moment) (path : Text) (m : FileMetadata) (content : List ℕ) (r : Result (Unit {0}))
      (s : Archive crates)
      → r ≡ ok tt
      → Catalog.get path s.catalog ≡ some m
      → ((logger : Option AuditLogger)
          → read_entry crates m (record s { audit_logger = logger })
            ≡ (ok content, record s { audit_logger = logger }))
      → (then_do
          (r, s)
          (λ _ s'.
            let logged = audit_log crates moment Audit.read path s' in
            then_do
              (lift crates (ok_or (Catalog.get path logged.catalog)) logged)
              (λ metadata s''. read_entry crates metadata s''))).0
        ≡ ok content
  unfolding audit_log
  read_permitted moment path m content (err e) s h f k = absurd (cc h)
  read_permitted moment path m content (ok _) s h f k = rw f (ap (λ o. o.0) (k _))

  -- On a consistent archive, when `create_file` succeeds and the policy lets the path be read, then
  -- `read_file` returns the content, encrypted or not, if the random source gives nonces of twelve
  -- bytes and the content with its overhead is less than 2^64 bytes.
  pub read_file-create_file :
      (moment later : Moment) (path : Text) (content : List ℕ) (s s' : Archive crates)
      → IsConsistent s
      → create_file crates moment path content s ≡ (ok tt, s')
      → (check_access crates Policy.read path s').0 ≡ ok tt
      → length moment.nonce ≡ nonce_size
      → length content + encryption_overhead + page_size < 2 ^ 64
      → (read_file crates later path s').0 ≡ ok content
  unfolding read_file
  read_file-create_file moment later path content s s' c run permitted n u =
      let x = create_file_lem crates moment path content s c in
      let same : (x.outcome, x.after) ≡ (ok tt, s') = sym x.ran ∙ run in
      let (sealed, h, i) = x.stored (ap (λ o. o.0) same) in
      let i' : IsStored crates moment path content sealed s.encryption_config s' =
        subst (IsStored crates moment path content sealed s.encryption_config) (ap (λ o. o.1) same)
          i in
      let (r, engine, checked) = check_access_lem crates Policy.read path s' in
      rw checked (
        read_permitted later path _ content r (with_engine engine s')
          (ap (λ o. o.0) (sym checked) ∙ permitted) i'.found
          (λ logger.
            stored_entry moment path content s.encryption_config sealed s' i' h n u logger engine))
