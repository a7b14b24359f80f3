-- ===== src/Encryption.antt =====
-- src/core/encryption.rs: which bytes are encrypted and how they are framed. The cipher is that of
-- the crate aes-gcm, an interface; the random nonce is an argument.
pub mod RoundTrip
use cartridge_rs.Prelude.{
  ℕ, ◌+◌, ◌≡◌, Bool, true, false, List, [], ◌++◌, length, take, drop, replicate, ltb, if◌then◌else◌,
  Option, none, some, Result, ok, err, allocation, ◌>>=◌,
}

abbrev pub EncryptionKey : Type 0
EncryptionKey = List ℕ

abbrev pub nonce_size : ℕ
nonce_size = 12

abbrev pub tag_size : ℕ
tag_size = 16

abbrev pub encryption_overhead : ℕ
encryption_overhead = nonce_size + tag_size

-- AES-256-GCM: `encrypt` appends a tag of 16 bytes, and `decrypt` with the same key and nonce undoes
-- `encrypt`.
pub record Cipher : Type 0 where
  pub encrypt : EncryptionKey → List ℕ → List ℕ → Option (List ℕ)
  pub decrypt : EncryptionKey → List ℕ → List ℕ → Option (List ℕ)
  pub decrypt-encrypt :
      (key nonce plain sealed : List ℕ)
      → encrypt key nonce plain ≡ some sealed
      → decrypt key nonce sealed ≡ some plain
  pub length-encrypt :
      (key nonce plain sealed : List ℕ)
      → encrypt key nonce plain ≡ some sealed
      → length sealed ≡ length plain + tag_size

pub record EncryptionConfig : Type 0 where
  pub master_key : EncryptionKey
  pub enabled : Bool

abbrev pub new : EncryptionKey → EncryptionConfig
new master_key = record { master_key = master_key; enabled = true }

abbrev pub disabled : EncryptionConfig
disabled = record { master_key = replicate 32 0; enabled = false }

abbrev pub is_enabled : EncryptionConfig → Bool
is_enabled config = config.enabled

-- `map_err`
abbrev pub or_fail {ℓ} : {A : Type ℓ} → Option A → Result A
or_fail none = err allocation
or_fail (some a) = ok a

module _ (cipher : Cipher) where
  unfoldable pub encrypt : List ℕ → List ℕ → EncryptionKey → Result (List ℕ)
  encrypt nonce plain key =
      or_fail (cipher.encrypt key nonce plain) >>= λ sealed. ok (nonce ++ sealed)

  unfoldable pub decrypt : List ℕ → EncryptionKey → Result (List ℕ)
  decrypt plain key =
      if ltb (length plain) encryption_overhead
      then err allocation
      else or_fail (cipher.decrypt key (take nonce_size plain) (drop nonce_size plain))

  unfoldable pub encrypt_if_enabled : List ℕ → List ℕ → EncryptionConfig → Result (List ℕ × Bool)
  encrypt_if_enabled nonce plain config =
      if is_enabled config
      then (encrypt nonce plain config.master_key >>= λ encrypted. ok (encrypted, true))
      else ok (plain, false)

  unfoldable pub decrypt_if_encrypted : List ℕ → EncryptionConfig → Bool → Result (List ℕ)
  decrypt_if_encrypted plain config was_encrypted =
      if was_encrypted then decrypt plain config.master_key else ok plain
