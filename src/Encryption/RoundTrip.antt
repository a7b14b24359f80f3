-- ===== src/Encryption/RoundTrip.antt =====
-- Decryption undoes encryption.
use cartridge_rs.Prelude.{
  ℕ, ◌+◌, ◌≡◌, refl, ◌∙◌, ap, List, ◌++◌, length, take, drop, ge→ltb, Option, none, some, ok, arith,
  length-append, take-append, drop-append, ◌>>=◌,
}
use cartridge_rs.Encryption.{Cipher, encryption_overhead, nonce_size, encrypt, decrypt, or_fail}

module _ (cipher : Cipher) where
  -- What a successful encryption is.
  record IsSealed (nonce plain key out : List ℕ) : Type 0 where
    sealed : List ℕ
    run : cipher.encrypt key nonce plain ≡ some sealed
    framed : out ≡ nonce ++ sealed

  sealed_of :
      (nonce plain key out : List ℕ) (o : Option (List ℕ))
      → cipher.encrypt key nonce plain ≡ o
      → (or_fail o >>= λ sealed. ok (nonce ++ sealed)) ≡ ok out
      → IsSealed nonce plain key out
  sealed_of nonce plain key out none e h = absurd (cc h)
  sealed_of nonce plain key out (some sealed) e h = record {
    sealed = sealed;
    run = e;
    framed = ground arith;
  }

  encrypt-IsSealed :
      (nonce plain key out : List ℕ)
      → encrypt cipher nonce plain key ≡ ok out
      → IsSealed nonce plain key out
  unfolding encrypt
  encrypt-IsSealed nonce plain key out h =
      sealed_of nonce plain key out (cipher.encrypt key nonce plain) refl h

  -- With a nonce of twelve bytes, what `encrypt` returns is 28 bytes longer than the data, and
  -- `decrypt` with the same key returns the data.
  pub decrypt-encrypt :
      (nonce plain key out : List ℕ)
      → length nonce ≡ nonce_size
      → encrypt cipher nonce plain key ≡ ok out
      → (decrypt cipher out key ≡ ok plain) × (length out ≡ length plain + encryption_overhead)
  unfolding decrypt
  decrypt-encrypt nonce plain key out n h =
      let i = encrypt-IsSealed nonce plain key out h in
      let size : length out ≡ length plain + encryption_overhead =
        ap length i.framed
        ∙ omega (
          arith,
          length-append nonce i.sealed,
          cipher.length-encrypt key nonce plain i.sealed i.run,
        ) in
      let front : take nonce_size out ≡ nonce =
        ap (take nonce_size) i.framed ∙ take-append nonce_size nonce i.sealed n in
      let back : drop nonce_size out ≡ i.sealed =
        ap (drop nonce_size) i.framed ∙ drop-append nonce_size nonce i.sealed n in
      (
        rw (ge→ltb (length out) encryption_overhead (omega (arith, size))) (
            ap or_fail (
              ap (λ x. cipher.decrypt key x (drop nonce_size out)) front
              ∙ ap (cipher.decrypt key nonce) back
              ∙ cipher.decrypt-encrypt key nonce plain i.sealed i.run)),
        size,
      )
