-- ===== src/Prelude/Errors.antt =====
-- src/core/error.rs: the errors that the core returns, and `Result`. The text inside a message is
-- not modelled; the numbers that an error carries are.
use Prim.Native.Nat.{ℕ}
use mathlib.Core.Path.{◌≡◌, refl}
use native.Mathlib.Omega.{arith}

pub data CartridgeError : Type 0 where
  invalid_magic : CartridgeError
  unsupported_version : ℕ → ℕ → CartridgeError
  invalid_block_size invalid_page_type : ℕ → CartridgeError
  checksum_mismatch out_of_space : CartridgeError
  invalid_block_id block_already_allocated : ℕ → CartridgeError
  io serialization : CartridgeError
  vfs_registration_failed : ℕ → CartridgeError
  allocation fragmentation_error invalid_container_slug invalid_version : CartridgeError
  invalid_path manifest_not_found manifest_validation corruption : CartridgeError

pub data Result {ℓ} (A : Type ℓ) : Type ℓ where
  ok : A → Result A
  err : CartridgeError → Result A

-- The operator `?`: the first error ends the computation.
abbrev pub ◌>>=◌ {ℓ κ} :
    {Input : Type ℓ} {Output : Type κ} → Result Input → (Input → Result Output) → Result Output
err reason >>= continue_with = err reason
ok value >>= continue_with = continue_with value

infixl 5 ◌>>=◌
-- Inversion of a successful check in front of a value.
pub check-eq-ok {ℓ} :
    {A : Type ℓ} (r : Result (Unit {0})) (a b : A)
    → (r >>= λ _. ok a) ≡ ok b
    → (r ≡ ok tt) × (a ≡ b)
check-eq-ok (ok _) a b h = (refl, ground arith)
check-eq-ok (err e) a b h = absurd (cc h)
