-- ===== src/Allocator.antt =====
-- src/core/allocator: the bitmap allocator, the extent allocator and the hybrid of the two.
-- `BlockAllocator` is the trait of mod.rs without its floating-point score.
pub mod Bitmap
pub mod Extent
pub mod Hybrid
use cartridge_rs.Prelude.{ℕ, List, Result}

pub record BlockAllocator (S : Type 0) : Type 0 where
  pub allocate : ℕ → S → Result (List ℕ) × S
  pub free : List ℕ → S → Result (Unit {0}) × S
  pub total_blocks : S → ℕ
  pub free_blocks : S → ℕ
