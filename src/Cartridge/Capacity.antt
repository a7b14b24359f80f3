-- ===== src/Cartridge/Capacity.antt =====
-- src/core/cartridge.rs: `grow` and `ensure_capacity`. The fuel of the loop is two more than the
-- limit on the blocks.
pub mod Growth
use cartridge_rs.Prelude.{
  ℕ, zero, suc, ◌+◌, ◌-◌, ◌*◌, ◌/◌, ◌%◌, ◌^◌, min, Bool, Option, none, some, ltb, ◌==◌,
  if◌then◌else◌, Result, ok, err, out_of_space, corruption,
}
use cartridge_rs.Header.{page_size}
use cartridge_rs.Allocator.Hybrid
use cartridge_rs.Allocator.Hybrid.{HybridAllocator}
use cartridge_rs.Cartridge.Content.{Disk, extend, then_do}
use cartridge_rs.Cartridge.State.{Cartridge, grow_factor}

abbrev pub extend_file : ℕ → Option Disk → Option Disk
extend_file new_total none = none
extend_file new_total (some file) = some (extend new_total file)

module _ {Json Engine : Type 0} where
  -- The outcome of a call of the allocator, whose state the archive keeps.
  abbrev pub with_allocator {ℓ} :
      {A : Type ℓ}
      → Result A × HybridAllocator
      → Cartridge Json Engine
      → Result A × Cartridge Json Engine
  with_allocator (outcome, allocator) s = (outcome, record s { allocator = allocator })

  -- `header.free_blocks = allocator.free_blocks()`
  abbrev pub sync_header : Cartridge Json Engine → Cartridge Json Engine
  sync_header s = record s { header = record s.header { free_blocks = s.allocator.free_blocks } }

  unfoldable pub new_total_of : Cartridge Json Engine → ℕ
  new_total_of s = min (s.header.total_blocks * grow_factor % 2 ^ 64) s.max_blocks

  -- The file and the header, before the allocator follows.
  abbrev pub enlarge : ℕ → Cartridge Json Engine → Cartridge Json Engine
  enlarge new_total s = record s {
    file = extend_file new_total s.file;
    header = record s.header { total_blocks = new_total };
  }

  unfoldable pub grow : Cartridge Json Engine → Result (Unit {0}) × Cartridge Json Engine
  grow s =
      let new_total = new_total_of s in
      if new_total == s.header.total_blocks
      then (err out_of_space, s)
      else then_do
          (with_allocator (Hybrid.extend_capacity new_total s.allocator) (enlarge new_total s))
          (λ _ s'. (ok tt, sync_header s'))

  -- Without fuel the answer is `corruption`, which the code does not return.
  unfoldable pub grow_until :
      ℕ → ℕ → Cartridge Json Engine → Result (Unit {0}) × Cartridge Json Engine
  grow_until zero blocks_needed s = (err corruption, s)
  grow_until (suc fuel) blocks_needed s =
      if ltb s.header.free_blocks blocks_needed
      then then_do (grow s) (λ _ s'. grow_until fuel blocks_needed s')
      else (ok tt, s)

  unfoldable pub ensure_capacity :
      ℕ → Cartridge Json Engine → Result (Unit {0}) × Cartridge Json Engine
  ensure_capacity bytes_needed s =
      if s.auto_grow
      then grow_until (s.max_blocks + 2) ((bytes_needed + page_size - 1) / page_size) s
      else (ok tt, s)
