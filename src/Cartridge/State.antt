-- ===== src/Cartridge/State.antt =====
-- src/core/cartridge.rs: the state of an archive, its creation in memory, access control, the audit
-- log and the switches. What the archive takes from other crates is a record of parameters.
use cartridge_rs.Prelude.{
  ℕ, ◌-◌, ◌*◌, Bool, true, false, List, [], Option, none, some, Text, Result, ok, err, allocation,
}
use cartridge_rs.Header
use cartridge_rs.Header.{Header, page_size}
use cartridge_rs.Allocator.Hybrid
use cartridge_rs.Allocator.Hybrid.{HybridAllocator}
use cartridge_rs.Audit.{AuditLogger, Operation, log_file_op}
use cartridge_rs.Catalog
use cartridge_rs.Catalog.{Catalog}
use cartridge_rs.Encryption
use cartridge_rs.Encryption.{Cipher, EncryptionConfig, EncryptionKey}
use cartridge_rs.Iam.Policy.{Action, Policy}
use cartridge_rs.Iam.Engine.{LruCache, CacheKey, evaluate, clear_cache}
use cartridge_rs.Cartridge.Content.{Disk, Pages, no_pages}

-- The values of serde_json, the cache of lru, the cipher of aes-gcm and the standard hasher.
pub record Crates (Json : Type 0) : Type 1 where
  pub is_empty_object : Json → Bool
  pub lru : LruCache CacheKey Bool
  pub cipher : Cipher
  pub hash_path : Text → ℕ

-- What one call reads from outside: the two clocks and the random source.
pub record Moment : Type 0 where
  pub now : ℕ
  pub now_us : ℕ
  pub nonce : List ℕ

abbrev pub grow_factor : ℕ
grow_factor = 2

abbrev pub default_max_blocks : ℕ
default_max_blocks = 10000000

-- `Engine` is the cache that the policy engine owns.
pub record Cartridge (Json Engine : Type 0) : Type 0 where
  pub header : Header
  pub allocator : HybridAllocator
  pub catalog : Catalog
  pub file : Option Disk
  pub pages : Pages
  pub dirty_pages : List ℕ
  pub audit_logger : Option AuditLogger
  pub session_id : ℕ
  pub policy : Option (Policy Json)
  pub policy_engine : Option Engine
  pub encryption_config : Option EncryptionConfig
  pub auto_grow : Bool
  pub max_blocks : ℕ
  pub catalog_overflow_pages : List ℕ
  pub allocator_overflow_pages : List ℕ

-- `unwrap` of the allocation of the three reserved pages.
abbrev pub unwrap_state : Result (List ℕ) × HybridAllocator → HybridAllocator
unwrap_state (outcome, allocator) = allocator

module _ {Json Engine : Type 0} where
  -- The code panics on fewer than three blocks.
  unfoldable pub new : ℕ → Cartridge Json Engine
  new total_blocks = record {
    header = record Header.new {
      total_blocks = total_blocks;
      free_blocks = total_blocks - 3;
      btree_root_page = 1;
    };
    allocator = unwrap_state (Hybrid.allocate (3 * page_size) (Hybrid.new total_blocks));
    catalog = Catalog.new 1;
    file = none;
    pages = no_pages;
    dirty_pages = [];
    audit_logger = none;
    session_id = 0;
    policy = none;
    policy_engine = none;
    encryption_config = none;
    auto_grow = true;
    max_blocks = default_max_blocks;
    catalog_overflow_pages = [];
    allocator_overflow_pages = [];
  }

  abbrev pub set_audit_logger : AuditLogger → Cartridge Json Engine → Cartridge Json Engine
  set_audit_logger logger s = record s { audit_logger = some logger }

  abbrev pub set_session_id : ℕ → Cartridge Json Engine → Cartridge Json Engine
  set_session_id session_id s = record s { session_id = session_id }

  abbrev pub enable_encryption : EncryptionKey → Cartridge Json Engine → Cartridge Json Engine
  enable_encryption key s = record s { encryption_config = some (Encryption.new key) }

  abbrev pub disable_encryption : Cartridge Json Engine → Cartridge Json Engine
  disable_encryption s = record s { encryption_config = none }

  unfoldable pub is_encrypted : Cartridge Json Engine → Bool
  is_encrypted s = elim s.encryption_config [ none ↦ false | some config ↦ config.enabled ]

-- The capacity of `PolicyEngine::new_default`.
abbrev pub default_cache_size : ℕ
default_cache_size = 1000

module _ {Json : Type 0} (crates : Crates Json) where
  abbrev pub Archive : Type 0
  Archive = Cartridge Json crates.lru.State

  abbrev pub or_new_engine : Option crates.lru.State → crates.lru.State
  or_new_engine none = crates.lru.new default_cache_size
  or_new_engine (some engine) = engine

  unfoldable pub set_policy : Policy Json → Archive → Archive
  set_policy policy s = record s {
    policy = some policy;
    policy_engine = some (or_new_engine s.policy_engine);
  }

  unfoldable pub clear_policy_cache : Archive → Archive
  clear_policy_cache s = record s {
    policy_engine = elim s.policy_engine [
      | none ↦ none
      | some engine ↦ some (clear_cache crates.lru engine)
    ];
  }

  -- The answer of the engine, whose cache may have changed.
  abbrev pub answer : Bool × crates.lru.State → Archive → Result (Unit {0}) × Archive
  answer (true, engine) s = (ok tt, record s { policy_engine = some engine })
  answer (false, engine) s = (err allocation, record s { policy_engine = some engine })

  -- Without a policy or an engine everything is allowed.
  abbrev pub check_with :
      Option (Policy Json)
      → Option crates.lru.State
      → Action
      → Text
      → Archive
      → Result (Unit {0}) × Archive
  check_with (some policy) (some engine) action path s =
      answer
        (evaluate crates.lru {Context = Json} crates.is_empty_object policy action path none engine)
        s
  check_with (some policy) none action path s = (ok tt, s)
  check_with none engine action path s = (ok tt, s)

  unfoldable pub check_access : Action → Text → Archive → Result (Unit {0}) × Archive
  check_access action path s = check_with s.policy s.policy_engine action path s

  abbrev pub log_to : Option AuditLogger → ℕ → Operation → ℕ → ℕ → Option AuditLogger
  log_to none now operation file_id session_id = none
  log_to (some logger) now operation file_id session_id =
      some (log_file_op now 1 operation file_id session_id logger)

  unfoldable pub audit_log : Moment → Operation → Text → Archive → Archive
  audit_log moment operation path s = record s {
    audit_logger =
        log_to s.audit_logger moment.now_us operation (crates.hash_path path) s.session_id;
  }
