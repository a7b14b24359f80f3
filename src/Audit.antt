-- ===== src/Audit.antt =====
-- src/core/audit/mod.rs: the entries of the audit log, and the logger without its flush thread,
-- whose calls of `read_batch` are steps of the ring buffer. The clock's value is an argument.
pub mod Ring
mod Tests
use cartridge_rs.Prelude.{ℕ}
use cartridge_rs.Audit.Ring
use cartridge_rs.Audit.Ring.{RingBuffer}

pub data Operation : Type 0 where
  create read update delete query flush : Operation

pub record AuditEntry : Type 0 where
  pub timestamp_us : ℕ
  pub actor_id : ℕ
  pub operation : Operation
  pub resource_table : ℕ
  pub resource_id : ℕ
  pub session_id : ℕ

unfoldable pub new_entry : ℕ → ℕ → Operation → ℕ → ℕ → ℕ → AuditEntry
new_entry now actor_id operation resource_table resource_id session_id = record {
  timestamp_us = now;
  actor_id = actor_id;
  operation = operation;
  resource_table = resource_table;
  resource_id = resource_id;
  session_id = session_id;
}

pub record AuditLogger : Type 0 where
  pub ring_buffer : RingBuffer AuditEntry

unfoldable pub new_logger : ℕ → AuditLogger
new_logger capacity = record { ring_buffer = Ring.new capacity }

unfoldable pub log : AuditEntry → AuditLogger → AuditLogger
log entry s = record { ring_buffer = Ring.write entry s.ring_buffer }

unfoldable pub log_file_op : ℕ → ℕ → Operation → ℕ → ℕ → AuditLogger → AuditLogger
log_file_op now actor_id operation file_id session_id s =
    log (new_entry now actor_id operation 0 file_id session_id) s

abbrev pub stats : AuditLogger → ℕ × ℕ
stats s = Ring.stats s.ring_buffer
