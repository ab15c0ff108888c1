-- ===== src/Persistence.antt =====
-- internal/persistence/persistence.go: the stored records, and the errors that the driver reports.
use appliance_registry.Prelude.{ℕ, Option, Bool, Text, text}

pub data ApplianceStatus : Type 0 where
  pending active revoked : ApplianceStatus

-- The text of a status, in the column and in a response.
abbrev pub status_text : ApplianceStatus → Text
status_text pending = text "pending"
status_text active = text "active"
status_text revoked = text "revoked"

-- Times are counted from the epoch, in the unit of the clock.
pub record Appliance : Type 0 where
  pub id : ℕ
  pub name : Text
  pub hostname_label : Text
  pub group_id : ℕ
  pub status : ApplianceStatus
  pub created_at : ℕ
  pub claimed_at : Option ℕ
  pub last_seen_at : Option ℕ

pub record ClaimToken : Type 0 where
  pub appliance_id : ℕ
  pub token_hash : Text
  pub expires_at : ℕ

pub record EnrollExchangeCode : Type 0 where
  pub appliance_id : ℕ
  pub code_hash : Text
  pub claim_token_hash : Text
  pub expires_at : ℕ

pub record LoginCode : Type 0 where
  pub code_hash : Text
  pub appliance_id : ℕ
  pub user_id : ℕ
  pub expires_at : ℕ

-- The status of a filter comes from the query string, and is any text.
pub record ApplianceFilter : Type 0 where
  pub status : Text
  pub include_revoked : Bool

-- `no_rows` is sql.ErrNoRows, `duplicate` is MySQL's error 1062; every other error is handled alike.
pub data DbError : Type 0 where
  no_rows duplicate unavailable : DbError
