-- ===== src/Audit.antt =====
-- audit/emitter.go: the events that the kit emits. Of the free-form metadata each emitting part
-- keeps what it sets.
use mcp_kit.Prelude.{ℕ, String, Option}

-- `Event`, less the field that the kit never sets (`PayloadHash`).
pub record Event (M : Type 0) : Type 0 where
  pub entity_type : String
  pub entity_id : String
  pub action : String
  pub actor_user_id : Option String
  pub client_id : String
  pub scope : String
  pub metadata : M
  pub timestamp : ℕ
