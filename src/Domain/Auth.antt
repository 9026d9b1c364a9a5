-- ===== src/Domain/Auth.antt =====
-- internal/domain/auth.go: who makes a request. A hash is a text.
use capcom.Prelude.{String, Bool}
use capcom.Domain.Runtime.{Time}

pub record User : Type 0 where
  pub id : String
  pub email : String
  pub created_at : Time

pub record Organization : Type 0 where
  pub id : String
  pub name : String
  pub slug : String

pub record Principal : Type 0 where
  pub user_id : String
  pub email : String
  pub organization_id : String
  pub organization : Organization
  pub role : String
  pub session_id : String
  pub csrf_hash : String
  pub platform_admin : Bool

pub record AuthSession : Type 0 where
  pub user : User
  pub organization : Organization
  pub role : String
  pub session_token : String
  pub csrf_token : String
  pub absolute_expiry : Time
  pub idle_expiry : Time
