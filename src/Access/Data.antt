-- ===== src/Access/Data.antt =====
-- Users, sessions, workspaces and invitations (internal/domain/model.go,
-- internal/application/auth/service.go, internal/application/workspace/invitation.go).
use deciscope_api.Base.{String, Bool, Option, trim, to_lower}
use deciscope_api.Base.Clock.{Time}

pub record User : Type 0 where
  pub id : String
  pub display_name : String
  pub email : String

pub record Identity : Type 0 where
  pub uid : String
  pub email : String
  pub name : String
  pub email_verified : Bool
  pub provider : String

pub record AuthSession : Type 0 where
  pub id : String
  pub user_id : String
  pub token_hash : String
  pub current_workspace_id : String
  pub expires_at : String
  pub created_at : String

pub record Workspace : Type 0 where
  pub id : String
  pub name : String
  pub description : String
  pub role : String
  pub created_at : String
  pub updated_at : String

pub record Member : Type 0 where
  pub workspace_id : String
  pub user_id : String
  pub display_name : String
  pub email : String
  pub role : String

pub record Invitation : Type 0 where
  pub id : String
  pub workspace_id : String
  pub email : String
  pub normalized_email : String
  pub role : String
  pub status : String
  pub invited_by : String
  pub token_hash : String
  pub expires_at : String
  pub created_at : String

-- The clock at a call, and what the package time makes of texts.
pub record Clocks : Type 0 where
  pub now : Time
  pub rfc3339 : Time → String
  -- `time.Parse(time.RFC3339, text)`
  pub parse : String → Option Time

abbrev pub now_text : Clocks → String
now_text clocks = clocks.rfc3339 clocks.now

-- `normalizeEmail`, for addresses whose capital letters are those of ASCII (see `to_lower`).
unfoldable pub normalize_email : String → String
normalize_email email = to_lower (trim email)
