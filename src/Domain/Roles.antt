-- ===== src/Domain/Roles.antt =====
-- internal/domain/workspace_role.go
use deciscope_api.Base.{Bool, true, false, String, trim, to_lower, str_eq, if◌then◌else◌}

-- What `NormalizeWorkspaceRole` returns; `unknown` is the empty text.
pub data Role : Type 0 where
  owner admin viewer unknown : Role

unfoldable pub normalize_role : String → Role
normalize_role role =
    let r = to_lower (trim role) in
    if str_eq r "owner"
    then owner
    else if str_eq r "admin"
    then admin
    else if str_eq r "member"
    then admin
    else if str_eq r "viewer"
    then viewer
    else unknown

abbrev pub role_text : Role → String
role_text owner = "owner"
role_text admin = "admin"
role_text viewer = "viewer"
role_text unknown = ""

unfoldable pub is_invitable : Role → Bool
is_invitable admin = true
is_invitable viewer = true
is_invitable _ = false

unfoldable pub can_manage : Role → Bool
can_manage owner = true
can_manage admin = true
can_manage _ = false

-- `ValidWorkspaceInvitationRole`
unfoldable pub valid_workspace_invitation_role : String → Bool
unfolding normalize_role is_invitable
valid_workspace_invitation_role role = is_invitable (normalize_role role)

-- `IsWorkspaceOwner`
unfoldable pub is_workspace_owner : String → Bool
unfolding normalize_role
is_workspace_owner role = str_eq (role_text (normalize_role role)) "owner"

-- `CanManageWorkspace`
unfoldable pub can_manage_workspace : String → Bool
unfolding normalize_role can_manage
can_manage_workspace role = can_manage (normalize_role role)

-- `CanManageMeetingSessions`
unfoldable pub can_manage_meeting_sessions : String → Bool
unfolding normalize_role can_manage
can_manage_meeting_sessions role = can_manage (normalize_role role)
