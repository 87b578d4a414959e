-- ===== src/Access/Workspaces.antt =====
-- The service of the workspaces (internal/application/workspace/service.go).
use deciscope_api.Base.{
  String, Bool, true, false, not, ◌&&◌, Option, none, some, List, [], ◌∷◌, ok, Exec, ◌>>=◌, pure,
  raise, not_found, forbidden, invalid_argument, str_eq, is_blank, trim, if◌then◌else◌, is_empty,
}
use deciscope_api.Domain.{
  normalize_role, role_text, is_workspace_owner, valid_workspace_invitation_role,
}
use deciscope_api.Access.Data.{Workspace, Member, Clocks}
use deciscope_api.Access.Memory.{Memory}
use deciscope_api.Access.Memory

abbrev pub is_set : Option String → Bool
is_set none = false
is_set (some _) = true

-- The first workspace of a user gets a sample meeting, whose failure is only logged: the answer has
-- a mark for the call.
first_of : String → Exec Memory Bool
first_of user r = (ok (is_empty (Memory.workspaces_of user r r.members)), r)

unfoldable pub create_workspace :
    Clocks → Bool → String → String → String → String → Exec Memory (Workspace × Bool)
unfolding first_of
create_workspace clocks has_creator id user name description =
    if is_blank (trim name) then raise invalid_argument else (do
      first ← first_of user
      workspace ← Memory.create_workspace clocks id user (trim name) (trim description)
      pure (workspace, first && has_creator))

trimmed : Option String → Option String
trimmed none = none
trimmed (some s) = some (trim s)

unfoldable pub is_blank_name : Option String → Bool
is_blank_name none = false
is_blank_name (some s) = is_blank (trim s)

unfoldable pub update_workspace :
    Clocks → String → String → Option String → Option String → Exec Memory Workspace
unfolding trimmed is_blank_name
update_workspace clocks user id name description =
    if is_blank_name name
    then raise invalid_argument
    else if not (is_set name) && not (is_set description)
    then raise invalid_argument
    else Memory.update_workspace clocks user id (trimmed name) (trimmed description)

-- The loop over the members that returns at the one with the identifier.
unfoldable pub remove_listed : String → String → String → List Member → Exec Memory (Unit {0})
remove_listed user workspace member [] = raise not_found
remove_listed user workspace member (m ∷ ms) =
    let later = remove_listed user workspace member ms in
    if not (str_eq m.user_id member)
    then later
    else if is_workspace_owner m.role
    then raise forbidden
    else Memory.remove_member user workspace member

unfoldable pub remove_member : String → String → String → Exec Memory (Unit {0})
remove_member user workspace member =
    Memory.list_members user workspace >>= remove_listed user workspace member

unfoldable pub update_listed : String → String → String → String → List Member → Exec Memory Member
update_listed user workspace member role [] = raise not_found
update_listed user workspace member role (m ∷ ms) =
    let later = update_listed user workspace member role ms in
    if not (str_eq m.user_id member)
    then later
    else if is_workspace_owner m.role
    then raise forbidden
    else Memory.update_member_role user workspace member role

unfoldable pub update_member_role : String → String → String → String → Exec Memory Member
update_member_role user workspace member role =
    let next = role_text (normalize_role role) in
    if not (valid_workspace_invitation_role next)
    then raise invalid_argument
    else Memory.list_members user workspace >>= update_listed user workspace member next
