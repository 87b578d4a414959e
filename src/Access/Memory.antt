-- ===== src/Access/Memory.antt =====
-- The memory repository of users, sessions and workspaces: its members and workspaces
-- (internal/adapter/repository/memory/auth_workspace.go). A method holds the lock from its start to
-- its end, so it is one step. A new identifier is an argument.
use deciscope_api.Base.{
  String, Bool, false, not, ◌&&◌, ◌||◌, Option, none, some, List, [], ◌∷◌, Result, ok, err,
  not_found, forbidden, invalid_argument, Exec, Dict, lookup, insert, remove, str_eq, is_blank,
  trim, to_lower, if◌then◌else◌,
}
use deciscope_api.Domain.{
  normalize_role, role_text, is_workspace_owner, can_manage_workspace,
  valid_workspace_invitation_role,
}
use deciscope_api.Access.Data.{
  User, Identity, AuthSession, Workspace, Member, Invitation, Clocks, now_text,
}

pub record Memory : Type 0 where
  pub users : Dict User
  pub identities : Dict String
  pub sessions : Dict AuthSession
  pub workspaces : Dict Workspace
  pub members : Dict (Dict String)
  pub invitations : Dict Invitation

-- A missing key reads as the zero value.
abbrev pub text_at : Option String → String
text_at none = ""
text_at (some s) = s

abbrev pub dict_at {ℓ} : {V : Type ℓ} → Option (Dict V) → Dict V
dict_at none = []
dict_at (some d) = d

abbrev pub no_user : User
no_user = record { id = ""; display_name = ""; email = "" }

abbrev pub no_workspace : Workspace
no_workspace = record {
  id = "";
  name = "";
  description = "";
  role = "";
  created_at = "";
  updated_at = "";
}

abbrev pub value_at {ℓ} : {V : Type ℓ} → V → Option V → V
value_at zero_value none = zero_value
value_at zero_value (some v) = v

-- `r.members[workspaceID][userID]`
unfoldable pub role_in : String → String → Memory → String
role_in workspace user r = text_at (lookup user (dict_at (lookup workspace r.members)))

unfoldable pub set_role : String → String → String → Memory → Memory
set_role workspace user role r = record r {
  members = insert workspace (insert user role (dict_at (lookup workspace r.members))) r.members;
}

abbrev pub user_at : String → Memory → User
user_at id r = value_at no_user (lookup id r.users)

-- The text before the first `@`.
before_at : String → String
before_at String.[] = ""
before_at (String.◌∷◌ c s) =
    let others = before_at s in
    if str_eq (String.◌∷◌ c String.[]) "@" then "" else String.◌∷◌ c others

new_user : String → Identity → User
unfolding before_at
new_user id identity = record {
  id = id;
  display_name =
      if is_blank (trim identity.name) then before_at identity.email else trim identity.name;
  email = trim identity.email;
}

unfoldable pub find_or_create_user : String → Identity → Exec Memory User
unfolding new_user
find_or_create_user id identity r =
    let known = text_at (lookup identity.uid r.identities) in
    if not (is_blank known) then (ok (user_at known r), r) else (
      ok (new_user id identity),
      record r {
        users = insert id (new_user id identity) r.users;
        identities = insert identity.uid id r.identities;
      },
    )

unfoldable pub create_workspace : Clocks → String → String → String → String → Exec Memory Workspace
create_workspace clocks id user name description r =
    let workspace : Workspace = record {
      id = id;
      name = name;
      description = description;
      role = "owner";
      created_at = now_text clocks;
      updated_at = now_text clocks;
    } in
    (
      ok workspace,
      record r {
        workspaces = insert id workspace r.workspaces;
        members = insert id ((user, "owner") ∷ []) r.members;
      },
    )

workspace_for : String → String → Memory → Workspace
workspace_for id role r = record (value_at no_workspace (lookup id r.workspaces)) {
  role = role_text (normalize_role role);
}

unfoldable pub workspaces_of : String → Memory → Dict (Dict String) → List Workspace
unfolding workspace_for
workspaces_of user r [] = []
workspaces_of user r ((id, roles) ∷ others) =
    let found = workspaces_of user r others in
    let role = text_at (lookup user roles) in
    if is_blank role then found else workspace_for id role r ∷ found

unfoldable pub list_workspaces : String → Exec Memory (List Workspace)
unfolding workspaces_of
list_workspaces user r = (ok (workspaces_of user r r.members), r)

unfoldable pub get_workspace : String → String → Exec Memory Workspace
unfolding workspace_for role_in
get_workspace user id r =
    if is_blank (role_in id user r)
    then (err not_found, r)
    else (ok (workspace_for id (role_in id user r) r), r)

renamed : Clocks → Option String → Option String → String → Workspace → Workspace
renamed clocks name description role w = record w {
  name = value_at w.name name;
  description = value_at w.description description;
  updated_at = now_text clocks;
  role = role_text (normalize_role role);
}

unfoldable pub update_workspace :
    Clocks → String → String → Option String → Option String → Exec Memory Workspace
unfolding renamed role_in
update_workspace clocks user id name description r =
    let role = role_in id user r in
    let w = renamed clocks name description role (value_at no_workspace (lookup id r.workspaces)) in
    if is_blank role
    then (err not_found, r)
    else if not (can_manage_workspace role)
    then (err forbidden, r)
    else (ok w, record r { workspaces = insert id w r.workspaces })

member_of : String → String → String → Memory → Member
member_of workspace id role r = record {
  workspace_id = workspace;
  user_id = id;
  display_name = (user_at id r).display_name;
  email = (user_at id r).email;
  role = role_text (normalize_role role);
}

unfoldable pub members_of : String → Memory → Dict String → List Member
unfolding member_of
members_of workspace r [] = []
members_of workspace r ((id, role) ∷ others) =
    member_of workspace id role r ∷ members_of workspace r others

unfoldable pub list_members : String → String → Exec Memory (List Member)
unfolding members_of role_in
list_members user workspace r =
    if is_blank (role_in workspace user r)
    then (err not_found, r)
    else (ok (members_of workspace r (dict_at (lookup workspace r.members))), r)

unfoldable pub remove_member : String → String → String → Exec Memory (Unit {0})
unfolding role_in
remove_member user workspace member r =
    if not (can_manage_workspace (role_in workspace user r))
    then (err forbidden, r)
    else if is_blank (role_in workspace member r)
    then (err not_found, r)
    else if is_workspace_owner (role_in workspace member r)
    then (err forbidden, r)
    else (
      ok tt,
      record r {
        members = insert workspace (remove member (dict_at (lookup workspace r.members))) r.members;
      },
    )

unfoldable pub update_member_role : String → String → String → String → Exec Memory Member
unfolding role_in set_role member_of
update_member_role user workspace member role r =
    let next = role_text (normalize_role role) in
    if not (is_workspace_owner (role_in workspace user r))
    then (err forbidden, r)
    else if not (valid_workspace_invitation_role next)
    then (err invalid_argument, r)
    else if is_blank (role_in workspace member r)
    then (err not_found, r)
    else if is_workspace_owner (role_in workspace member r)
    then (err forbidden, r)
    else (
      ok (record (member_of workspace member next r) { role = next }),
      set_role workspace member next r,
    )

-- A member of the workspace has the address.
has_email : String → String → Memory → Dict User → Bool
unfolding role_in
has_email workspace email r [] = false
has_email workspace email r ((id, user) ∷ others) =
    (str_eq (to_lower (trim user.email)) email && not (is_blank (role_in workspace id r)))
    || has_email workspace email r others

unfoldable pub member_email_exists : String → String → Exec Memory Bool
unfolding has_email
member_email_exists workspace email r = (ok (has_email workspace email r r.users), r)

workspace_name : Option Workspace → Result String
workspace_name none = err not_found
workspace_name (some w) = ok w.name

unfoldable pub workspace_name_by_id : String → Exec Memory String
unfolding workspace_name
workspace_name_by_id id r = (workspace_name (lookup id r.workspaces), r)
