-- ===== src/Access/Invites.antt =====
-- The memory repository of users, sessions and workspaces: its invitations
-- (internal/adapter/repository/memory/auth_workspace.go).
use deciscope_api.Base.{
  String, Bool, false, not, ◌&&◌, ◌||◌, Option, none, some, List, [], ◌∷◌, Result, ok, err,
  not_found, forbidden, conflict, invalid_argument, Exec, Dict, lookup, insert, remove, str_eq,
  is_blank, trim, if◌then◌else◌,
}
use deciscope_api.Domain.{
  normalize_role, role_text, can_manage_workspace, valid_workspace_invitation_role,
}
use deciscope_api.Access.Data.{Invitation, Clocks, now_text, normalize_email}
use deciscope_api.Access.Memory.{Memory, role_in, set_role}

abbrev pub pending : String
pending = "pending"

abbrev pub accepted : String
accepted = "accepted"

abbrev pub revoked : String
revoked = "revoked"

abbrev pub expired : String
expired = "expired"

abbrev pub is_pending_for : String → String → Invitation → Bool
is_pending_for workspace email i =
    str_eq i.workspace_id workspace && (str_eq i.normalized_email email && str_eq i.status pending)

unfoldable pub has_pending : String → String → Dict Invitation → Bool
has_pending workspace email [] = false
has_pending workspace email ((id, i) ∷ others) =
    is_pending_for workspace email i || has_pending workspace email others

abbrev pub new_invitation :
    Clocks → String → String → String → String → String → String → String → Invitation
new_invitation clocks id user workspace email role hash expires = record {
  id = id;
  workspace_id = workspace;
  email = trim email;
  normalized_email = normalize_email email;
  role = role;
  status = pending;
  invited_by = user;
  token_hash = hash;
  expires_at = expires;
  created_at = now_text clocks;
}

unfoldable pub create_invitation :
    Clocks → String → String → String → String → String → String → String → Exec Memory Invitation
unfolding has_pending role_in
create_invitation clocks id user workspace email role hash expires r =
    let normal = role_text (normalize_role role) in
    let i = new_invitation clocks id user workspace email normal hash expires in
    if not (can_manage_workspace (role_in workspace user r))
    then (err forbidden, r)
    else if not (valid_workspace_invitation_role normal)
    then (err invalid_argument, r)
    else if has_pending workspace (normalize_email email) r.invitations
    then (err conflict, r)
    else (ok i, record r { invitations = insert id i r.invitations })

unfoldable pub delete_invitation : String → Exec Memory (Unit {0})
delete_invitation id r = (ok tt, record r { invitations = remove id r.invitations })

unfoldable pub by_hash : String → Dict Invitation → Result Invitation
by_hash hash [] = err not_found
by_hash hash ((id, i) ∷ others) =
    let later = by_hash hash others in if str_eq i.token_hash hash then ok i else later

unfoldable pub invitation_by_token_hash : String → Exec Memory Invitation
unfolding by_hash
invitation_by_token_hash hash r =
    (if is_blank (trim hash) then err not_found else by_hash hash r.invitations, r)

-- A member keeps the role that it has.
unfoldable pub join : String → String → String → Memory → Memory
unfolding role_in set_role
join workspace user role r =
    if is_blank (role_in workspace user r) then set_role workspace user role r else r

unfoldable pub accept_found : String → String → Option Invitation → Exec Memory (Unit {0})
unfolding join
accept_found id user none r = (err not_found, r)
accept_found id user (some i) r =
    let joined = join i.workspace_id user i.role r in
    if not (str_eq i.status pending) then (err not_found, r) else (
      ok tt,
      record joined { invitations = insert id (record i { status = accepted }) joined.invitations },
    )

unfoldable pub accept_invitation : String → String → Exec Memory (Unit {0})
unfolding accept_found
accept_invitation id user r = accept_found id user (lookup id r.invitations) r

unfoldable pub revoke_found : String → String → Option Invitation → Exec Memory (Unit {0})
revoke_found workspace id none r = (err not_found, r)
revoke_found workspace id (some i) r =
    if not (str_eq i.workspace_id workspace) || not (str_eq i.status pending)
    then (err not_found, r)
    else (ok tt, record r { invitations = insert id (record i { status = revoked }) r.invitations })

unfoldable pub revoke_invitation : String → String → String → Exec Memory (Unit {0})
unfolding revoke_found role_in
revoke_invitation user workspace id r =
    if not (can_manage_workspace (role_in workspace user r))
    then (err forbidden, r)
    else revoke_found workspace id (lookup id r.invitations) r

unfoldable pub pending_in : String → Dict Invitation → List Invitation
pending_in workspace [] = []
pending_in workspace ((id, i) ∷ others) =
    let found = pending_in workspace others in
    if str_eq i.workspace_id workspace && str_eq i.status pending then i ∷ found else found

unfoldable pub list_invitations : String → String → Exec Memory (List Invitation)
unfolding pending_in role_in
list_invitations user workspace r =
    if not (can_manage_workspace (role_in workspace user r))
    then (err forbidden, r)
    else (ok (pending_in workspace r.invitations), r)
