-- ===== src/Access/Inviting.antt =====
-- The service of the invitations (internal/application/workspace/invitation.go). A call reads the
-- clock once. The random token and the answer of the mailer are arguments; the text of the mail is
-- not modelled.
use deciscope_api.Base.{
  String, ℕ, ◌+◌, ◌*◌, Bool, true, false, not, ◌||◌, Option, none, some, List, [], ◌∷◌, map, Exec,
  ◌>>=◌, pure, raise, not_found, conflict, invalid_argument, unavailable, invitation_expired,
  invitation_revoked, invitation_already_accepted, invitation_email_mismatch,
  invitation_email_delivery, str_eq, is_blank, trim, if◌then◌else◌,
}
use deciscope_api.Base.Clock.{Time, after, minute}
use deciscope_api.Domain.{normalize_role, role_text, valid_workspace_invitation_role}
use deciscope_api.Access.Data.{Workspace, Invitation, Clocks, normalize_email}
use deciscope_api.Access.Memory.{Memory}
use deciscope_api.Access.Memory
use deciscope_api.Access.Invites.{pending, accepted, revoked, expired}
use deciscope_api.Access.Invites

-- What the packages net/mail and crypto give.
pub record Tools : Type 0 where
  pub is_address : String → Bool
  pub hash : String → String

abbrev pub invitation_ttl : ℕ
invitation_ttl = 72 * (60 * minute)

unfoldable pub unexpired : Clocks → Option Time → Bool
unexpired clocks none = false
unexpired clocks (some expires) = after expires clocks.now

unfoldable pub effective_status : Clocks → Invitation → String
unfolding unexpired
effective_status clocks i =
    if not (str_eq i.status pending)
    then i.status
    else if is_blank i.expires_at
    then expired
    else if unexpired clocks (clocks.parse i.expires_at)
    then pending
    else expired

-- Deletes the invitations of the address that are no longer open, or stops at an open one.
unfoldable pub clear_stale : Clocks → String → List Invitation → Exec Memory (Unit {0})
unfolding effective_status
clear_stale clocks email [] = pure tt
clear_stale clocks email (i ∷ is) =
    let later = clear_stale clocks email is in
    if not (str_eq i.normalized_email email)
    then later
    else if str_eq (effective_status clocks i) pending
    then raise conflict
    else Invites.delete_invitation i.id >>= λ _. later

-- A mail that fails takes the invitation back.
unfoldable pub after_mail : Bool → Invitation → Exec Memory Invitation
after_mail true i = pure i
after_mail false i = Invites.delete_invitation i.id >>= λ _. raise invitation_email_delivery

unfoldable pub asked_role : String → String
asked_role role =
    let normal = role_text (normalize_role role) in if is_blank normal then "viewer" else normal

module _ (tools : Tools) (clocks : Clocks) where
  unfoldable pub issue :
      String → String → String → String → String → Bool → Option String → Exec Memory Invitation
  unfolding after_mail
  issue id user workspace email role delivered none = raise unavailable
  issue id user workspace email role delivered (some raw) =
      Invites.create_invitation clocks id user workspace email role (tools.hash raw)
        (clocks.rfc3339 (clocks.now + invitation_ttl))
      >>= after_mail delivered

  unfoldable pub invite :
      String → String → String → String → String → Bool → Option String → Exec Memory Invitation
  unfolding issue clear_stale
  invite id user workspace email role delivered raw = do
    _ ← Memory.get_workspace user workspace
    known ← Memory.member_email_exists workspace (normalize_email email)
    listed ← if known then raise conflict else Invites.list_invitations user workspace
    _ ← clear_stale clocks (normalize_email email) listed
    issue id user workspace (trim email) role delivered raw

  unfoldable pub create_invitation :
      String → String → String → String → String → Bool → Option String → Exec Memory Invitation
  unfolding invite asked_role
  create_invitation id user workspace email role delivered raw =
      if is_blank (normalize_email email) || not (tools.is_address (normalize_email email))
      then raise invalid_argument
      else if str_eq (role_text (normalize_role role)) "owner"
      then raise invalid_argument
      else if not (valid_workspace_invitation_role (asked_role role))
      then raise invalid_argument
      else invite id user workspace email (asked_role role) delivered raw

  unfoldable pub invitation_by_raw_token : String → Exec Memory Invitation
  invitation_by_raw_token raw =
      if is_blank (trim raw)
      then raise not_found
      else Invites.invitation_by_token_hash (tools.hash (trim raw))

  -- The name of the workspace, the address, the role and the status.
  unfoldable pub preview_invitation : String → Exec Memory (String × String × String × String)
  unfolding invitation_by_raw_token effective_status
  preview_invitation raw = do
    i ← invitation_by_raw_token raw
    name ← Memory.workspace_name_by_id i.workspace_id
    pure (name, i.email, i.role, effective_status clocks i)

  unfoldable pub accept_open : String → String → Invitation → Exec Memory Workspace
  accept_open user email i =
      if is_blank (normalize_email email) || not (str_eq (normalize_email email) i.normalized_email)
      then raise invitation_email_mismatch
      else Invites.accept_invitation i.id user >>= λ _. Memory.get_workspace user i.workspace_id

  unfoldable pub accept_found : String → String → Invitation → Exec Memory Workspace
  unfolding accept_open effective_status
  accept_found user email i =
      let status = effective_status clocks i in
      if str_eq status pending
      then accept_open user email i
      else if str_eq status accepted
      then raise invitation_already_accepted
      else if str_eq status revoked
      then raise invitation_revoked
      else raise invitation_expired

  unfoldable pub accept_invitation : String → String → String → Exec Memory Workspace
  unfolding invitation_by_raw_token accept_found
  accept_invitation user email raw = invitation_by_raw_token raw >>= accept_found user email

  with_effective : Invitation → Invitation
  unfolding effective_status
  with_effective i = record i { status = effective_status clocks i }

  unfoldable pub list_invitations : String → String → Exec Memory (List Invitation)
  unfolding with_effective
  list_invitations user workspace =
      Invites.list_invitations user workspace >>= λ listed. pure (map with_effective listed)
