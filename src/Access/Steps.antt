-- ===== src/Access/Steps.antt =====
-- Calls of the services in a row, and the owners along them
-- (internal/application/workspace/service.go, invitation.go, internal/application/auth/service.go).
use deciscope_api.Base.{String, ℕ, Bool, true, false, ◌≡◌, refl, Option}
use deciscope_api.Access.Data.{Identity, Clocks}
use deciscope_api.Access.Memory.{Memory}
use deciscope_api.Access.Invites
use deciscope_api.Access.Workspaces.{
  create_workspace, update_workspace, remove_member, update_member_role,
}
use deciscope_api.Access.Inviting.{Tools, create_invitation, accept_invitation}
use deciscope_api.Access.Logins.{login, authenticate, logout, set_current_workspace}
use deciscope_api.Access.Roles.{owns, exists}
use deciscope_api.Access.Owners.{NoneOwns, Owned, revoke_invitation-Keeps}
use deciscope_api.Access.Ownership.{
  service_remove-Keeps, service_update-Keeps, create_invitation-Owned, accept_invitation-Owned,
}
use deciscope_api.Access.Visits.{
  update_workspace-Keeps, create_workspace-Keeps, login-Keeps, authenticate-Keeps, logout-Keeps,
  set_current-Keeps,
}

-- One call that may change the repository, by any user, with any answer. The identifier of a new
-- workspace is one that no workspace has.
pub data AccessStep (tools : Tools) (ttl : ℕ) : Memory → Memory → Type 0 where
  creates_workspace :
      (clocks : Clocks) (has_creator : Bool) (id user name description : String) (r : Memory)
      → exists id r ≡ false
      → AccessStep tools ttl r (create_workspace clocks has_creator id user name description r).1
  updates_workspace :
      (clocks : Clocks) (user id : String) (name description : Option String) (r : Memory)
      → AccessStep tools ttl r (update_workspace clocks user id name description r).1
  removes_member :
      (user id member : String) (r : Memory)
      → AccessStep tools ttl r (remove_member user id member r).1
  changes_role :
      (user id member role : String) (r : Memory)
      → AccessStep tools ttl r (update_member_role user id member role r).1
  invites :
      (clocks : Clocks) (id user workspace email role : String) (delivered : Bool)
      (raw : Option String) (r : Memory)
      → AccessStep tools ttl r
          (create_invitation tools clocks id user workspace email role delivered raw r).1
  accepts :
      (clocks : Clocks) (user email raw : String) (r : Memory)
      → AccessStep tools ttl r (accept_invitation tools clocks user email raw r).1
  revokes :
      (user workspace id : String) (r : Memory)
      → AccessStep tools ttl r (Invites.revoke_invitation user workspace id r).1
  logs_in :
      (clocks : Clocks) (user_id session_id : String) (identity : Option Identity)
      (raw : Option String) (r : Memory)
      → AccessStep tools ttl r (login tools.hash clocks ttl user_id session_id identity raw r).1
  authenticates :
      (clocks : Clocks) (raw : String) (r : Memory)
      → AccessStep tools ttl r (authenticate tools.hash clocks ttl raw r).1
  logs_out : (id : String) (r : Memory) → AccessStep tools ttl r (logout id r).1
  moves :
      (session user workspace : String) (r : Memory)
      → AccessStep tools ttl r (set_current_workspace session user workspace r).1

pub data AccessSteps (tools : Tools) (ttl : ℕ) (r : Memory) : Memory → Type 0 where
  no_call : AccessSteps tools ttl r r
  then_call :
      {s t : Memory}
      → AccessSteps tools ttl r s
      → AccessStep tools ttl s t
      → AccessSteps tools ttl r t

module _ {tools : Tools} {ttl : ℕ} (workspace user : String) (b : Bool) where
  AccessStep-Owned :
      {r t : Memory}
      → AccessStep tools ttl r t
      → Owned workspace user b r
      → Owned workspace user b t
  AccessStep-Owned (creates_workspace clocks has_creator id u name description r new) h =
      create_workspace-Keeps workspace user b clocks has_creator id u name description r new h
  AccessStep-Owned (updates_workspace clocks u id name description r) h =
      update_workspace-Keeps workspace user b clocks u id name description r h
  AccessStep-Owned (removes_member u id member r) h =
      service_remove-Keeps workspace user b u id member r h
  AccessStep-Owned (changes_role u id member role r) h =
      service_update-Keeps workspace user b u id member role r h
  AccessStep-Owned (invites clocks id u w email role delivered raw r) h =
      create_invitation-Owned workspace user b tools clocks id u w email role delivered raw r h
  AccessStep-Owned (accepts clocks u email raw r) h =
      accept_invitation-Owned workspace user b tools clocks u email raw r h
  AccessStep-Owned (revokes u w id r) h = revoke_invitation-Keeps workspace user b u w id r h
  AccessStep-Owned (logs_in clocks user_id session_id identity raw r) h =
      login-Keeps workspace user b tools.hash clocks ttl user_id session_id identity raw r h
  AccessStep-Owned (authenticates clocks raw r) h =
      authenticate-Keeps workspace user b tools.hash clocks ttl raw r h
  AccessStep-Owned (logs_out id r) h = logout-Keeps workspace user b id r h
  AccessStep-Owned (moves session u w r) h = set_current-Keeps workspace user b session u w r h

  AccessSteps-Owned :
      {r t : Memory}
      → AccessSteps tools ttl r t
      → Owned workspace user b r
      → Owned workspace user b t
  AccessSteps-Owned no_call h = h
  AccessSteps-Owned (then_call rs c) h = AccessStep-Owned c (AccessSteps-Owned rs h)

-- A workspace keeps exactly the owners that it has: no calls in a row, by any users and with any
-- answers, make an owner of a workspace that is there or take one away, provided that no invitation
-- of the start makes an owner (none is there at first, and the calls make no such invitation).
pub calls-owns :
    {tools : Tools} {ttl : ℕ} (workspace user : String) (r t : Memory)
    → AccessSteps tools ttl r t
    → exists workspace r ≡ true
    → NoneOwns r.invitations
    → (owns workspace user t ≡ owns workspace user r) × NoneOwns t.invitations
calls-owns workspace user r t steps there invitable =
    let kept =
      AccessSteps-Owned workspace user (owns workspace user r) steps
        (record { there = there; same = refl; invitable = invitable }) in
    (kept.same, kept.invitable)
