-- ===== src/Scenarios/Accounts.antt =====
-- Scenarios of the workspaces, the invitations and the sessions.
use deciscope_api.Domain.{normalize_role, is_workspace_owner}
use deciscope_api.Base.{
  String, ◌≡◌, refl, true, false, some, [], ◌∷◌, List, Result, err, lookup, insert, trim, to_lower,
  unauthorized, str_eq,
}
use deciscope_api.Base.Clock.{Time}
use deciscope_api.Access.Data.{User, AuthSession, Workspace, Invitation, Clocks, normalize_email}
use deciscope_api.Access.Memory.{Memory, role_in}
use deciscope_api.Access.Memory
use deciscope_api.Access.Invites
use deciscope_api.Access.Workspaces.{remove_member}
use deciscope_api.Access.Inviting.{Tools, accept_invitation}
use deciscope_api.Access.Logins.{authenticate, logout, session_by_token_hash, revoke_session}
use deciscope_api.Access.Roles.{owns}
use deciscope_api.Access.Owners.{NoneOwns}
use deciscope_api.Access.Steps.{no_call, then_call, removes_member, accepts, calls-owns}
use deciscope_api.Access.Tokens.{IsSound, authenticate-IsSound, logout-authenticate}
use deciscope_api.Access.Accepted.{IsAccepted, IsStored, accept_sound}

-- All texts of times read as 500 seconds.
abbrev at : Time → Clocks
at time = record { now = time; rfc3339 = λ t. "later"; parse = λ text. some 500 }

abbrev tools : Tools
tools = record { is_address = λ text. true; hash = λ raw. raw }

abbrev signed_in : String → AuthSession
signed_in key = record {
  id = key;
  user_id = "u1";
  token_hash = "h1";
  current_workspace_id = "w1";
  expires_at = "later";
  created_at = "earlier";
}

abbrev open_invitation : Invitation
open_invitation = record {
  id = "i1";
  workspace_id = "w1";
  email = "b@example.test";
  normalized_email = "b@example.test";
  role = "viewer";
  status = "pending";
  invited_by = "u1";
  token_hash = "t1";
  expires_at = "later";
  created_at = "earlier";
}

-- One workspace with an owner, a member and an open invitation.
abbrev accounts : Memory
accounts = record {
  users =
      ("u1", record { id = "u1"; display_name = "A"; email = "a@example.test" })
      ∷ ("u2", record { id = "u2"; display_name = "B"; email = "b@example.test" })
      ∷ [];
  identities = [];
  sessions = ("h1", signed_in "s1") ∷ ("h2", signed_in "s2") ∷ [];
  workspaces =
      (
        "w1",
        record {
          id = "w1";
          name = "Team";
          description = "";
          role = "";
          created_at = "";
          updated_at = "";
        },
      )
      ∷ [];
  members = ("w1", ("u1", "owner") ∷ ("u3", "admin") ∷ []) ∷ [];
  invitations = ("i1", open_invitation) ∷ [];
}

abbrev after_accept : Memory
after_accept = (accept_invitation tools (at 100) "u2" "b@example.test" "t1" accounts).1

calls-owns_example :
    (owns "w1" "u2" (remove_member "u1" "w1" "u3" after_accept).1 ≡ owns "w1" "u2" accounts)
    × NoneOwns (remove_member "u1" "w1" "u3" after_accept).1.invitations
unfolding lookup trim to_lower is_workspace_owner
calls-owns_example =
    calls-owns {tools = tools} {ttl = 10} "w1" "u2" accounts
      (remove_member "u1" "w1" "u3" after_accept).1
      (then_call (then_call no_call (accepts (at 100) "u2" "b@example.test" "t1" accounts))
        (removes_member "u1" "w1" "u3" after_accept))
      refl (refl, tt)

accept_sound_example :
    (i : Invitation) × IsStored i accounts.invitations
    × (i.token_hash ≡ "t1")
    × IsAccepted
        (at 100)
        "u2"
        "b@example.test"
        i
        (accept_invitation tools (at 100) "u2" "b@example.test" "t1" accounts).1
unfolding accept_invitation lookup insert trim Invites.invitation_by_token_hash normalize_email
    to_lower Invites.accept_invitation Memory.get_workspace normalize_role
accept_sound_example =
    accept_sound tools (at 100) "u2" "b@example.test" "t1" accounts
      (record {
        id = "w1";
        name = "Team";
        description = "";
        role = "viewer";
        created_at = "";
        updated_at = "";
      })
      refl

abbrev opened : User × AuthSession × List Workspace
opened = (
  record { id = "u1"; display_name = "A"; email = "a@example.test" },
  signed_in "s1",
  record {
    id = "w1";
    name = "Team";
    description = "";
    role = "owner";
    created_at = "";
    updated_at = "";
  }
      ∷ [],
)

authenticate-IsSound_example : IsSound (at 100) accounts (lookup "h1" accounts.sessions) opened
unfolding authenticate lookup session_by_token_hash Memory.list_workspaces normalize_role to_lower
    trim
authenticate-IsSound_example =
    authenticate-IsSound (λ raw. raw) (at 100) 10 "h1" accounts opened refl

logout-authenticate_example : str_eq opened.1.id "s2" ≡ false
unfolding authenticate logout lookup session_by_token_hash revoke_session Memory.list_workspaces
    normalize_role to_lower trim
logout-authenticate_example =
    logout-authenticate (λ raw. raw) (at 100) 10 "s2" "h1" accounts opened refl

-- An expired session and a session that is logged out.
rejected :
    ◌≡◌ {A = List (Result (User × AuthSession × List Workspace))}
      ((authenticate (λ raw. raw) (at 500) 10 "h1" accounts).0
        ∷ (authenticate (λ raw. raw) (at 100) 10 "h1" (logout "s1" accounts).1).0
        ∷ [])
      (err unauthorized ∷ err unauthorized ∷ [])
unfolding authenticate logout lookup session_by_token_hash revoke_session
rejected = refl
