-- ===== src/Access/Logins.antt =====
-- The sessions of the users: the memory repository's
-- (internal/adapter/repository/memory/auth_workspace.go), and the service on it
-- (internal/application/auth/service.go). The random token and the answer of the verifier are
-- arguments.
use deciscope_api.Base.{
  String, ℕ, ◌+◌, Bool, false, not, ◌&&◌, ◌||◌, Option, none, some, List, [], ◌∷◌, Result, ok, err,
  Error, Exec, ◌>>=◌, pure, raise, not_found, unauthorized, invalid_token, email_required,
  unavailable, Dict, lookup, insert, str_eq, is_blank, trim, if◌then◌else◌,
}
use deciscope_api.Base.Clock.{Time, after}
use deciscope_api.Access.Data.{User, Identity, AuthSession, Workspace, Clocks, now_text}
use deciscope_api.Access.Memory.{Memory, user_at}
use deciscope_api.Access.Memory

unfoldable pub create_session : AuthSession → Exec Memory (Unit {0})
create_session session r =
    (ok tt, record r { sessions = insert session.token_hash session r.sessions })

unfoldable pub found_session : Option AuthSession → Memory → Result (AuthSession × User)
found_session none r = err not_found
found_session (some session) r = ok (session, user_at session.user_id r)

unfoldable pub session_by_token_hash : String → Exec Memory (AuthSession × User)
unfolding found_session
session_by_token_hash hash r = (found_session (lookup hash r.sessions) r, r)

-- The loops over all sessions.
unfoldable pub without_session : String → Dict AuthSession → Dict AuthSession
without_session id [] = []
without_session id ((hash, session) ∷ others) =
    let kept = without_session id others in
    if str_eq session.id id then kept else (hash, session) ∷ kept

unfoldable pub revoke_session : String → Exec Memory (Unit {0})
unfolding without_session
revoke_session id r = (ok tt, record r { sessions = without_session id r.sessions })

unfoldable pub in_workspace : String → String → Dict AuthSession → Dict AuthSession
in_workspace id workspace [] = []
in_workspace id workspace ((hash, session) ∷ others) =
    let changed =
      if str_eq session.id id
      then record session { current_workspace_id = workspace }
      else session in
    (hash, changed) ∷ in_workspace id workspace others

unfoldable pub store_current_workspace : String → String → Exec Memory (Unit {0})
unfolding in_workspace
store_current_workspace id workspace r =
    (ok tt, record r { sessions = in_workspace id workspace r.sessions })

unfoldable pub first_id : List Workspace → String
first_id [] = ""
first_id (w ∷ ws) = w.id

unfoldable pub has_workspace : List Workspace → String → Bool
has_workspace [] id = false
has_workspace (w ∷ ws) id = str_eq w.id id || has_workspace ws id

unfoldable pub open_until : Clocks → Option Time → Bool
open_until clocks none = false
open_until clocks (some expires) = after expires clocks.now

-- A token that is not found is unauthorized.
unfoldable pub denied : Error → Error
denied not_found = unauthorized
denied e = e

module _ (hash : String → String) (clocks : Clocks) (session_ttl : ℕ) where
  new_session : String → User → List Workspace → String → AuthSession
  unfolding first_id
  new_session id user workspaces raw = record {
    id = id;
    user_id = user.id;
    token_hash = hash raw;
    current_workspace_id = first_id workspaces;
    expires_at = clocks.rfc3339 (clocks.now + session_ttl);
    created_at = now_text clocks;
  }

  unfoldable pub log_in :
      String → User → List Workspace → Option String → Exec Memory (AuthSession × String)
  unfolding new_session
  log_in id user workspaces none = raise unavailable
  log_in id user workspaces (some raw) = do
    _ ← create_session (new_session id user workspaces raw)
    pure (new_session id user workspaces raw, raw)

  -- `user_id` and `session_id` are the new identifiers.
  unfoldable pub login_as :
      String → String → Identity → Option String → Exec Memory (AuthSession × String)
  unfolding log_in
  login_as user_id session_id identity raw =
      if is_blank (trim identity.email)
      then raise email_required
      else if not identity.email_verified && not (str_eq identity.provider "microsoft.com")
      then raise invalid_token
      else (do
        user ← Memory.find_or_create_user user_id (record identity { email = trim identity.email })
        workspaces ← Memory.list_workspaces user.id
        log_in session_id user workspaces raw)

  unfoldable pub login :
      String → String → Option Identity → Option String → Exec Memory (AuthSession × String)
  unfolding login_as
  login user_id session_id none raw = raise invalid_token
  login user_id session_id (some identity) raw = login_as user_id session_id identity raw

  -- The session goes to a workspace of its user, if it is in another.
  unfoldable pub settle :
      User → AuthSession → List Workspace → Exec Memory (User × AuthSession × List Workspace)
  unfolding has_workspace first_id
  settle user session workspaces =
      let next = first_id workspaces in
      let moved = record session { current_workspace_id = next } in
      if has_workspace workspaces session.current_workspace_id
      then pure (user, session, workspaces)
      else if str_eq next session.current_workspace_id
      then pure (user, moved, workspaces)
      else store_current_workspace session.id next >>= λ _. pure (user, moved, workspaces)

  unfoldable pub open_session :
      AuthSession × User → Exec Memory (User × AuthSession × List Workspace)
  unfolding open_until settle
  open_session (session, user) =
      if not (open_until clocks (clocks.parse session.expires_at))
      then raise unauthorized
      else Memory.list_workspaces user.id >>= settle user session

  unfoldable pub authenticate_found :
      Result (AuthSession × User) → Exec Memory (User × AuthSession × List Workspace)
  unfolding open_session denied
  authenticate_found (err e) = raise (denied e)
  authenticate_found (ok found) = open_session found

  unfoldable pub authenticate : String → Exec Memory (User × AuthSession × List Workspace)
  unfolding authenticate_found
  authenticate raw r =
      if is_blank raw
      then (err unauthorized, r)
      else authenticate_found (session_by_token_hash (hash raw) r).0 r

unfoldable pub logout : String → Exec Memory (Unit {0})
logout id = revoke_session id

unfoldable pub set_current_workspace : String → String → String → Exec Memory (Unit {0})
set_current_workspace session user workspace =
    Memory.get_workspace user workspace >>= λ _. store_current_workspace session workspace
