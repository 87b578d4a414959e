-- ===== src/Access/Visits.antt =====
-- The owners of the workspaces under the calls on workspaces and sessions
-- (internal/application/workspace/service.go, invitation.go, internal/application/auth/service.go).
use deciscope_api.Base.{
  String, ℕ, Bool, true, false, not, ◌&&◌, ◌≡◌, refl, ap, ◌∙◌, Option, none, some, List, [], ◌∷◌,
  Result, ok, err, Exec, bind-keeps, lookup, str_eq, eq_iff, is_blank, trim, arith, if-case,
  if-false,
}
use deciscope_api.Domain.{is_workspace_owner, can_manage_workspace}
use deciscope_api.Access.Data.{User, Identity, AuthSession, Workspace, Clocks}
use deciscope_api.Access.Memory.{Memory, text_at, dict_at, role_in, set_role}
use deciscope_api.Access.Memory
use deciscope_api.Access.Workspaces.{create_workspace, update_workspace, is_blank_name, is_set}
use deciscope_api.Access.Logins.{
  create_session, session_by_token_hash, revoke_session, store_current_workspace, log_in, login_as,
  login, settle, open_session, authenticate_found, authenticate, logout, set_current_workspace,
  has_workspace, first_id, open_until,
}
use deciscope_api.Access.Roles.{exists, exists-insert, role_in-insert}
use deciscope_api.Access.Ownership.{Keeps, Keeps-bind, Owned-same, get_workspace-Keeps}
use deciscope_api.Access.Owners.{Owned}

module _ (workspace user : String) (b : Bool) where
  abbrev Holds : Memory → Type 0
  Holds = Owned workspace user b

  pub update_workspace-Keeps :
      (clocks : Clocks) (u w : String) (name description : Option String)
      → Keeps workspace user b (update_workspace clocks u w name description)
  unfolding update_workspace Memory.update_workspace
  update_workspace-Keeps clocks u w name description r h =
      let P = λ (run : Exec Memory Workspace). Holds (run r).1 in
      let Q = λ (a : Result Workspace × Memory). Holds a.1 in
      if-case P (is_blank_name name) _ _ (λ _. h)
        (λ _.
          if-case P (not (is_set name) && not (is_set description)) _ _ (λ _. h)
            (λ _.
              if-case Q (is_blank (role_in w u r)) _ _ (λ _. h)
                (λ _.
                  if-case Q (not (can_manage_workspace (role_in w u r))) _ _ (λ _. h)
                    (λ _. Owned-same workspace user b r _ refl refl h))))

  differ :
      (id w : String) (r : Memory) → exists id r ≡ false → exists w r ≡ true → str_eq id w ≡ false
  differ id w r new there = ground (arith, eq_iff id w, new, there)

  -- The new workspace has another identifier than the one in question, which is there.
  pub create_workspace-Keeps :
      (clocks : Clocks) (has_creator : Bool) (id u name description : String) (r : Memory)
      → exists id r ≡ false
      → Holds r
      → Holds (create_workspace clocks has_creator id u name description r).1
  unfolding create_workspace Memory.create_workspace
  create_workspace-Keeps clocks has_creator id u name description r new h =
      let roles = (u, "owner") ∷ [] in
      let other : str_eq id workspace ≡ false = differ id workspace r new h.there in
      if-case (λ (run : Exec Memory (Workspace × Bool)). Holds (run r).1) (is_blank (trim name)) _ _
        (λ _. h)
        (λ _.
          let t = (Memory.create_workspace clocks id u (trim name) (trim description) r).1 in
          record {
            there = exists-insert id workspace roles r t refl h.there;
            same =
                ap is_workspace_owner
                  (role_in-insert id workspace user roles r t refl ∙ if-false _ _ _ other)
                ∙ h.same;
            invitable = h.invitable;
          })

  find_user-Keeps :
      (id : String) (identity : Identity)
      → Keeps workspace user b (Memory.find_or_create_user id identity)
  unfolding Memory.find_or_create_user
  find_user-Keeps id identity r h =
      if-case (λ (a : Result User × Memory). Holds a.1)
        (not (is_blank (text_at (lookup identity.uid r.identities)))) _ _ (λ _. h)
        (λ _. Owned-same workspace user b r _ refl refl h)

  store_current-Keeps : (id w : String) → Keeps workspace user b (store_current_workspace id w)
  unfolding store_current_workspace
  store_current-Keeps id w r h = Owned-same workspace user b r _ refl refl h

  module _ (hash : String → String) (clocks : Clocks) (ttl : ℕ) where
    log_in-Keeps :
        (id : String) (u : User) (ws : List Workspace) (raw : Option String)
        → Keeps workspace user b (log_in hash clocks ttl id u ws raw)
    unfolding log_in create_session
    log_in-Keeps id u ws none r h = h
    log_in-Keeps id u ws (some raw) r h = Owned-same workspace user b r _ refl refl h

    pub login-Keeps :
        (user_id session_id : String) (identity : Option Identity) (raw : Option String)
        → Keeps workspace user b (login hash clocks ttl user_id session_id identity raw)
    unfolding login login_as Memory.list_workspaces
    login-Keeps user_id session_id none raw r h = h
    login-Keeps user_id session_id (some identity) raw r h =
        let P = λ (run : Exec Memory (AuthSession × String)). Holds (run r).1 in
        let k = find_user-Keeps user_id (record identity { email = trim identity.email }) r h in
        if-case P (is_blank (trim identity.email)) _ _ (λ _. h)
          (λ _.
            if-case P
              (not identity.email_verified && not (str_eq identity.provider "microsoft.com")) _ _
              (λ _. h)
              (λ _.
                bind-keeps Holds _
                  (Memory.find_or_create_user user_id
                    (record identity { email = trim identity.email }))
                  r k
                  (λ u _.
                    let s =
                      (Memory.find_or_create_user user_id
                        (record identity { email = trim identity.email }) r).1 in
                    log_in-Keeps session_id u (Memory.workspaces_of u.id s s.members) raw s k)))

    settle-Keeps :
        (u : User) (session : AuthSession) (ws : List Workspace)
        → Keeps workspace user b (settle hash clocks ttl u session ws)
    unfolding settle store_current_workspace
    settle-Keeps u session ws r h =
        let P = λ (run : Exec Memory (User × AuthSession × List Workspace)). Holds (run r).1 in
        if-case P (has_workspace ws session.current_workspace_id) _ _ (λ _. h)
          (λ _.
            if-case P (str_eq (first_id ws) session.current_workspace_id) _ _ (λ _. h)
              (λ _. store_current-Keeps session.id (first_id ws) r h))

    authenticate_found-Keeps :
        (found : Result (AuthSession × User))
        → Keeps workspace user b (authenticate_found hash clocks ttl found)
    unfolding authenticate_found open_session Memory.list_workspaces
    authenticate_found-Keeps (err e) r h = h
    authenticate_found-Keeps (ok (session, u)) r h =
        if-case (λ (run : Exec Memory (User × AuthSession × List Workspace)). Holds (run r).1)
          (not (open_until clocks (clocks.parse session.expires_at))) _ _ (λ _. h)
          (λ _. settle-Keeps u session (Memory.workspaces_of u.id r r.members) r h)

    pub authenticate-Keeps :
        (raw : String) → Keeps workspace user b (authenticate hash clocks ttl raw)
    unfolding authenticate
    authenticate-Keeps raw r h =
        if-case (λ (a : Result (User × AuthSession × List Workspace) × Memory). Holds a.1)
          (is_blank raw) _ _ (λ _. h)
          (λ _. authenticate_found-Keeps (session_by_token_hash (hash raw) r).0 r h)

  pub logout-Keeps : (id : String) → Keeps workspace user b (logout id)
  unfolding logout revoke_session
  logout-Keeps id r h = Owned-same workspace user b r _ refl refl h

  pub set_current-Keeps :
      (session u w : String) → Keeps workspace user b (set_current_workspace session u w)
  unfolding set_current_workspace
  set_current-Keeps session u w =
      Keeps-bind workspace user b (Memory.get_workspace u w) _
        (get_workspace-Keeps workspace user b u w) (λ _. store_current-Keeps session w)
