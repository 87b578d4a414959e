-- ===== src/Access/Tokens.antt =====
-- What an authenticated session is (internal/application/auth/service.go).
use deciscope_api.Base.{
  String, ℕ, true, false, not, ◌≡◌, refl, ap, ◌∙◌, ◌⊎◌, inl, inr, Option, none, some, List, [], ◌∷◌,
  Result, ok, err, Dict, lookup, str_eq, str_eq_self, is_blank, arith, if-case, ok-injective, subst,
  Exec, ◌||◌,
}
use deciscope_api.Access.Data.{User, AuthSession, Workspace, Clocks}
use deciscope_api.Access.Memory.{Memory, user_at}
use deciscope_api.Access.Memory
use deciscope_api.Access.Logins.{
  without_session, found_session, session_by_token_hash, store_current_workspace, revoke_session,
  first_id, has_workspace, open_until, settle, open_session, authenticate_found, authenticate,
  logout,
}

abbrev pub Opened : Type 0
Opened = User × AuthSession × List Workspace

-- The session is in a workspace of its user, or the user has none.
abbrev pub IsSettled : AuthSession → List Workspace → Type 0
IsSettled session ws =
    (has_workspace ws session.current_workspace_id ≡ true)
    ⊎ ((ws ≡ []) × (session.current_workspace_id ≡ ""))

first_id-has :
    (ws : List Workspace)
    → (has_workspace ws (first_id ws) ≡ true) ⊎ ((ws ≡ []) × (first_id ws ≡ ""))
unfolding has_workspace first_id
first_id-has [] = inr (refl, refl)
first_id-has (w ∷ ws) = inl (ap (λ b. b || has_workspace ws w.id) (str_eq_self w.id))

-- The answer is of the session that the token has, which has not expired, and of its user.
abbrev pub IsSound : Clocks → Memory → Option AuthSession → Opened → Type 0
IsSound clocks r none answer = ⊥
IsSound clocks r (some found) (user, session, ws) =
    (session.id ≡ found.id)
    × (open_until clocks (clocks.parse found.expires_at) ≡ true)
    × (user ≡ user_at found.user_id r)
    × IsSettled session ws

module _ (hash : String → String) (clocks : Clocks) (ttl : ℕ) where
  abbrev Sound : Memory → Option AuthSession → Result Opened × Memory → Type 0
  Sound r found (ok answer, s) = IsSound clocks r found answer
  Sound r found (err e, s) = Unit

  settle-Sound :
      (found : AuthSession) (ws : List Workspace) (r : Memory)
      → open_until clocks (clocks.parse found.expires_at) ≡ true
      → Sound r (some found) (settle hash clocks ttl (user_at found.user_id r) found ws r)
  unfolding settle store_current_workspace
  settle-Sound found ws r h =
      let P = λ (run : Exec Memory Opened). Sound r (some found) (run r) in
      if-case P (has_workspace ws found.current_workspace_id) _ _ (λ has. (refl, h, refl, inl has))
        (λ _.
          if-case P (str_eq (first_id ws) found.current_workspace_id) _ _
            (λ _. (refl, h, refl, first_id-has ws)) (λ _. (refl, h, refl, first_id-has ws)))

  authenticate_found-Sound :
      (found : Option AuthSession) (r : Memory)
      → Sound r found (authenticate_found hash clocks ttl (found_session found r) r)
  unfolding authenticate_found open_session found_session Memory.list_workspaces
  authenticate_found-Sound none r = tt
  authenticate_found-Sound (some found) r =
      if-case (λ (run : Exec Memory Opened). Sound r (some found) (run r))
        (not (open_until clocks (clocks.parse found.expires_at))) _ _ (λ _. tt)
        (λ unexpired.
          settle-Sound found (Memory.workspaces_of (user_at found.user_id r).id r r.members) r
            (ground (arith, unexpired)))

  authenticate-Sound :
      (raw : String) (r : Memory)
      → Sound r (lookup (hash raw) r.sessions) (authenticate hash clocks ttl raw r)
  unfolding authenticate session_by_token_hash
  authenticate-Sound raw r =
      if-case (Sound r (lookup (hash raw) r.sessions)) (is_blank raw) _ _ (λ _. tt)
        (λ _. authenticate_found-Sound (lookup (hash raw) r.sessions) r)

  Sound-ok :
      (r : Memory) (found : Option AuthSession) (a : Result Opened × Memory) (answer : Opened)
      → a.0 ≡ ok answer
      → Sound r found a
      → IsSound clocks r found answer
  Sound-ok r found (ok given, s) answer e h =
      subst (IsSound clocks r found) (ok-injective given answer e) h
  Sound-ok r found (err cause, s) answer e h = cc

  -- A token is accepted only if a session is stored under its hash and has not expired. The answer has
  -- that session's identifier and user, and is in a workspace of the user, or in none if the user has
  -- none.
  pub authenticate-IsSound :
      (raw : String) (r : Memory) (answer : Opened)
      → (authenticate hash clocks ttl raw r).0 ≡ ok answer
      → IsSound clocks r (lookup (hash raw) r.sessions) answer
  authenticate-IsSound raw r answer e =
      Sound-ok r (lookup (hash raw) r.sessions) (authenticate hash clocks ttl raw r) answer e
        (authenticate-Sound raw r)

-- No session of the identifier.
abbrev Other : String → Option AuthSession → Type 0
Other id none = Unit
Other id (some session) = str_eq session.id id ≡ false

lookup-without_session :
    (id key : String) (sessions : Dict AuthSession)
    → Other id (lookup key (without_session id sessions))
unfolding lookup without_session
lookup-without_session id key [] = tt
lookup-without_session id key ((first, session) ∷ others) =
    let rest = lookup-without_session id key others in
    if-case (λ kept. Other id (lookup key kept)) (str_eq session.id id) (without_session id others)
      _ (λ _. rest)
      (λ other.
        if-case (Other id) (str_eq first key) (some session)
          (lookup key (without_session id others)) (λ _. other) (λ _. rest))

Sound-Other :
    (clocks : Clocks) (id : String) (r : Memory) (found : Option AuthSession) (answer : Opened)
    → IsSound clocks r found answer
    → Other id found
    → str_eq answer.1.id id ≡ false
Sound-Other clocks id r none answer h other = absurd h
Sound-Other clocks id r (some found) (user, session, ws) h other =
    ap (λ key. str_eq key id) h.0 ∙ other

-- After a logout no token is accepted for the session, however often it is stored.
pub logout-authenticate :
    (hash : String → String) (clocks : Clocks) (ttl : ℕ) (id raw : String) (r : Memory)
    (answer : Opened)
    → (authenticate hash clocks ttl raw (logout id r).1).0 ≡ ok answer
    → str_eq answer.1.id id ≡ false
unfolding logout revoke_session
logout-authenticate hash clocks ttl id raw r answer e =
    let t = (logout id r).1 in
    Sound-Other clocks id t (lookup (hash raw) t.sessions) answer
      (authenticate-IsSound hash clocks ttl raw t answer e)
      (lookup-without_session id (hash raw) r.sessions)
