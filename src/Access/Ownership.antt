-- ===== src/Access/Ownership.antt =====
-- The owners of the workspaces along the calls of the services
-- (internal/application/workspace/service.go, invitation.go, internal/application/auth/service.go).
use deciscope_api.Base.{
  String, ◌+◌, raise, conflict, Bool, true, false, not, ◌||◌, ◌≡◌, sym, ap, ◌∙◌, subst, Option,
  none, some, List, [], ◌∷◌, Result, Exec, ◌>>=◌, bind-keeps, lookup, str_eq, is_blank, trim,
  if◌then◌else◌, if-case, is_some,
}
use deciscope_api.Domain.{
  normalize_role, role_text, is_workspace_owner, can_manage_workspace,
  valid_workspace_invitation_role,
}
use deciscope_api.Access.Data.{Workspace, Member, Invitation, Clocks, normalize_email}
use deciscope_api.Access.Memory.{Memory, text_at, dict_at, role_in, set_role}
use deciscope_api.Access.Memory
use deciscope_api.Access.Invites
use deciscope_api.Access.Invites.{pending, accepted, revoked}
use deciscope_api.Access.Workspaces.{
  remove_listed, remove_member, update_listed, update_member_role,
}
use deciscope_api.Access.Inviting.{
  Tools, invitation_ttl, effective_status, clear_stale, after_mail, asked_role, issue, invite,
  create_invitation, invitation_by_raw_token, accept_open, accept_found, accept_invitation,
}
use deciscope_api.Access.Owners.{
  NoneOwns, Owned, remove_member-Keeps, update_member_role-Keeps, accept_invitation-Keeps,
  delete_invitation-Keeps, create_invitation-Keeps,
}

module _ (workspace user : String) (b : Bool) where
  abbrev Holds : Memory → Type 0
  Holds = Owned workspace user b

  -- A call after which the owners are as before, whatever it answers.
  abbrev pub Keeps : {A : Type 0} → Exec Memory A → Type 0
  Keeps m = (r : Memory) → Holds r → Holds (m r).1

  pub Keeps-bind :
      {A B : Type 0} (m : Exec Memory A) (f : A → Exec Memory B)
      → Keeps m
      → ((a : A) → Keeps (f a))
      → Keeps (m >>= f)
  Keeps-bind m f h k r held = bind-keeps Holds f m r (h r held) (λ a _. k a (m r).1 (h r held))

  -- A call that changes neither the members nor the invitations.
  pub Owned-same :
      (r t : Memory) → t.members ≡ r.members → t.invitations ≡ r.invitations → Holds r → Holds t
  unfolding role_in
  Owned-same r t m i h = record {
    there = ap (λ ms. is_some (lookup workspace ms)) m ∙ h.there;
    same =
        ap (λ ms. is_workspace_owner (text_at (lookup user (dict_at (lookup workspace ms))))) m
        ∙ h.same;
    invitable = subst NoneOwns (sym i) h.invitable;
  }

  remove_listed-Keeps : (u w v : String) (ms : List Member) → Keeps (remove_listed u w v ms)
  unfolding remove_listed
  remove_listed-Keeps u w v [] r h = h
  remove_listed-Keeps u w v (m ∷ ms) r h =
      let P = λ (run : Exec Memory (Unit {0})). Holds (run r).1 in
      if-case P (not (str_eq m.user_id v)) _ _ (λ _. remove_listed-Keeps u w v ms r h)
        (λ _.
          if-case P (is_workspace_owner m.role) _ _ (λ _. h)
            (λ _. remove_member-Keeps workspace user b u w v r h))

  list_members-Keeps : (u w : String) → Keeps (Memory.list_members u w)
  unfolding Memory.list_members
  list_members-Keeps u w r h =
      if-case (λ (a : Result (List Member) × Memory). Holds a.1) (is_blank (role_in w u r)) _ _
        (λ _. h) (λ _. h)

  pub service_remove-Keeps : (u w v : String) → Keeps (remove_member u w v)
  unfolding remove_member
  service_remove-Keeps u w v r h =
      let k = list_members-Keeps u w r h in
      bind-keeps Holds (remove_listed u w v) (Memory.list_members u w) r k
        (λ ms _. remove_listed-Keeps u w v ms (Memory.list_members u w r).1 k)

  update_listed-Keeps :
      (u w v role : String) (ms : List Member) → Keeps (update_listed u w v role ms)
  unfolding update_listed
  update_listed-Keeps u w v role [] r h = h
  update_listed-Keeps u w v role (m ∷ ms) r h =
      let P = λ (run : Exec Memory Member). Holds (run r).1 in
      if-case P (not (str_eq m.user_id v)) _ _ (λ _. update_listed-Keeps u w v role ms r h)
        (λ _.
          if-case P (is_workspace_owner m.role) _ _ (λ _. h)
            (λ _. update_member_role-Keeps workspace user b u w v role r h))

  pub service_update-Keeps : (u w v role : String) → Keeps (update_member_role u w v role)
  unfolding update_member_role
  service_update-Keeps u w v role r h =
      let next = role_text (normalize_role role) in
      let k = list_members-Keeps u w r h in
      if-case (λ (run : Exec Memory Member). Holds (run r).1)
        (not (valid_workspace_invitation_role next)) _ _ (λ _. h)
        (λ _.
          bind-keeps Holds (update_listed u w v next) (Memory.list_members u w) r k
            (λ ms _. update_listed-Keeps u w v next ms (Memory.list_members u w r).1 k))

  pub get_workspace-Keeps : (u w : String) → Keeps (Memory.get_workspace u w)
  unfolding Memory.get_workspace
  get_workspace-Keeps u w r h =
      if-case (λ (a : Result Workspace × Memory). Holds a.1) (is_blank (role_in w u r)) _ _ (λ _. h)
        (λ _. h)

  list_invitations-Keeps : (u w : String) → Keeps (Invites.list_invitations u w)
  unfolding Invites.list_invitations
  list_invitations-Keeps u w r h =
      if-case (λ (a : Result (List Invitation) × Memory). Holds a.1)
        (not (can_manage_workspace (role_in w u r))) _ _ (λ _. h) (λ _. h)

  clear_stale-Keeps :
      (clocks : Clocks) (email : String) (is : List Invitation)
      → Keeps (clear_stale clocks email is)
  unfolding clear_stale
  clear_stale-Keeps clocks email [] r h = h
  clear_stale-Keeps clocks email (i ∷ is) r h =
      let P = λ (run : Exec Memory (Unit {0})). Holds (run r).1 in
      let k = delete_invitation-Keeps workspace user b i.id r h in
      if-case P (not (str_eq i.normalized_email email)) _ _
        (λ _. clear_stale-Keeps clocks email is r h)
        (λ _.
          if-case P (str_eq (effective_status clocks i) pending) _ _ (λ _. h)
            (λ _.
              bind-keeps Holds (λ _. clear_stale clocks email is) (Invites.delete_invitation i.id) r
                k
                (λ _ _. clear_stale-Keeps clocks email is (Invites.delete_invitation i.id r).1 k)))

  after_mail-Keeps : (delivered : Bool) (i : Invitation) → Keeps (after_mail delivered i)
  unfolding after_mail
  after_mail-Keeps true i r h = h
  after_mail-Keeps false i r h =
      let k = delete_invitation-Keeps workspace user b i.id r h in
      bind-keeps Holds _ (Invites.delete_invitation i.id) r k (λ _ _. k)

  module _ (tools : Tools) (clocks : Clocks) where
    issue-Keeps :
        (id u w email role : String) (delivered : Bool) (raw : Option String)
        → Keeps (issue tools clocks id u w email role delivered raw)
    unfolding issue
    issue-Keeps id u w email role delivered none r h = h
    issue-Keeps id u w email role delivered (some raw) r h =
        let expires = clocks.rfc3339 (clocks.now + invitation_ttl) in
        let made = Invites.create_invitation clocks id u w email role (tools.hash raw) expires in
        let k =
          create_invitation-Keeps workspace user b clocks id u w email role (tools.hash raw) expires
            r h in
        bind-keeps Holds (after_mail delivered) made r k (λ i _. after_mail-Keeps delivered i _ k)

    cleared-Keeps :
        (id u w email role : String) (delivered : Bool) (raw : Option String) (is : List Invitation)
        → Keeps (
            clear_stale clocks (normalize_email email) is >>= λ _.
            issue tools clocks id u w (trim email) role delivered raw)
    cleared-Keeps id u w email role delivered raw is =
        Keeps-bind (clear_stale clocks (normalize_email email) is) _
          (clear_stale-Keeps clocks (normalize_email email) is)
          (λ _. issue-Keeps id u w (trim email) role delivered raw)

    listed-Keeps :
        (known : Bool) (u w : String)
        → Keeps (if known then raise conflict else Invites.list_invitations u w)
    listed-Keeps true u w r h = h
    listed-Keeps false u w r h = list_invitations-Keeps u w r h

    known-Keeps : (w email : String) → Keeps (Memory.member_email_exists w email)
    unfolding Memory.member_email_exists
    known-Keeps w email r h = h

    invite-Keeps :
        (id u w email role : String) (delivered : Bool) (raw : Option String)
        → Keeps (invite tools clocks id u w email role delivered raw)
    unfolding invite
    invite-Keeps id u w email role delivered raw =
        Keeps-bind (Memory.get_workspace u w) _ (get_workspace-Keeps u w) (λ _.
          Keeps-bind (Memory.member_email_exists w (normalize_email email)) _
            (known-Keeps w (normalize_email email))
            (λ known.
              Keeps-bind (if known then raise conflict else Invites.list_invitations u w) _
                (listed-Keeps known u w) (cleared-Keeps id u w email role delivered raw)))

    pub create_invitation-Owned :
        (id u w email role : String) (delivered : Bool) (raw : Option String)
        → Keeps (create_invitation tools clocks id u w email role delivered raw)
    unfolding create_invitation
    create_invitation-Owned id u w email role delivered raw r h =
        let P = λ (run : Exec Memory Invitation). Holds (run r).1 in
        if-case P
          (is_blank (normalize_email email) || not (tools.is_address (normalize_email email))) _ _
          (λ _. h)
          (λ _.
            if-case P (str_eq (role_text (normalize_role role)) "owner") _ _ (λ _. h)
              (λ _.
                if-case P (not (valid_workspace_invitation_role (asked_role role))) _ _ (λ _. h)
                  (λ _. invite-Keeps id u w email (asked_role role) delivered raw r h)))

    accept_open-Keeps :
        (v email : String) (i : Invitation) → Keeps (accept_open tools clocks v email i)
    unfolding accept_open
    accept_open-Keeps v email i r h =
        let k = accept_invitation-Keeps workspace user b i.id v r h in
        if-case (λ (run : Exec Memory Workspace). Holds (run r).1)
          (is_blank (normalize_email email)
            || not (str_eq (normalize_email email) i.normalized_email))
          _ _ (λ _. h)
          (λ _.
            bind-keeps Holds _ (Invites.accept_invitation i.id v) r k
              (λ _ _. get_workspace-Keeps v i.workspace_id _ k))

    accept_found-Owned :
        (v email : String) (i : Invitation) → Keeps (accept_found tools clocks v email i)
    unfolding accept_found
    accept_found-Owned v email i r h =
        let P = λ (run : Exec Memory Workspace). Holds (run r).1 in
        let status = effective_status clocks i in
        if-case P (str_eq status pending) _ _ (λ _. accept_open-Keeps v email i r h)
          (λ _.
            if-case P (str_eq status accepted) _ _ (λ _. h)
              (λ _. if-case P (str_eq status revoked) _ _ (λ _. h) (λ _. h)))

    by_token-Keeps : (raw : String) → Keeps (invitation_by_raw_token tools clocks raw)
    unfolding invitation_by_raw_token Invites.invitation_by_token_hash
    by_token-Keeps raw r h =
        if-case (λ (run : Exec Memory Invitation). Holds (run r).1) (is_blank (trim raw)) _ _
          (λ _. h) (λ _. h)

    pub accept_invitation-Owned :
        (v email raw : String) → Keeps (accept_invitation tools clocks v email raw)
    unfolding accept_invitation
    accept_invitation-Owned v email raw r h =
        let k = by_token-Keeps raw r h in
        bind-keeps Holds _ (invitation_by_raw_token tools clocks raw) r k
          (λ i _. accept_found-Owned v email i _ k)
