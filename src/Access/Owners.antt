-- ===== src/Access/Owners.antt =====
-- The owners of the workspaces under the operations of the services
-- (internal/application/workspace/service.go, invitation.go, internal/application/auth/service.go).
use deciscope_api.Base.{
  String, Bool, true, false, not, ◌||◌, ◌≡◌, refl, ap, ◌∙◌, Option, none, some, [], ◌∷◌, Result,
  Exec, Dict, lookup, insert, remove, lookup-insert, lookup-remove, str_eq, str_eq_self, is_blank,
  arith, if-case, if-true, if-false,
}
use deciscope_api.Domain.{
  normalize_role, role_text, is_workspace_owner, can_manage_workspace,
  valid_workspace_invitation_role,
}
use deciscope_api.Access.Data.{Member, Invitation, Clocks, normalize_email}
use deciscope_api.Access.Memory.{Memory, text_at, dict_at, role_in, set_role}
use deciscope_api.Access.Memory
use deciscope_api.Access.Invites
use deciscope_api.Access.Invites.{pending, accepted, revoked}
use deciscope_api.Access.Roles.{
  owns, exists, owns-entry, exists-insert, valid-not_owner, blank-not_owner,
}

-- No invitation makes an owner.
abbrev pub NoneOwns : Dict Invitation → Type 0
NoneOwns [] = Unit
NoneOwns ((id, i) ∷ others) = (is_workspace_owner i.role ≡ false) × NoneOwns others

-- The workspace is there, `user` is its owner exactly if `b`, and no invitation makes an owner.
pub record Owned (workspace user : String) (b : Bool) (r : Memory) : Type 0 where
  pub there : exists workspace r ≡ true
  pub same : owns workspace user r ≡ b
  pub invitable : NoneOwns r.invitations

NoneOwns-insert :
    (id : String) (i : Invitation) (is : Dict Invitation)
    → is_workspace_owner i.role ≡ false
    → NoneOwns is
    → NoneOwns (insert id i is)
unfolding insert
NoneOwns-insert id i [] h k = (h, tt)
NoneOwns-insert id i ((key, j) ∷ others) h k =
    if-case NoneOwns (str_eq key id) ((key, i) ∷ others) ((key, j) ∷ insert id i others)
      (λ _. (h, k.1)) (λ _. (k.0, NoneOwns-insert id i others h k.1))

NoneOwns-remove : (id : String) (is : Dict Invitation) → NoneOwns is → NoneOwns (remove id is)
unfolding remove
NoneOwns-remove id [] k = tt
NoneOwns-remove id ((key, j) ∷ others) k =
    if-case NoneOwns (str_eq key id) (remove id others) ((key, j) ∷ remove id others)
      (λ _. NoneOwns-remove id others k.1) (λ _. (k.0, NoneOwns-remove id others k.1))

abbrev NotOwner : Option Invitation → Type 0
NotOwner none = Unit
NotOwner (some i) = is_workspace_owner i.role ≡ false

NoneOwns-lookup : (id : String) (is : Dict Invitation) → NoneOwns is → NotOwner (lookup id is)
unfolding lookup
NoneOwns-lookup id [] k = tt
NoneOwns-lookup id ((key, j) ∷ others) k =
    if-case NotOwner (str_eq key id) (some j) (lookup id others) (λ _. k.0)
      (λ _. NoneOwns-lookup id others k.1)

module _ (workspace user : String) (b : Bool) where
  abbrev pub Holds : Memory → Type 0
  Holds = Owned workspace user b

  abbrev pub Keeps : {A : Type 0} → Exec Memory A → Type 0
  Keeps m = (r : Memory) → Holds r → Holds (m r).1

  set_role-Owned :
      (w v role : String) (r : Memory)
      → owns w v r ≡ false
      → is_workspace_owner role ≡ false
      → Holds r
      → Holds (set_role w v role r)
  unfolding set_role
  set_role-Owned w v role r before after h =
      let old = dict_at (lookup w r.members) in
      let roles = insert v role old in
      let t = set_role w v role r in
      record {
        there = exists-insert w workspace roles r t refl h.there;
        same =
            owns-entry w v roles r t refl
              (λ asked other. lookup-insert v asked role old ∙ if-false _ _ _ other) before
              (ap (λ o. is_workspace_owner (text_at o))
                  (lookup-insert v v role old ∙ if-true _ _ _ (str_eq_self v))
                ∙ after)
              workspace user
            ∙ h.same;
        invitable = h.invitable;
      }

  pub remove_member-Keeps : (u w v : String) → Keeps (Memory.remove_member u w v)
  unfolding Memory.remove_member
  remove_member-Keeps u w v r h =
      let P = λ (a : Result (Unit {0}) × Memory). Holds a.1 in
      if-case P (not (can_manage_workspace (role_in w u r))) _ _ (λ _. h)
        (λ _.
          if-case P (is_blank (role_in w v r)) _ _ (λ _. h)
            (λ _.
              if-case P (is_workspace_owner (role_in w v r)) _ _ (λ _. h)
                (λ before.
                  let old = dict_at (lookup w r.members) in
                  let t : Memory = record r { members = insert w (remove v old) r.members } in
                  record {
                    there = exists-insert w workspace (remove v old) r t refl h.there;
                    same =
                        owns-entry w v (remove v old) r t refl
                          (λ asked other. lookup-remove v asked old ∙ if-false _ _ _ other) before
                          (ap (λ o. is_workspace_owner (text_at o))
                              (lookup-remove v v old ∙ if-true _ _ _ (str_eq_self v))
                            ∙ blank-not_owner "" refl)
                          workspace user
                        ∙ h.same;
                    invitable = h.invitable;
                  })))

  pub update_member_role-Keeps :
      (u w v role : String) → Keeps (Memory.update_member_role u w v role)
  unfolding Memory.update_member_role
  update_member_role-Keeps u w v role r h =
      let P = λ (a : Result Member × Memory). Holds a.1 in
      let next = role_text (normalize_role role) in
      if-case P (not (is_workspace_owner (role_in w u r))) _ _ (λ _. h)
        (λ _.
          if-case P (not (valid_workspace_invitation_role next)) _ _ (λ _. h)
            (λ valid.
              if-case P (is_blank (role_in w v r)) _ _ (λ _. h)
                (λ _.
                  if-case P (is_workspace_owner (role_in w v r)) _ _ (λ _. h)
                    (λ before.
                      set_role-Owned w v next r before
                        (valid-not_owner next (ground (arith, valid))) h))))

  join-Owned :
      (w v role : String) (r : Memory)
      → is_workspace_owner role ≡ false
      → Holds r
      → Holds (Invites.join w v role r)
  unfolding Invites.join
  join-Owned w v role r after h =
      if-case Holds (is_blank (role_in w v r)) _ _
        (λ blank. set_role-Owned w v role r (blank-not_owner (role_in w v r) blank) after h)
        (λ _. h)

  invited-Owned :
      (is : Dict Invitation) (r : Memory)
      → NoneOwns is
      → Holds r
      → Holds (record r { invitations = is })
  unfolding role_in
  invited-Owned is r k h = record { there = h.there; same = h.same; invitable = k }

  accept_found-Keeps :
      (id v : String) (o : Option Invitation) → NotOwner o → Keeps (Invites.accept_found id v o)
  unfolding Invites.accept_found
  accept_found-Keeps id v none k r h = h
  accept_found-Keeps id v (some i) k r h =
      if-case (λ (a : Result (Unit {0}) × Memory). Holds a.1) (not (str_eq i.status pending)) _ _
        (λ _. h)
        (λ _.
          let joined = join-Owned i.workspace_id v i.role r k h in
          invited-Owned _ (Invites.join i.workspace_id v i.role r)
            (NoneOwns-insert id _ _ k joined.invitable) joined)

  pub accept_invitation-Keeps : (id v : String) → Keeps (Invites.accept_invitation id v)
  unfolding Invites.accept_invitation
  accept_invitation-Keeps id v r h =
      accept_found-Keeps id v (lookup id r.invitations)
        (NoneOwns-lookup id r.invitations h.invitable) r h

  revoke_found-Keeps :
      (w id : String) (o : Option Invitation) → NotOwner o → Keeps (Invites.revoke_found w id o)
  unfolding Invites.revoke_found
  revoke_found-Keeps w id none k r h = h
  revoke_found-Keeps w id (some i) k r h =
      if-case (λ (a : Result (Unit {0}) × Memory). Holds a.1)
        (not (str_eq i.workspace_id w) || not (str_eq i.status pending)) _ _ (λ _. h)
        (λ _. invited-Owned _ r (NoneOwns-insert id _ r.invitations k h.invitable) h)

  pub revoke_invitation-Keeps : (u w id : String) → Keeps (Invites.revoke_invitation u w id)
  unfolding Invites.revoke_invitation
  revoke_invitation-Keeps u w id r h =
      if-case (λ (a : Result (Unit {0}) × Memory). Holds a.1)
        (not (can_manage_workspace (role_in w u r))) _ _ (λ _. h)
        (λ _.
          revoke_found-Keeps w id (lookup id r.invitations)
            (NoneOwns-lookup id r.invitations h.invitable) r h)

  pub delete_invitation-Keeps : (id : String) → Keeps (Invites.delete_invitation id)
  unfolding Invites.delete_invitation
  delete_invitation-Keeps id r h =
      invited-Owned _ r (NoneOwns-remove id r.invitations h.invitable) h

  pub create_invitation-Keeps :
      (clocks : Clocks) (id u w email role hash expires : String)
      → Keeps (Invites.create_invitation clocks id u w email role hash expires)
  unfolding Invites.create_invitation
  create_invitation-Keeps clocks id u w email role hash expires r h =
      let P = λ (a : Result Invitation × Memory). Holds a.1 in
      let normal = role_text (normalize_role role) in
      if-case P (not (can_manage_workspace (role_in w u r))) _ _ (λ _. h)
        (λ _.
          if-case P (not (valid_workspace_invitation_role normal)) _ _ (λ _. h)
            (λ valid.
              if-case P (Invites.has_pending w (normalize_email email) r.invitations) _ _ (λ _. h)
                (λ _.
                  invited-Owned _ r
                    (NoneOwns-insert id _ r.invitations
                      (valid-not_owner normal (ground (arith, valid))) h.invitable)
                    h)))
