-- ===== src/Access/Roles.antt =====
-- The roles of the members under the writes of the memory repository
-- (internal/adapter/repository/memory/auth_workspace.go, internal/domain/workspace_role.go).
use deciscope_api.Base.{
  String, Bool, true, false, ◌≡◌, refl, sym, ap, ◌∙◌, subst, some, Dict, lookup, insert,
  lookup-insert, str_eq, eq_iff, is_blank, is_some, trim, to_lower, if◌then◌else◌, if-case, if-true,
  if-false, Bool-cases, inl, inr,
}
use deciscope_api.Domain.{
  Role, owner, admin, viewer, unknown, normalize_role, role_text, is_invitable, is_workspace_owner,
  valid_workspace_invitation_role,
}
use deciscope_api.Access.Memory.{Memory, text_at, dict_at, role_in}

invitable-not_owner : (r : Role) → is_invitable r ≡ true → str_eq (role_text r) "owner" ≡ false
unfolding is_invitable
invitable-not_owner owner h = cc
invitable-not_owner admin h = refl
invitable-not_owner viewer h = refl
invitable-not_owner unknown h = cc

pub valid-not_owner :
    (role : String) → valid_workspace_invitation_role role ≡ true → is_workspace_owner role ≡ false
unfolding valid_workspace_invitation_role is_workspace_owner
valid-not_owner role h = invitable-not_owner (normalize_role role) h

pub blank-not_owner : (role : String) → is_blank role ≡ true → is_workspace_owner role ≡ false
unfolding is_workspace_owner trim to_lower
blank-not_owner role h = ap is_workspace_owner ((eq_iff role "").0 h)

abbrev pub owns : String → String → Memory → Bool
owns workspace user r = is_workspace_owner (role_in workspace user r)

abbrev pub exists : String → Memory → Bool
exists workspace r = is_some (lookup workspace r.members)

-- An entry of the roles of a workspace is replaced.
pub role_in-insert :
    (w workspace user : String) (roles : Dict String) (r t : Memory)
    → t.members ≡ insert w roles r.members
    → role_in workspace user t
      ≡ (if str_eq w workspace then text_at (lookup user roles) else role_in workspace user r)
unfolding role_in
role_in-insert w workspace user roles r t e =
    ap (λ ms. text_at (lookup user (dict_at (lookup workspace ms)))) e
    ∙ ap (λ o. text_at (lookup user (dict_at o))) (lookup-insert w workspace roles r.members)
    ∙ if-case
        (λ o. text_at (lookup user (dict_at o)) ≡ (
          if str_eq w workspace
          then text_at (lookup user roles)
          else text_at (lookup user (dict_at (lookup workspace r.members)))))
        (str_eq w workspace) (some roles) (lookup workspace r.members) (λ q. sym (if-true _ _ _ q))
        (λ q. sym (if-false _ _ _ q))

pub exists-insert :
    (w workspace : String) (roles : Dict String) (r t : Memory)
    → t.members ≡ insert w roles r.members
    → exists workspace r ≡ true
    → exists workspace t ≡ true
exists-insert w workspace roles r t e h =
    ap (λ ms. is_some (lookup workspace ms)) e
    ∙ ap is_some (lookup-insert w workspace roles r.members)
    ∙ if-case (λ o. is_some o ≡ true) (str_eq w workspace) _ _ (λ _. refl) (λ _. h)

-- The roles of the workspace `w` are replaced by `roles`, which differ at the member `v` alone, who is
-- no owner before and after.
module _ (w v : String) (roles : Dict String) (r t : Memory)
    (e : t.members ≡ insert w roles r.members)
    (others : (asked : String)
      → str_eq v asked ≡ false
      → lookup asked roles ≡ lookup asked (dict_at (lookup w r.members)))
    (before : owns w v r ≡ false)
    (after : is_workspace_owner (text_at (lookup v roles)) ≡ false) where
  owns-here : (user : String) → is_workspace_owner (text_at (lookup user roles)) ≡ owns w user r
  unfolding role_in
  owns-here user = elim (Bool-cases (str_eq v user)) [
    | inl same ↦
        subst (λ j. is_workspace_owner (text_at (lookup j roles)) ≡ owns w j r)
          ((eq_iff v user).0 same) (after ∙ sym before)
    | inr other ↦ ap (λ o. is_workspace_owner (text_at o)) (others user other)
  ]

  pub owns-entry : (workspace user : String) → owns workspace user t ≡ owns workspace user r
  owns-entry workspace user =
      ap is_workspace_owner (role_in-insert w workspace user roles r t e)
      ∙ if-case (λ role. is_workspace_owner role ≡ owns workspace user r) (str_eq w workspace) _ _
          (λ q.
            subst (λ j. is_workspace_owner (text_at (lookup user roles)) ≡ owns j user r)
              ((eq_iff w workspace).0 q) (owns-here user))
          (λ _. refl)
