-- ===== src/Access/Accepted.antt =====
-- The acceptance of an invitation (internal/application/workspace/invitation.go).
use deciscope_api.Base.{
  ◌<◌, true, Option, none, some, [], ◌∷◌, Dict, ok-injective, inl, inr, ◌⊎◌, ap, ◌∙◌, trim, String,
  false, not, ◌||◌, ◌≡◌, refl, sym, subst, Result, ok, err, Exec, continue-case, str_eq, eq_iff,
  is_blank, arith, if-case,
}
use deciscope_api.Base.Clock.{Time}
use deciscope_api.Access.Data.{Workspace, Invitation, Clocks, normalize_email}
use deciscope_api.Access.Memory.{Memory, role_in}
use deciscope_api.Access.Memory
use deciscope_api.Access.Invites
use deciscope_api.Access.Invites.{pending, accepted, revoked, expired, by_hash}
use deciscope_api.Access.Inviting.{
  Tools, unexpired, effective_status, invitation_by_raw_token, accept_open, accept_found,
  accept_invitation,
}

-- The invitation is pending and unexpired, of this address, and the user is a member of its workspace
-- in `t`.
pub record IsAccepted (clocks : Clocks) (user email : String) (i : Invitation) (t : Memory)
    : Type 0 where
  pub still_pending : i.status ≡ "pending"
  pub expires : Time
  pub expiry : clocks.parse i.expires_at ≡ some expires
  pub unexpired : clocks.now < expires
  pub addressed : normalize_email email ≡ i.normalized_email
  pub joined : is_blank (role_in i.workspace_id user t) ≡ false

unexpired-later :
    (clocks : Clocks) (o : Option Time)
    → unexpired clocks o ≡ true
    → (expires : Time) × (o ≡ some expires) × (clocks.now < expires)
unfolding unexpired
unexpired-later clocks none e = cc
unexpired-later clocks (some expires) e = (expires, refl, ground (arith, e))

expired_not_pending : expired ≡ pending → ⊥
expired_not_pending q = let h : false ≡ true = ap (λ t. str_eq t pending) q in cc

effective_status-open :
    (clocks : Clocks) (i : Invitation)
    → effective_status clocks i ≡ pending
    → (i.status ≡ "pending")
      × ((expires : Time) × (clocks.parse i.expires_at ≡ some expires) × (clocks.now < expires))
unfolding effective_status
effective_status-open clocks i e =
    let P = λ (status : String).
      status ≡ pending
      → (i.status ≡ "pending")
        × ((expires : Time) × (clocks.parse i.expires_at ≡ some expires)
            × (clocks.now < expires)) in
    if-case P (not (str_eq i.status pending)) _ _
      (λ other q. absurd (ground (arith, other, (eq_iff i.status pending).1 q)))
      (λ same.
        if-case P (is_blank i.expires_at) _ _ (λ _ q. absurd (expired_not_pending q))
          (λ _.
            if-case P (unexpired clocks (clocks.parse i.expires_at)) _ _
              (λ later _. (
                (eq_iff i.status pending).0 (ground (arith, same)),
                unexpired-later clocks (clocks.parse i.expires_at) later,
              ))
              (λ _ q. absurd (expired_not_pending q))))
      e

-- The invitation is one of those that are stored.
abbrev pub IsStored : Invitation → Dict Invitation → Type 0
IsStored i [] = ⊥
IsStored i ((id, j) ∷ others) = (j ≡ i) ⊎ IsStored i others

by_hash-found :
    (hash : String) (d : Dict Invitation) (i : Invitation)
    → by_hash hash d ≡ ok i
    → IsStored i d × (i.token_hash ≡ hash)
unfolding by_hash
by_hash-found hash [] i e = cc
by_hash-found hash ((id, j) ∷ others) i e =
    let P =
      λ (a : Result Invitation). a ≡ ok i → IsStored i ((id, j) ∷ others) × (i.token_hash ≡ hash) in
    if-case P (str_eq j.token_hash hash) (ok j) (by_hash hash others)
      (λ same q.
        let this = ok-injective j i q in
        (
          inl this,
          ap (λ (k : Invitation). k.token_hash) (sym this) ∙ (eq_iff j.token_hash hash).0 same,
        ))
      (λ _ q. let h = by_hash-found hash others i q in (inr h.0, h.1)) e

module _ (tools : Tools) (clocks : Clocks) (user email : String) where
  abbrev Sound : Invitation → Result Workspace × Memory → Type 0
  Sound i (ok w, t) = IsAccepted clocks user email i t
  Sound i (err e, t) = Unit

  get_workspace-Sound :
      (i : Invitation) (t : Memory)
      → effective_status clocks i ≡ pending
      → normalize_email email ≡ i.normalized_email
      → Sound i (Memory.get_workspace user i.workspace_id t)
  unfolding Memory.get_workspace
  get_workspace-Sound i t s a =
      if-case (Sound i) (is_blank (role_in i.workspace_id user t)) _ _ (λ _. tt)
        (λ member.
          let (status, (expires, expiry, later)) = effective_status-open clocks i s in
          record {
            still_pending = status;
            expires = expires;
            expiry = expiry;
            unexpired = later;
            addressed = a;
            joined = member;
          })

  accept_open-Sound :
      (i : Invitation) (r : Memory)
      → effective_status clocks i ≡ pending
      → Sound i (accept_open tools clocks user email i r)
  unfolding accept_open
  accept_open-Sound i r s =
      if-case (λ (run : Exec Memory Workspace). Sound i (run r))
        (is_blank (normalize_email email)
          || not (str_eq (normalize_email email) i.normalized_email))
        _ _ (λ _. tt)
        (λ same.
          let t = (Invites.accept_invitation i.id user r).1 in
          let addressed =
            (eq_iff (normalize_email email) i.normalized_email).0 (ground (arith, same)) in
          continue-case (Sound i) (λ _. Memory.get_workspace user i.workspace_id)
            (Invites.accept_invitation i.id user r) (λ e _. tt)
            (λ _ _. get_workspace-Sound i t s addressed))

  accept_found-Sound :
      (i : Invitation) (r : Memory) → Sound i (accept_found tools clocks user email i r)
  unfolding accept_found
  accept_found-Sound i r =
      let P = λ (run : Exec Memory Workspace). Sound i (run r) in
      let status = effective_status clocks i in
      if-case P (str_eq status pending) _ _
        (λ still. accept_open-Sound i r ((eq_iff status pending).0 still))
        (λ _.
          if-case P (str_eq status accepted) _ _ (λ _. tt)
            (λ _. if-case P (str_eq status revoked) _ _ (λ _. tt) (λ _. tt)))

  -- The invitation that the token has.
  abbrev Found : Result Invitation → Result Workspace × Memory → Type 0
  Found (ok i) a = Sound i a
  Found (err e) (ok w, t) = ⊥
  Found (err e) (err f, t) = Unit

  accept-Found :
      (raw : String) (r : Memory)
      → Found
          (invitation_by_raw_token tools clocks raw r).0
          (accept_invitation tools clocks user email raw r)
  unfolding accept_invitation
  accept-Found raw r =
      let m = invitation_by_raw_token tools clocks raw r in
      let f = accept_found tools clocks user email in
      continue-case (Found m.0) f m (λ e q. subst (λ found. Found found (err e, m.1)) (sym q) tt)
        (λ i q. subst (λ found. Found found (f i m.1)) (sym q) (accept_found-Sound i m.1))

  Found-ok :
      (found : Result Invitation) (a : Result Workspace × Memory) (w : Workspace)
      → a.0 ≡ ok w
      → Found found a
      → (i : Invitation) × (found ≡ ok i) × IsAccepted clocks user email i a.1
  Found-ok (ok i) (ok v, t) w e h = (i, refl, h)
  Found-ok (ok i) (err f, t) w e h = cc
  Found-ok (err f) (ok v, t) w e h = absurd h
  Found-ok (err f) (err g, t) w e h = cc

  token-found :
      (raw : String) (r : Memory) (i : Invitation)
      → (invitation_by_raw_token tools clocks raw r).0 ≡ ok i
      → IsStored i r.invitations × (i.token_hash ≡ tools.hash (trim raw))
  unfolding invitation_by_raw_token Invites.invitation_by_token_hash
  token-found raw r i e =
      let P = λ (a : Result Invitation).
        a ≡ ok i → IsStored i r.invitations × (i.token_hash ≡ tools.hash (trim raw)) in
      if-case (λ (run : Exec Memory Invitation). P (run r).0) (is_blank (trim raw)) _ _ (λ _ q. cc)
        (λ _.
          if-case P (is_blank (trim (tools.hash (trim raw)))) _ _ (λ _ q. cc)
            (λ _. by_hash-found (tools.hash (trim raw)) r.invitations i))
        e

  -- Where a call accepts an invitation, a stored invitation has the hash of the token, stands as
  -- pending, expires after now and is of the user's address, and the user is a member of its workspace
  -- after the call.
  pub accept_sound :
      (raw : String) (r : Memory) (w : Workspace)
      → (accept_invitation tools clocks user email raw r).0 ≡ ok w
      → (i : Invitation) × IsStored i r.invitations
        × (i.token_hash ≡ tools.hash (trim raw))
        × IsAccepted clocks user email i (accept_invitation tools clocks user email raw r).1
  accept_sound raw r w e =
      let (i, q, h) =
        Found-ok (invitation_by_raw_token tools clocks raw r).0
          (accept_invitation tools clocks user email raw r) w e (accept-Found raw r) in
      let t = token-found raw r i q in (i, t.0, t.1, h)
