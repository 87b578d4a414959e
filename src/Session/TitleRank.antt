-- ===== src/Session/TitleRank.antt =====
-- The ranks of the old and the new title of a session (internal/application/meeting_session.go).
use deciscope_api.Base.{
  ℕ, ◌≤◌, ◌≡◌, refl, sym, subst, String, Bool, true, false, some, trim, trim-twice, is_blank, ◌⊎◌,
  arith, inl, inr, if◌then◌else◌, if-case,
}
use deciscope_api.Base.Clock.{Time}
use deciscope_api.Domain.{Status, MeetingSession}
use deciscope_api.Session.Input.{StatusInput}
use deciscope_api.Session.Titles.{
  source_rank, applies, raised, decide_ranks, decide_title, normalize_title_source, is_graph_source,
}
use deciscope_api.Session.Rows.{apply_update, given_or}
use deciscope_api.Session.Update.{status_update}
use deciscope_api.Session.Stamps.{status_update-title}

source_rank-trim : (s : String) → source_rank (trim s) ≡ source_rank s
unfolding source_rank is_graph_source
source_rank-trim s = ground (arith, trim-twice s)

decide_ranks-applies :
    (old incoming : ℕ) → applies (decide_ranks old incoming) ≡ true → old ≤ incoming
unfolding decide_ranks
decide_ranks-applies old incoming e = ground (arith, e)

-- The source of the title of the update, where it replaces the old one.
winning-rank :
    (m : MeetingSession) (title source : String)
    → applies (decide_title (some m) title source) ≡ true
    → raised (source_rank m.metadata.title_source) ≤ raised (source_rank source)
unfolding decide_title
winning-rank m title source e =
    let d =
      decide_ranks-applies (source_rank (trim m.metadata.title_source))
        (raised (source_rank (trim source))) (ground (arith, e)) in
    ground (arith, d, source_rank-trim m.metadata.title_source, source_rank-trim source)

given-rank :
    (b : Bool) (new old : String)
    → (b ≡ true → raised (source_rank old) ≤ raised (source_rank new))
    → raised (source_rank old) ≤ raised (source_rank (given_or (if b then new else "") old))
given-rank true new old h =
    if-case (λ s. raised (source_rank old) ≤ raised (source_rank s)) (is_blank new) old new
      (λ _. omega arith) (λ _. h refl)
given-rank false new old h = omega arith

given-kept :
    {P : Type 0} (b : Bool) (new old : String)
    → (b ≡ true → P)
    → (given_or (if b then new else "") old ≡ old) ⊎ P
given-kept true new old h = inr (h refl)
given-kept false new old h = inl refl

-- A status update that has read the row which it updates replaces the title of the session only by
-- one whose source ranks at least as high as that of the old title, and the rank of the stored source
-- does not fall; no source counts as the lowest one. This says nothing of an update whose read of the
-- row failed, which goes on without the ranks.
pub title-rank :
    (now : Time) (input : StatusInput) (id : String) (status : Status) (m : MeetingSession)
    → ((apply_update (status_update now input id status (some m)) m).metadata.title
          ≡ m.metadata.title
        ⊎ (raised (source_rank m.metadata.title_source)
            ≤ raised (source_rank (normalize_title_source input.title_source input.title))))
      × (raised (source_rank m.metadata.title_source)
          ≤ raised (
              source_rank
                (apply_update
                  (status_update now input id status (some m))
                  m).metadata.title_source))
unfolding apply_update status_update
title-rank now input id status m =
    let source = normalize_title_source input.title_source input.title in
    let wins = applies (decide_title (some m) (trim input.title) source) in
    let u = status_update-title now input id status (some m) source refl in
    let w = winning-rank m (trim input.title) source in
    (
      subst
          (λ t.
            (given_or t m.metadata.title ≡ m.metadata.title)
            ⊎ (raised (source_rank m.metadata.title_source) ≤ raised (source_rank source)))
          (sym u.0) (given-kept wins (trim input.title) m.metadata.title w),
      subst
          (λ t.
            raised (source_rank m.metadata.title_source)
            ≤ raised (source_rank (given_or t m.metadata.title_source)))
          (sym u.1) (given-rank wins source m.metadata.title_source w),
    )
