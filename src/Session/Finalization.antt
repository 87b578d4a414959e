-- ===== src/Session/Finalization.antt =====
-- Finalizations: what an ended status starts, and the count of those that run
-- (internal/application/meeting_session.go).
use deciscope_api.Base.{
  ℕ, suc, ◌-◌, bind-keeps, ◌≡◌, refl, sym, ap, ◌∙◌, ◌⊎◌, String, true, Option, List, [], ◌∷◌,
  Result, ok, err, Error, str_eq, eq_iff, Dict, lookup, remove, lookup-insert, lookup-remove,
  is_some, if◌then◌else◌, arith,
}
use deciscope_api.Base.Clock.{Time}
use deciscope_api.Domain.{ending, MeetingSession, StatusUpdate}
use deciscope_api.Session.Input.{StatusInput}
use deciscope_api.Session.State.{Job, Service, Parts}
use deciscope_api.Session.Service.{on_store, start_finalization, drop_job, write, complete_job}

-- The finalizations of a session that run.
unfoldable pub jobs_of : String → List Job → ℕ
jobs_of id [] = 0
jobs_of id (j ∷ jobs) =
    let rest = jobs_of id jobs in if str_eq j.session.id id then suc rest else rest

-- One finalization runs for a session that is marked, and none for any other.
unfoldable pub IsSingle : {W : Type 0} → Service W → Type 0
IsSingle s = (id : String) → jobs_of id s.jobs ≡ (if is_some (lookup id s.in_flight) then 1 else 0)

drop_job-count :
    (id k : String) (jobs : List Job)
    → jobs_of id (drop_job k jobs) ≡ (if str_eq k id then jobs_of id jobs - 1 else jobs_of id jobs)
unfolding jobs_of drop_job
drop_job-count id k [] = ground arith
drop_job-count id k (j ∷ jobs) =
    ground
      (arith, drop_job-count id k jobs, eq_iff j.session.id k, eq_iff j.session.id id, eq_iff k id)

module _ {W : Type 0} where
  pub start_finalization-IsSingle :
      (m : MeetingSession) (input : StatusInput) (s : Service W)
      → IsSingle s
      → IsSingle (start_finalization m input s)
  unfolding IsSingle start_finalization jobs_of
  start_finalization-IsSingle m input s h id =
      ground (arith, h id, lookup-insert m.id id tt s.in_flight, eq_iff m.id id)

module _ {W : Type 0} (p : Parts W) where
  write-jobs :
      (u : StatusUpdate) (s : Service W)
      → ((write p u s).1.jobs ≡ s.jobs) × ((write p u s).1.in_flight ≡ s.in_flight)
  unfolding write
  write-jobs u s =
      bind-keeps (λ (t : Service W). (t.jobs ≡ s.jobs) × (t.in_flight ≡ s.in_flight)) _
        (on_store (p.repository.update_status u)) s (refl, refl) (λ m e. (refl, refl))

  pub complete_job-IsSingle :
      (now : Time) (failure : Option String) (job : Job) (s : Service W)
      → IsSingle s
      → IsSingle (complete_job p now failure job s)
  unfolding IsSingle complete_job
  complete_job-IsSingle now failure job s h id =
      let w = write-jobs _ s in
      let k = job.session.id in
      ap (λ js. jobs_of id (drop_job k js)) w.0
      ∙ drop_job-count id k s.jobs
      ∙ ground (arith, h id, lookup-remove k id s.in_flight)
      ∙ ap (λ (marks : Dict (Unit {0})). if is_some (lookup id (remove k marks)) then 1 else 0)
          (sym w.1)

  -- The update of a row to `ending` fails with the error.
  abbrev pub IsUnwritten : Error → Service W → Type 0
  IsUnwritten e s =
      (u : StatusUpdate) × (u.status ≡ ending) × ((p.repository.update_status u s.store).0 ≡ err e)

  -- How an ended status leaves a session that was not terminal.
  abbrev pub Closing : Service W → Result MeetingSession × Service W → Type 0
  Closing s r =
      ((e : Error) × (r.0 ≡ err e) × (r.1.jobs ≡ s.jobs) × IsUnwritten e s)
      ⊎ ((m : MeetingSession) × (r.0 ≡ ok m)
          × (m.status ≡ ending)
          × (is_some (lookup m.id r.1.in_flight) ≡ true))
