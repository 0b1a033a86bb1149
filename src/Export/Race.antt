-- ===== src/Export/Race.antt =====
-- How a generation ends when others change the job while it runs (`run_job` of
-- afair/mcp/export_job.py, the guard `AND status = 'pending'` of `mark_ready`).
use afair.Prelude.{
  ℕ, subst, ◌<◌, ◌≡◌, refl, sym, inl, inr, String, Bool, true, not, ◌&&◌, none, some, List, [], ◌∷◌,
  find?, select, count, arith, update_absent, count_absent, count_present, find?-update_same,
  find?-delete_self, find?-update-none, find?_holds, Bool-cases,
}
use afair.Export.Jobs.{
  pending, ready, failed, expired_ready_jobs, stale_pending_jobs, mark_failed, FileName, bin,
  JobRow, Jobs, Texts, has_id, pending_of, is_stale, job_by_id, mark_ready, mark_expired,
  fail_if_pending,
}
use afair.Export.Runner.{
  File, Exports, Unlinks, same_name, safe_unlink, generate_artifact, notified, lost_race,
  failed_job, finish_job, run_job, expire_each, fail_each, purge_expired,
}
use afair.Export.Purge.{purge_expired-none_left}

module _ (x : Texts) (unlinks : Unlinks) where
  finish_job_lost :
      (s : Exports) (job_id : String) (size now : ℕ)
      → find? (pending_of job_id) s.jobs ≡ none
      → finish_job x unlinks s job_id size now
        ≡ (record s { files = safe_unlink unlinks (bin job_id) s.files }, lost_race)
  unfolding finish_job mark_ready
  finish_job_lost s job_id size now e = ground (
    arith,
    count_absent (pending_of job_id) s.jobs e,
    update_absent (pending_of job_id)
        (λ r. record r {
          status = ready;
          artifact_filename = some (bin job_id);
          size_bytes = some size;
          ready_at = some now;
        })
        s.jobs e,
  )

  safe_unlink_gone :
      (name : FileName) (files : List File)
      → unlinks name ≡ true
      → find? (λ f. same_name f.name name) (safe_unlink unlinks name files) ≡ none
  unfolding safe_unlink
  safe_unlink_gone name files h = rw h (find?-delete_self (λ f. same_name f.name name) files)

  -- A generation whose job is no longer pending when its artifact is complete ends as a lost race:
  -- nobody is notified, the jobs stay as the others left them, and its file is gone if it could be
  -- unlinked.
  pub run_job_lost :
      (s : Exports) (job_id error : String) (size : ℕ) (meanwhile : Exports → Exports) (now : ℕ)
      → find? (pending_of job_id) (meanwhile (generate_artifact s job_id (some size) now)).jobs
        ≡ none
      → unlinks (bin job_id) ≡ true
      → let r = run_job x unlinks s job_id error (some size) meanwhile now in
        (r.1 ≡ lost_race)
        × (r.0.jobs ≡ (meanwhile (generate_artifact s job_id (some size) now)).jobs)
        × (find? (λ f. same_name f.name (bin job_id)) r.0.files ≡ none)
  unfolding run_job
  run_job_lost s job_id error size meanwhile now e u =
      let s' = meanwhile (generate_artifact s job_id (some size) now) in
      rw (finish_job_lost s' job_id size now e)
        (refl, refl, safe_unlink_gone (bin job_id) s'.files u)

  finish_job_won :
      (s : Exports) (job_id : String) (size now : ℕ)
      → 0 < count (pending_of job_id) s.jobs
      → finish_job x unlinks s job_id size now
        ≡ (record s { jobs = (mark_ready s.jobs job_id (bin job_id) size now).0 }, notified)
  unfolding finish_job mark_ready
  finish_job_won s job_id size now h = ground (arith, h)

  -- A generation whose job is still pending when its artifact is complete makes exactly that job
  -- ready, with the artifact and its size, and leaves the files as they are.
  pub run_job_ready :
      (s : Exports) (job_id error : String) (size : ℕ) (meanwhile : Exports → Exports) (now : ℕ)
      (job : JobRow)
      → job_by_id (meanwhile (generate_artifact s job_id (some size) now)).jobs job_id ≡ some job
      → job.status ≡ pending
      → let r = run_job x unlinks s job_id error (some size) meanwhile now in
        (r.1 ≡ notified)
        × (job_by_id r.0.jobs job_id
            ≡ some (record job {
              status = ready;
              artifact_filename = some (bin job_id);
              size_bytes = some size;
              ready_at = some now;
            }))
        × (r.0.files ≡ (meanwhile (generate_artifact s job_id (some size) now)).files)
  unfolding run_job job_by_id mark_ready
  run_job_ready s job_id error size meanwhile now job e p =
      let s' = meanwhile (generate_artifact s job_id (some size) now) in
      let held = find?_holds (has_id job_id) s'.jobs e in
      let met : pending_of job_id job ≡ true = ground (arith, held, p) in
      rw
        (finish_job_won s' job_id size now
          (count_present (pending_of job_id) (has_id job_id) s'.jobs e met))
        (
          refl,
          find?-update_same (pending_of job_id) (has_id job_id) _ s'.jobs (λ r. refl) e met,
          refl,
        )

  -- A generation that raises fails its job if that is still pending, with the first 2000 characters
  -- of the error, and nothing else about the job changes.
  pub run_job_failed :
      (s : Exports) (job_id error : String) (meanwhile : Exports → Exports) (now : ℕ) (job : JobRow)
      → job_by_id (meanwhile (generate_artifact s job_id none now)).jobs job_id ≡ some job
      → job.status ≡ pending
      → let r = run_job x unlinks s job_id error none meanwhile now in
        (r.1 ≡ failed_job)
        × (job_by_id r.0.jobs job_id
            ≡ some (record job { status = failed; error = some (x.first_2000 error) }))
  unfolding run_job job_by_id mark_failed
  run_job_failed s job_id error meanwhile now job e p =
      let s' = meanwhile (generate_artifact s job_id none now) in
      let held = find?_holds (has_id job_id) s'.jobs e in
      (
        refl,
        find?-update_same (pending_of job_id) (has_id job_id) _ s'.jobs (λ r. refl) e
            (ground (arith, held, p)),
      )

  -- A pending job that is not presumed dead.
  abbrev pub alive : String → ℕ → JobRow → Bool
  alive job_id at_pending r = pending_of job_id r && not (is_stale at_pending r)

  expire_each-alive :
      (todo : List JobRow) (s : Exports) (job_id : String) (at_pending : ℕ)
      → find? (alive job_id at_pending) s.jobs ≡ none
      → find? (alive job_id at_pending) (expire_each unlinks s todo).jobs ≡ none
  unfolding expire_each mark_expired
  expire_each-alive [] s job_id at_pending e = e
  expire_each-alive (job ∷ rest) s job_id at_pending e =
      expire_each-alive rest _ job_id at_pending (
        find?-update-none (has_id job.id) (alive job_id at_pending) _ s.jobs (λ r h. ground arith)
          e)

  fail_each-alive :
      (todo : List JobRow) (jobs : Jobs) (job_id : String) (at_pending : ℕ)
      → find? (alive job_id at_pending) jobs ≡ none
      → find? (alive job_id at_pending) (fail_each x jobs todo) ≡ none
  unfolding fail_each fail_if_pending
  fail_each-alive [] jobs job_id at_pending e = e
  fail_each-alive (job ∷ rest) jobs job_id at_pending e = fail_each-alive rest _ job_id at_pending (
      find?-update-none (pending_of job.id) (alive job_id at_pending) _ jobs (λ r h. ground arith)
        e)

  none_pending :
      (jobs : Jobs) (job_id : String) (at_pending : ℕ)
      → find? (alive job_id at_pending) jobs ≡ none
      → select (is_stale at_pending) jobs ≡ []
      → find? (pending_of job_id) jobs ≡ none
  unfolding find? select
  none_pending [] job_id at_pending e f = refl
  none_pending (r ∷ jobs) job_id at_pending e f = elim (Bool-cases (is_stale at_pending r)) [
    | inl k ↦ absurd (ground (arith, k, f))
    | inr k ↦ ground (arith, k, e, f, none_pending jobs job_id at_pending)
  ]

  -- When the purge sweep runs during a generation whose job has been pending for too long, the job
  -- never becomes ready: the generation ends as a lost race, with no file of its left if files can
  -- be unlinked.
  pub run_job_presumed_dead :
      (s : Exports) (job_id error : String) (size at_ready at_pending at_files now : ℕ)
      → find? (alive job_id at_pending) s.jobs ≡ none
      → unlinks (bin job_id) ≡ true
      → let r =
          run_job x unlinks s job_id error
            (some size)
            (λ t. (purge_expired x unlinks t at_ready at_pending at_files).0)
            now in
        (r.1 ≡ lost_race)
        × (find? (pending_of job_id) r.0.jobs ≡ none)
        × (find? (λ f. same_name f.name (bin job_id)) r.0.files ≡ none)
  unfolding purge_expired generate_artifact stale_pending_jobs
  run_job_presumed_dead s job_id error size at_ready at_pending at_files now e u =
      let begun = generate_artifact s job_id (some size) now in
      let over = expired_ready_jobs s.jobs at_ready in
      let held = expire_each-alive over begun job_id at_pending e in
      let s' = expire_each unlinks begun over in
      let still =
        fail_each-alive (stale_pending_jobs s'.jobs at_pending) s'.jobs job_id at_pending held in
      let left = purge_expired-none_left x unlinks begun at_ready at_pending at_files in
      let dead = none_pending _ job_id at_pending still left.1 in
      let lost =
        run_job_lost s job_id error size
          (λ t. (purge_expired x unlinks t at_ready at_pending at_files).0) now dead u in
      (lost.0, subst (λ js. find? (pending_of job_id) js ≡ none) (sym lost.1) dead, lost.2)
