-- ===== src/Export/Purge.antt =====
-- What the purge sweep leaves behind (`purge_expired` of afair/mcp/export_job.py).
use afair.Prelude.{
  some, ◌-◌, ◌≤◌, Option-cases, ℕ, ◌≡◌, refl, sym, subst, inl, inr, String, str_eq, eq_refl, Bool,
  true, false, not, ◌||◌, List, [], ◌∷◌, is_some, select, update, arith, All, Bool-cases,
}
use afair.Export.Jobs.{
  Status, pending, ready, failed, expired, bin, tmp, other, is_pending, is_ready,
  pending_dead_after, job_by_id, FileName, JobRow, Jobs, Texts, has_id, pending_of, is_over,
  is_stale, mark_expired, fail_if_pending, expired_ready_jobs, stale_pending_jobs,
}
use afair.Export.Runner.{
  is_dead, File, Exports, Unlinks, expire_each, fail_each, is_orphan, reconcile_orphans,
  purge_expired,
}

abbrev listed : String → List JobRow → Bool
listed job_id [] = false
listed job_id (job ∷ rest) = str_eq job_id job.id || listed job_id rest

-- Every row that satisfies `p` has its id among those still to be visited.
abbrev Listed : (JobRow → Bool) → Jobs → List JobRow → Type 0
Listed p jobs rest = All (λ r. (not (p r) || listed r.id rest) ≡ true) jobs

module _ (p : JobRow → Bool) where
  Listed-cons :
      (jobs rest : List JobRow) (job : JobRow) → Listed p jobs rest → Listed p jobs (job ∷ rest)
  Listed-cons [] rest job h = tt
  Listed-cons (r ∷ jobs) rest job h = (ground (arith, h.0), Listed-cons jobs rest job h.1)

  select_taken : (r : JobRow) (jobs : Jobs) → p r ≡ true → select p (r ∷ jobs) ≡ r ∷ select p jobs
  unfolding select
  select_taken r jobs e = ground (arith, e)

  select_passed : (r : JobRow) (jobs : Jobs) → p r ≡ false → select p (r ∷ jobs) ≡ select p jobs
  unfolding select
  select_passed r jobs e = ground (arith, e)

  -- The query lists the rows that satisfy its WHERE.
  Listed-select : (jobs : Jobs) → Listed p jobs (select p jobs)
  Listed-select [] = tt
  Listed-select (r ∷ jobs) =
      let more = Listed-select jobs in
      elim (Bool-cases (p r)) [
        | inl e ↦
            subst (Listed p (r ∷ jobs)) (sym (select_taken r jobs e))
              (ground (arith, eq_refl r.id), Listed-cons jobs (select p jobs) r more)
        | inr e ↦
            subst (Listed p (r ∷ jobs)) (sym (select_passed r jobs e)) (ground (arith, e), more)
      ]

  Listed-none : (jobs : Jobs) → Listed p jobs [] → select p jobs ≡ []
  unfolding select
  Listed-none [] h = refl
  Listed-none (r ∷ jobs) h = ground (arith, h.0, Listed-none jobs h.1)

  module _ (q : JobRow → Bool) (g : JobRow → JobRow) (ends : (r : JobRow) → p (g r) ≡ false) where
    -- An UPDATE that ends `p` for the rows of one id.
    Listed-update :
        (jobs rest : List JobRow) (job : JobRow)
        → ((r : JobRow) → q r ≡ false → str_eq r.id job.id ≡ true → p r ≡ false)
        → Listed p jobs (job ∷ rest)
        → Listed p (update q g jobs) rest
    unfolding update
    Listed-update [] rest job reach h = tt
    Listed-update (r ∷ jobs) rest job reach h =
        let more = Listed-update jobs rest job reach h.1 in
        elim (Bool-cases (q r)) [
          | inl e ↦ rw e (ground (arith, ends r), more)
          | inr e ↦ rw e (ground (arith, reach r e, h.0), more)
        ]

    select-update_none : (jobs : Jobs) → select p jobs ≡ [] → select p (update q g jobs) ≡ []
    unfolding select update
    select-update_none [] e = refl
    select-update_none (r ∷ jobs) e = ground (arith, ends r, select-update_none jobs)

-- The artifact of a job that is pending or ready, a temporary file of the last thirty minutes, or
-- none of the export's files.
abbrev pub IsWanted : Jobs → (at_files : ℕ) → FileName → (mtime : ℕ) → Type 0
IsWanted jobs at_files (bin job_id) mtime =
    (job : JobRow) × (job_by_id jobs job_id ≡ some job)
    × (is_pending job.status || is_ready job.status ≡ true)
IsWanted jobs at_files (tmp name) mtime = at_files - mtime ≤ pending_dead_after
IsWanted jobs at_files (other name) mtime = Unit {0}

abbrev pub AllWanted : Jobs → ℕ → List File → Type 0
AllWanted jobs at_files = All (λ f. IsWanted jobs at_files f.name f.mtime)

status_live :
    (status : Status)
    → elim status [ failed ↦ true | expired ↦ true | _ ↦ false ] ≡ false
    → is_pending status || is_ready status ≡ true
status_live pending e = refl
status_live ready e = refl
status_live failed e = absurd (ground arith)
status_live expired e = absurd (ground arith)

is_orphan-IsWanted :
    (jobs : Jobs) (at_files : ℕ) (name : FileName) (mtime : ℕ)
    → is_orphan jobs at_files (record { name = name; mtime = mtime }) ≡ false
    → IsWanted jobs at_files name mtime
unfolding is_orphan
is_orphan-IsWanted jobs at_files (bin job_id) mtime e =
    elim (Option-cases (job_by_id jobs job_id)) [
      | inl f ↦ absurd (ground (arith, f))
      | inr (job, f) ↦ (job, f, status_live job.status (subst (λ o. is_dead o ≡ false) f e))
    ]
is_orphan-IsWanted jobs at_files (tmp name) mtime e = ground arith
is_orphan-IsWanted jobs at_files (other name) mtime e = tt

module _ (x : Texts) (unlinks : Unlinks) where
  expire_each-none_over :
      (todo : List JobRow) (s : Exports) (at_ready : ℕ)
      → Listed (is_over at_ready) s.jobs todo
      → select (is_over at_ready) (expire_each unlinks s todo).jobs ≡ []
  unfolding expire_each mark_expired
  expire_each-none_over [] s at_ready h = Listed-none _ s.jobs h
  expire_each-none_over (job ∷ rest) s at_ready h = expire_each-none_over rest _ at_ready (
      Listed-update (is_over at_ready) (has_id job.id) _ (λ r. refl) s.jobs rest job
        (λ r e f. ground arith) h)

  fail_each-none_stale :
      (todo : List JobRow) (jobs : Jobs) (at_pending : ℕ)
      → Listed (is_stale at_pending) jobs todo
      → select (is_stale at_pending) (fail_each x jobs todo) ≡ []
  unfolding fail_each fail_if_pending
  fail_each-none_stale [] jobs at_pending h = Listed-none _ jobs h
  fail_each-none_stale (job ∷ rest) jobs at_pending h = fail_each-none_stale rest _ at_pending (
      Listed-update (is_stale at_pending) (pending_of job.id) _ (λ r. refl) jobs rest job
        (λ r e f. ground arith) h)

  fail_each-none_over :
      (todo : List JobRow) (jobs : Jobs) (at_ready : ℕ)
      → select (is_over at_ready) jobs ≡ []
      → select (is_over at_ready) (fail_each x jobs todo) ≡ []
  unfolding fail_each fail_if_pending
  fail_each-none_over [] jobs at_ready h = h
  fail_each-none_over (job ∷ rest) jobs at_ready h =
      fail_each-none_over rest _ at_ready
        (select-update_none (is_over at_ready) (pending_of job.id) _ (λ r. refl) jobs h)

  -- After a sweep no ready job is past its expiry, and no pending job is presumed dead, at the
  -- times the sweep read.
  pub purge_expired-none_left :
      (s : Exports) (at_ready at_pending at_files : ℕ)
      → let jobs = (purge_expired x unlinks s at_ready at_pending at_files).0.jobs in
        (expired_ready_jobs jobs at_ready ≡ []) × (stale_pending_jobs jobs at_pending ≡ [])
  unfolding purge_expired expired_ready_jobs stale_pending_jobs
  purge_expired-none_left s at_ready at_pending at_files =
      let todo = select (is_over at_ready) s.jobs in
      let jobs = (expire_each unlinks s todo).jobs in
      (
        fail_each-none_over (select (is_stale at_pending) jobs) jobs at_ready
            (expire_each-none_over todo s at_ready (Listed-select (is_over at_ready) s.jobs)),
        fail_each-none_stale (select (is_stale at_pending) jobs) jobs at_pending
            (Listed-select (is_stale at_pending) jobs),
      )

  reconcile_orphans-AllWanted :
      (jobs : Jobs) (at_files : ℕ) (files : List File)
      → ((name : FileName) → unlinks name ≡ true)
      → let r = reconcile_orphans unlinks jobs at_files files in
        (is_some r.1 ≡ true) × AllWanted jobs at_files r.0
  unfolding reconcile_orphans
  reconcile_orphans-AllWanted jobs at_files [] h = (refl, tt)
  reconcile_orphans-AllWanted jobs at_files (f ∷ files) h =
      let more = reconcile_orphans-AllWanted jobs at_files files h in
      elim (Bool-cases (is_orphan jobs at_files f)) [
        | inl e ↦ rw e (rw (h f.name) (ground (arith, more.0), more.1))
        | inr e ↦ rw e (more.0, (is_orphan-IsWanted jobs at_files f.name f.mtime e, more.1))
      ]

  -- When files can be unlinked, a sweep completes, and every file left is either the artifact of a
  -- job that is pending or ready, a temporary file that is young enough to be in use, or none of
  -- the export's.
  pub purge_expired-AllWanted :
      (s : Exports) (at_ready at_pending at_files : ℕ)
      → ((name : FileName) → unlinks name ≡ true)
      → let r = purge_expired x unlinks s at_ready at_pending at_files in
        (is_some r.1 ≡ true) × AllWanted r.0.jobs at_files r.0.files
  unfolding purge_expired
  purge_expired-AllWanted s at_ready at_pending at_files h =
      let done = reconcile_orphans-AllWanted _ at_files _ h in (ground (arith, done.0), done.1)
