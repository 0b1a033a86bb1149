-- ===== src/Export/Runner.antt =====
-- The export thread and the purge sweep (afair/mcp/export_job.py).
use mathlib.Core.Option
use afair.Prelude.{
  ℕ, zero, suc, ◌+◌, ◌-◌, String, str_eq, Bool, true, false, not, Option, none, some, List, [], ◌∷◌,
  delete, length, ltb, if◌then◌else◌,
}
use afair.Export.Jobs.{
  failed, expired, FileName, bin, tmp, other, JobRow, Jobs, Texts, pending_dead_after, mark_ready,
  mark_failed, job_by_id, expired_ready_jobs, mark_expired, stale_pending_jobs, fail_if_pending,
}

-- A file of the exports directory, with its modification time.
pub record File : Type 0 where
  pub name : FileName
  pub mtime : ℕ

pub record Exports : Type 0 where
  pub jobs : Jobs
  pub files : List File

abbrev pub same_name : FileName → FileName → Bool
same_name (bin a) (bin b) = str_eq a b
same_name (tmp a) (tmp b) = str_eq a b
same_name (other a) (other b) = str_eq a b
same_name _ _ = false

abbrev is_tmp : FileName → Bool
is_tmp (tmp _) = true
is_tmp _ = false

-- Whether the operating system lets a file be unlinked.
abbrev pub Unlinks : Type 0
Unlinks = FileName → Bool

module _ (unlinks : Unlinks) where
  -- `_safe_unlink`: a refusal is logged and passed over.
  unfoldable pub safe_unlink : FileName → List File → List File
  safe_unlink name files = if unlinks name then delete (λ f. same_name f.name name) files else files

-- `generate_artifact`, whose export and encryption give the size or raise: the file is replaced, or
-- removed.
unfoldable pub generate_artifact : Exports → (job_id : String) → Option ℕ → ℕ → Exports
generate_artifact s job_id outcome now =
    let rest = delete (λ f. same_name f.name (bin job_id)) s.files in
    elim outcome [
      | none ↦ record s { files = rest }
      | some size ↦ record s { files = record { name = bin job_id; mtime = now } ∷ rest }
    ]

pub data Ran : Type 0 where
  notified lost_race failed_job : Ran

module _ (x : Texts) (unlinks : Unlinks) where
  -- `run_job` from `mark_ready` on.
  unfoldable pub finish_job : Exports → (job_id : String) → (size now : ℕ) → Exports × Ran
  finish_job s job_id size now =
      let (jobs, touched) = mark_ready s.jobs job_id (bin job_id) size now in
      elim touched [
        | zero ↦
            (record { jobs = jobs; files = safe_unlink unlinks (bin job_id) s.files }, lost_race)
        | suc _ ↦ (record s { jobs = jobs }, notified)
      ]

  -- `run_job`. Others act on the jobs and files while the artifact is generated: `meanwhile`.
  unfoldable pub run_job :
      Exports
      → (job_id error : String) → Option ℕ
      → (meanwhile : Exports → Exports) → (now : ℕ) → Exports × Ran
  run_job s job_id error outcome meanwhile now =
      let s' = meanwhile (generate_artifact s job_id outcome now) in
      elim outcome [
        | none ↦ (record s' { jobs = (mark_failed x s'.jobs job_id error).0 }, failed_job)
        | some size ↦ finish_job s' job_id size now
      ]

abbrev pub is_dead : Option JobRow → Bool
is_dead none = true
is_dead (some job) = elim job.status [ failed ↦ true | expired ↦ true | _ ↦ false ]

-- What `_reconcile_orphans` removes: the file of a job that is gone, failed or expired, and a
-- temporary file that is too old to be in use.
unfoldable pub is_orphan : Jobs → ℕ → File → Bool
is_orphan jobs now f = elim f.name [
  | bin job_id ↦ is_dead (job_by_id jobs job_id)
  | tmp _ ↦ ltb pending_dead_after (now - f.mtime)
  | other _ ↦ false
]

module _ (unlinks : Unlinks) where
  -- The first loop of `purge_expired`, over the jobs that the query gave.
  unfoldable pub expire_each : Exports → List JobRow → Exports
  expire_each s [] = s
  expire_each s (job ∷ rest) =
      let files : List File = elim job.artifact_filename [
        | none ↦ s.files
        | some name ↦ safe_unlink unlinks name s.files
      ] in
      expire_each (record { jobs = mark_expired s.jobs job.id; files = files }) rest

  -- `_reconcile_orphans`, its removals counted. A temporary file that cannot be unlinked raises:
  -- there is no count, and the files after it stay.
  unfoldable pub reconcile_orphans : Jobs → ℕ → List File → List File × Option ℕ
  reconcile_orphans jobs now [] = ([], some 0)
  reconcile_orphans jobs now (f ∷ files) =
      let rest = reconcile_orphans jobs now files in
      if not (is_orphan jobs now f)
      then (f ∷ rest.0, rest.1)
      else if unlinks f.name
      then (rest.0, Option.map suc rest.1)
      else if is_tmp f.name
      then (f ∷ files, none)
      else (f ∷ rest.0, Option.map suc rest.1)

module _ (x : Texts) where
  -- The second loop.
  unfoldable pub fail_each : Jobs → List JobRow → Jobs
  fail_each jobs [] = jobs
  fail_each jobs (job ∷ rest) =
      fail_each (fail_if_pending x jobs job.id "timed out (worker presumed dead)") rest

module _ (x : Texts) (unlinks : Unlinks) where
  -- `purge_expired`, with the three readings of the clock.
  unfoldable pub purge_expired : Exports → (at_ready at_pending at_files : ℕ) → Exports × Option ℕ
  purge_expired s at_ready at_pending at_files =
      let over = expired_ready_jobs s.jobs at_ready in
      let s' = expire_each unlinks s over in
      let jobs = fail_each x s'.jobs (stale_pending_jobs s'.jobs at_pending) in
      let (files, removed) = reconcile_orphans unlinks jobs at_files s'.files in
      (record { jobs = jobs; files = files }, Option.map (λ n. length over + n) removed)
