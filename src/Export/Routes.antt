-- ===== src/Export/Routes.antt =====
-- The endpoints of afair/mcp/export_async_routes.py, after their authorization: a request for an
-- export, and a download by capability token.
use afair.Prelude.{ℕ, String, str_eq, true, Option, none, some, find?, is_some, if◌then◌else◌}
use afair.Export.Jobs.{
  FileName, JobRow, Jobs, Texts, is_ready, before, create_job, latest_job, has_active_pending,
  job_by_token_hash, mark_downloaded,
}
use afair.Export.Runner.{Exports, same_name}

pub data Requested : Type 0 where
  already : JobRow → Requested
  started : (job_id token : String) → Option JobRow → Requested
  crashed : Requested

module _ (x : Texts) where
  -- `export_request_endpoint`; what is `started` runs in a thread.
  unfoldable pub export_request :
      Jobs → (drawn_id token : String) → (retention_hours now : ℕ) → Jobs × Requested
  export_request jobs drawn_id token retention_hours now = elim (has_active_pending jobs now) [
    | some active ↦ (jobs, already active)
    | none ↦ elim (create_job x jobs drawn_id token true retention_hours now) [
      | none ↦ (jobs, crashed)
      | some (jobs', job_id, token) ↦ (jobs', started job_id token (latest_job jobs'))
    ]
  ]

  pub data Downloaded : Type 0 where
    missing_token not_found_or_not_ready link_expired artifact_gone : Downloaded
    sent : FileName → Downloaded

  -- A ready job whose link has not expired: its artifact is read, and the first fetch recorded.
  unfoldable pub send_artifact : Exports → JobRow → FileName → ℕ → Exports × Downloaded
  send_artifact s job name now =
      if before job.expires_at now
      then (s, link_expired)
      else if is_some (find? (λ f. same_name f.name name) s.files)
      then (record s { jobs = mark_downloaded s.jobs job.id now }, sent name)
      else (s, artifact_gone)

  abbrev found : Exports → Option JobRow → ℕ → Exports × Downloaded
  found s none now = (s, not_found_or_not_ready)
  found s (some job) now = elim job.artifact_filename [
    | none ↦ (s, not_found_or_not_ready)
    | some name ↦
        if is_ready job.status then send_artifact s job name now else (s, not_found_or_not_ready)
  ]

  -- `export_download_endpoint`.
  unfoldable pub export_download : Exports → (token : String) → ℕ → Exports × Downloaded
  export_download s token now =
      if str_eq token ""
      then (s, missing_token)
      else found s (job_by_token_hash s.jobs (x.hash_token token)) now
