-- ===== src/Export/Download.antt =====
-- Who gets an artifact, and when a second export is started (the endpoints of
-- afair/mcp/export_async_routes.py).
use Prim.Native.String.{◌++◌ as ◌+++◌}
use afair.Prelude.{
  ◌*◌, subst, ℕ, ◌+◌, ◌≤◌, ◌≡◌, inl, inr, String, str_eq, eq_refl, Bool, true, false, Option, none,
  some, [], ◌∷◌, ◌++◌, find?, select, newest, is_some, arith, Option-cases, find?-append_one,
}
use afair.Export.Jobs.{
  pending, ready, FileName, JobRow, Jobs, Texts, before, is_fresh, has_id, pending_dead_after,
  create_job, has_active_pending, job_by_token_hash,
}
use afair.Export.Runner.{Exports, same_name}
use afair.Export.Routes.{already, started, export_request, sent, send_artifact, export_download}

-- A job with the token's hash is ready, has this artifact, which is there, and its link has not
-- expired.
pub record IsDelivery (x : Texts) (s : Exports) (token : String) (now : ℕ) (name : FileName)
    : Type 0 where
  pub job : JobRow
  pub held : job_by_token_hash s.jobs (x.hash_token token) ≡ some job
  pub finished : job.status ≡ ready
  pub artifact : job.artifact_filename ≡ some name
  pub unexpired : before job.expires_at now ≡ false
  pub present : is_some (find? (λ f. same_name f.name name) s.files) ≡ true

module _ (x : Texts) where
  the_artifact :
      (s t : Exports) (token : String) (now : ℕ) (name a : FileName) (job : JobRow)
      → export_download x s token now ≡ (t, sent name)
      → job_by_token_hash s.jobs (x.hash_token token) ≡ some job
      → job.artifact_filename ≡ some a
      → a ≡ name
  unfolding export_download send_artifact
  the_artifact s t token now name a job e f g = ground (arith, e, f, g)

  -- An artifact is sent only for a token that is not empty and whose job is ready, within its
  -- lifetime, and has that artifact; sending it removes no file.
  pub export_download-IsDelivery :
      (s t : Exports) (token : String) (now : ℕ) (name : FileName)
      → export_download x s token now ≡ (t, sent name)
      → (str_eq token "" ≡ false) × (t.files ≡ s.files) × IsDelivery x s token now name
  unfolding export_download send_artifact
  export_download-IsDelivery s t token now name e =
      elim (Option-cases (job_by_token_hash s.jobs (x.hash_token token))) [
        | inl f ↦ absurd (ground (arith, f))
        | inr (job, f) ↦ elim (Option-cases job.artifact_filename) [
          | inl g ↦ absurd (ground (arith, f, g))
          | inr (a, g) ↦ (
            ground (arith, f, g),
            ground (arith, f, g),
            record {
              job = job;
              held = f;
              finished = ground (arith, f, g);
              artifact = ground (arith, f, g);
              unexpired = ground (arith, f, g);
              present =
                  subst (λ n. is_some (find? (λ q. same_name q.name n) s.files) ≡ true)
                    (the_artifact s t token now name a job e f g) (ground (arith, f, g));
            },
          )
        ]
      ]

  newest_present :
      (key : JobRow → ℕ) (p : JobRow → Bool) (jobs : Jobs) (job : JobRow)
      → p job ≡ true
      → is_some (newest key (select p (jobs ++ job ∷ []))) ≡ true
  unfolding newest select
  newest_present key p [] job h = ground (arith, h)
  newest_present key p (r ∷ jobs) job h = ground (arith, newest_present key p jobs job h)

  -- The job that `create_job` inserts.
  abbrev created : (drawn_id token : String) (hours now : ℕ) → JobRow
  created drawn_id token hours now = record {
    id = "exp_" +++ drawn_id;
    status = pending;
    include_blobs = true;
    artifact_filename = none;
    download_token_hash = x.hash_token token;
    size_bytes = none;
    error = none;
    requested_at = now;
    ready_at = none;
    expires_at = some (now + hours * 3600000000);
    downloaded_at = none;
  }

  export_request-jobs :
      (jobs jobs' : Jobs) (drawn_id token job_id plain : String) (hours now : ℕ)
      (view : Option JobRow)
      → export_request x jobs drawn_id token hours now ≡ (jobs', started job_id plain view)
      → (jobs' ≡ jobs ++ created drawn_id token hours now ∷ []) × (plain ≡ token)
  unfolding export_request create_job
  export_request-jobs jobs jobs' drawn_id token job_id plain hours now view e =
      elim (Option-cases (has_active_pending jobs now)) [
        | inl f ↦ elim (Option-cases (find? (has_id ("exp_" +++ drawn_id)) jobs)) [
          | inl g ↦ (ground (arith, f, g), ground (arith, f, g))
          | inr (r, g) ↦ absurd (ground (arith, f, g))
        ]
        | inr (r, f) ↦ absurd (ground (arith, f))
      ]

  -- Once a request has started an export, a further request within thirty minutes starts nothing
  -- and changes nothing while the jobs are as the first one left them.
  pub export_request_twice :
      (jobs jobs' : Jobs) (drawn_id token drawn_id' token' job_id plain : String)
      (hours hours' now later : ℕ) (view : Option JobRow)
      → export_request x jobs drawn_id token hours now ≡ (jobs', started job_id plain view)
      → later ≤ now + pending_dead_after
      → (active : JobRow) × (export_request x jobs' drawn_id' token' hours' later
          ≡ (jobs', already active))
  unfolding export_request has_active_pending
  export_request_twice jobs jobs' drawn_id token drawn_id' token' job_id plain hours hours' now
        later view e h =
      let made = export_request-jobs jobs jobs' drawn_id token job_id plain hours now view e in
      let fresh : is_some (newest (λ r. r.requested_at) (select (is_fresh later) jobs')) ≡ true =
        rw made.0 (
          newest_present (λ r. r.requested_at) (is_fresh later) jobs
            (created drawn_id token hours now) (ground (arith, h))) in
      elim (Option-cases (newest (λ r. r.requested_at) (select (is_fresh later) jobs'))) [
        | inl f ↦ absurd (ground (arith, f, fresh))
        | inr (active, f) ↦ (active, ground (arith, f))
      ]

  -- The token of a request that started an export finds its job, when no other job has its hash.
  pub job_by_token_hash-export_request :
      (jobs jobs' : Jobs) (drawn_id token job_id plain : String) (hours now : ℕ)
      (view : Option JobRow)
      → job_by_token_hash jobs (x.hash_token token) ≡ none
      → export_request x jobs drawn_id token hours now ≡ (jobs', started job_id plain view)
      → job_by_token_hash jobs' (x.hash_token plain) ≡ some (created drawn_id token hours now)
  unfolding job_by_token_hash
  job_by_token_hash-export_request jobs jobs' drawn_id token job_id plain hours now view free e =
      let made = export_request-jobs jobs jobs' drawn_id token job_id plain hours now view e in
      rw made.0 (
        rw made.1 (
          find?-append_one (λ r. str_eq r.download_token_hash (x.hash_token token)) jobs
            (created drawn_id token hours now) free (eq_refl (x.hash_token token))))
