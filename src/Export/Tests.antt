-- ===== src/Export/Tests.antt =====
-- An export from request to purge, and the theorems at inputs that meet their hypotheses.
use afair.Prelude.{
  ℕ, ◌≡◌, refl, Option, none, some, [], ◌∷◌, true, false, is_some, find?, select, delete, update,
  count, newest, str_eq, arith,
}
use afair.Export.Jobs.{
  pending, ready, failed, expired, bin, tmp, JobRow, Texts, create_job, mark_ready, mark_failed,
  mark_downloaded, mark_expired, fail_if_pending, latest_job, job_by_id, job_by_token_hash,
  pending_of, has_active_pending, stale_pending_jobs, expired_ready_jobs,
}
use afair.Export.Runner.{
  File, Exports, Unlinks, same_name, safe_unlink, generate_artifact, Ran, notified, lost_race,
  finish_job, run_job, expire_each, fail_each, is_orphan, reconcile_orphans, purge_expired,
}
use afair.Export.Routes.{already, send_artifact, export_request, export_download}
use afair.Export.Purge.{purge_expired-AllWanted, AllWanted}
use afair.Export.Race.{run_job_presumed_dead}
use afair.Export.Download.{IsDelivery, export_download-IsDelivery, export_request_twice}

-- Everything that an export computes with.
program : Unit {0}
unfolding find? select delete update count newest create_job mark_ready mark_failed mark_downloaded
    mark_expired fail_if_pending latest_job job_by_id job_by_token_hash has_active_pending
    stale_pending_jobs expired_ready_jobs safe_unlink generate_artifact finish_job run_job
    expire_each fail_each is_orphan reconcile_orphans purge_expired send_artifact export_request
    export_download
program = tt

abbrev texts : Texts
texts = record { hash_token = λ t. t; first_2000 = λ t. t }

abbrev allowed : Unlinks
allowed name = true

abbrev job : JobRow
job = record {
  id = "exp_1";
  status = pending;
  include_blobs = true;
  artifact_filename = none;
  download_token_hash = "t";
  size_bytes = none;
  error = none;
  requested_at = 5;
  ready_at = none;
  expires_at = some 3600000005;
  downloaded_at = none;
}

abbrev finished : JobRow
finished = record job {
  status = ready;
  artifact_filename = some (bin "exp_1");
  size_bytes = some 9;
  ready_at = some 7;
}

abbrev asked : Exports
asked = record { jobs = job ∷ []; files = [] }

abbrev artifact : File
artifact = record { name = bin "exp_1"; mtime = 7 }

abbrev done : Exports
done = record { jobs = finished ∷ []; files = artifact ∷ [] }

-- A half-written file from the distant past.
abbrev leftover : File
leftover = record { name = tmp "exp_0.gz.tmp"; mtime = 0 }

request_run : (export_request texts [] "1" "t" 1 5).0 ≡ job ∷ []
unfolding program
request_run = refl

generation_run : run_job texts allowed asked "exp_1" "" (some 9) (λ s. s) 7 ≡ (done, notified)
unfolding program
generation_run = refl

purge_run :
    purge_expired texts allowed
      (record done { files = artifact ∷ leftover ∷ [] })
      9000000000
      9000000000
      9000000000
    ≡ (record { jobs = record finished { status = expired } ∷ []; files = [] }, some 2)
unfolding program
purge_run = refl

abbrev swept : Exports × Option ℕ
swept = purge_expired texts allowed done 9000000000 9000000000 9000000000

purge_expired-AllWanted_example :
    (is_some swept.1 ≡ true) × AllWanted swept.0.jobs 9000000000 swept.0.files
purge_expired-AllWanted_example =
    purge_expired-AllWanted texts allowed done 9000000000 9000000000 9000000000 (λ name. refl)

-- The job was failed while its artifact was being written.
abbrev given_up : Exports → Exports
given_up s = record s { jobs = record job { status = failed } ∷ [] }

abbrev beaten : Exports × Ran
beaten = run_job texts allowed asked "exp_1" "" (some 9) given_up 7

abbrev won : Exports × Ran
won = run_job texts allowed asked "exp_1" "" (some 9) (λ s. s) 7

abbrev broken : Exports × Ran
broken = run_job texts allowed asked "exp_1" "disk full" none (λ s. s) 7

abbrev presumed_dead : Exports × Ran
presumed_dead =
    run_job texts allowed asked "exp_1" "" (some 9)
      (λ t. (purge_expired texts allowed t 2000000000 2000000000 2000000000).0) 7

run_job_presumed_dead_example :
    (presumed_dead.1 ≡ lost_race)
    × (find? (pending_of "exp_1") presumed_dead.0.jobs ≡ none)
    × (find? (λ f. same_name f.name (bin "exp_1")) presumed_dead.0.files ≡ none)
unfolding program
run_job_presumed_dead_example =
    run_job_presumed_dead texts allowed asked "exp_1" "" 9 2000000000 2000000000 2000000000 7 refl
      refl

abbrev fetched : Exports
fetched = record done { jobs = record finished { downloaded_at = some 8 } ∷ [] }

export_download-IsDelivery_example :
    (str_eq "t" "" ≡ false)
    × (fetched.files ≡ done.files)
    × IsDelivery texts done "t" 8 (bin "exp_1")
unfolding program
export_download-IsDelivery_example =
    export_download-IsDelivery texts done fetched "t" 8 (bin "exp_1") refl

export_request_twice_example :
    (active : JobRow) × (export_request texts (job ∷ []) "2" "u" 1 1800000005
      ≡ (job ∷ [], already active))
unfolding program
export_request_twice_example =
    export_request_twice texts [] (job ∷ []) "1" "t" "2" "u" "exp_1" "t" 1 1 5 1800000005 (some job)
      refl (omega arith)
