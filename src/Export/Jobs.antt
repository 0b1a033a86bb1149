-- ===== src/Export/Jobs.antt =====
-- The table `export_jobs` and its statements (afair/substrate/export_jobs.py). Times are
-- microseconds since the epoch; the source's ISO texts compare as they do.
use Prim.Native.String.{◌++◌ as ◌+++◌}
use afair.Prelude.{
  ℕ, ◌+◌, ◌-◌, ◌*◌, String, str_eq, Bool, true, false, ◌&&◌, Option, none, some, List, [], ◌∷◌,
  ◌++◌, is_some, find?, update, select, count, newest, ltb, leb, if◌then◌else◌,
}

pub data Status : Type 0 where
  pending ready failed expired : Status

abbrev pub is_pending : Status → Bool
is_pending pending = true
is_pending _ = false

abbrev pub is_ready : Status → Bool
is_ready ready = true
is_ready _ = false

-- The file of a job is named after it, `<job_id>.bin`; a crashed generation leaves a `*.tmp`.
pub data FileName : Type 0 where
  bin : String → FileName
  tmp : String → FileName
  other : String → FileName

pub record JobRow : Type 0 where
  pub id : String
  pub status : Status
  pub include_blobs : Bool
  pub artifact_filename : Option FileName
  pub download_token_hash : String
  pub size_bytes : Option ℕ
  pub error : Option String
  pub requested_at : ℕ
  pub ready_at : Option ℕ
  pub expires_at : Option ℕ
  pub downloaded_at : Option ℕ

abbrev pub Jobs : Type 0
Jobs = List JobRow

abbrev pub pending_dead_after : ℕ
pending_dead_after = 30 * 60 * 1000000

-- `export_jobs.hash_token`, and the first 2000 characters of a text.
pub record Texts : Type 0 where
  pub hash_token : String → String
  pub first_2000 : String → String

abbrev pub has_id : String → JobRow → Bool
has_id job_id r = str_eq r.id job_id

abbrev pub pending_of : String → JobRow → Bool
pending_of job_id r = has_id job_id r && is_pending r.status

-- `expires_at < ?`, which holds of no NULL.
abbrev pub before : Option ℕ → ℕ → Bool
before none now = false
before (some t) now = ltb t now

abbrev or_now : Option ℕ → ℕ → Option ℕ
or_now none now = some now
or_now (some t) now = some t

module _ (x : Texts) where
  -- The random id and token are arguments; `none` is the IntegrityError of an id that is taken.
  unfoldable pub create_job :
      (jobs : Jobs) (drawn_id token : String) (include_blobs : Bool) (retention_hours now : ℕ)
      → Option (Jobs × String × String)
  create_job jobs drawn_id token include_blobs retention_hours now =
      let job_id = "exp_" +++ drawn_id in
      let row : JobRow = record {
        id = job_id;
        status = pending;
        include_blobs = include_blobs;
        artifact_filename = none;
        download_token_hash = x.hash_token token;
        size_bytes = none;
        error = none;
        requested_at = now;
        ready_at = none;
        expires_at = some (now + retention_hours * 3600000000);
        downloaded_at = none;
      } in
      if is_some (find? (has_id job_id) jobs) then none else some (jobs ++ row ∷ [], job_id, token)

  unfoldable pub mark_failed : Jobs → (job_id error : String) → Jobs × ℕ
  mark_failed jobs job_id error = (
    update (pending_of job_id)
        (λ r. record r { status = failed; error = some (x.first_2000 error) }) jobs,
    count (pending_of job_id) jobs,
  )

  unfoldable pub fail_if_pending : Jobs → (job_id error : String) → Jobs
  fail_if_pending jobs job_id error =
      update (pending_of job_id)
        (λ r. record r { status = failed; error = some (x.first_2000 error) }) jobs

unfoldable pub mark_ready : Jobs → (job_id : String) → FileName → (size now : ℕ) → Jobs × ℕ
mark_ready jobs job_id artifact_filename size_bytes now = (
  update (pending_of job_id)
      (λ r. record r {
        status = ready;
        artifact_filename = some artifact_filename;
        size_bytes = some size_bytes;
        ready_at = some now;
      })
      jobs,
  count (pending_of job_id) jobs,
)

unfoldable pub mark_downloaded : Jobs → String → ℕ → Jobs
mark_downloaded jobs job_id now =
    update (has_id job_id) (λ r. record r { downloaded_at = or_now r.downloaded_at now }) jobs

unfoldable pub mark_expired : Jobs → String → Jobs
mark_expired jobs job_id = update (has_id job_id) (λ r. record r { status = expired }) jobs

unfoldable pub latest_job : Jobs → Option JobRow
latest_job jobs = newest (λ r. r.requested_at) jobs

unfoldable pub job_by_id : Jobs → String → Option JobRow
job_by_id jobs job_id = find? (has_id job_id) jobs

unfoldable pub job_by_token_hash : Jobs → String → Option JobRow
job_by_token_hash jobs token_hash = find? (λ r. str_eq r.download_token_hash token_hash) jobs

abbrev pub is_stale : ℕ → JobRow → Bool
is_stale now r = is_pending r.status && ltb r.requested_at (now - pending_dead_after)

abbrev pub is_fresh : ℕ → JobRow → Bool
is_fresh now r = is_pending r.status && leb (now - pending_dead_after) r.requested_at

abbrev pub is_over : ℕ → JobRow → Bool
is_over now r = is_ready r.status && before r.expires_at now

unfoldable pub has_active_pending : Jobs → ℕ → Option JobRow
has_active_pending jobs now = newest (λ r. r.requested_at) (select (is_fresh now) jobs)

unfoldable pub stale_pending_jobs : Jobs → ℕ → List JobRow
stale_pending_jobs jobs now = select (is_stale now) jobs

unfoldable pub expired_ready_jobs : Jobs → ℕ → List JobRow
expired_ready_jobs jobs now = select (is_over now) jobs
