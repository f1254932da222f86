-- ===== src/JobBackend.antt =====
-- The job queue: app/infrastructure/jobbackend/postgres.py over the `jobs` and `job_events` tables,
-- with the job of app/domain/job.py. Times are numbers of seconds.
pub mod Queue
pub mod Reaper
pub mod Rows
pub mod Calls
pub mod Invariant
pub mod Claim
pub mod Limits
mod Tests
use data_ops_studio_v.Base.{ℕ, String, Bool, true, false, Option, List}
use data_ops_studio_v.Base.Json.{Fields, ℤ}

pub data JobKind : Type 0 where
  sql_query test_connection sql_explain compare_run result_export export_excel : JobKind
  scenario_materialize scenario_run_all workflow_run notify sleep branch : JobKind
  workflow_sensor_check ai_assist_call ai_copilot_run lineage_analyze lineage_batch : JobKind
  metadata_sync : JobKind

pub data JobStatus : Type 0 where
  pending running success failed cancelled timeout : JobStatus

pub data JobErrorCode : Type 0 where
  connection_failed sql_failed timeout cancelled permission_denied : JobErrorCode
  unsupported_db_type export_failed export_limit_exceeded compare_limit_exceeded : JobErrorCode
  compare_sample_unsupported_key compare_duplicate_key internal : JobErrorCode

pub record ResourceProfile : Type 0 where
  pub memory_limit_mb : Option ℕ
  pub timeout_seconds : Option ℕ

pub record ResultRef : Type 0 where
  pub backend : String
  pub uri : String
  pub metadata : Fields

pub record Job : Type 0 where
  pub id : String
  pub kind : JobKind
  pub status : JobStatus
  pub owner_user_id : String
  pub project_id : String
  pub datasource_ids : List String
  pub priority : ℤ
  pub available_at : ℕ
  pub timeout_seconds : ℕ
  pub resource_profile : ResourceProfile
  pub result_ref : Option ResultRef
  pub audit_id : String
  pub worker_id : Option String
  pub last_heartbeat : Option ℕ
  pub started_at : Option ℕ
  pub finished_at : Option ℕ
  pub cancel_requested : Bool
  pub cancel_reason : Option String
  pub error : Option String
  pub error_code : Option JobErrorCode
  pub retry_count : ℕ
  pub payload : Fields
  pub parent_workflow_run_id : Option String

-- A row of `jobs`: the job, and when it was inserted.
pub record JobRow : Type 0 where
  pub job : Job
  pub created_at : ℕ

pub record JobEvent : Type 0 where
  pub job_id : String
  pub event_type : String
  pub message : Option String

pub record Tables : Type 0 where
  pub jobs : List JobRow
  pub job_events : List JobEvent

-- `PostgresJobBackend`: whose worker it acts for, and the retry budget of the reaper.
pub record Backend : Type 0 where
  pub worker_id : Option String
  pub job_default_max_retries : ℕ

pub data JobBackendError : Type 0 where
  requires_worker_id bad_heartbeat_timeout bad_limit integrity_error : JobBackendError

abbrev pub is_pending : JobStatus → Bool
is_pending JobStatus.pending = true
is_pending _ = false

abbrev pub is_running : JobStatus → Bool
is_running JobStatus.running = true
is_running _ = false

-- `status.in_([FAILED, TIMEOUT])`.
abbrev pub is_retryable : JobStatus → Bool
is_retryable JobStatus.failed = true
is_retryable JobStatus.timeout = true
is_retryable _ = false

abbrev pub is_workflow_run : JobKind → Bool
is_workflow_run JobKind.workflow_run = true
is_workflow_run _ = false
