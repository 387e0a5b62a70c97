-- ===== src/Models/Tables.antt =====
-- The rows of backend/pullbackup/models.py, and the database as its four tables.
use pullbackup.Base.{ℕ, ◌*◌, String, Option, Bool, List}

-- Microseconds since the epoch.
abbrev pub Instant : Type 0
Instant = ℕ

-- `timedelta(seconds=s)`
abbrev pub seconds : ℕ → ℕ
seconds s = s * 1000000

-- The integers: `pos n` is n, and `negsuc n` is - n - 1.
pub data ℤ : Type 0 where
  pos negsuc : ℕ → ℤ

pub data RunState : Type 0 where
  pending running success failed cancelled : RunState

pub record Source : Type 0 where
  pub id : ℕ
  pub name : String
  pub user : String
  pub host : String
  pub port : ℕ
  pub ssh_key_path : String
  pub description : String

-- The rsync flags of a task.
pub record RsyncOptions : Type 0 where
  pub archive : Bool
  pub recursive : Bool
  pub times : Bool
  pub compress : Bool
  pub delete : Bool
  pub quiet : Bool
  pub preserve_permissions : Bool
  pub preserve_xattrs : Bool
  pub delay_updates : Bool
  pub use_sudo : Bool
  pub bwlimit_kbps : Option ℕ
  pub exclude_patterns : String
  pub aux_args : String

-- The syncoid options of a task.
pub record SyncoidOptions : Type 0 where
  pub syncoid_recursive : Bool
  pub syncoid_no_sync_snap : Bool
  pub syncoid_compress : String
  pub syncoid_extra_args : String
  pub syncoid_force_full : Bool
  pub prune_keep_hourly : Option ℕ

pub record Task : Type 0 where
  pub id : ℕ
  pub name : String
  pub source_id : ℕ
  pub remote_path : String
  pub local_path : String
  pub cron : String
  pub enabled : Bool
  pub description : String
  pub task_type : String
  pub rsync : RsyncOptions
  pub syncoid : SyncoidOptions
  pub notify_matrix : Bool
  pub notify_matrix_on_success : Bool
  pub kuma_enabled : Bool
  pub kuma_monitor_id : Option ℕ
  pub kuma_push_token : Option String
  pub created_at : Instant
  pub updated_at : Instant
  pub schedule_baseline_at : Option Instant
  pub schedule_epoch_at : Option Instant

pub record Run : Type 0 where
  pub id : ℕ
  pub task_id : ℕ
  pub state : RunState
  pub started_at : Instant
  pub finished_at : Option Instant
  pub exit_code : Option ℤ
  pub error_message : String

-- The values of `TaskDue.status`.
pub data Status : Type 0 where
  due dispatched retry exhausted blocked : Status

-- The values of `TaskDue.wait_reason`.
pub data WaitReason : Type 0 where
  source_busy destination_busy capacity task_active : WaitReason

pub record TaskDue : Type 0 where
  pub task_id : ℕ
  pub due_at : Instant
  pub status : Status
  pub wait_reason : Option WaitReason
  pub attempts : ℕ
  pub retry_at : Option Instant
  pub last_error : String
  pub run_id : Option ℕ
  pub newer_due_at : Option Instant
  pub updated_at : Instant

pub record Db : Type 0 where
  pub sources : List Source
  pub tasks : List Task
  pub runs : List Run
  pub dues : List TaskDue
