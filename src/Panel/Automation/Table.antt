-- ===== src/Panel/Automation/Table.antt =====
-- The table `automation_jobs` (panel/internal/store/store.go, models.go): its rows, the primary key,
-- the partial unique index over the active rows, and UPDATE. A table is the list of its rows in
-- `rowid` order.
use ladder_airport.Base.{
  ℕ, ◌/◌, String, Bool, true, false, not, ◌&&◌, List, [], ◌∷◌, str_eq, if◌then◌else◌, any, Result,
  ok, err,
}

-- The `state` column. `unset` is the empty string of a job that was not stored yet.
pub data JobState : Type 0 where
  unset pending running retry_wait success failed cancelled : JobState
  other : String → JobState

pub record Job : Type 0 where
  pub id : String
  pub type : String
  pub target_type : String
  pub target_id : String
  pub state : JobState
  pub payload : String
  pub attempt : ℕ
  pub next_run_unix : ℕ
  pub lease_owner : String
  pub lease_expires_unix : ℕ
  pub last_error : String
  pub created_at_unix : ℕ
  pub updated_at_unix : ℕ

-- `time.Time` and `time.Duration` in nanoseconds, and `Time.Unix`.
abbrev pub second : ℕ
second = 1_000_000_000

abbrev pub unix : ℕ → ℕ
unix t = t / second

-- state IN ('pending', 'running', 'retry_wait')
abbrev pub is_active : JobState → Bool
is_active pending = true
is_active running = true
is_active retry_wait = true
is_active _ = false

abbrev pub is_running : JobState → Bool
is_running running = true
is_running _ = false

abbrev pub is_waiting : JobState → Bool
is_waiting pending = true
is_waiting retry_wait = true
is_waiting _ = false

unfoldable pub same_target : Job → Job → Bool
same_target r job =
    str_eq r.type job.type
    && str_eq r.target_type job.target_type
    && str_eq r.target_id job.target_id

-- An active row for the target of `job`.
unfoldable pub active_for : Job → Job → Bool
active_for job r = is_active r.state && same_target r job

-- The unique index on (type, target_type, target_id) of active rows, and the primary key.
unfoldable pub unique_active : List Job → Bool
unique_active [] = true
unique_active (r ∷ rs) = not (is_active r.state && any (active_for r) rs) && unique_active rs

unfoldable pub has_id : String → Job → Bool
has_id id r = str_eq r.id id

-- What the driver answers when an index refuses a write.
abbrev pub unique_failed : String
unique_failed = "UNIQUE constraint failed"

unfoldable pub update_rows : (Job → Bool) → (Job → Job) → List Job → List Job
update_rows p f [] = []
update_rows p f (r ∷ rs) = (if p r then f r else r) ∷ update_rows p f rs

-- UPDATE automation_jobs SET f WHERE p: the rows, and whether any was affected.
unfoldable pub update : (Job → Bool) → (Job → Job) → List Job → Result (List Job × Bool)
update p f rows =
    let rows' = update_rows p f rows in
    if unique_active rows' then ok (rows', any p rows) else err unique_failed
