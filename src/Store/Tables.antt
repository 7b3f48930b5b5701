-- ===== src/Store/Tables.antt =====
-- The tables, the rows and the queries of src/aurelix_runtime/persistence.py, with `enqueue`, `get`
-- and the audit table.
pub mod Updates
use aurelix.Base.{
  ℕ, ◌+◌, String, Bool, true, false, ◌&&◌, ◌≡◌, ◌↔◌, Option, none, some, List, [], ◌∷◌, ◌++◌, Dict,
  lookup, insert, is_some, length, keep, if◌then◌else◌, ◌==◌, nat_eq, string_eq, Result, ok, err,
}
use Prim.Native.Nat.{max}
use aurelix.Governance.Audit.{Meta, text}

-- JSON documents: payloads and results. The store looks inside none of them; it compares them, asks
-- whether one is empty, and writes the documents named here.
pub record Documents (D : Type 0) : Type 0 where
  pub same : D → D → Bool
  pub same_iff : (a b : D) → (same a b ≡ true) ↔ (a ≡ b)
  pub is_empty : D → Bool
  pub empty : D  -- {}
  pub success : D  -- {"ok": True}
  pub failure : String → D  -- {"ok": False, "error": …}
  pub with_objective : String → D  -- {"objective": …}
  pub objective : D → String  -- .get("objective", "")
  pub objective_lem : (o : String) → objective (with_objective o) ≡ o

-- The values that the CHECK constraint of the table `jobs` admits.
pub data Status : Type 0 where
  queued running interrupted completed failed : Status

abbrev pub is_queued : Status → Bool
is_queued queued = true
is_queued _ = false

abbrev pub is_running : Status → Bool
is_running running = true
is_running _ = false

abbrev pub is_interrupted : Status → Bool
is_interrupted interrupted = true
is_interrupted _ = false

abbrev pub is_completed : Status → Bool
is_completed completed = true
is_completed _ = false

-- `TERMINAL_STATUSES`
abbrev pub is_terminal : Status → Bool
is_terminal completed = true
is_terminal failed = true
is_terminal _ = false

-- A row of the table `jobs`; `none` is NULL.
pub record Job (D : Type 0) : Type 0 where
  pub job_id : String
  pub name : String
  pub payload : D
  pub status : Status
  pub attempts : ℕ
  pub created_at : ℕ
  pub updated_at : ℕ
  pub started_at : Option ℕ
  pub heartbeat_at : Option ℕ
  pub worker_id : Option String
  pub lease_token : Option String
  pub lease_until : Option ℕ
  pub last_error : Option String

-- What the methods return of a row.
pub record JobRecord (D : Type 0) : Type 0 where
  pub job_id : String
  pub name : String
  pub payload : D
  pub status : Status
  pub attempts : ℕ
  pub created_at : ℕ
  pub updated_at : Option ℕ
  pub worker_id : Option String
  pub lease_token : Option String
  pub lease_until : Option ℕ

pub record AuditRow : Type 0 where
  pub event_id : String
  pub job_id : Option String
  pub event_type : String
  pub payload : Dict Meta
  pub created_at : ℕ

pub record RuntimeStore (D : Type 0) : Type 0 where
  pub jobs : List (Job D)
  pub results : Dict D
  pub audit_events : List AuditRow
  pub runtime_heartbeat : Option ℕ
  pub lease_seconds : ℕ
  pub supports_interrupted : Bool

pub data StoreError : Type 0 where
  job_not_found lease_lost claimed_concurrently duplicate_id : StoreError
  wrong_state : Status → StoreError

module _ {D : Type 0} where
  -- The store over new tables: a lease lasts at least a second.
  unfoldable pub new : ℕ → RuntimeStore D
  new lease_seconds = record {
    jobs = [];
    results = [];
    audit_events = [];
    runtime_heartbeat = none;
    lease_seconds = max 1000000 lease_seconds;
    supports_interrupted = true;
  }

  unfoldable pub lease_end : RuntimeStore D → ℕ → ℕ
  lease_end s now = now + s.lease_seconds

  -- `_record`
  abbrev pub record_of : Job D → JobRecord D
  record_of r = record {
    job_id = r.job_id;
    name = r.name;
    payload = r.payload;
    status = r.status;
    attempts = r.attempts;
    created_at = r.created_at;
    updated_at = some r.updated_at;
    worker_id = r.worker_id;
    lease_token = r.lease_token;
    lease_until = r.lease_until;
  }

  -- `SELECT … FROM jobs WHERE job_id=?`, on the primary key
  abbrev pub find_job : String → List (Job D) → Option (Job D)
  find_job k [] = none
  find_job k (r ∷ rs) = if r.job_id == k then some r else find_job k rs

  -- `UPDATE jobs SET … WHERE job_id=? AND …`
  abbrev pub update_job : String → (Job D → Bool) → (Job D → Job D) → List (Job D) → List (Job D)
  update_job k p f [] = []
  update_job k p f (r ∷ rs) = (if r.job_id == k && p r then f r else r) ∷ update_job k p f rs

  -- `cursor.rowcount` of that update
  abbrev pub row_count : String → (Job D → Bool) → List (Job D) → ℕ
  row_count k p rs = length (keep (λ r. r.job_id == k && p r) rs)

  -- `INSERT INTO job_results … ON CONFLICT(job_id) DO NOTHING`
  abbrev pub insert_result : String → D → Dict D → Dict D
  insert_result k v d = if is_some (lookup k d) then d else insert k v d

  unfoldable pub get : String → RuntimeStore D → Option (JobRecord D)
  get k s = elim (find_job k s.jobs) [ none ↦ none | some r ↦ some (record_of r) ]

  unfoldable pub get_result : String → RuntimeStore D → Option D
  get_result k s = lookup k s.results

  abbrev pub queued_job : String → String → D → ℕ → Job D
  queued_job job_id name payload now = record {
    job_id = job_id;
    name = name;
    payload = payload;
    status = queued;
    attempts = 0;
    created_at = now;
    updated_at = now;
    started_at = none;
    heartbeat_at = none;
    worker_id = none;
    lease_token = none;
    lease_until = none;
    last_error = none;
  }

  -- The id and the payload come with their defaults, a new `uuid4()` and `{}`, filled in. An id that
  -- is taken violates the primary key.
  unfoldable pub enqueue :
      String → String → D → ℕ → RuntimeStore D → Result StoreError (JobRecord D) × RuntimeStore D
  enqueue job_id name payload now s =
      if is_some (find_job job_id s.jobs) then (err duplicate_id, s) else (
        ok (record_of (queued_job job_id name payload now)),
        record s { jobs = s.jobs ++ (queued_job job_id name payload now ∷ []) },
      )

  unfoldable pub heartbeat_runtime : ℕ → RuntimeStore D → RuntimeStore D
  heartbeat_runtime now s = record s { runtime_heartbeat = some now }

  unfoldable pub record_audit :
      String → Option String → String → Dict Meta → ℕ → RuntimeStore D → RuntimeStore D
  record_audit event_id job_id event_type payload now s = record s {
    audit_events =
        s.audit_events
        ++ (record {
          event_id = event_id;
          job_id = job_id;
          event_type = event_type;
          payload = payload;
          created_at = now;
        }
            ∷ []);
  }

  unfoldable pub audit :
      String → String → String → String → String → Dict Meta → ℕ → RuntimeStore D → RuntimeStore D
  unfolding record_audit
  audit event_id event_type actor subject outcome metadata =
      record_audit event_id (some subject) event_type
        (("actor", text actor) ∷ ("subject", text subject) ∷ ("outcome", text outcome) ∷ metadata)
