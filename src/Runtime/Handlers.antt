-- ===== src/Runtime/Handlers.antt =====
-- The handlers of AurelixRuntime in src/aurelix_runtime/runtime.py: how it starts, `register`,
-- `register_claimed` and `submit`. Ids and times are arguments.
use Prim.Native.Nat.{max}
use aurelix.Base.{
  ℕ, ◌*◌, String, Bool, not, ◌&&◌, Option, some, [], ◌∷◌, Dict, lookup, insert, erase, is_some,
  if◌then◌else◌, is_blank, Result, ok, err, ◌==◌, nat_eq,
}
use aurelix.Base.Int.{pos}
use aurelix.Governance.Audit.{text}
use aurelix.Store.Tables.{Documents, JobRecord, RuntimeStore, StoreError, enqueue, audit}
use aurelix.Store.Recovery.{recover_running_jobs}

-- How a handler fails: it raises the store's LeaseLostError or another exception, with its text, or it
-- returns an object, one that counts as true, which `json.dumps` refuses with the text of that TypeError.
pub data Raised : Type 0 where
  raised_lease_lost raised unwritable : String → Raised

pub record RuntimeConfig : Type 0 where
  pub heartbeat : ℕ
  pub worker_poll : ℕ
  pub max_attempts : ℕ

-- A plain handler gets the payload as texts, a claimed one the record; an output of `none` is None.
pub record AurelixRuntime (D : Type 0) : Type 0 where
  pub config : RuntimeConfig
  pub handlers : Dict (Dict String → RuntimeStore D → Result Raised (Option D))
  pub claimed_handlers : Dict (JobRecord D → RuntimeStore D → Result Raised (Option D))
  pub worker_id : String

pub data RuntimeError : Type 0 where
  heartbeat_not_positive worker_poll_not_positive max_attempts_not_positive : RuntimeError
  kind_required : RuntimeError
  unregistered_kind : String → RuntimeError
  store_error : StoreError → RuntimeError

module _ {D : Type 0} where
  unfoldable pub register :
      String
      → (Dict String → RuntimeStore D → Result Raised (Option D))
      → AurelixRuntime D
      → Result RuntimeError (Unit {0}) × AurelixRuntime D
  register kind handler rt = if is_blank kind then (err kind_required, rt) else (
    ok tt,
    record rt {
      handlers = insert kind handler rt.handlers;
      claimed_handlers = erase kind rt.claimed_handlers;
    },
  )

  unfoldable pub register_claimed :
      String
      → (JobRecord D → RuntimeStore D → Result Raised (Option D))
      → AurelixRuntime D
      → Result RuntimeError (Unit {0}) × AurelixRuntime D
  register_claimed kind handler rt = if is_blank kind then (err kind_required, rt) else (
    ok tt,
    record rt {
      claimed_handlers = insert kind handler rt.claimed_handlers;
      handlers = erase kind rt.handlers;
    },
  )

  abbrev pub is_registered : String → AurelixRuntime D → Bool
  is_registered kind rt =
      not
        (not (is_some (lookup kind rt.handlers)) && not (is_some (lookup kind rt.claimed_handlers)))

  unfoldable pub submitted :
      String
      → String
      → ℕ
      → Result StoreError (JobRecord D) × RuntimeStore D
      → Result RuntimeError String × RuntimeStore D
  submitted event_id kind now (err e, s) = (err (store_error e), s)
  submitted event_id kind now (ok r, s) = (
    ok r.job_id,
    audit event_id "job.queued" "runtime" r.job_id "queued" (("kind", text kind) ∷ []) now s,
  )

  unfoldable pub submit :
      AurelixRuntime D
      → String
      → D
      → String
      → String
      → ℕ
      → ℕ
      → RuntimeStore D
      → Result RuntimeError String × RuntimeStore D
  unfolding submitted
  submit rt kind payload job_id event_id now audited_at s =
      if not (is_registered kind rt)
      then (err (unregistered_kind kind), s)
      else submitted event_id kind audited_at (enqueue job_id kind payload now s)

module _ {D : Type 0} ⦃docs : Documents D⦄ where
  -- The constructor, on a database that it finds: the jobs whose worker has been silent for twice the
  -- heartbeat, and for a second at least, are recovered.
  unfoldable pub open_runtime :
      RuntimeConfig
      → String
      → ℕ
      → ℕ
      → RuntimeStore D
      → Result RuntimeError (AurelixRuntime D) × RuntimeStore D
  open_runtime config worker_id now_dt now s =
      let stale_after = max (config.heartbeat * 2) 1000000 in
      let opened : RuntimeStore D = record s { lease_seconds = max 1000000 config.heartbeat } in
      if config.heartbeat == 0
      then (err heartbeat_not_positive, s)
      else if config.worker_poll == 0
      then (err worker_poll_not_positive, s)
      else if config.max_attempts == 0
      then (err max_attempts_not_positive, s)
      else (
        ok (record {
          config = config;
          handlers = [];
          claimed_handlers = [];
          worker_id = worker_id;
        }),
        (recover_running_jobs config.max_attempts (some (pos stale_after)) now_dt now opened).0,
      )
