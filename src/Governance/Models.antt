-- ===== src/Governance/Models.antt =====
-- src/aurelix_core/models.py. Identifiers are texts and times are microseconds; `decided_at` and
-- `created_at`, which no decision reads, are left out.
use aurelix.Base.{String, Bool, Dict, true, false}
use aurelix.Base.Int.{ℤ}

pub data AutonomyLevel : Type 0 where
  a0 a1 a2 a3 a4 : AutonomyLevel

pub data DecisionStatus : Type 0 where
  proposed approved rejected executed failed : DecisionStatus

pub data ActionClass : Type 0 where
  read research build deploy financial security governance : ActionClass

abbrev pub autonomy_value : AutonomyLevel → String
autonomy_value a0 = "A0"
autonomy_value a1 = "A1"
autonomy_value a2 = "A2"
autonomy_value a3 = "A3"
autonomy_value a4 = "A4"

abbrev pub status_value : DecisionStatus → String
status_value proposed = "proposed"
status_value approved = "approved"
status_value rejected = "rejected"
status_value executed = "executed"
status_value failed = "failed"

abbrev pub action_value : ActionClass → String
action_value read = "read"
action_value research = "research"
action_value build = "build"
action_value deploy = "deploy"
action_value financial = "financial"
action_value security = "security"
action_value governance = "governance"

-- `status is DecisionStatus.APPROVED`
abbrev pub is_approved : DecisionStatus → Bool
is_approved approved = true
is_approved _ = false

-- `action is ActionClass.FINANCIAL`
abbrev pub is_financial : ActionClass → Bool
is_financial financial = true
is_financial _ = false

pub record Actor : Type 0 where
  pub id : String
  pub role : String
  pub autonomy : AutonomyLevel

-- What `Decimal(str(value))` makes of a value: it raises, it is not a number (comparing it
-- raises), or it is a number, counted in the smallest unit in use.
pub data Amount : Type 0 where
  unreadable nan : Amount
  decimal : ℤ → Amount

-- Of the payload only amounts are read.
pub record DecisionRequest : Type 0 where
  pub actor : Actor
  pub action : ActionClass
  pub reason : String
  pub payload : Dict Amount
  pub id : String

pub record Decision : Type 0 where
  pub request_id : String
  pub status : DecisionStatus
  pub allowed : Bool
  pub reason : String
  pub requires_owner : Bool
