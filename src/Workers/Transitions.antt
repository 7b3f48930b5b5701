-- ===== src/Workers/Transitions.antt =====
-- src/aurelix_runtime/agent_policy.py, governance.py, and of provenance.py the ledger's `append` and
-- `for_subject`. The uuid4 of a new record is an argument; its time stamp is left out.
use aurelix.Base.{
  ◌++◌, Bool, true, false, not, ◌&&◌, ◌≡◌, ◌≢◌, ◌↔◌, arith, Option, none, some, List, [], ◌∷◌,
  String, Result, ok, err, if◌then◌else◌, Dict, insert, values, keep, contains, is_empty, ◌==◌,
  string_eq, eq_iff,
}

pub record AgentIdentity : Type 0 where
  pub agent_id : String
  pub roles : List String

pub record PolicyDecision : Type 0 where
  pub allowed : Bool
  pub reason : String

-- `AgentPolicy.decide`
unfoldable pub decide : AgentIdentity → String → String → PolicyDecision
decide identity object_type action =
    if is_empty identity.agent_id
    then record { allowed = false; reason = "missing agent identity" }
    else if action == "execute_business" && not (contains "business_operator" identity.roles)
    then record { allowed = false; reason = "business execution role required" }
    else record { allowed = true; reason = "policy allows transition" }

pub record ProvenanceRecord : Type 0 where
  pub record_id : String
  pub kind : String
  pub subject_id : String
  pub parent_ids : List String
  pub metadata : Dict String

abbrev pub ProvenanceLedger : Type 0
ProvenanceLedger = Dict ProvenanceRecord

abbrev about : String → ProvenanceRecord → Bool
about subject_id r = r.subject_id == subject_id

unfoldable pub for_subject : String → ProvenanceLedger → List ProvenanceRecord
for_subject subject_id l = keep (about subject_id) (values l)

-- `ProvenanceLedger.append`
unfoldable pub append :
    String
    → String
    → String
    → List String
    → Dict String
    → ProvenanceLedger
    → ProvenanceRecord × ProvenanceLedger
append record_id kind subject_id parent_ids metadata l =
    let r : ProvenanceRecord = record {
      record_id = record_id;
      kind = kind;
      subject_id = subject_id;
      parent_ids = parent_ids;
      metadata = metadata;
    } in
    (r, insert record_id r l)

pub record Transition : Type 0 where
  pub object_id : String
  pub object_type : String
  pub parent_ids : List String
  pub actor_id : String
  pub action : String

pub data GovernanceError : Type 0 where
  parents_required actor_mismatch : GovernanceError
  missing_parent : String → GovernanceError
  policy_denied : String → GovernanceError

pub record GovernanceGate : Type 0 where
  pub ledger : ProvenanceLedger
  pub audit : List Transition

abbrev pub required_types : List String
required_types = "evidence" ∷ "knowledge" ∷ "experiment" ∷ "evaluation" ∷ "opportunity" ∷ []

abbrev pub is_nil {ℓ} : {A : Type ℓ} → List A → Bool
is_nil [] = true
is_nil (x ∷ xs) = false

-- The first parent with no record, which the loop raises on.
abbrev pub first_missing : ProvenanceLedger → List String → Option String
first_missing l [] = none
first_missing l (p ∷ ps) = if is_nil (for_subject p l) then some p else first_missing l ps

-- `identity or AgentIdentity(transition.actor_id)`
abbrev pub acting : Transition → Option AgentIdentity → AgentIdentity
acting t none = record { agent_id = t.actor_id; roles = [] }
acting t (some identity) = identity

-- After the check of the parents.
authorize_as :
    Transition → AgentIdentity → GovernanceGate → Result GovernanceError Transition × GovernanceGate
unfolding decide
authorize_as t identity g =
    let decision = decide identity t.object_type t.action in
    if not (identity.agent_id == t.actor_id)
    then (err actor_mismatch, g)
    else if not decision.allowed
    then (err (policy_denied decision.reason), g)
    else (ok t, record g { audit = g.audit ++ (t ∷ []) })

unfoldable pub authorize :
    Transition
    → Option AgentIdentity
    → GovernanceGate
    → Result GovernanceError Transition × GovernanceGate
unfolding authorize_as
authorize t identity g =
    if contains t.object_type required_types && is_nil t.parent_ids
    then (err parents_required, g)
    else elim (first_missing g.ledger t.parent_ids) [
      | some p ↦ (err (missing_parent p), g)
      | none ↦ authorize_as t (acting t identity) g
    ]

registered :
    String
    → Result GovernanceError Transition × GovernanceGate
    → Result GovernanceError ProvenanceRecord × GovernanceGate
unfolding append
registered record_id (err e, g) = (err e, g)
registered record_id (ok t, g) =
    let (r, ledger) =
      append record_id t.object_type t.object_id t.parent_ids
        (("actor_id", t.actor_id) ∷ ("action", t.action) ∷ []) g.ledger in
    (ok r, record g { ledger = ledger })

unfoldable pub register :
    String
    → Transition
    → Option AgentIdentity
    → GovernanceGate
    → Result GovernanceError ProvenanceRecord × GovernanceGate
unfolding authorize registered
register record_id t identity g = registered record_id (authorize t identity g)

-- Every parent named has a record.
abbrev pub Known : ProvenanceLedger → List String → Type 0
Known l [] = Unit
Known l (p ∷ ps) = (for_subject p l ≢ []) × Known l ps

first_missing_iff :
    (l : ProvenanceLedger) (ps : List String) → (first_missing l ps ≡ none) ↔ Known l ps
first_missing_iff l [] = ground arith
first_missing_iff l (p ∷ ps) = ground (arith, first_missing_iff l ps)

-- A transition is authorized exactly when a governed kind names a parent, every parent named has a
-- record, the identity is the transition's own actor and not empty, and an execution of business is
-- asked for by a business operator.
authorize-traced_iff :
    (t : Transition) (identity : Option AgentIdentity) (g : GovernanceGate)
    → ((authorize t identity g).0 ≡ ok t) ↔ (
        (contains t.object_type required_types ≡ true → t.parent_ids ≢ [])
        × Known g.ledger t.parent_ids
        × ((acting t identity).agent_id ≡ t.actor_id)
        × (t.actor_id ≢ "")
        × (t.action ≡ "execute_business"
            → contains "business_operator" (acting t identity).roles ≡ true))
unfolding authorize authorize_as decide
authorize-traced_iff t identity g = ground (
  arith,
  first_missing_iff g.ledger t.parent_ids,
  eq_iff (acting t identity).agent_id t.actor_id,
  eq_iff t.actor_id "",
  eq_iff t.action "execute_business",
)
