-- ===== src/Governance/Audit.antt =====
-- src/aurelix_core/audit.py. The generated `event_id` and `timestamp` are left out; the lock makes
-- each method one step.
use aurelix.Base.{
  ℕ, ◌-◌, zero, suc, String, Bool, Dict, List, [], ◌∷◌, ◌++◌, ◌≡◌, refl, length, drop, append_assoc,
  append-nil, sym,
}
use aurelix.Base.Int.{ℤ, pos, negsuc}

pub data Meta : Type 0 where
  text : String → Meta
  flag : Bool → Meta
  number : ℕ → Meta

pub record AuditEvent : Type 0 where
  pub event_type : String
  pub actor_id : String
  pub subject_id : String
  pub outcome : String
  pub metadata : Dict Meta

pub record AuditLog : Type 0 where
  pub events : List AuditEvent

abbrev pub no_events : AuditLog
no_events = record { events = [] }

unfoldable pub append : AuditEvent → AuditLog → AuditLog
append e log = record { events = log.events ++ (e ∷ []) }

-- `all`
unfoldable pub all_events : AuditLog → List AuditEvent
all_events log = log.events

-- `recent`: `limit < 1` gives nothing, and `[-limit:]` is the whole list when it is shorter.
unfoldable pub recent : ℤ → AuditLog → List AuditEvent
recent (negsuc n) log = []
recent (pos zero) log = []
recent (pos (suc n)) log = drop (length log.events - suc n) log.events

-- `log` has grown out of `old`: nothing was removed or rewritten.
pub record Extends (old log : AuditLog) : Type 0 where
  pub added : List AuditEvent
  pub grown : log.events ≡ old.events ++ added

pub Extends-refl : (log : AuditLog) → Extends log log
Extends-refl log = record { added = []; grown = sym (append-nil log.events) }

pub Extends-append : (e : AuditEvent) (log : AuditLog) → Extends log (append e log)
unfolding append
Extends-append e log = record { added = e ∷ []; grown = refl }

pub Extends-trans : {a b c : AuditLog} → Extends a b → Extends b c → Extends a c
Extends-trans {a} {b} {c} p q = record {
  added = p.added ++ q.added;
  grown = rw (q.grown, p.grown, append_assoc) refl;
}
