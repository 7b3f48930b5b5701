-- ===== src/Access/Requests.antt =====
-- src/aurelix_core/approval.py. Times are microseconds; `now` is always given.
use aurelix.Base.{
  ℕ, zero, suc, ◌+◌, ◌*◌, ◌<◌, ◌≤◌, Bool, true, false, not, ◌≡◌, ◌↔◌, arith, String, ltb, leb,
  if◌then◌else◌, Result, ok, err, ◌==◌, string_eq, eq_iff,
}
use aurelix.Base.Int.{ℤ, pos, negsuc}

pub data ApprovalStatus : Type 0 where
  pending approved rejected expired revoked : ApprovalStatus

pub record ApprovalRequest : Type 0 where
  pub id : String
  pub subject_id : String
  pub action : String
  pub requester_id : String
  pub created_at : ℕ
  pub expires_at : ℕ
  pub status : ApprovalStatus

pub record ApprovalDecision : Type 0 where
  pub request_id : String
  pub approver_id : String
  pub status : ApprovalStatus
  pub decided_at : ℕ
  pub reason : String

pub data ApprovalDenied : Type 0 where
  request_expired request_mismatch not_granted decided_late : ApprovalDenied

pub data RequestError : Type 0 where
  ttl_not_positive : RequestError

unfoldable pub is_expired : ApprovalRequest → ℕ → Bool
is_expired r now = leb r.expires_at now

abbrev microseconds_per_minute : ℕ
microseconds_per_minute = 60000000

-- `create_approval_request`
unfoldable pub create :
    String → String → String → String → ℤ → ℕ → Result RequestError ApprovalRequest
create request_id subject_id action requester_id (pos zero) now = err ttl_not_positive
create request_id subject_id action requester_id (negsuc n) now = err ttl_not_positive
create request_id subject_id action requester_id (pos (suc n)) now = ok (record {
  id = request_id;
  subject_id = subject_id;
  action = action;
  requester_id = requester_id;
  created_at = now;
  expires_at = now + suc n * microseconds_per_minute;
  status = pending;
})

abbrev is_approved : ApprovalStatus → Bool
is_approved approved = true
is_approved _ = false

unfoldable pub require_approved :
    ApprovalRequest → ApprovalDecision → ℕ → Result ApprovalDenied (Unit {0})
unfolding is_expired
require_approved r d now =
    if is_expired r now
    then err request_expired
    else if not (d.request_id == r.id)
    then err request_mismatch
    else if not (is_approved d.status)
    then err not_granted
    else if ltb r.expires_at d.decided_at
    then err decided_late
    else ok tt

-- A request counts as approved exactly while it has not expired, by a decision on this request that
-- approves it and was made no later than the expiry.
pub require_approved_iff :
    (r : ApprovalRequest) (d : ApprovalDecision) (now : ℕ)
    → (require_approved r d now ≡ ok tt) ↔ (
        (now < r.expires_at)
        × (d.request_id ≡ r.id)
        × (d.status ≡ approved)
        × (d.decided_at ≤ r.expires_at))
unfolding require_approved is_expired
require_approved_iff r d now = ground (arith, eq_iff d.request_id r.id)
