-- ===== src/Execution/Limits.antt =====
-- src/aurelix_core/limits.py. Costs and times are counted in a smallest unit, so that the sums of the
-- source, which adds floats for the cost, are exact here.
use aurelix.Base.{◌≡◌, ◌↔◌, arith, if◌then◌else◌, Option, none, some, Result, ok, err}
use aurelix.Base.Int.{ℤ, ◌+ℤ◌, ◌-ℤ◌, ◌≤ℤ◌, ltb_ℤ}

pub record ExecutionLimits : Type 0 where
  pub max_actions : ℤ
  pub max_tool_calls : ℤ
  pub max_runtime : ℤ
  pub max_cost_eur : ℤ

pub record ExecutionUsage : Type 0 where
  pub actions : ℤ
  pub tool_calls : ℤ
  pub cost_eur : ℤ
  pub started_at : Option ℤ

pub data LimitExceeded : Type 0 where
  actions_exceeded tool_calls_exceeded cost_exceeded runtime_exceeded : LimitExceeded

check_runtime : Option ℤ → ℤ → ℤ → Result LimitExceeded (Unit {0})
check_runtime none limit now = ok tt
check_runtime (some started) limit now =
    if ltb_ℤ limit (now -ℤ started) then err runtime_exceeded else ok tt

unfoldable pub check_limits :
    ExecutionUsage → ExecutionLimits → ℤ → ℤ → ℤ → ℤ → Result LimitExceeded (Unit {0})
unfolding check_runtime
check_limits u l more_actions more_calls more_cost now =
    if ltb_ℤ l.max_actions (u.actions +ℤ more_actions)
    then err actions_exceeded
    else if ltb_ℤ l.max_tool_calls (u.tool_calls +ℤ more_calls)
    then err tool_calls_exceeded
    else if ltb_ℤ l.max_cost_eur (u.cost_eur +ℤ more_cost)
    then err cost_exceeded
    else check_runtime u.started_at l.max_runtime now

-- The time that a task has run does not pass the limit; a task that has not started has run none.
abbrev pub InTime : Option ℤ → ℤ → ℤ → Type 0
InTime none limit now = Unit
InTime (some started) limit now = now -ℤ started ≤ℤ limit

check_runtime_iff :
    (s : Option ℤ) (limit now : ℤ) → (check_runtime s limit now ≡ ok tt) ↔ InTime s limit now
unfolding check_runtime
check_runtime_iff none limit now = ground arith
check_runtime_iff (some started) limit now = ground arith

-- The check passes exactly when the actions, the tool calls and the cost stay within their limits with
-- what is to be added, and the task is in time.
check_limits-ok_iff :
    (u : ExecutionUsage) (l : ExecutionLimits) (a c e now : ℤ)
    → (check_limits u l a c e now ≡ ok tt) ↔ (
        (u.actions +ℤ a ≤ℤ l.max_actions)
        × (u.tool_calls +ℤ c ≤ℤ l.max_tool_calls)
        × (u.cost_eur +ℤ e ≤ℤ l.max_cost_eur)
        × InTime u.started_at l.max_runtime now)
unfolding check_limits
check_limits-ok_iff u l a c e now = (
  (λ h. (
    ground arith,
    ground arith,
    ground arith,
    (check_runtime_iff u.started_at l.max_runtime now).0 (ground arith),
  )),
  λ h.
      let in_time = (check_runtime_iff u.started_at l.max_runtime now).1 h.3 in
      let actions = h.0 in let calls = h.1 in let cost = h.2 in ground arith,
)
