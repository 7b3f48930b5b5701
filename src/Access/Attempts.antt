-- ===== src/Access/Attempts.antt =====
-- The AttemptLimiter of src/aurelix_core/security.py. `time.time()` is an argument, in whole ticks of
-- the clock; the dictionary made by `__post_init__` is the field `attempts`.
use aurelix.Base.{
  ◌+◌, ◌<◌, ◌↔◌, eq_iff, ℕ, ◌≤◌, Bool, true, false, ◌≡◌, arith, List, [], ◌∷◌, ◌++◌, String, ltb,
  leb, length, keep, if◌then◌else◌, Dict, lookup, insert, or_default, lookup-insert, length-append,
  length-keep,
}

pub record AttemptLimiter : Type 0 where
  pub max_attempts : ℕ
  pub window_seconds : ℕ
  pub attempts : Dict (List ℕ)

unfoldable pub new : ℕ → ℕ → AttemptLimiter
new max_attempts window_seconds = record {
  max_attempts = max_attempts;
  window_seconds = window_seconds;
  attempts = [];
}

-- `now - stamp < self.window_seconds`, without the subtraction: a stamp in the future is inside too.
abbrev pub recent : ℕ → AttemptLimiter → ℕ → Bool
recent now l stamp = ltb now (stamp + l.window_seconds)

-- The stamps kept for a key, none for a new key.
unfoldable pub stamps : String → AttemptLimiter → List ℕ
stamps key l = or_default (lookup key l.attempts) []

unfoldable pub allow : String → ℕ → AttemptLimiter → Bool × AttemptLimiter
unfolding stamps
allow key now l =
    let attempts = keep (recent now l) (stamps key l) in
    if leb l.max_attempts (length attempts)
    then (false, record l { attempts = insert key attempts l.attempts })
    else (true, record l { attempts = insert key (attempts ++ (now ∷ [])) l.attempts })

-- A call is admitted exactly when fewer than `max_attempts` of the key's admitted calls are still
-- inside the window.
pub allow_iff :
    (key : String) (now : ℕ) (l : AttemptLimiter)
    → ((allow key now l).0 ≡ true) ↔ (length (keep (recent now l) (stamps key l)) < l.max_attempts)
unfolding allow
allow_iff key now l = ground arith

-- Every key's list is within the bound.
abbrev pub IsBounded : AttemptLimiter → Type 0
IsBounded l = (key : String) → length (stamps key l) ≤ l.max_attempts

-- The list kept for a key is within the bound after the call, admitted or not.
pub allow-IsBounded :
    (key : String) (now : ℕ) (l : AttemptLimiter) → IsBounded l → IsBounded (allow key now l).1
unfolding allow stamps
allow-IsBounded key now l h other =
    let bound = h other in
    let kept = length-keep (recent now l) (or_default (lookup key l.attempts) []) in
    let at_key = h key in
    let old = keep (recent now l) (or_default (lookup key l.attempts) []) in
    let added = length-append old (now ∷ []) in
    let refused = lookup-insert key other old l.attempts in
    let admitted = lookup-insert key other (old ++ (now ∷ [])) l.attempts in
    ground (arith, eq_iff key other)
