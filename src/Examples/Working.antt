-- ===== src/Examples/Working.antt =====
-- One worker, one mission, one pipeline, one fabric and one scheduler.
use aurelix.Base.{
  leb, if◌then◌else◌, ℕ, String, ◌≡◌, refl, some, List, [], ◌∷◌, Result, ok, err, string_eq,
}
use aurelix.Base.Int.{pos}
use aurelix.Workers.Supervisor.{
  start, failure, WorkerPolicy, WorkerRecord, open_, running, new_record,
}
use aurelix.Workers.Supervisor.Circuit.{
  WorkerCall, failure_call, start_call, stop_call, calls, IsValid, registered-IsValid, stop_start,
}
use aurelix.Workers.Operations
use aurelix.Workers.Missions
use aurelix.Workers.Messages

abbrev policy : WorkerPolicy
policy = record { heartbeat_timeout = 30; max_failures = 2; cooldown = 60; max_retries = 1 }

abbrev some_calls : List WorkerCall
some_calls = start_call 1 ∷ failure_call "e" 2 ∷ failure_call "e" 3 ∷ []

registered-IsValid_example : IsValid (calls some_calls (new_record "w" policy 0))
registered-IsValid_example = registered-IsValid "w" policy 0 some_calls

abbrev tripped : WorkerRecord
tripped = calls some_calls (new_record "w" policy 0)

tripped-open : tripped.state ≡ open_
unfolding calls start failure
tripped-open = refl

stop_start_example :
    let r' = calls (stop_call ∷ start_call 4 ∷ []) tripped in
    (r'.state ≡ running) × (r'.failures ≡ tripped.failures) × (r'.opened_at ≡ tripped.opened_at)
stop_start_example = stop_start tripped 4 tripped-open

-- An action that fails twice.
abbrev third_time : ℕ → Result String ℕ
third_time n = if leb 2 n then ok n else err "busy"

retry_bounded-Ended_example :
    (calls : ℕ) × (result : Result String ℕ) × (Operations.retry_bounded third_time (pos 5)
      ≡ some (result, calls))
    × Operations.Ended third_time 0 5 calls result
retry_bounded-Ended_example = Operations.retry_bounded-Ended third_time 5

abbrev mission : Missions.EconomicMission ℕ
mission = record {
  objective = "learn";
  state = Missions.proposed;
  tasks = [];
  blocked_reasons = [];
  evidence = [];
}

abbrev fabric : Messages.MessageFabric ℕ String ℕ
fabric = record { handlers = ("news", (λ m. ok m.payload) ∷ []) ∷ []; seen = [] }

abbrev text : String → ℕ
text s = 0
