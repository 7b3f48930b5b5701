-- ===== src/Examples/Requests.antt =====
-- Requests of one actor: to build, to deploy and to spend.
use aurelix.Base.{[], ◌∷◌}
use aurelix.Governance.Models.{Actor, DecisionRequest, Amount, a3, build, deploy, financial}

abbrev pub builder : Actor
builder = record { id = "agent"; role = "engineer"; autonomy = a3 }

abbrev pub build_request : DecisionRequest
build_request = record {
  actor = builder;
  action = build;
  reason = "compile";
  payload = [];
  id = "r1";
}

abbrev pub deploy_request : DecisionRequest
deploy_request = record {
  actor = builder;
  action = deploy;
  reason = "release";
  payload = [];
  id = "r2";
}

abbrev pub spend_request : Amount → DecisionRequest
spend_request amount = record {
  actor = builder;
  action = financial;
  reason = "pay";
  payload = ("amount", amount) ∷ [];
  id = "r3";
}
