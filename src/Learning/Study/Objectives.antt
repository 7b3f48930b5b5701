-- ===== src/Learning/Study/Objectives.antt =====
-- Where a proposed objective is found again.
use aurelix.Base.{◌≡◌, arith, some, List, String, Result, ok, err, lookup, lookup-insert_self}
use aurelix.Base.Int.{ℤ}
use aurelix.Learning.Study.{
  proposed, StudyObjective, ContinuousIntelligence, StudyError, propose_objective,
  proposed_objective, discover_domain,
}

proposed_objective-stored :
    (x : StudyObjective) (r : Result StudyError String × ContinuousIntelligence)
    (o : StudyObjective)
    → (proposed_objective x r).0 ≡ ok o
    → lookup x.objective_id (proposed_objective x r).1.objectives ≡ some o
unfolding proposed_objective
proposed_objective-stored x (err e, i) o h = ground (arith, h)
proposed_objective-stored x (ok d, i) o h =
    ground (arith, h, lookup-insert_self x.objective_id x i.objectives)

-- An objective that was proposed is in the registry under its id.
pub propose_objective-stored :
    (id domain title question : String) (cs : List String) (priority : ℤ)
    (i : ContinuousIntelligence) (o : StudyObjective)
    → (propose_objective id domain title question cs priority i).0 ≡ ok o
    → lookup id (propose_objective id domain title question cs priority i).1.objectives ≡ some o
unfolding propose_objective
propose_objective-stored id domain title question cs priority i o h =
    proposed_objective-stored
      (record {
        objective_id = id;
        domain = domain;
        title = title;
        question = question;
        target_competencies = cs;
        priority = priority;
        status = proposed;
      })
      (discover_domain domain i) o h
