-- ===== src/Workers/Messages.antt =====
-- src/aurelix_runtime/message_fabric.py. A handler is what a call of it does with the message: it
-- returns a value of `R` or raises a value of `X`. Of a message the fields that the fabric reads are
-- kept, and its payload.
use aurelix.Base.{
  true, ◌≡◌, arith, Option, List, [], ◌∷◌, ◌++◌, String, Result, ok, err, if◌then◌else◌, Dict,
  lookup, insert, or_default, contains, is_empty, string_eq, str_beq_refl,
}

pub record AgentMessage (P : Type 0) : Type 0 where
  pub topic : String
  pub message_id : String
  pub idempotency_key : Option String
  pub payload : P

abbrev pub Handler : Type 0 → Type 0 → Type 0 → Type 0
Handler P X R = AgentMessage P → Result X R

pub record MessageFabric (P X R : Type 0) : Type 0 where
  pub handlers : Dict (List (Handler P X R))
  pub seen : List String

pub data FabricCall (P X R : Type 0) : Type 0 where
  subscribe_call : String → Handler P X R → FabricCall P X R
  publish_call : AgentMessage P → FabricCall P X R

-- `message.idempotency_key or message.message_id`
abbrev pub key_of : {P : Type 0} → AgentMessage P → String
key_of m = let key = or_default m.idempotency_key "" in if is_empty key then m.message_id else key

module _ {P X R : Type 0} where
  unfoldable pub subscribe : String → Handler P X R → MessageFabric P X R → MessageFabric P X R
  subscribe topic handler f = record f {
    handlers = insert topic (or_default (lookup topic f.handlers) [] ++ (handler ∷ [])) f.handlers;
  }

  -- The loop over the handlers: the first that raises ends it.
  deliver : List (Handler P X R) → AgentMessage P → Result X (List R)
  deliver [] m = ok []
  deliver (h ∷ hs) m = elim (h m) [
    | err x ↦ err x
    | ok r ↦ elim (deliver hs m) [ err x ↦ err x | ok rs ↦ ok (r ∷ rs) ]
  ]

  -- Beside the result, whether handlers were called.
  unfoldable pub publish :
      AgentMessage P → MessageFabric P X R → Result X (List R) × MessageFabric P X R
  unfolding deliver
  publish m f = if contains (key_of m) f.seen then (ok [], f) else (
    deliver (or_default (lookup m.topic f.handlers) []) m,
    record f { seen = key_of m ∷ f.seen },
  )

  pub step : FabricCall P X R → MessageFabric P X R → MessageFabric P X R
  unfolding subscribe publish
  step (subscribe_call topic handler) f = subscribe topic handler f
  step (publish_call m) f = (publish m f).1

  pub steps : List (FabricCall P X R) → MessageFabric P X R → MessageFabric P X R
  unfolding step
  steps [] f = f
  steps (call ∷ calls) f = steps calls (step call f)

  -- A key once seen stays seen.
  step-seen :
      (call : FabricCall P X R) (key : String) (f : MessageFabric P X R)
      → contains key f.seen ≡ true
      → contains key (step call f).seen ≡ true
  unfolding step subscribe publish
  step-seen (subscribe_call topic handler) key f h = h
  step-seen (publish_call m) key f h = ground arith

  steps-seen :
      (calls : List (FabricCall P X R)) (key : String) (f : MessageFabric P X R)
      → contains key f.seen ≡ true
      → contains key (steps calls f).seen ≡ true
  unfolding steps
  steps-seen [] key f h = h
  steps-seen (call ∷ calls) key f h = steps-seen calls key (step call f) (step-seen call key f h)

  publish-seen :
      (m : AgentMessage P) (f : MessageFabric P X R)
      → contains (key_of m) ((publish m f).1).seen ≡ true
  unfolding publish
  publish-seen m f = ground (arith, str_beq_refl (key_of m))

  -- A key is delivered once: after a message is published, whether its handlers returned or raised,
  -- and after any further calls, a message with the same key calls no handler and changes nothing.
  publish_once :
      (m n : AgentMessage P) (calls : List (FabricCall P X R)) (f : MessageFabric P X R)
      → key_of n ≡ key_of m
      → let later = steps calls (publish m f).1 in publish n later ≡ (ok [], later)
  unfolding publish
  publish_once m n calls f h =
      let seen = steps-seen calls (key_of m) (publish m f).1 (publish-seen m f) in ground arith
