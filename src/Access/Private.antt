-- ===== src/Access/Private.antt =====
-- src/aurelix_core/private_api.py, and valid_csrf of csrf.py. A handler is a function of the identity and the
-- payload to its answer, or to the exception that it raises. An empty name of an operation is refused.
use aurelix.Base.{
  Bool, false, ◌||◌, ◌≡◌, ◌⊎◌, arith, Option, none, some, [], ◌∷◌, String, Result, ok, err,
  if◌then◌else◌, Dict, lookup, insert, is_some, is_empty, or_default, ◌==◌, string_eq,
}
use aurelix.Governance.Audit.{AuditEvent, AuditLog, text, append}
use aurelix.Access.Capabilities.{
  Identity, CredentialRecord, AuthenticationError, not_active, identity_mismatch,
  invalid_credential, authenticate,
}

-- `P` is the type of payloads, `O` of answers and `X` of what handlers raise.
pub record PrivateApi (P O X : Type 0) : Type 0 where
  pub audit : AuditLog
  pub routes : Dict (Identity → P → Result X O)

pub data ApiError (X : Type 0) : Type 0 where
  name_not_unique authentication_failed unknown_operation : ApiError X
  handler_raised : X → ApiError X

-- `str(exc)`
abbrev pub reason : AuthenticationError → String
reason not_active = "identity is not active"
reason identity_mismatch = "credential identity mismatch"
reason invalid_credential = "invalid credential"

abbrev denied_event : String → Identity → String → String → AuditEvent
denied_event event identity operation why = record {
  event_type = event;
  actor_id = identity.id;
  subject_id = operation;
  outcome = "denied";
  metadata = ("reason", text why) ∷ [];
}

abbrev completed_event : Identity → String → AuditEvent
completed_event identity operation = record {
  event_type = "api.operation_completed";
  actor_id = identity.id;
  subject_id = operation;
  outcome = "success";
  metadata = [];
}

module _ {P O X : Type 0} where
  unfoldable pub register :
      String
      → (Identity → P → Result X O)
      → PrivateApi P O X
      → Result (ApiError X) (Unit {0}) × PrivateApi P O X
  register name handler api =
      if is_empty name || is_some (lookup name api.routes)
      then (err name_not_unique, api)
      else (ok tt, record api { routes = insert name handler api.routes })

  abbrev logged : AuditEvent → PrivateApi P O X → PrivateApi P O X
  logged e api = record api { audit = append e api.audit }

  -- What the handler gave; an exception of it leaves the call without an event.
  answered :
      Identity → String → PrivateApi P O X → Result X O → Result (ApiError X) O × PrivateApi P O X
  answered identity operation api (err x) = (err (handler_raised x), api)
  answered identity operation api (ok result) =
      (ok result, logged (completed_event identity operation) api)

  dispatched :
      Identity
      → Identity
      → String
      → P
      → PrivateApi P O X
      → Option (Identity → P → Result X O)
      → Result (ApiError X) O × PrivateApi P O X
  unfolding answered
  dispatched identity principal operation payload api none = (
    err unknown_operation,
    logged (denied_event "api.operation_denied" identity operation "unknown operation") api,
  )
  dispatched identity principal operation payload api (some handler) =
      answered identity operation api (handler principal payload)

  authenticated :
      Identity
      → String
      → P
      → PrivateApi P O X
      → Result AuthenticationError Identity
      → Result (ApiError X) O × PrivateApi P O X
  unfolding dispatched
  authenticated identity operation payload api (err e) = (
    err authentication_failed,
    logged (denied_event "api.authentication_denied" identity operation (reason e)) api,
  )
  authenticated identity operation payload api (ok principal) =
      dispatched identity principal operation payload api (lookup operation api.routes)

  -- `call`, with the key derivation as a parameter.
  unfoldable pub call :
      (String → String → String)
      → Identity
      → CredentialRecord
      → String
      → String
      → P
      → PrivateApi P O X
      → Result (ApiError X) O × PrivateApi P O X
  unfolding authenticated
  call scrypt identity credential secret operation payload api =
      authenticated identity operation payload api (authenticate scrypt identity credential secret)

-- `compare_digest` is equality; `none` is None.
unfoldable pub valid_csrf : Option String → Option String → Bool
valid_csrf cookie_token header_token =
    if is_empty (or_default cookie_token "") || is_empty (or_default header_token "")
    then false
    else or_default cookie_token "" == or_default header_token ""

module _ {P O X : Type 0} (scrypt : String → String → String) where
  -- A call reaches a handler only behind an authentication that succeeds: otherwise it is refused, and the
  -- routes make no difference to its answer and stay as they are.
  call-authenticated :
      (identity : Identity) (credential : CredentialRecord) (secret operation : String)
      (payload : P) (api : PrivateApi P O X) (others : Dict (Identity → P → Result X O))
      → let o = call scrypt identity credential secret operation payload api in
        ((o.0 ≡ err authentication_failed)
          × ((call scrypt identity credential secret operation payload
                (record api { routes = others })).0
              ≡ o.0)
          × (o.1.routes ≡ api.routes))
        ⊎ (authenticate scrypt identity credential secret ≡ ok identity)
  unfolding call authenticated authenticate
  call-authenticated identity credential secret operation payload api others = ground arith
