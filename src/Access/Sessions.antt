-- ===== src/Access/Sessions.antt =====
-- src/aurelix_core/session.py. The token that `secrets` makes and the current time are arguments.
use aurelix.Base.{
  inl, inr, Option-cases, ◌↔◌, ◌≤◌, refl, Option-cases, ◌≤◌, ◌↔◌, ℕ, ◌+◌, ◌<◌, false, ◌≡◌, arith,
  Option, none, some, String, leb, is_empty, if◌then◌else◌, Dict, lookup, insert, erase,
  lookup-insert_self, lookup-erase_self,
}

pub record Session : Type 0 where
  pub token : String
  pub owner_id : String
  pub expires_at : ℕ

pub record SessionStore : Type 0 where
  pub ttl : ℕ
  pub sessions : Dict Session

-- `token` is `secrets.token_urlsafe(32)`.
unfoldable pub create : String → String → ℕ → SessionStore → Session × SessionStore
create owner_id token now s =
    let session : Session = record {
      token = token;
      owner_id = owner_id;
      expires_at = now + s.ttl;
    } in
    (session, record s { sessions = insert token session s.sessions })

-- After the lookup under a token: an expired session is dropped.
validate_found : String → ℕ → SessionStore → Option Session → Option Session × SessionStore
validate_found token now s none = (none, s)
validate_found token now s (some session) =
    if leb session.expires_at now
    then (none, record s { sessions = erase token s.sessions })
    else (some session, s)

unfoldable pub validate : Option String → ℕ → SessionStore → Option Session × SessionStore
unfolding validate_found
validate none now s = (none, s)
validate (some token) now s =
    if is_empty token then (none, s) else validate_found token now s (lookup token s.sessions)

unfoldable pub revoke : String → SessionStore → SessionStore
revoke token s = record s { sessions = erase token s.sessions }

-- A session made under a token that is not empty answers to the token until it expires, and at no
-- later time.
validate-create_iff :
    (owner_id token : String) (now later : ℕ) (s : SessionStore)
    → is_empty token ≡ false
    → let (session, s') = create owner_id token now s in
      ((validate (some token) later s').0 ≡ some session) ↔ (later < now + s.ttl)
unfolding create validate validate_found
validate-create_iff owner_id token now later s h =
    let session : Session = record {
      token = token;
      owner_id = owner_id;
      expires_at = now + s.ttl;
    } in
    let found = lookup-insert_self token session s.sessions in ground arith

-- A revoked token opens nothing, at any time.
pub validate-revoke :
    (token : String) (now : ℕ) (s : SessionStore)
    → (validate (some token) now (revoke token s)).0 ≡ none
unfolding revoke validate validate_found
validate-revoke token now s = let gone = lookup-erase_self token s.sessions in ground arith

-- A token that was refused stays refused: the check itself never opens a session, whatever the clock
-- shows at the second check.
pub validate_refused :
    (token : Option String) (now : ℕ) (later : ℕ) (s : SessionStore)
    → (validate token now s).0 ≡ none
    → now ≤ later
    → (validate token later (validate token now s).1).0 ≡ none
unfolding validate validate_found
validate_refused none now later s h le = refl
validate_refused (some token) now later s h le =
    let gone = lookup-erase_self token s.sessions in
    elim (Option-cases (lookup token s.sessions)) [
      | inl missing ↦ ground (arith, missing)
      | inr (session, found) ↦ ground (arith, found)
    ]
