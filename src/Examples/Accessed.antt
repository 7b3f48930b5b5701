-- ===== src/Examples/Accessed.antt =====
-- The private interface's checks on one caller.
use aurelix.Access.Capabilities.{capability_eq, Identity, active}
use aurelix.Access.Requests.{ApprovalRequest, pending}

abbrev owner : Identity
owner = record { id = "owner"; role = "owner"; status = active }

abbrev request : ApprovalRequest
request = record {
  id = "q";
  subject_id = "s";
  action = "deploy";
  requester_id = "agent";
  created_at = 0;
  expires_at = 100;
  status = pending;
}
