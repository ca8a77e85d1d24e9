-- ===== src/Incident/Port.antt =====
-- The interface between the incident service and its store, and the refusal codes of both
-- (services/incident/src/incident-service.js,
-- adapters/simulator/src/incident-store-simulator-adapter.js).
use pixel_hq_oss.Common.{Option, Value}
use pixel_hq_oss.Incident.Names.{Incident}

pub data Reason : Type 0 where
  incident_invalid environmental_fact_unsupported environmental_fact_mismatch not_found : Reason
  invalid_transition same_commander evidence_required risk_required : Reason
  reconciliation_required stale_revision op_conflict : Reason
  record_invalid operation_invalid already_exists : Reason

-- What `put` answers: the dispositions CREATED, UPDATED, OP_REPLAY, STALE_REVISION, OP_CONFLICT,
-- REJECTED and AMBIGUOUS.
pub data PutReply : Type 0 where
  created updated op_replay : Incident → PutReply
  stale : Option Incident → PutReply
  conflict ambiguous : PutReply
  rejected : Reason → Option Incident → PutReply

-- `put value expected_revision operation_id`, `get id` and `readOperation operation_id`.
pub record IncidentStorePort (S : Type 0) : Type 0 where
  pub put : Incident → Value → Value → S → PutReply × S
  pub get : S → Value → Option Incident
  pub read_operation : S → Value → Option Incident
