-- ===== src/Relay/Service/Ports.antt =====
-- What `RelayService` of services/relay/src/relay-service.js is built with, and what it answers. A
-- dependency is given by its answers (nothing when it throws), and by what others do with the store
-- while an answer is awaited.
use pixel_hq_oss.Common.{ℕ, Bool, ◌&&◌, Option, List, Text, text, same_text}
use pixel_hq_oss.Incident.Contract.{matches_identifier}
use pixel_hq_oss.Scheduler.Contract.{Decision, Reason, StartReason}
use pixel_hq_oss.Relay.Request.{WorkerBinding, Owner, worker_binding_ok, has_text, is_source}
use pixel_hq_oss.Relay.Job.{Job}
use pixel_hq_oss.Relay.Store.{StoreOperation}
use pixel_hq_oss.Relay.Action.{Sources, Reservation}
use pixel_hq_oss.Relay.Gateway.Contracts.{GatewayPorts, Disposition}

pub record JobContext : Type 0 where
  pub requester_id : Text
  pub owner : Owner
  pub worker_binding : WorkerBinding
  pub provider_contract : Text
  pub source : Text

-- `validateJobContext(value).ok`
unfoldable pub validate_job_context : JobContext → Bool
unfolding worker_binding_ok
validate_job_context c =
    matches_identifier c.requester_id
    && has_text c.owner.department_ref
    && has_text c.owner.role_ref
    && worker_binding_ok c.worker_binding
    && same_text c.owner.department_ref c.worker_binding.department_ref
    && same_text c.owner.role_ref c.worker_binding.role_ref
    && same_text c.provider_contract (text "pixel.job-context-provider.v1")
    && is_source c.source

-- What the scheduler's `evaluate` answers; `evaluation_shapeless` has no disposition, evaluation or
-- reason code.
pub data EvaluationAnswer : Type 0 where
  evaluated : Decision → Reason → EvaluationAnswer
  evaluation_shapeless : EvaluationAnswer

-- What the scheduler's `reserve` answers: RESERVED with a reservation, any other disposition, or
-- neither.
pub data ReservationAnswer : Type 0 where
  reserved : Reservation → ReservationAnswer
  unreserved : ReservationAnswer
  reservation_shapeless : ReservationAnswer

-- What the scheduler's `confirmExecutionStart` answers, by what the relay reads of it: `confirmed` and
-- the reason code, which is nothing where it is no reason of the contract; `start_shapeless` is
-- `undefined` or `null`.
pub data StartAnswer : Type 0 where
  start_answered : Bool → Option StartReason → StartAnswer
  start_shapeless : StartAnswer

-- The scheduler and the requirement provider; a requirement is the text of its fields.
pub record SchedulerPorts : Type 0 where
  pub resolve_requirement : Job → Option Text
  pub evaluate : Text → Text → Option EvaluationAnswer
  pub during_evaluate : List StoreOperation
  pub reserve : Text → Option ReservationAnswer
  pub confirm : Text → Text → Text → ℕ → Option StartAnswer
  pub during_confirm : List StoreOperation

-- `registry` is what `getSystemsJobBinding` reads from the organization registry, and `hash` that of
-- the texts of a value; `keeps_packages` says that a memory is there that can release packages.
pub record ServicePorts : Type 0 where
  pub environment : Text
  pub sources : Sources
  pub hash : List Text → Text
  pub registry : Option Owner
  pub context_source : Text
  pub resolve_context : Option JobContext
  pub during_context : List StoreOperation
  pub gateway : GatewayPorts
  pub scheduler : Option SchedulerPorts
  pub keeps_packages : Bool

pub data Rejection : Type 0 where
  authority_claimed intent_invalid context_unavailable relay_unavailable : Rejection

-- The reason codes of an admission; `of_unknown` is any other.
pub data HoldReason : Type 0 where
  of_evaluation : Reason → HoldReason
  of_start : StartReason → HoldReason
  of_unknown : HoldReason

-- The `disposition` of an answer, with its reason code.
pub data ServiceDisposition : Type 0 where
  refused : Rejection → ServiceDisposition
  conflict existing_job created relay_out invalid_state : ServiceDisposition
  held : Decision → HoldReason → ServiceDisposition
  executed : Disposition → ServiceDisposition

pub record ServiceReply : Type 0 where
  pub disposition : ServiceDisposition
  pub job : Option Job

-- What `#schedulerAdmit` returns: admitted without a scheduler, or with a reservation and the
-- requirement, or held.
pub data Admission : Type 0 where
  unscheduled : Admission
  admitted : Reservation → Text → Admission
  not_admitted : Decision → HoldReason → Admission

-- What `#schedulerConfirm` returns.
pub data StartGate : Type 0 where
  open_gate : StartGate
  shut_gate : Decision → HoldReason → StartGate
