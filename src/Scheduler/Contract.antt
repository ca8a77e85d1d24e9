-- ===== src/Scheduler/Contract.antt =====
-- packages/contracts/src/scheduler-v1.js: reason codes and their decision classes, reservations and
-- their validation.
use pixel_hq_oss.Common.{
  ℕ, Bool, true, false, ◌&&◌, Option, none, some, Text, text, Value, is_text, is_none, ltb,
  if◌then◌else◌,
}
use pixel_hq_oss.Incident.Contract.{is_identifier, is_bounded_text, revision_ok}

-- DECISION_CLASSES
pub data Decision : Type 0 where
  eligible wait hold deny : Decision

-- REASON_CODES
pub data Reason : Type 0 where
  eligible_now : Reason
  wait_dependency wait_capacity wait_off_duty wait_maintenance wait_holiday wait_night : Reason
  wait_qualification wait_approval wait_not_before : Reason
  hold_security hold_policy hold_owner hold_maintenance : Reason
  deny_authority_missing deny_delegation_invalid deny_environment : Reason
  deny_resource_ineligible deny_company_state deny_workforce deny_input_invalid : Reason

-- `decisionClassForReason`, on a canonical reason
unfoldable pub decision_class_for_reason : Reason → Decision
decision_class_for_reason eligible_now = eligible
decision_class_for_reason wait_dependency = wait
decision_class_for_reason wait_capacity = wait
decision_class_for_reason wait_off_duty = wait
decision_class_for_reason wait_maintenance = wait
decision_class_for_reason wait_holiday = wait
decision_class_for_reason wait_night = wait
decision_class_for_reason wait_qualification = wait
decision_class_for_reason wait_approval = wait
decision_class_for_reason wait_not_before = wait
decision_class_for_reason hold_security = hold
decision_class_for_reason hold_policy = hold
decision_class_for_reason hold_owner = hold
decision_class_for_reason hold_maintenance = hold
decision_class_for_reason deny_authority_missing = deny
decision_class_for_reason deny_delegation_invalid = deny
decision_class_for_reason deny_environment = deny
decision_class_for_reason deny_resource_ineligible = deny
decision_class_for_reason deny_company_state = deny
decision_class_for_reason deny_workforce = deny
decision_class_for_reason deny_input_invalid = deny

-- The canonical reason that a value names.
unfoldable pub reason_of : Value → Option Reason
reason_of v =
    if is_text v (text "ELIGIBLE_NOW")
    then some eligible_now
    else if is_text v (text "WAIT_DEPENDENCY")
    then some wait_dependency
    else if is_text v (text "WAIT_CAPACITY")
    then some wait_capacity
    else if is_text v (text "WAIT_OFF_DUTY")
    then some wait_off_duty
    else if is_text v (text "WAIT_MAINTENANCE")
    then some wait_maintenance
    else if is_text v (text "WAIT_HOLIDAY")
    then some wait_holiday
    else if is_text v (text "WAIT_NIGHT")
    then some wait_night
    else if is_text v (text "WAIT_QUALIFICATION")
    then some wait_qualification
    else if is_text v (text "WAIT_APPROVAL")
    then some wait_approval
    else if is_text v (text "WAIT_NOT_BEFORE")
    then some wait_not_before
    else if is_text v (text "HOLD_SECURITY")
    then some hold_security
    else if is_text v (text "HOLD_POLICY")
    then some hold_policy
    else if is_text v (text "HOLD_OWNER")
    then some hold_owner
    else if is_text v (text "HOLD_MAINTENANCE")
    then some hold_maintenance
    else if is_text v (text "DENY_AUTHORITY_MISSING")
    then some deny_authority_missing
    else if is_text v (text "DENY_DELEGATION_INVALID")
    then some deny_delegation_invalid
    else if is_text v (text "DENY_ENVIRONMENT")
    then some deny_environment
    else if is_text v (text "DENY_RESOURCE_INELIGIBLE")
    then some deny_resource_ineligible
    else if is_text v (text "DENY_COMPANY_STATE")
    then some deny_company_state
    else if is_text v (text "DENY_WORKFORCE")
    then some deny_workforce
    else if is_text v (text "DENY_INPUT_INVALID")
    then some deny_input_invalid
    else none

-- `decisionClassForReason(evalReason) ?? 'DENY'`
abbrev pub class_or_deny : Option Reason → Decision
class_or_deny none = deny
class_or_deny (some r) = decision_class_for_reason r

-- The reasons of a start confirmation: START_CONFIRMED and REJECTION_REASONS.
pub data StartReason : Type 0 where
  start_confirmed : StartReason
  rejected_job_state rejected_reservation rejected_hold rejected_company_state : StartReason
  rejected_duty rejected_capacity rejected_approval rejected_delegation : StartReason
  rejected_environment rejected_authority rejected_resource rejected_not_before : StartReason
  rejected_revision rejected_dependency rejected_workforce rejected_input_invalid : StartReason

-- `decisionClassForConfirmation`
unfoldable pub decision_class_for_confirmation : StartReason → Decision
decision_class_for_confirmation start_confirmed = eligible
decision_class_for_confirmation rejected_job_state = deny
decision_class_for_confirmation rejected_reservation = wait
decision_class_for_confirmation rejected_hold = hold
decision_class_for_confirmation rejected_company_state = wait
decision_class_for_confirmation rejected_duty = wait
decision_class_for_confirmation rejected_capacity = wait
decision_class_for_confirmation rejected_approval = wait
decision_class_for_confirmation rejected_delegation = deny
decision_class_for_confirmation rejected_environment = deny
decision_class_for_confirmation rejected_authority = deny
decision_class_for_confirmation rejected_resource = deny
decision_class_for_confirmation rejected_not_before = wait
decision_class_for_confirmation rejected_revision = wait
decision_class_for_confirmation rejected_dependency = wait
decision_class_for_confirmation rejected_workforce = deny
decision_class_for_confirmation rejected_input_invalid = deny

-- RESERVATION_STATES
pub data ReservationState : Type 0 where
  pending active released expired cancelled : ReservationState

-- A reservation, without its three constant fields.
pub record Reservation : Type 0 where
  pub reservation_id : Text
  pub state : ReservationState
  pub revision : ℕ
  pub created_at : ℕ
  pub updated_at : ℕ
  pub job_id : Text
  pub execution_id : Option Text
  pub resource_ref : Text
  pub eligibility_id : Text
  pub expires_at : Option ℕ

abbrev pub nullable_identifier_ok : Option Text → Bool
nullable_identifier_ok none = true
nullable_identifier_ok (some t) = is_identifier t

-- The checks of `validateReservationV1` that depend on the state.
unfoldable pub expiry_ok : ReservationState → ℕ → Option ℕ → Bool
expiry_ok active created_at none = false
expiry_ok active created_at (some e) = ltb created_at e
expiry_ok pending created_at none = false
expiry_ok pending created_at (some e) = ltb created_at e
expiry_ok released created_at e = is_none e
expiry_ok cancelled created_at e = is_none e
expiry_ok expired created_at e = true

-- `validateReservationV1(value).ok`
unfoldable pub validate_reservation : Reservation → Bool
unfolding expiry_ok
validate_reservation v =
    is_identifier v.reservation_id
    && revision_ok v.revision
    && is_bounded_text 160 v.job_id
    && nullable_identifier_ok v.execution_id
    && is_bounded_text 160 v.resource_ref
    && is_identifier v.eligibility_id
    && expiry_ok v.state v.created_at v.expires_at
