-- ===== src/Relay/Contract.antt =====
-- packages/contracts/src/job-v1.js: transitions and results of a job, and their validation. A value
-- without the shape of a record, which validation rejects, is no value of the record's type; a state
-- or code outside the constants is likewise left out.
use pixel_hq_oss.Common.{
  ℕ, Bool, true, false, not, ◌&&◌, ◌||◌, Option, none, some, Text, text, same_text, Value, null,
  str, is_text, is_none, is_some, leb, ◌==◌, if◌then◌else◌, length, all_of,
}
use pixel_hq_oss.Incident.Contract.{matches_identifier, is_bounded_text}

-- JOB_STATES
pub data JobState : Type 0 where
  submitted accepted running completed failed : JobState

-- The reason codes of a transition.
pub data TransitionReason : Type 0 where
  job_accepted execution_started execution_completed : TransitionReason
  capability_denied authorization_unavailable : TransitionReason
  worker_failed worker_result_invalid : TransitionReason

-- The outcome codes of a result.
pub data Outcome : Type 0 where
  status_available outcome_denied outcome_unauthorized : Outcome
  worker_unavailable result_invalid : Outcome

-- LEGAL_TRANSITIONS
unfoldable pub is_legal : JobState → JobState → TransitionReason → Bool
is_legal submitted accepted job_accepted = true
is_legal accepted running execution_started = true
is_legal running completed execution_completed = true
is_legal running failed capability_denied = true
is_legal running failed authorization_unavailable = true
is_legal running failed worker_failed = true
is_legal running failed worker_result_invalid = true
is_legal _ _ _ = false

-- RESULT_OUTCOMES
unfoldable pub is_outcome_of : JobState → Outcome → Bool
is_outcome_of completed status_available = true
is_outcome_of failed outcome_denied = true
is_outcome_of failed outcome_unauthorized = true
is_outcome_of failed worker_unavailable = true
is_outcome_of failed result_invalid = true
is_outcome_of _ _ = false

-- `['CAPABILITY_DENIED', 'AUTHORIZATION_UNAVAILABLE'].includes(outcome_code)`
abbrev pub is_denied : Outcome → Bool
is_denied outcome_denied = true
is_denied outcome_unauthorized = true
is_denied _ = false

abbrev pub is_hex_digit : ℕ → Bool
is_hex_digit c = (leb 48 c && leb c 57) || (leb 97 c && leb c 102)

abbrev pub is_zero_digit : ℕ → Bool
is_zero_digit c = c == 48

-- TRACE_ID and SPAN_ID: so many hexadecimal digits, not all of them 0.
abbrev pub is_hex_id : ℕ → Text → Bool
is_hex_id n t = (length t == n) && all_of is_hex_digit t && not (all_of is_zero_digit t)

-- ENVIRONMENTS
abbrev pub is_environment : Text → Bool
is_environment t =
    same_text t (text "dev")
    || same_text t (text "simulation")
    || same_text t (text "shadow")
    || same_text t (text "canary")
    || same_text t (text "production")

abbrev pub nullable_id_ok : Option Text → Bool
nullable_id_ok none = true
nullable_id_ok (some t) = matches_identifier t

abbrev pub is_running : JobState → Bool
is_running running = true
is_running _ = false

abbrev pub is_completed : JobState → Bool
is_completed completed = true
is_completed _ = false

abbrev pub is_failed : JobState → Bool
is_failed failed = true
is_failed _ = false

pub record Transition : Type 0 where
  pub transition_id : Text
  pub job_id : Text
  pub execution_id : Option Text
  pub from_state : JobState
  pub to_state : JobState
  pub reason_code : TransitionReason
  pub environment : Text
  pub trace_id : Text
  pub span_id : Text

-- `validateJobTransitionV1(value).ok`
unfoldable pub validate_transition : Transition → Bool
validate_transition t =
    matches_identifier t.transition_id
    && matches_identifier t.job_id
    && nullable_id_ok t.execution_id
    && is_legal t.from_state t.to_state t.reason_code
    && (if is_running t.to_state || is_running t.from_state
        then is_some t.execution_id
        else is_none t.execution_id)
    && is_environment t.environment
    && is_hex_id 32 t.trace_id
    && is_hex_id 16 t.span_id

-- The provenance of a result, by whether it has the field `model_gateway_contract`.
pub data Provenance : Type 0 where
  of_worker : (contract source : Value) → Provenance
  of_model : (gateway invocation runtime model source : Value) → Provenance

pub record Result : Type 0 where
  pub result_id : Text
  pub job_id : Text
  pub execution_id : Text
  pub state : JobState
  pub outcome_code : Outcome
  pub summary : Text
  pub environment : Text
  pub trace_id : Text
  pub span_id : Text
  pub provenance : Provenance

abbrev pub is_null : Value → Bool
is_null null = true
is_null _ = false

abbrev pub is_id_value : Value → Bool
is_id_value (str t) = matches_identifier t
is_id_value _ = false

-- The checks on the provenance of a result.
unfoldable pub provenance_ok : JobState → Outcome → Provenance → Bool
provenance_ok state outcome (of_model gateway invocation runtime model source) =
    let all_null = is_null runtime && is_null model && is_null source in
    let all_present = not (is_null runtime) && not (is_null model) && not (is_null source) in
    not (is_denied outcome)
    && is_text gateway (text "pixel.model-gateway.v1")
    && is_id_value invocation
    && (all_null
        || (all_present
            && is_id_value runtime
            && is_id_value model
            && is_text source (text "simulator")))
    && (not (is_completed state) || all_present)
provenance_ok state outcome (of_worker contract source) =
    if is_denied outcome
    then is_null contract && is_null source
    else is_text contract (text "pixel.system-status-worker.v1")
      && (is_text source (text "simulator") || is_text source (text "live"))

-- `validateJobResultV1(value).ok`
unfoldable pub validate_result : Result → Bool
unfolding provenance_ok
validate_result r =
    matches_identifier r.result_id
    && matches_identifier r.job_id
    && matches_identifier r.execution_id
    && is_outcome_of r.state r.outcome_code
    && is_bounded_text 160 r.summary
    && is_environment r.environment
    && is_hex_id 32 r.trace_id
    && is_hex_id 16 r.span_id
    && provenance_ok r.state r.outcome_code r.provenance
