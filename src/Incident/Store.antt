-- ===== src/Incident/Store.antt =====
-- adapters/simulator/src/incident-store-simulator-adapter.js. The argument `kind`, always
-- 'incident' in the source, is left out; copies and freezing do not show in a value model.
pub mod Keys
pub mod Laws
pub mod History
use mathlib.Core.Logic.{ite}
use native.Mathlib.Decide.{ℕ_discrete}
use pixel_hq_oss.Common.{
  ℕ, suc, ◌+◌, Bool, true, false, not, ◌&&◌, ◌||◌, Option, none, some, List, [], ◌∷◌, ◌++◌, Text,
  text, same_text, starts_with, utf16_length, Value, undefined, null, str, num, other,
  Value-discrete, is_some, all_of, leb, ◌==◌, if◌then◌else◌,
}
use pixel_hq_oss.Common.Dict.{Dict, lookup, insert}
use pixel_hq_oss.Incident.Names.{Incident, IncidentStatus, CommandTransfer}
use pixel_hq_oss.Incident.Contract.{is_alphanumeric, validate_incident}
use pixel_hq_oss.Incident.Port.{
  Reason, already_exists, operation_invalid, record_invalid, PutReply, created, updated, op_replay,
  stale, conflict, rejected, IncidentStorePort,
}

-- `#incidents` and `#operations`.
pub record IncidentStore : Type 0 where
  pub incidents : Dict Incident
  pub operations : Dict Incident

abbrev pub new_store : IncidentStore
new_store = record { incidents = []; operations = [] }

-- `stableStringify(previous) === stableStringify(value)`: on validated records the two texts are
-- equal exactly when the records are.
unfoldable pub CommandTransfer-discrete : Discrete CommandTransfer
CommandTransfer-discrete = hlevel (ℕ_discrete, Value-discrete)

unfoldable pub Incident-discrete : Discrete Incident
Incident-discrete = hlevel (ℕ_discrete, Value-discrete, CommandTransfer-discrete)

unfoldable pub same_incident : Incident → Incident → Bool
same_incident a b = ite (Incident-discrete a b) true false

-- `OPERATION_ID`, which has no colon.
abbrev pub is_operation_char : ℕ → Bool
is_operation_char c = is_alphanumeric c || c == b'.' || c == b'_' || c == b'-'

unfoldable pub matches_operation_id : Text → Bool
matches_operation_id [] = false
matches_operation_id (c ∷ cs) = is_alphanumeric c && all_of is_operation_char cs

unfoldable pub is_operation_id : Text → Bool
is_operation_id op = leb (utf16_length op) 160 && matches_operation_id op

abbrev pub separator : Text
separator = text "::incident::"

-- `#operationKey`
unfoldable pub operation_key : Text → Text → Text
operation_key operation_id incident_id = operation_id ++ (separator ++ incident_id)

-- `expectedRevision` admits the write; `undefined` takes the default `null`.
unfoldable pub revision_admits : Value → Option Incident → ℕ → Bool
revision_admits null current r = not (is_some current) && r == 1
revision_admits undefined current r = not (is_some current) && r == 1
revision_admits (num n) (some current) r = current.revision == n && r == n + 1
revision_admits _ _ r = false

unfoldable pub revision_refusal : Value → Option Incident → PutReply
revision_refusal null current = rejected already_exists current
revision_refusal undefined current = rejected already_exists current
revision_refusal _ current = stale current

abbrev pub written : Option Incident → Incident → PutReply
written none value = created value
written (some _) value = updated value

-- The part of `put` on a validated record with its identifiers, by what `#operations` holds.
unfoldable pub put_checked :
    Option Incident → Text → Text → Incident → Value → IncidentStore → PutReply × IncidentStore
put_checked (some previous) op id value expected store =
    (if same_incident previous value then op_replay previous else conflict, store)
put_checked none op id value expected store =
    let current = lookup id store.incidents in
    if revision_admits expected current value.revision
    then (
      written current value,
      record store {
        incidents = insert id value store.incidents;
        operations = insert (operation_key op id) value store.operations;
      },
    )
    else (revision_refusal expected current, store)

abbrev pub put_operation :
    Value → Text → Incident → Value → IncidentStore → PutReply × IncidentStore
put_operation (str op) id value expected store =
    if is_operation_id op
    then put_checked (lookup (operation_key op id) store.operations) op id value expected store
    else (rejected operation_invalid none, store)
put_operation _ id value expected store = (rejected operation_invalid none, store)

abbrev pub put_identified :
    Value → Incident → Value → Value → IncidentStore → PutReply × IncidentStore
put_identified (str (c ∷ cs)) value expected operation_id store =
    if validate_incident value
    then put_operation operation_id (c ∷ cs) value expected store
    else (rejected record_invalid none, store)
put_identified _ value expected operation_id store = (rejected record_invalid none, store)

-- `put`
unfoldable pub put : Incident → Value → Value → IncidentStore → PutReply × IncidentStore
put value expected operation_id store =
    put_identified value.incident_id value expected operation_id store

-- `get`
unfoldable pub get : IncidentStore → Value → Option Incident
get store (str id) = lookup id store.incidents
get store _ = none

-- The loop of `readOperation`.
unfoldable pub find_prefixed : Text → Dict Incident → Option Incident
find_prefixed prefix [] = none
find_prefixed prefix ((key, value) ∷ rest) =
    if starts_with key prefix then some value else find_prefixed prefix rest

-- `readOperation`
unfoldable pub read_operation : IncidentStore → Value → Option Incident
unfolding find_prefixed
read_operation store (str op) = find_prefixed (op ++ separator) store.operations
read_operation store _ = none

unfoldable pub simulator_port : IncidentStorePort IncidentStore
simulator_port = record { put = put; get = get; read_operation = read_operation }
