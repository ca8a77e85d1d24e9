-- ===== src/Relay/Service/Examples.antt =====
-- Submissions to services/relay/src/relay-service.js and executions by
-- services/tool-gateway/src/tool-gateway.js, run on concrete ports.
use pixel_hq_oss.Common.{ℕ, zero, suc, true, false, none, some, [], ◌∷◌, Text, text, str}
use pixel_hq_oss.Relay.Request.{WorkerBinding, Owner, SubmitIntent}
use pixel_hq_oss.Relay.Action.{Sources, World}
use pixel_hq_oss.Relay.Gateway.Context.{Grants, coded}
use pixel_hq_oss.Relay.Gateway.Contracts.{GatewayPorts}
use pixel_hq_oss.Relay.Intent.{Plain, leaf, object, Fields, no_fields, field}
use pixel_hq_oss.Relay.Service.Ports.{JobContext, ServicePorts}

abbrev pub trace_id : Text
trace_id = text "0123456789abcdef0123456789abcdef"

abbrev pub span_id : Text
span_id = text "0123456789abcdef"

abbrev pub some_hash : Text
some_hash = text "44136fa355b3678a1146ad16f7e8649e94fb4fc21fe77e8310c060f61caaff8a"

-- Job identifiers that grow.
abbrev pub letters : ℕ → Text
letters zero = b'j' ∷ []
letters (suc n) = b'j' ∷ letters n

abbrev pub sources : Sources
sources = record {
  event_id = λ n. text "event.1";
  job_id = letters;
  execution_id = λ n. text "exec.1";
  span_id = λ n. span_id;
  trace_id = λ n. trace_id;
  clock = λ n. text "2026-01-01T00:00:00.000Z";
}

abbrev pub systems : Owner
systems = record { department_ref = text "Infrastructure / HomeLab"; role_ref = text "Systems" }

abbrev pub worker : WorkerBinding
worker = record {
  worker_id = text "worker.1";
  department_ref = text "Infrastructure / HomeLab";
  role_ref = text "Systems";
}

abbrev pub context : JobContext
context = record {
  requester_id = text "user.1";
  owner = systems;
  worker_binding = worker;
  provider_contract = text "pixel.job-context-provider.v1";
  source = text "simulator";
}

abbrev pub grants : Grants
grants = record {
  capabilities = text "pixel.system-status.read" ∷ [];
  policy_id = text "policy.1";
  provider_contract = text "pixel.capability-grant-provider.v1";
  source = text "simulator";
}

abbrev pub gateway : GatewayPorts
gateway = record {
  environment = text "dev";
  sources = sources;
  grant_source = text "simulator";
  resolve_capabilities = λ c. some grants;
  during_resolve = [];
  worker_source = text "simulator";
  worker_execute = λ q. some (coded (str (text "SYSTEM_STATUS_AVAILABLE")));
  during_worker = [];
  claim_fails = false;
  commit_fails = false;
}

abbrev pub ports : ServicePorts
ports = record {
  environment = text "dev";
  sources = sources;
  hash = λ ts. some_hash;
  registry = some systems;
  context_source = text "simulator";
  resolve_context = some context;
  during_context = [];
  gateway = gateway;
  scheduler = none;
  keeps_packages = true;
}

abbrev pub empty_world : World
empty_world = record {
  store = record { jobs = []; namespaces = [] };
  issued = 0;
  evidence = [];
  calls = [];
  reservations = [];
}

abbrev pub fields_of : Text → Fields → Fields
fields_of capability rest =
    field (text "event_name") (leaf (str (text "pixel.job.submit-intent.v1"))) (
      field (text "schema_version") (leaf (str (text "1.0.0"))) (
        field (text "idempotency_key") (leaf (str (text "key.1"))) (
          field (text "job_type") (leaf (str (text "system-status")))
            (field (text "requested_capability") (leaf (str capability)) rest))))

abbrev pub submission : Plain
submission = object (fields_of (text "pixel.system-status.read") no_fields)

abbrev pub intent : SubmitIntent
intent = record {
  idempotency_key = text "key.1";
  job_type = text "system-status";
  requested_capability = text "pixel.system-status.read";
}

-- A role, under a key of the submission's own.
abbrev pub claiming : Plain
claiming = object (
    fields_of (text "pixel.system-status.read") (
      field (text "extra") (object (field (text "Worker_ID") (leaf (str (text "w"))) no_fields))
        no_fields))
