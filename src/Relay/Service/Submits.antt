-- ===== src/Relay/Service/Submits.antt =====
-- A valid submission to services/relay/src/relay-service.js, to the end of its job.
use pixel_hq_oss.Relay.Job.{Job}
use pixel_hq_oss.Relay.Action.{Action}
