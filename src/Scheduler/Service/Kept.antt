-- ===== src/Scheduler/Service/Kept.antt =====
-- Eviction by `#recordIssuance` of services/scheduler/src/scheduler-service.js.
use pixel_hq_oss.Common.Dict.{Dict}
