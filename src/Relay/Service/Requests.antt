-- ===== src/Relay/Service/Requests.antt =====
-- Requests to services/relay/src/relay-service.js, one after the other.
use pixel_hq_oss.Common.{List, [], ◌∷◌, Text}
use pixel_hq_oss.Relay.Contract.{JobState, TransitionReason}
use pixel_hq_oss.Relay.Action.{World, Action}
use pixel_hq_oss.Relay.Action.Keeps.{Keeps}
use pixel_hq_oss.Relay.Intent.{Plain}
use pixel_hq_oss.Relay.Service.Ports.{ServicePorts, ServiceReply}
use pixel_hq_oss.Relay.Service.Accept.{accept}
use pixel_hq_oss.Relay.Service.{execute, submit, attempt_transition}

-- A call of one of the service's methods.
pub data ServiceCall : Type 0 where
  accept_call submit_call : Plain → ServiceCall
  execute_call : Text → ServiceCall
  attempt_call : Text → JobState → TransitionReason → ServiceCall

unfoldable pub handle : ServicePorts → ServiceCall → Action ServiceReply
handle p (accept_call intent) = accept p intent
handle p (submit_call intent) = submit p intent
handle p (execute_call id) = execute p id
handle p (attempt_call id state reason) = attempt_transition p id state reason

-- A caller that goes on when a call throws.
unfoldable pub serve : ServicePorts → List ServiceCall → World → World
unfolding handle
serve p [] w = w
serve p (c ∷ cs) w = serve p cs (handle p c w).1

-- What every method keeps, any requests keep.
pub serve_induction {κ} :
    {P : World → Type κ} (p : ServicePorts)
    → ((c : ServiceCall) → Keeps P (handle p c))
    → (cs : List ServiceCall) (w : World) → P w
    → P (serve p cs w)
unfolding serve
serve_induction p k [] w h = h
serve_induction p k (c ∷ cs) w h = serve_induction p k cs (handle p c w).1 ((k c).at w h)
