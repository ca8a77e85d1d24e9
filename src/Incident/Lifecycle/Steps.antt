-- ===== src/Incident/Lifecycle/Steps.antt =====
-- The effect of the parts that the operations of
-- `IncidentService` (services/incident/src/incident-service.js) share, on the
-- simulator's store.
use pixel_hq_oss.Common.{
  ℕ, ◌≡◌, refl, ap, ◌∙◌, ◌⊎◌, inl, inr, Bool, true, false, Option, none, some, Value, str, null,
  Bool-cases, if◌then◌else◌,
}
use pixel_hq_oss.Time.{TrustedClock, now}
use pixel_hq_oss.Incident.Names.{Incident, open_status}
use pixel_hq_oss.Incident.Contract.{validate_incident}
use pixel_hq_oss.Incident.Port.{
  Reason, incident_invalid, not_found, PutReply, created, updated, op_replay, stale, conflict,
  ambiguous, rejected,
}
use pixel_hq_oss.Incident.Store.{IncidentStore, get, put, simulator_port}
use pixel_hq_oss.Incident.Store.Laws.{IsWrite, PutEffect, put-PutEffect}
use pixel_hq_oss.Incident.Store.History.{IsSound}
use pixel_hq_oss.Incident.Service.{
  EventName, Service, Response, recorded, refused, thrown, refuse, finish, with_clock, settle_first,
  commit, store_record,
}
use pixel_hq_oss.Incident.Operations.{ChangeInput, on_current}
use pixel_hq_oss.Incident.Move.{Move}

-- What an operation may do to the store.
pub data Effect (s t : IncidentStore) : Type 0 where
  same : t ≡ s → Effect s t
  opened :
      (r : Incident) (operation : Value)
      → r.status ≡ open_status
      → r.revision ≡ 1
      → IsWrite r operation s t
      → Effect s t
  moved :
      (i j : Incident) (operation : Value)
      → get s j.incident_id ≡ some i
      → Move i j
      → IsWrite j operation s t
      → Effect s t

-- The simulator never answers AMBIGUOUS, so `#commit` settles the first answer.
settle_first-store :
    (r : Incident) (expected operation : Value) (s t : IncidentStore) (reply : PutReply)
    → PutEffect r operation s reply t
    → ((settle_first simulator_port r expected operation reply t).1 ≡ s)
      ⊎ IsWrite r operation s (settle_first simulator_port r expected operation reply t).1
settle_first-store r expected operation s t (created v) e = inr e.1
settle_first-store r expected operation s t (updated v) e = inr e.1
settle_first-store r expected operation s t (op_replay v) e = inl e.1
settle_first-store r expected operation s t (stale c) e = inl e
settle_first-store r expected operation s t conflict e = inl e
settle_first-store r expected operation s t ambiguous e = absurd e
settle_first-store r expected operation s t (rejected a c) e = inl e

commit-store :
    (r : Incident) (expected operation : Value) (s : IncidentStore)
    → ((commit simulator_port r expected operation s).1 ≡ s)
      ⊎ IsWrite r operation s (commit simulator_port r expected operation s).1
unfolding commit simulator_port
commit-store r expected operation s =
    settle_first-store r expected operation s (put r expected operation s).1
      (put r expected operation s).0 (put-PutEffect r expected operation s)

finish-store :
    (name : EventName) (id : Value) (answer : Response) (service : Service IncidentStore)
    → (finish name id answer service).1.store ≡ service.store
unfolding finish
finish-store name id (recorded r) service = refl
finish-store name id (refused a c) service = refl
finish-store name id thrown service = refl

pub store_record-store :
    (name : EventName) (r : Incident) (expected operation : Value) (service : Service IncidentStore)
    → ((store_record simulator_port name r expected operation service).1.store ≡ service.store)
      ⊎ IsWrite r operation service.store
          (store_record simulator_port name r expected operation service).1.store
unfolding store_record refuse
store_record-store name r expected operation service = elim (Bool-cases (validate_incident r)) [
  | inl e ↦ rw e (
      rw
        (finish-store name r.incident_id
          (commit simulator_port r expected operation service.store).0
          (record service { store = (commit simulator_port r expected operation service.store).1 }))
        (commit-store r expected operation service.store))
  | inr e ↦ rw e (inl refl)
]

pub refuse-Effect :
    (reason : Reason) (r : Option Incident) (id : Value) (service : Service IncidentStore)
    → Effect service.store (refuse reason r id service).1.store
unfolding refuse
refuse-Effect reason r id service = same refl

pub moved-Effect :
    (name : EventName) (i j : Incident) (expected operation : Value)
    (service : Service IncidentStore)
    → get service.store j.incident_id ≡ some i
    → Move i j
    → Effect service.store (store_record simulator_port name j expected operation service).1.store
moved-Effect name i j expected operation service found m =
    elim (store_record-store name j expected operation service) [
      | inl e ↦ same e
      | inr w ↦ moved i j operation found m w
    ]

pub open-Effect :
    (name : EventName) (r : Incident) (expected operation : Value) (service : Service IncidentStore)
    → r.status ≡ open_status
    → r.revision ≡ 1
    → Effect service.store (store_record simulator_port name r expected operation service).1.store
open-Effect name r expected operation service o one =
    elim (store_record-store name r expected operation service) [
      | inl e ↦ same e
      | inr w ↦ opened r operation o one w
    ]

module _ (s : IncidentStore) where
  pub if-Effect :
      (b : Bool) (x y : Response × Service IncidentStore)
      → (b ≡ true → Effect s x.1.store)
      → (b ≡ false → Effect s y.1.store)
      → Effect s (if b then x else y).1.store
  if-Effect true x y h k = h refl
  if-Effect false x y h k = k refl

  pub option-Effect :
      {A : Type 0} (o : Option A) (x : Response × Service IncidentStore)
      (f : A → Response × Service IncidentStore)
      → (o ≡ none → Effect s x.1.store)
      → ((a : A) → o ≡ some a → Effect s (f a).1.store)
      → Effect s
          (elim o as (λ _. Response × Service IncidentStore) [ none ↦ x | some a ↦ f a ]).1.store
  option-Effect none x f h k = h refl
  option-Effect (some a) x f h k = k a refl

pub with_clock-Effect :
    (raw : Option ℕ) (service : Service IncidentStore)
    (body : ℕ → Service IncidentStore → Response × Service IncidentStore)
    → ((t : ℕ) (clock : TrustedClock)
        → Effect service.store (body t (record service { clock = clock })).1.store)
    → Effect service.store (with_clock raw service body).1.store
unfolding with_clock
with_clock-Effect raw service body h =
    let clock' = (now service.clock raw).1 in
    option-Effect service.store (now service.clock raw).0
      (thrown, record service { clock = clock' }) (λ t. body t (record service { clock = clock' }))
      (λ _. same refl) (λ t _. h t clock')

-- The record found under the identifier of an input stands under its own identifier.
get_own :
    (s : IncidentStore) (id : Value) (current : Incident)
    → IsSound s
    → get s id ≡ some current
    → get s current.incident_id ≡ some current
unfolding get
get_own s (str t) current sound found = ap (get s) (sound t current found).0 ∙ found
get_own s _ current sound found = cc

pub on_current-Effect :
    (input? : Option ChangeInput) (service : Service IncidentStore)
    (body : ChangeInput → Incident → Response × Service IncidentStore)
    → IsSound service.store
    → ((input : ChangeInput) (current : Incident)
        → get service.store current.incident_id ≡ some current
        → Effect service.store (body input current).1.store)
    → Effect service.store (on_current simulator_port input? service body).1.store
unfolding on_current simulator_port
on_current-Effect none service body sound h = refuse-Effect incident_invalid none null service
on_current-Effect (some input) service body sound h =
    option-Effect service.store (get service.store input.incident_id)
      (refuse not_found none input.incident_id service) (body input)
      (λ _. refuse-Effect not_found none input.incident_id service)
      (λ current e. h input current (get_own service.store input.incident_id current sound e))
