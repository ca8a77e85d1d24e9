-- ===== src/Relay/Service/Created.antt =====
-- A valid submission to services/relay/src/relay-service.js is accepted.
use pixel_hq_oss.Common.{
  ℕ, ◌+◌, ◌≡◌, refl, true, false, Option, none, some, List, [], ◌∷◌, ◌++◌, arith, Text, text,
  same_text_refl,
}
use pixel_hq_oss.Common.Dict.{lookup, insert, lookup-insert_self}
use pixel_hq_oss.Incident.Contract.{matches_identifier}
use pixel_hq_oss.Relay.Contract.{
  submitted, accepted, job_accepted, Transition, validate_transition, is_legal, is_hex_id,
  is_environment,
}
use pixel_hq_oss.Relay.Request.{
  is_hash, Envelope, validate_envelope, execution_ok, SubmitIntent, validate_intent,
}
use pixel_hq_oss.Relay.Job.{Job}
use pixel_hq_oss.Relay.Methods.{applied, new_job, admits_transition, apply_transition}
use pixel_hq_oss.Relay.Calls.{on_job, transition_call}
use pixel_hq_oss.Relay.Store.{RelayStore, claimed, is_empty, claim_or_return_existing, call}
use pixel_hq_oss.Relay.Action.{
  Ended, returned, World, ◌>>=◌, pure, assert, next, append, get_job, store_call, store_claim,
}
use pixel_hq_oss.Relay.Gateway.Open.{await_none}
use pixel_hq_oss.Relay.Intent.{Plain, authority_categories, is_empty_list, intent_of}
use pixel_hq_oss.Relay.Service.Ports.{
  JobContext, validate_job_context, ServicePorts, created, ServiceReply,
}
use pixel_hq_oss.Relay.Service.Accept.{
  report, usable_context, execution_of, fingerprint_of, namespace_of, envelope_of, move_of,
  accept_created, accept_claimed, accept_context, accept_intent, accept_received, accept,
}
use pixel_hq_oss.Relay.Service.Ends.{AreReady}

-- The other sources of the service have the contract's form, and no one uses the store while the
-- context is resolved.
pub record AreFormed (p : ServicePorts) : Type 0 where
  pub ready : AreReady p
  pub traces : (n : ℕ) → is_hex_id 32 (p.sources.trace_id n) ≡ true
  pub jobs : (n : ℕ) → matches_identifier (p.sources.job_id n) ≡ true
  pub hashes : (ts : List Text) → is_hash (p.hash ts) ≡ true
  pub environment : is_environment p.environment ≡ true
  pub quiet_context : p.during_context ≡ []

pub usable_context-valid :
    (p : ServicePorts) (o : Option JobContext) (c : JobContext)
    → usable_context p o ≡ some c
    → validate_job_context c ≡ true
unfolding usable_context
usable_context-valid p none c e = absurd (ground arith)
usable_context-valid p (some b) c e = ground arith

unfoldable pub accepted_job : Transition → Job → Job
accepted_job t job = record job {
  transitions = job.transitions ++ (t ∷ []);
  current_state = accepted;
  revision = job.revision + 1;
}

hash_named : (t : Text) → is_hash t ≡ true → is_empty t ≡ false
hash_named [] e = absurd (ground arith)
hash_named (c ∷ cs) e = refl

-- The answer is a new ACCEPTED job with the envelope, which the store has.
pub record Creates (v : Envelope) (x : Ended ServiceReply × World) : Type 0 where
  pub transition : Transition
  pub answered :
      x.0
      ≡ returned
          (record { disposition = created; job = some (accepted_job transition (new_job v)) })
  pub stored : lookup v.job_id x.1.store.jobs ≡ some (accepted_job transition (new_job v))

module _ (p : ServicePorts) (formed : AreFormed p) (i : SubmitIntent) (c : JobContext)
    (intended : validate_intent i ≡ true) (known : validate_job_context c ≡ true) where
  pub envelope_valid :
      (n m k : ℕ)
      → validate_envelope
          (envelope_of p (p.sources.job_id n) (p.sources.trace_id m) (p.sources.span_id k) i c)
        ≡ true
  unfolding validate_envelope envelope_of execution_of execution_ok validate_intent
      validate_job_context fingerprint_of
  envelope_valid n m k = ground (
    arith,
    intended,
    known,
    formed.environment,
    formed.traces m,
    formed.ready.ids.spans k,
    formed.jobs n,
    same_text_refl i.requested_capability,
    formed.hashes [],
    same_text_refl (text "pixel.system-status"),
    same_text_refl (text "pixel.platform"),
    formed.hashes (
        c.requester_id
        ∷ p.environment
        ∷ c.owner.department_ref
        ∷ c.owner.role_ref
        ∷ i.job_type
        ∷ i.requested_capability
        ∷ text "pixel.system-status"
        ∷ text "pixel.platform"
        ∷ p.hash []
        ∷ []),
  )

  claim-created :
      (v : Envelope) (store : RelayStore)
      → validate_envelope v ≡ true
      → v.fingerprint ≡ fingerprint_of p i c
      → lookup (namespace_of p i c) store.namespaces ≡ none
      → claim_or_return_existing (namespace_of p i c) (fingerprint_of p i c) v store ≡ (
        claimed (new_job v),
        record {
          jobs = insert v.job_id (new_job v) store.jobs;
          namespaces = insert (namespace_of p i c) v.job_id store.namespaces;
        },
      )
  unfolding claim_or_return_existing namespace_of
  claim-created v store valid e free =
      rw
        (
          hash_named (namespace_of p i c)
              (formed.hashes (c.requester_id ∷ p.environment ∷ i.idempotency_key ∷ [])),
          valid,
          e,
          same_text_refl (fingerprint_of p i c),
          free,
        )
        refl

  accept_move_valid :
      (n m k l : ℕ)
      → validate_transition (
          move_of p
            (p.sources.event_id n)
            (p.sources.span_id m)
            (p.sources.job_id k)
            (p.sources.trace_id l)
            none
            submitted
            accepted
            job_accepted)
        ≡ true
  unfolding validate_transition is_legal
  accept_move_valid n m k l = ground (
    arith,
    formed.ready.ids.events n,
    formed.ready.ids.spans m,
    formed.jobs k,
    formed.traces l,
    formed.environment,
  )

  call-accept :
      (v : Envelope) (t : Transition) (store : RelayStore)
      → lookup v.job_id store.jobs ≡ some (new_job v)
      → validate_transition t ≡ true
      → t.job_id ≡ v.job_id
      → t.trace_id ≡ v.trace_id
      → t.environment ≡ v.environment
      → t.from_state ≡ submitted
      → t.to_state ≡ accepted
      → t.execution_id ≡ none
      → call v.job_id (transition_call t) store
        ≡ (applied, record store { jobs = insert v.job_id (accepted_job t (new_job v)) store.jobs })
  unfolding call on_job apply_transition admits_transition new_job accepted_job
  call-accept v t store found valid a b d from to free =
      rw (found, valid)
        (ground (
          arith,
          a,
          b,
          d,
          from,
          to,
          free,
          same_text_refl v.job_id,
          same_text_refl v.trace_id,
          same_text_refl v.environment,
        ))

  accept_created-Creates :
      (k l : ℕ) (root : Text) (w : World)
      → let v = envelope_of p (p.sources.job_id k) (p.sources.trace_id l) root i c in
        lookup v.job_id w.store.jobs ≡ some (new_job v)
        → Creates v (accept_created p v (p.sources.trace_id l) root w)
  unfolding accept_created ◌>>=◌ next assert pure store_call get_job report append envelope_of
  accept_created-Creates k l root w found =
      let n = w.issued in
      let v = envelope_of p (p.sources.job_id k) (p.sources.trace_id l) root i c in
      let t =
        move_of p (p.sources.event_id (n + 1)) (p.sources.span_id n) (p.sources.job_id k)
          (p.sources.trace_id l) none submitted accepted job_accepted in
      let valid = accept_move_valid (n + 1) n k l in
      let stored = lookup-insert_self v.job_id (accepted_job t (new_job v)) w.store.jobs in
      rw (valid, call-accept v t w.store found valid refl refl refl refl refl refl)
        (record { transition = t; answered = rw stored refl; stored = stored })

  accept_context-Creates :
      (l m : ℕ) (w : World)
      → lookup (namespace_of p i c) w.store.namespaces ≡ none
      → Creates
          (envelope_of p
            (p.sources.job_id w.issued)
            (p.sources.trace_id l)
            (p.sources.span_id m)
            i
            c)
          (accept_context p (some c) i (p.sources.trace_id l) (p.sources.span_id m) w)
  unfolding accept_context ◌>>=◌ next assert pure store_claim accept_claimed
  accept_context-Creates l m w free =
      let v =
        envelope_of p (p.sources.job_id w.issued) (p.sources.trace_id l) (p.sources.span_id m) i
          c in
      let valid = envelope_valid w.issued l m in
      rw (valid, claim-created v w.store valid (unfold envelope_of in refl) free)
        (accept_created-Creates w.issued l (p.sources.span_id m) _
          (lookup-insert_self v.job_id (new_job v) w.store.jobs))

  accept_intent-Creates :
      (l m : ℕ) (w : World)
      → usable_context p p.resolve_context ≡ some c
      → lookup (namespace_of p i c) w.store.namespaces ≡ none
      → Creates
          (envelope_of p
            (p.sources.job_id w.issued)
            (p.sources.trace_id l)
            (p.sources.span_id m)
            i
            c)
          (accept_intent p (some i) (p.sources.trace_id l) (p.sources.span_id m) w)
  unfolding accept_intent ◌>>=◌
  accept_intent-Creates l m w usable free =
      rw (await_none p.during_context w formed.quiet_context, usable)
        (accept_context-Creates l m w free)

  pub accept-Creates :
      (intent : Plain) (w : World)
      → is_empty_list (authority_categories intent []) ≡ true
      → intent_of intent ≡ some i
      → usable_context p p.resolve_context ≡ some c
      → lookup (namespace_of p i c) w.store.namespaces ≡ none
      → Creates
          (envelope_of p
            (p.sources.job_id (w.issued + 1 + 1))
            (p.sources.trace_id w.issued)
            (p.sources.span_id (w.issued + 1))
            i
            c)
          (accept p intent w)
  unfolding accept accept_received ◌>>=◌ next report append
  accept-Creates intent w unclaimed read usable free =
      rw (unclaimed, read) (accept_intent-Creates w.issued (w.issued + 1) _ usable free)
