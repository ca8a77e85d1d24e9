-- ===== src/Incident/Examples.antt =====
-- The life of one incident in services/incident/src/incident-service.js.
mod State
use mathlib.Core.Option
use pixel_hq_oss.Common.{
  length, ◌+◌, ◌++◌, ℕ, ◌≡◌, refl, ◌≢◌, ◌⊎◌, inl, inr, true, false, Option, none, some, List, [],
  ◌∷◌, arith, Text, text, Value, null, undefined, str, num, same_value,
}
use pixel_hq_oss.Common.Dict.{lookup}
use pixel_hq_oss.Time.{TrustedClock, create_trusted_clock}
use pixel_hq_oss.Incident.Names.{
  Incident, contain, preserve_evidence, post_incident_review, phase_index,
}
use pixel_hq_oss.Incident.Contract.{validate_incident}
use pixel_hq_oss.Incident.Store.{IncidentStore, new_store, put, get, read_operation}
use pixel_hq_oss.Incident.Service.{Service, recorded, refused, commit}
use pixel_hq_oss.Incident.Operations.{CreateInput, ChangeInput, new_incident, advanced, transferred}
use pixel_hq_oss.Incident.Ambiguity.{
  FaultyStore, deliver, lose_request, lose_answer, faulty_port, AtMostOnce, commit-AtMostOnce,
  lost_conflict-recorded,
}
use pixel_hq_oss.Incident.Move.{Moves, here, next, advance, IsLater, Moves-IsLater}
use pixel_hq_oss.Incident.Port.{op_conflict, created as created_reply, op_replay}
use pixel_hq_oss.Incident.CompanyState.{derived_company_state}
use pixel_hq_oss.Incident.CompanyState.Order.{
  rank, worst_rank, derived_company_state-rank, derived_company_state-append_comm,
}
use pixel_hq_oss.Incident.Command.{transferred-valid}
use pixel_hq_oss.Incident.Store.Keys.{operation_key_injective}
use pixel_hq_oss.Incident.Store.Laws.{revision_of, PutEffect, put-PutEffect, put-replays}
use pixel_hq_oss.Incident.Store.History.{
  PutCall, run_puts, writes, run_puts-revision, IsSound, new_store-IsSound,
}
use pixel_hq_oss.Incident.Lifecycle.Commands.{
  Command, create, acknowledge, advance as advance_call, transfer, resolve, close, review, run,
  run-IsSound, run-Moves,
}

abbrev first_input : CreateInput
first_input = record {
  incident_id = str (text "inc-1");
  operation_id = str (text "op-0");
  incident_class = undefined;
  environmental_fact = str (text "Rack PDU lost UPS feed");
  severity = str (text "SEV-1");
  commander_ref = str (text "worker.alpha");
  source_ref = str (text "sensor.1");
  summary_code = str (text "POWER_LOSS");
  affected_resource_refs = some (str (text "rack.1") ∷ str (text "rack.1") ∷ num 3 ∷ []);
  affected_job_refs = none;
  evidence_refs = none;
}

-- The input of a change with expected revision `n`, operation `op` and phase or risk `word`.
abbrev change_input : ℕ → Text → Text → ChangeInput
change_input n op word = record {
  incident_id = str (text "inc-1");
  operation_id = str op;
  expected_revision = num n;
  phase = str word;
  new_commander_ref = str (text "worker.beta");
  reason_code = str (text "HANDOVER");
  actor_ref = str (text "owner.1");
  evidence_refs = some (str (text "ev.1") ∷ []);
  remaining_risk_code = str word;
}

abbrev whole_life : List Command
whole_life =
    create (some first_input) (some 1000)
    ∷ acknowledge (some (change_input 1 (text "op-1") (text ""))) (some 900)
    ∷ advance_call (some (change_input 2 (text "op-2") (text "DIAGNOSE")))
    ∷ advance_call (some (change_input 2 (text "op-2") (text "CONTAIN")))
    ∷ advance_call (some (change_input 3 (text "op-3") (text "PRESERVE_EVIDENCE")))
    ∷ transfer (some (change_input 4 (text "op-4") (text ""))) (some 1100)
    ∷ advance_call (some (change_input 5 (text "op-5") (text "DIAGNOSE")))
    ∷ advance_call (some (change_input 6 (text "op-6") (text "REMEDIATE")))
    ∷ advance_call (some (change_input 7 (text "op-7") (text "RECOVER")))
    ∷ advance_call (some (change_input 8 (text "op-8") (text "VERIFY")))
    ∷ resolve (some (change_input 9 (text "op-9") (text ""))) (some 1200)
    ∷ close (some (change_input 10 (text "op-10") (text "LOW_RISK"))) (some 1300)
    ∷ review (some (change_input 11 (text "op-11") (text "")))
    ∷ []

-- All of the code of the component, for tests that run it.
incident_code : Unit {0}
unfolding run pixel_hq_oss.Common.Dict.lookup pixel_hq_oss.Common.Dict.insert
    pixel_hq_oss.Incident.Operations.create_incident pixel_hq_oss.Incident.Service.with_clock
    pixel_hq_oss.Time.now pixel_hq_oss.Incident.Operations.choose_class
    pixel_hq_oss.Incident.Environment.normalize_environmental_fact pixel_hq_oss.Common.utf16_length
    pixel_hq_oss.Common.same_text pixel_hq_oss.Incident.Service.store_record
    pixel_hq_oss.Incident.Contract.validate_incident pixel_hq_oss.Incident.Contract.identifier_ok
    pixel_hq_oss.Incident.Contract.is_identifier pixel_hq_oss.Incident.Contract.matches_identifier
    pixel_hq_oss.Incident.Names.incident_class_of pixel_hq_oss.Incident.Names.severity_of
    pixel_hq_oss.Incident.Names.derived_impact_code pixel_hq_oss.Common.add_to_set
    pixel_hq_oss.Common.contains pixel_hq_oss.Common.starts_with pixel_hq_oss.Common.union_of
    pixel_hq_oss.Common.same_value pixel_hq_oss.Incident.Closing.close_incident
    pixel_hq_oss.Incident.Closing.post_incident_review_record
    pixel_hq_oss.Incident.Closing.resolve_incident pixel_hq_oss.Incident.Closing.transfer_command
    pixel_hq_oss.Incident.Contract.bounded_ref_array_ok pixel_hq_oss.Incident.Contract.chain_ok
    pixel_hq_oss.Incident.Contract.command_ok pixel_hq_oss.Incident.Contract.ends_at
    pixel_hq_oss.Incident.Contract.identity_ok pixel_hq_oss.Incident.Contract.is_bounded_text
    pixel_hq_oss.Incident.Contract.progress_ok pixel_hq_oss.Incident.Contract.refs_ok
    pixel_hq_oss.Incident.Contract.status_ok pixel_hq_oss.Incident.Contract.validate_transfer
    pixel_hq_oss.Incident.Environment.begins_with pixel_hq_oss.Incident.Environment.class_of_tokens
    pixel_hq_oss.Incident.Environment.environmental_tokens
    pixel_hq_oss.Incident.Environment.has_environmental_keyword
    pixel_hq_oss.Incident.Environment.lower pixel_hq_oss.Incident.Environment.split_tokens
    pixel_hq_oss.Incident.Lifecycle.Commands.apply pixel_hq_oss.Incident.Names.phase_index
    pixel_hq_oss.Incident.Names.phase_of pixel_hq_oss.Incident.Names.severity_impact
    pixel_hq_oss.Incident.Operations.acknowledge_incident
    pixel_hq_oss.Incident.Operations.acknowledged pixel_hq_oss.Incident.Operations.advance_phase
    pixel_hq_oss.Incident.Operations.advanced pixel_hq_oss.Incident.Operations.closed_at_time
    pixel_hq_oss.Incident.Operations.on_current pixel_hq_oss.Incident.Operations.resolved_at_time
    pixel_hq_oss.Incident.Operations.reviewed pixel_hq_oss.Incident.Operations.transferred
    pixel_hq_oss.Incident.Operations.new_incident pixel_hq_oss.Incident.Service.bounded_id
    pixel_hq_oss.Incident.Service.bounded_ref_array pixel_hq_oss.Incident.Service.bounded_refs_from
    pixel_hq_oss.Incident.Service.class_text pixel_hq_oss.Incident.Service.commit
    pixel_hq_oss.Incident.Service.finish pixel_hq_oss.Incident.Service.merged_evidence
    pixel_hq_oss.Incident.Service.reconcile pixel_hq_oss.Incident.Service.recovery_state
    pixel_hq_oss.Incident.Service.refuse pixel_hq_oss.Incident.Service.reread
    pixel_hq_oss.Incident.Service.retry pixel_hq_oss.Incident.Service.settle
    pixel_hq_oss.Incident.Store.find_prefixed pixel_hq_oss.Incident.Store.get
    pixel_hq_oss.Incident.Store.is_operation_id pixel_hq_oss.Incident.Store.matches_operation_id
    pixel_hq_oss.Incident.Store.operation_key pixel_hq_oss.Incident.Store.put
    pixel_hq_oss.Incident.Store.put_checked pixel_hq_oss.Incident.Store.read_operation
    pixel_hq_oss.Incident.Store.revision_admits pixel_hq_oss.Incident.Store.revision_refusal
    pixel_hq_oss.Incident.Store.same_incident pixel_hq_oss.Incident.Store.Incident-discrete
    pixel_hq_oss.Incident.Store.CommandTransfer-discrete pixel_hq_oss.Incident.Store.simulator_port
    pixel_hq_oss.Common.Value-discrete native.Mathlib.Decide.ℕ_discrete
incident_code = tt

abbrev start : Service IncidentStore
start = record { store = new_store; clock = create_trusted_clock; evidence = [] }

-- The service once the incident is there, and the incident.
abbrev created : Service IncidentStore
created = run start (create (some first_input) (some 1000) ∷ [])

abbrev first_incident : Incident
first_incident = new_incident first_input (text "POWER") 1000

first_incident_stored : lookup (text "inc-1") created.store.incidents ≡ some first_incident
unfolding incident_code
first_incident_stored = refl

-- The thirteen calls close and review the incident at revision 12; one skipped a phase and was refused.
whole_life_reviewed :
    let incident = lookup (text "inc-1") (run start whole_life).store.incidents in
    (Option.map (λ (i : Incident). i.revision) incident ≡ some 12)
    × (Option.map (λ (i : Incident). i.response_phase) incident ≡ some post_incident_review)
    × (length (run start whole_life).evidence ≡ 13)
unfolding incident_code
whole_life_reviewed = (refl, refl, refl)

run-Moves_example :
    (j : Incident) × (lookup (text "inc-1") (run created whole_life).store.incidents ≡ some j)
    × Moves first_incident j
run-Moves_example =
    run-Moves created whole_life (text "inc-1") first_incident
      (run-IsSound start (create (some first_input) (some 1000) ∷ []) new_store-IsSound)
      first_incident_stored

run-IsSound_example : IsSound (run start whole_life).store
run-IsSound_example = run-IsSound start whole_life new_store-IsSound

abbrev diagnosed : Incident
diagnosed = advanced (advanced first_incident contain) preserve_evidence

Moves-IsLater_example : IsLater first_incident diagnosed
unfolding phase_index new_incident advanced
Moves-IsLater_example = Moves-IsLater {i = first_incident} {j = diagnosed} (
    next {j = advanced first_incident contain} (next here (advance contain refl refl refl))
      (advance preserve_evidence refl refl refl))

abbrev lossy : FaultyStore
lossy = record { store = new_store; faults = lose_answer ∷ lose_request ∷ [] }

commit-AtMostOnce_example :
    AtMostOnce first_incident
      (str (text "op-0"))
      new_store
      (commit faulty_port first_incident null (str (text "op-0")) lossy).1.store
commit-AtMostOnce_example = commit-AtMostOnce first_incident null (str (text "op-0")) lossy

abbrev other_incident : Incident
other_incident = new_incident first_input (text "THERMAL") 1000

other_incident_differs : other_incident ≢ first_incident
unfolding incident_code
other_incident_differs e = cc

lost_conflict-recorded_example :
    let t = (put first_incident null (str (text "op-0")) new_store).1 in
    ((commit faulty_port other_incident null
        (str (text "op-0"))
        (record { store = t; faults = deliver ∷ [] })).0
      ≡ refused op_conflict none)
    × (commit faulty_port other_incident null
          (str (text "op-0"))
          (record { store = t; faults = lose_request ∷ [] })
        ≡ (recorded first_incident, record { store = t; faults = [] }))
    × (get t other_incident.incident_id ≡ some first_incident)
    × (get t other_incident.incident_id ≢ some other_incident)
unfolding incident_code
lost_conflict-recorded_example =
    lost_conflict-recorded other_incident first_incident null null (str (text "op-0")) new_store []
      refl refl other_incident_differs refl refl

put-PutEffect_example :
    PutEffect first_incident
      (str (text "op-0"))
      new_store
      (created_reply first_incident)
      (put first_incident null (str (text "op-0")) new_store).1
unfolding incident_code
put-PutEffect_example = put-PutEffect first_incident null (str (text "op-0")) new_store

put-replays_example :
    let t = (put first_incident null (str (text "op-0")) new_store).1 in
    put first_incident (num 7) (str (text "op-0")) t ≡ (op_replay first_incident, t)
unfolding incident_code
put-replays_example = put-replays first_incident null (num 7) (str (text "op-0")) new_store refl

abbrev two_calls : List PutCall
two_calls =
    record { value = first_incident; expected = null; operation = str (text "op-0") }
    ∷ record { value = first_incident; expected = null; operation = str (text "op-0") }
    ∷ record {
      value = advanced first_incident contain;
      expected = num 1;
      operation = str (text "op-1");
    }
    ∷ []

run_puts-revision_example :
    revision_of (lookup (text "inc-1") (run_puts new_store two_calls).incidents)
    ≡ revision_of (lookup (text "inc-1") new_store.incidents)
      + writes (text "inc-1") new_store two_calls
run_puts-revision_example = run_puts-revision (text "inc-1") new_store two_calls

two_writes : writes (text "inc-1") new_store two_calls ≡ 2
unfolding incident_code writes
two_writes = refl

operation_key_injective_example : (text "op-1" ≡ text "op-1") × (text "inc-1" ≡ text "inc-1")
unfolding incident_code
operation_key_injective_example =
    operation_key_injective (text "op-1") (text "op-1") (text "inc-1") (text "inc-1") refl refl refl

transferred-valid_example :
    validate_incident
      (transferred first_incident (text "worker.beta") (text "HANDOVER") (text "owner.1") 1100)
    ≡ true
unfolding incident_code
transferred-valid_example =
    transferred-valid first_incident (text "worker.beta") (text "HANDOVER") (text "owner.1") 1100
      refl refl refl refl (omega arith) (omega arith)
