-- ===== src/Incident/Command.antt =====
-- The chain of command of an incident: `transferCommand` of
-- services/incident/src/incident-service.js and the record checks of
-- packages/contracts/src/incident-v1.js.
use pixel_hq_oss.Common.{
  ℕ, ◌+◌, ◌<◌, ◌≡◌, refl, true, List, [], ◌∷◌, ◌++◌, arith, Text, str, same_text_refl, all_of,
  length, length-append,
}
use pixel_hq_oss.Time.{max_safe_integer}
use pixel_hq_oss.Incident.Names.{CommandTransfer, Incident}
use pixel_hq_oss.Incident.Contract.{
  is_identifier, identifier_ok, validate_transfer, chain_ok, ends_at, identity_ok, command_ok,
  progress_ok, validate_incident, max_transfers,
}
use pixel_hq_oss.Incident.Operations.{transferred}

chain_ok-append :
    (ts : List CommandTransfer) (t : CommandTransfer)
    → chain_ok ts ≡ true
    → ends_at ts t.prior_commander_ref ≡ true
    → chain_ok (ts ++ (t ∷ [])) ≡ true
unfolding chain_ok ends_at
chain_ok-append [] t h e = refl
chain_ok-append (u ∷ []) t h e = ground arith
chain_ok-append (u ∷ v ∷ ts) t h e = ground (arith, chain_ok-append (v ∷ ts) t)

ends_at-append :
    (ts : List CommandTransfer) (t : CommandTransfer)
    → ends_at (ts ++ (t ∷ [])) (str t.new_commander_ref) ≡ true
unfolding ends_at
ends_at-append [] t = same_text_refl t.new_commander_ref
ends_at-append (u ∷ []) t = same_text_refl t.new_commander_ref
ends_at-append (u ∷ v ∷ ts) t = ends_at-append (v ∷ ts) t

all_of-append :
    (ts : List CommandTransfer) (t : CommandTransfer)
    → all_of validate_transfer ts ≡ true
    → validate_transfer t ≡ true
    → all_of validate_transfer (ts ++ (t ∷ [])) ≡ true
all_of-append [] t h e = ground arith
all_of-append (u ∷ ts) t h e = ground (arith, all_of-append ts t)

abbrev appointment : Incident → Text → Text → Text → ℕ → CommandTransfer
appointment i commander reason actor t = record {
  prior_commander_ref = i.commander_ref;
  new_commander_ref = commander;
  reason_code = reason;
  actor_ref = actor;
  transferred_at = t;
  revision = i.revision + 1;
}

appointment-valid :
    (i : Incident) (commander reason actor : Text) (t : ℕ)
    → identifier_ok i.commander_ref ≡ true
    → is_identifier commander ≡ true
    → is_identifier reason ≡ true
    → is_identifier actor ≡ true
    → i.revision < max_safe_integer
    → validate_transfer (appointment i commander reason actor t) ≡ true
unfolding validate_transfer
appointment-valid i commander reason actor t h a b c r = ground arith

transferred-command_ok :
    (i : Incident) (commander reason actor : Text) (t : ℕ)
    → command_ok i ≡ true
    → is_identifier commander ≡ true
    → is_identifier reason ≡ true
    → is_identifier actor ≡ true
    → length i.commander_transfers < max_transfers
    → i.revision < max_safe_integer
    → command_ok (transferred i commander reason actor t) ≡ true
unfolding command_ok transferred identifier_ok
transferred-command_ok i commander reason actor t v a b c room r = ground (
  arith,
  appointment-valid i commander reason actor t,
  chain_ok-append i.commander_transfers (appointment i commander reason actor t),
  ends_at-append i.commander_transfers (appointment i commander reason actor t),
  all_of-append i.commander_transfers (appointment i commander reason actor t),
  length-append i.commander_transfers (appointment i commander reason actor t ∷ []),
)

transferred-identity_ok :
    (i : Incident) (commander reason actor : Text) (t : ℕ)
    → identity_ok (transferred i commander reason actor t) ≡ identity_ok i
unfolding identity_ok transferred
transferred-identity_ok i commander reason actor t = refl

transferred-progress_ok :
    (i : Incident) (commander reason actor : Text) (t : ℕ)
    → progress_ok i ≡ true
    → i.revision < max_safe_integer
    → progress_ok (transferred i commander reason actor t) ≡ true
unfolding progress_ok transferred
transferred-progress_ok i commander reason actor t v r = ground arith

-- On a valid incident with fewer than eight transfers, whose revision can still be raised, the record
-- of a transfer to any identifier is valid: the chain of command stays contiguous and ends at the new
-- commander, so `transferCommand` never refuses its own record.
pub transferred-valid :
    (i : Incident) (commander reason actor : Text) (t : ℕ)
    → validate_incident i ≡ true
    → is_identifier commander ≡ true
    → is_identifier reason ≡ true
    → is_identifier actor ≡ true
    → length i.commander_transfers < max_transfers
    → i.revision < max_safe_integer
    → validate_incident (transferred i commander reason actor t) ≡ true
unfolding validate_incident
transferred-valid i commander reason actor t v a b c room r = ground (
  arith,
  transferred-identity_ok i commander reason actor t,
  transferred-command_ok i commander reason actor t,
  transferred-progress_ok i commander reason actor t,
)
