-- ===== src/Pipeline/Answering.antt =====
-- Steps that succeed, where the stores take their statements and the ports answer.
use ship_yard.Prelude.{
  ℕ, ◌≤◌, ◌≡◌, refl, sym, ◌∙◌, subst, arith, none, some, Text, true, false, includes, Result,
  length, codes, ◌++◌, ok, ◌∷◌, [], List,
}
use ship_yard.Dates.{last_instant, is_date, time_before}
use ship_yard.Run.{
  RunStatus, RunActor, RunAggregate, permits, next_run, transition_run, event_of, TransitionCommand,
}
use ship_yard.Run.Graph.{permits_iff}
use ship_yard.Run.Transition.{accepted, transition_run_iff}
use ship_yard.Checkpoint.{ScenarioResult, truthy}
use ship_yard.Delivery.Scenario.{AttemptEvidence}
use ship_yard.Pipeline.State.{
  RunRecord, UnsignedToolReceipt, StoredAttestation, EvidencePackContent, AttestationInput, Call,
  World, thrown,
}
use ship_yard.Pipeline.Ports.{Deps}
use ship_yard.Pipeline.Steps.{Outcome, Step, onward, tick, logged, perform, settle, statement}
use ship_yard.Pipeline.Stores.{transition_key, command_to, saved_record, save_event, save_run, move}

-- A result whose first attempt carries the hash of a response.
pub record IsReceiptable (r : ScenarioResult) : Type 0 where
  pub attempt : AttemptEvidence
  pub response_hash : Text
  pub others : List AttemptEvidence
  pub first : r.evidence.attempts ≡ attempt ∷ others
  pub kept : truthy attempt.response_hash ≡ some response_hash

-- An attestation of the run is stored.
pub record IsAttested (w : World) : Type 0 where
  pub attestation : StoredAttestation
  pub kept : w.attestation ≡ some attestation

-- What a call returns, and the world that it leaves, have the property.
pub record Succeeds {A : Type 0} (Q : A → World → Type 0) (o : Outcome A) : Type 0 where
  pub value : A
  pub later : World
  pub returned : o ≡ (ok value, later)
  pub holds : Q value later

pub Succeeds-onward :
    {A B : Type 0} {P : A → World → Type 0} {Q : B → World → Type 0} {o : Outcome A}
    {rest : A → Step B}
    → Succeeds P o
    → ((a : A) (v : World) → P a v → Succeeds Q (rest a v))
    → Succeeds Q (onward rest o)
unfolding onward
Succeeds-onward {A} {B} {P} {Q} {o} {rest} s k =
    subst (λ x. Succeeds Q (onward rest x)) (sym s.returned) (k s.value s.later s.holds)

-- The stores take every statement, the ports that the finaliser asks answer, and the clock does not
-- run backwards and stays within the dates.
pub record Answers (d : Deps) : Type 0 where
  pub statements : (n : ℕ) → d.broken n ≡ none
  pub signature : ℕ → UnsignedToolReceipt → Text
  pub signs : (n : ℕ) (receipt : UnsignedToolReceipt) → d.sign n receipt ≡ ok (signature n receipt)
  pub uri : ℕ → EvidencePackContent → Text
  pub publishes : (n : ℕ) (content : EvidencePackContent) → d.publish n content ≡ ok (uri n content)
  pub hash : ℕ → AttestationInput → Text
  pub submits : (n : ℕ) (input : AttestationInput) → d.submit n input ≡ ok (hash n input)
  pub forward : (m n : ℕ) → m ≤ n → d.time m ≤ d.time n
  pub dated : (n : ℕ) → d.time n ≤ last_instant

module _ (d : Deps) (answers : Answers d) where
  pub Succeeds-statement :
      {A : Type 0} (Q : A → World → Type 0) (change : World → Outcome A) (w : World)
      → Succeeds Q (change (logged Call.statement_sent w))
      → Succeeds Q (statement d change w)
  Succeeds-statement Q change w s =
      subst (λ o. Succeeds Q (settle o change (logged Call.statement_sent w)))
        (sym (answers.statements (tick w))) s

  pub Succeeds-perform :
      {A : Type 0} (Q : A → World → Type 0) (c : Call) (port : ℕ → Result Text A) (a : A)
      (w : World)
      → port (tick w) ≡ ok a
      → Q a (logged c w)
      → Succeeds Q (perform thrown c port w)
  unfolding perform
  Succeeds-perform Q c port a w e q = record {
    value = a;
    later = logged c w;
    returned = rw e refl;
    holds = q;
  }

  -- The row of the run holds this aggregate, which the clock has passed.
  pub record Holds (r : RunAggregate) (w : World) : Type 0 where
    pub old : RunRecord
    pub stored : w.run ≡ some old
    pub same : old.aggregate ≡ r
    pub moved_at : ℕ
    pub updated : d.dates.parse r.updated_at ≡ some moved_at
    pub since : (n : ℕ) → tick w ≤ n → moved_at ≤ d.time n

  pub Holds-later :
      (r : RunAggregate) (w v : World) → v.run ≡ w.run → tick w ≤ tick v → Holds r w → Holds r v
  Holds-later r w v e l h = record {
    old = h.old;
    stored = e ∙ h.stored;
    same = h.same;
    moved_at = h.moved_at;
    updated = h.updated;
    since = λ n m. h.since n (omega arith);
  }

  key-long : (run_id : Text) (to : RunStatus) → 8 ≤ length (transition_key run_id to)
  unfolding transition_key codes
  key-long run_id to = omega arith

  save_event_ok :
      (w : World) (r : RunAggregate) (command : TransitionCommand)
      → Holds r w
      → d.dates.parse command.occurred_at ≡ some (d.time (tick w))
      → Succeeds
          (λ _ v. Holds (next_run r command) v × (v.attestation ≡ w.attestation))
          (save_event d (next_run r command) (some (event_of r command)) w)
  unfolding save_run
  save_event_ok w r command h now =
      let next = next_run r command in
      let event = event_of r command in
      let saved : World = record (logged Call.statement_sent w) {
        run = some (saved_record next event h.old);
        events = w.events ++ event ∷ [];
      } in
      Succeeds-statement (λ _ v. Holds next v × (v.attestation ≡ w.attestation)) _ w
        (record {
          value = tt;
          later = saved;
          returned = rw (h.stored, h.same) (ground arith);
          holds = (
            record {
              old = saved_record next event h.old;
              stored = refl;
              same = rw h.same refl;
              moved_at = d.time (tick w);
              updated = now;
              since = λ n l. answers.forward (tick w) n (omega arith);
            },
            refl,
          );
        })

  -- A transition that the table has a row for is taken and saved.
  pub move_ok :
      (run_id : Text) (w : World) (r : RunAggregate) (actor : RunActor) (to : RunStatus)
      → Holds r w
      → includes r.applied_idempotency_keys (transition_key run_id to) ≡ false
      → permits r.status actor to ≡ true
      → Succeeds
          (λ next v.
            Holds next v
            × (next ≡ next_run r (command_to run_id r actor to (d.dates.to_iso (d.time (tick w)))))
            × (v.attestation ≡ w.attestation))
          (move d run_id r actor to w)
  unfolding move transition_key onward
  move_ok run_id w r actor to h fresh edge =
      let command = command_to run_id r actor to (d.dates.to_iso (d.time (tick w))) in
      let now = d.dates.parse-to_iso (d.time (tick w)) (answers.dated (tick w)) in
      let run_ok : transition_run d.dates r command ≡ ok (accepted r command) =
        (transition_run_iff d.dates r command (accepted r command) fresh).1 (
          record {
            long_key = key-long run_id to;
            current = refl;
            dated = rw (is_date, now) refl;
            ordered =
                rw (time_before, now, h.updated) (ground (arith, h.since (tick w) (omega arith)));
            edge = (permits_iff r.status actor to).0 edge;
          },
          refl,
        ) in
      rw run_ok (
        Succeeds-onward (save_event_ok w r command h now) λ _ v held. record {
          value = next_run r command;
          later = v;
          returned = refl;
          holds = (held.0, refl, held.1);
        })
