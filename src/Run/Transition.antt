-- ===== src/Run/Transition.antt =====
-- What `transitionRun` accepts, what it returns, and what a second delivery of a command does.
use ship_yard.Prelude.{
  ◌≤◌, ◌≡◌, ◌↔◌, ◌⊎◌, inl, inr, sym, arith, true, false, none, some, includes, includes_iff, length,
  ok, ◌>>=◌, >>=-eq-ok, ◌∙◌, OneOf-concat, Bool-cases,
}
use ship_yard.Dates.{Dates, is_date, time_before}
use ship_yard.Run.Defs.{
  RunAggregate, TransitionCommand, TransitionResult, next_run, event_of, check_command,
  transition_run,
}
use ship_yard.Run.Graph.{Edge, permits_iff}

-- The accepted outcome.
abbrev pub accepted : RunAggregate → TransitionCommand → TransitionResult
accepted run command = record {
  run = next_run run command;
  event = some (event_of run command);
  idempotent_replay = false;
}

abbrev pub replayed : RunAggregate → TransitionResult
replayed run = record { run = run; event = none; idempotent_replay = true }

module _ (dates : Dates) where
  -- What a command must meet at a run that has not seen its key.
  pub record IsAcceptable (run : RunAggregate) (command : TransitionCommand) : Type 0 where
    pub long_key : 8 ≤ length command.idempotency_key
    pub current : run.revision ≡ command.expected_revision
    pub dated : is_date dates command.occurred_at ≡ true
    pub ordered : time_before dates command.occurred_at run.updated_at ≡ false
    pub edge : Edge run.status command.actor command.to

  check_command_sound :
      (run : RunAggregate) (command : TransitionCommand)
      → check_command dates run command ≡ ok tt
      → IsAcceptable run command
  unfolding check_command
  check_command_sound run command h = record {
    long_key = ground arith;
    current = ground arith;
    dated = ground arith;
    ordered = ground arith;
    edge = (permits_iff run.status command.actor command.to).0 (ground arith);
  }

  check_command_complete :
      (run : RunAggregate) (command : TransitionCommand)
      → IsAcceptable run command
      → check_command dates run command ≡ ok tt
  unfolding check_command
  check_command_complete run command a =
      let allowed = (permits_iff run.status command.actor command.to).1 a.edge in
      ground (arith, a.long_key, a.current, a.dated, a.ordered)

  pub transition_run_fresh :
      (run : RunAggregate) (command : TransitionCommand)
      → includes run.applied_idempotency_keys command.idempotency_key ≡ false
      → transition_run dates run command
        ≡ (check_command dates run command >>= λ _. ok (accepted run command))
  unfolding transition_run
  transition_run_fresh run command fresh = rw fresh

  pub transition_run_seen :
      (run : RunAggregate) (command : TransitionCommand)
      → includes run.applied_idempotency_keys command.idempotency_key ≡ true
      → transition_run dates run command ≡ ok (replayed run)
  unfolding transition_run
  transition_run_seen run command seen = rw seen

  -- A command whose key is new is accepted exactly when the key is long enough, the revision is the
  -- current one, its time parses and does not precede the run's, and the table has a row for it;
  -- then the result is the run with status, result, revision, time and key moved on, and one event.
  pub transition_run_iff :
      (run : RunAggregate) (command : TransitionCommand) (out : TransitionResult)
      → includes run.applied_idempotency_keys command.idempotency_key ≡ false
      → (transition_run dates run command ≡ ok out)
        ↔ (IsAcceptable run command × (out ≡ accepted run command))
  transition_run_iff run command out fresh = (
    λ h.
        let (u, checked, e) =
          >>=-eq-ok (check_command dates run command) (λ _. ok (accepted run command))
            (sym (transition_run_fresh run command fresh) ∙ h) in
        (check_command_sound run command checked, cc),
    λ r.
        transition_run_fresh run command fresh
        ∙ rw (check_command_complete run command r.0) (cc (r.1)),
  )

  -- A successful call either saw the key already or accepted the command.
  pub transition_run_cases :
      (run : RunAggregate) (command : TransitionCommand) {out : TransitionResult}
      → transition_run dates run command ≡ ok out
      → ((includes run.applied_idempotency_keys command.idempotency_key ≡ true)
          × (out ≡ replayed run))
        ⊎ ((includes run.applied_idempotency_keys command.idempotency_key ≡ false)
            × IsAcceptable run command
            × (out ≡ accepted run command))
  transition_run_cases run command {out} h =
      elim (Bool-cases (includes run.applied_idempotency_keys command.idempotency_key)) [
        | inl seen ↦ inl (seen, cc (transition_run_seen run command seen))
        | inr fresh ↦
            let (a, e) = (transition_run_iff run command out fresh).0 h in inr (fresh, a, e)
      ]

  -- A command that succeeded, delivered again at the run that it left, changes nothing: no event,
  -- the same run, marked as a replay. That holds whatever revision and time the redelivery meets.
  pub transition_run_replay :
      (run : RunAggregate) (command : TransitionCommand) (out : TransitionResult)
      → transition_run dates run command ≡ ok out
      → transition_run dates out.run command ≡ ok (replayed out.run)
  transition_run_replay run command out h = elim (transition_run_cases run command h) [
    | inl (seen, e) ↦ rw e (transition_run_seen run command seen)
    | inr (fresh, a, e) ↦ rw e (
        transition_run_seen (next_run run command) command (
          (includes_iff _ _).1 (OneOf-concat run.applied_idempotency_keys command.idempotency_key)))
  ]
