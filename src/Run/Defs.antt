-- ===== src/Run/Defs.antt =====
-- packages/run-domain/src/run-state-machine.ts: runs, commands and `transitionRun`.
use ship_yard.Prelude.{
  ℕ, ◌+◌, Bool, true, false, not, Option, none, some, List, [], ◌∷◌, ◌++◌, Text, includes, length,
  ltb, ◌==◌, if◌then◌else◌, Result, ok, ◌>>◌, throw_if,
}
use ship_yard.Dates.{Dates, is_date, time_before}
use ship_yard.Run.States.{
  RunActor, RunResult, RunStatus, conditional, delivered_conditional, delivered_fail,
  delivered_inconclusive, delivered_pass, draft, fail, inconclusive, pass, permits,
}

-- `resultForTerminalStatus`
abbrev pub result_for_terminal_status : RunStatus → Option RunResult
result_for_terminal_status delivered_pass = some pass
result_for_terminal_status delivered_conditional = some conditional
result_for_terminal_status delivered_fail = some fail
result_for_terminal_status delivered_inconclusive = some inconclusive
result_for_terminal_status _ = none

pub record RunAggregate : Type 0 where
  pub id : Text
  pub status : RunStatus
  pub result : Option RunResult
  pub revision : ℕ
  pub created_at : Text
  pub updated_at : Text
  pub applied_idempotency_keys : List Text

pub record TransitionCommand : Type 0 where
  pub actor : RunActor
  pub expected_revision : ℕ
  pub idempotency_key : Text
  pub occurred_at : Text
  pub to : RunStatus

pub record RunTransitionedEvent : Type 0 where
  pub run_id : Text
  pub from : RunStatus
  pub to : RunStatus
  pub actor : RunActor
  pub revision : ℕ
  pub idempotency_key : Text
  pub occurred_at : Text

pub record TransitionResult : Type 0 where
  pub run : RunAggregate
  pub event : Option RunTransitionedEvent
  pub idempotent_replay : Bool

pub data RunError : Type 0 where
  run_id_required not_iso_date key_too_short time_precedes : RunError
  revision_conflict : ℕ → ℕ → RunError
  cannot_transition : RunActor → RunStatus → RunStatus → RunError

-- `{ ...run, ...(result === undefined ? {} : { result }) }`
abbrev pub or_keep : Option RunResult → Option RunResult → Option RunResult
or_keep none old = old
or_keep (some r) old = some r

-- The run after an accepted command.
abbrev pub next_run : RunAggregate → TransitionCommand → RunAggregate
next_run run command = record run {
  status = command.to;
  result = or_keep (result_for_terminal_status command.to) run.result;
  revision = run.revision + 1;
  updated_at = command.occurred_at;
  applied_idempotency_keys = run.applied_idempotency_keys ++ command.idempotency_key ∷ [];
}

abbrev pub event_of : RunAggregate → TransitionCommand → RunTransitionedEvent
event_of run command = record {
  run_id = run.id;
  from = run.status;
  to = command.to;
  actor = command.actor;
  revision = run.revision + 1;
  idempotency_key = command.idempotency_key;
  occurred_at = command.occurred_at;
}

module _ (dates : Dates) where
  -- `createDraftRun`
  unfoldable pub create_draft_run : Text → Text → Result RunError RunAggregate
  create_draft_run id now = do
    throw_if (length id == 0) run_id_required
    throw_if (not (is_date dates now)) not_iso_date
    ok (record {
      id = id;
      status = draft;
      result = none;
      revision = 0;
      created_at = now;
      updated_at = now;
      applied_idempotency_keys = [];
    })

  -- The guards of `transitionRun` behind the replay test, in order.
  unfoldable pub check_command : RunAggregate → TransitionCommand → Result RunError (Unit {0})
  unfolding permits
  check_command run command = do
    throw_if (ltb (length command.idempotency_key) 8) key_too_short
    throw_if (not (run.revision == command.expected_revision))
        (revision_conflict command.expected_revision run.revision)
    throw_if (not (is_date dates command.occurred_at)) not_iso_date
    throw_if (time_before dates command.occurred_at run.updated_at) time_precedes
    throw_if (not (permits run.status command.actor command.to))
        (cannot_transition command.actor run.status command.to)

  -- `transitionRun`
  unfoldable pub transition_run :
      RunAggregate → TransitionCommand → Result RunError TransitionResult
  transition_run run command =
      if includes run.applied_idempotency_keys command.idempotency_key
      then ok (record { run = run; event = none; idempotent_replay = true })
      else (do
        check_command run command
        ok (record {
          run = next_run run command;
          event = some (event_of run command);
          idempotent_replay = false;
        }))
