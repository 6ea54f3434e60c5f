-- ===== src/Run/History.antt =====
-- Histories of a run: a draft, then calls of `transitionRun` that returned an event. The events are
-- the rows of `run_events`, the newest first.
pub mod Funding
use ship_yard.Prelude.{
  ℕ, zero, suc, ◌+◌, ◌≡◌, ◌≢◌, subst, refl, sym, arith, ◌⊎◌, inl, inr, Bool, true, false, Option,
  none, some, List, [], ◌∷◌, ◌++◌, Text, includes-false, length, length-append, ok, Distinct,
  Distinct-concat, ◌∙◌, All, >>=-eq-ok,
}
use ship_yard.Dates.{Dates, is_date, time_before}
use ship_yard.Run.States.{RunStatus, RunActor, draft}
use ship_yard.Run.Defs.{
  RunAggregate, TransitionCommand, RunTransitionedEvent, TransitionResult,
  result_for_terminal_status, or_keep, create_draft_run, transition_run, event_of, next_run,
}
use ship_yard.Run.Graph.{Edge, quote}
use ship_yard.Run.Transition.{IsAcceptable, transition_run_cases, accepted, replayed}

-- The status that the events lead to.
abbrev pub status_after : List RunTransitionedEvent → RunStatus
status_after [] = draft
status_after (e ∷ log) = e.to

-- The events follow the table, one from the other, and number their revisions from 1 without a gap.
abbrev pub Chained : List RunTransitionedEvent → Type 0
Chained [] = Unit
Chained (e ∷ log) =
    (e.from ≡ status_after log)
    × Edge e.from e.actor e.to
    × (e.revision ≡ length log + 1)
    × Chained log

-- A status with a way out gives no result, so a run that moves had none before.
result_of_Edge :
    {from to : RunStatus} {actor : RunActor}
    → Edge from actor to
    → or_keep (result_for_terminal_status to) (result_for_terminal_status from)
      ≡ result_for_terminal_status to
result_of_Edge quote = refl
result_of_Edge _ = refl

module _ (dates : Dates) where
  pub data History : List RunTransitionedEvent → RunAggregate → Type 0 where
    created :
        (id now : Text) {run : RunAggregate}
        → create_draft_run dates id now ≡ ok run
        → History [] run
    moved :
        {log : List RunTransitionedEvent} {run : RunAggregate} (command : TransitionCommand)
        {out : TransitionResult} {event : RunTransitionedEvent}
        → History log run
        → transition_run dates run command ≡ ok out
        → out.event ≡ some event
        → History (event ∷ log) out.run

  pub record IsConsistent (log : List RunTransitionedEvent) (run : RunAggregate) : Type 0 where
    pub status : run.status ≡ status_after log
    pub chained : Chained log
    pub numbered : run.revision ≡ length log
    pub keyed : length run.applied_idempotency_keys ≡ run.revision
    pub distinct : Distinct run.applied_idempotency_keys
    pub result : run.result ≡ result_for_terminal_status run.status
    pub dated : is_date dates run.updated_at ≡ true

  -- A call that returned an event accepted its command.
  event-accepted :
      (run : RunAggregate) (command : TransitionCommand) {out : TransitionResult}
      {event : RunTransitionedEvent}
      → transition_run dates run command ≡ ok out
      → out.event ≡ some event
      → All (λ k. k ≢ command.idempotency_key) run.applied_idempotency_keys
        × IsAcceptable dates run command
        × (out ≡ accepted run command)
        × (event ≡ event_of run command)
  event-accepted run command h e = elim (transition_run_cases dates run command h) [
    | inl (seen, same) ↦ cc
    | inr (fresh, a, same) ↦ (includes-false _ _ fresh, a, same, cc)
  ]

  -- A new run is a draft at revision 0 with no keys, dated by a time that parses.
  create_draft_run_sound :
      (id now : Text) {run : RunAggregate}
      → create_draft_run dates id now ≡ ok run
      → (is_date dates now ≡ true)
        × (run.updated_at ≡ now)
        × (run.status ≡ draft)
        × (run.result ≡ none)
        × (run.revision ≡ 0)
        × (run.applied_idempotency_keys ≡ [])
  unfolding create_draft_run
  create_draft_run_sound id now h =
      (ground arith, ground arith, ground arith, ground arith, ground arith, ground arith)

  created-IsConsistent :
      (id now : Text) {run : RunAggregate}
      → create_draft_run dates id now ≡ ok run
      → IsConsistent [] run
  created-IsConsistent id now {run} h =
      let (dated, same_time, status, result, revision, keys) = create_draft_run_sound id now h in
      record {
        status = status;
        chained = tt;
        numbered = revision;
        keyed = rw (keys, revision);
        distinct = rw keys tt;
        result = rw (result, status);
        dated = rw same_time dated;
      }

  moved-IsConsistent :
      (log : List RunTransitionedEvent) (run : RunAggregate) (command : TransitionCommand)
      → IsConsistent log run
      → All (λ k. k ≢ command.idempotency_key) run.applied_idempotency_keys
      → IsAcceptable dates run command
      → IsConsistent (event_of run command ∷ log) (next_run run command)
  moved-IsConsistent log run command c fresh a = record {
    status = refl;
    chained = (c.status, a.edge, omega arith, c.chained);
    numbered = omega arith;
    keyed = length-append run.applied_idempotency_keys _ ∙ omega arith;
    distinct = Distinct-concat run.applied_idempotency_keys _ c.distinct fresh;
    result = rw c.result (result_of_Edge a.edge);
    dated = a.dated;
  }

  pub History-IsConsistent :
      {log : List RunTransitionedEvent} {run : RunAggregate}
      → History log run
      → IsConsistent log run
  History-IsConsistent (created id now h) = created-IsConsistent id now h
  History-IsConsistent (moved {log} {run} command h ran found) =
      let (fresh, a, same, event_same) = event-accepted run command ran found in
      rw (same, event_same) (moved-IsConsistent log run command (History-IsConsistent h) fresh a)
