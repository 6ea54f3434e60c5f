-- ===== src/Run/Tests.antt =====
-- Runs of the state machine on small inputs, and the theorems at them.
use ship_yard.Prelude.{
  ℕ, ◌≡◌, ◌↔◌, refl, none, List, [], ◌∷◌, codes, includes, text_eq, ok, All, if◌then◌else◌,
}
use ship_yard.Dates.{sample_dates}
use ship_yard.Run.States.{
  draft, quoted, payment_required, funded, cancelled, quote_engine, merchant_gateway,
  payment_reconciler, requester, RunActor, RunStatus, permits, is_terminal_run_status,
}
use ship_yard.Run.Defs.{
  RunAggregate, RunTransitionedEvent, TransitionCommand, create_draft_run, check_command,
  transition_run, next_run, event_of,
}
use ship_yard.Run.Transition.{
  IsAcceptable, accepted, replayed, transition_run_iff, transition_run_replay,
}
use ship_yard.Run.History.{History}
use ship_yard.Run.History.Funding.{
  fundings, is_paid, ByReconciler, fundings-History, transition_run_terminal,
}

abbrev new_run : RunAggregate
new_run = record {
  id = codes "run";
  status = draft;
  result = none;
  revision = 0;
  created_at = 5 ∷ [];
  updated_at = 5 ∷ [];
  applied_idempotency_keys = [];
}

abbrev command : RunActor → ℕ → ℕ → RunStatus → TransitionCommand
command actor revision time to = record {
  actor = actor;
  expected_revision = revision;
  idempotency_key = time ∷ codes "-command";
  occurred_at = time ∷ [];
  to = to;
}

abbrev to_quoted : TransitionCommand
to_quoted = command quote_engine 0 6 quoted

abbrev to_required : TransitionCommand
to_required = command merchant_gateway 1 7 payment_required

abbrev to_funded : TransitionCommand
to_funded = command payment_reconciler 2 9 funded

abbrev quoted_run : RunAggregate
quoted_run = next_run new_run to_quoted

abbrev required_run : RunAggregate
required_run = next_run quoted_run to_required

abbrev funded_run : RunAggregate
funded_run = next_run required_run to_funded

machine : Unit {0}
unfolding transition_run check_command create_draft_run includes text_eq codes permits
    is_terminal_run_status
machine = tt

quoted_test : transition_run sample_dates new_run to_quoted ≡ ok (accepted new_run to_quoted)
unfolding machine
quoted_test = refl

required_test :
    transition_run sample_dates quoted_run to_required ≡ ok (accepted quoted_run to_required)
unfolding machine
required_test = refl

funded_test :
    transition_run sample_dates required_run to_funded ≡ ok (accepted required_run to_funded)
unfolding machine
funded_test = refl

abbrev funded_log : List RunTransitionedEvent
funded_log =
    event_of required_run to_funded
    ∷ event_of quoted_run to_required
    ∷ event_of new_run to_quoted
    ∷ []

funded_history : History sample_dates funded_log funded_run
unfolding machine
funded_history =
    History.moved to_funded
      (History.moved to_required
        (History.moved to_quoted (History.created (codes "run") (5 ∷ []) refl) quoted_test refl)
        required_test refl)
      funded_test refl

transition_run_iff_example :
    (transition_run sample_dates new_run to_quoted ≡ ok (accepted new_run to_quoted)) ↔ (
      IsAcceptable sample_dates new_run to_quoted
      × (accepted new_run to_quoted ≡ accepted new_run to_quoted))
unfolding machine
transition_run_iff_example =
    transition_run_iff sample_dates new_run to_quoted (accepted new_run to_quoted) refl

transition_run_replay_example :
    transition_run sample_dates quoted_run to_quoted ≡ ok (replayed quoted_run)
transition_run_replay_example =
    transition_run_replay sample_dates new_run to_quoted (accepted new_run to_quoted) quoted_test

fundings-History_example :
    (fundings funded_log ≡ (if is_paid funded then 1 else 0)) × All ByReconciler funded_log
fundings-History_example = fundings-History sample_dates funded_log funded_run funded_history

abbrev cancelled_run : RunAggregate
cancelled_run = next_run quoted_run (command requester 1 8 cancelled)

-- The cancelling command, delivered again.
transition_run_terminal_example : replayed cancelled_run ≡ replayed cancelled_run
unfolding machine
transition_run_terminal_example =
    transition_run_terminal sample_dates cancelled_run (command requester 1 8 cancelled)
      (replayed cancelled_run) refl refl
