-- ===== src/Run/History/Funding.antt =====
-- What the events of a run say about its payment.
use ship_yard.Prelude.{
  ℕ, ◌+◌, ◌≡◌, refl, sym, arith, Bool, true, false, List, [], ◌∷◌, if◌then◌else◌, ok, All, inl, inr,
}
use ship_yard.Dates.{Dates}
use ship_yard.Run.States.{
  RunStatus, draft, quoted, payment_required, funded, cancelled, expired, RunActor,
  payment_reconciler, same_status, is_terminal_run_status,
}
use ship_yard.Run.Defs.{
  RunAggregate, RunTransitionedEvent, TransitionCommand, TransitionResult, transition_run,
}
use ship_yard.Run.Graph.{Edge, quote}
use ship_yard.Run.Transition.{transition_run_cases, replayed}
use ship_yard.Run.History.{History, History-IsConsistent, Chained, status_after}

-- The statuses behind the payment: what the documents call "after FUNDED".
abbrev pub is_paid : RunStatus → Bool
is_paid draft = false
is_paid quoted = false
is_paid payment_required = false
is_paid cancelled = false
is_paid expired = false
is_paid _ = true

abbrev count_if : Bool → ℕ → ℕ
count_if b n = if b then n + 1 else n

-- How many events moved the run to FUNDED.
pub fundings : List RunTransitionedEvent → ℕ
unfolding same_status
fundings [] = 0
fundings (e ∷ log) = count_if (same_status e.to funded) (fundings log)

-- Every event to FUNDED is the payment reconciler's, at a run that required payment.
abbrev pub ByReconciler : RunTransitionedEvent → Type 0
ByReconciler e = e.to ≡ funded → (e.actor ≡ payment_reconciler) × (e.from ≡ payment_required)

paid_of_Edge :
    {from to : RunStatus} {actor : RunActor}
    → Edge from actor to
    → (if is_paid to then 1 else 0)
      ≡ count_if (same_status to funded) (if is_paid from then 1 else 0)
unfolding same_status
paid_of_Edge quote = refl
paid_of_Edge _ = refl

funded_of_Edge :
    {from to : RunStatus} {actor : RunActor}
    → Edge from actor to
    → to ≡ funded
    → (actor ≡ payment_reconciler) × (from ≡ payment_required)
funded_of_Edge quote h = cc
funded_of_Edge _ h = ground arith

fundings-Chained :
    (log : List RunTransitionedEvent)
    → Chained log
    → (fundings log ≡ (if is_paid (status_after log) then 1 else 0)) × All ByReconciler log
unfolding fundings
fundings-Chained [] h = (refl, tt)
fundings-Chained (e ∷ log) (joined, edge, numbered, h) =
    let (counted, rest) = fundings-Chained log h in
    (rw (counted, ← joined) (sym (paid_of_Edge edge)), (funded_of_Edge edge, rest))

-- In every history the run was moved to FUNDED exactly once if it stands at FUNDED or later, and
-- never if it is unpaid, cancelled or expired, so a paid run is never cancelled or expired; and each
-- such move is the payment reconciler's, from PAYMENT_REQUIRED.
pub fundings-History :
    (dates : Dates) (log : List RunTransitionedEvent) (run : RunAggregate)
    → History dates log run
    → (fundings log ≡ (if is_paid run.status then 1 else 0)) × All ByReconciler log
fundings-History dates log run h =
    let c = History-IsConsistent dates h in rw c.status (fundings-Chained log c.chained)

terminal_has_no_Edge :
    {from to : RunStatus} {actor : RunActor}
    → Edge from actor to
    → is_terminal_run_status from ≡ false
unfolding is_terminal_run_status
terminal_has_no_Edge quote = refl
terminal_has_no_Edge _ = refl

-- A call at a run with a terminal status either throws or returns the run as it is, without an event.
pub transition_run_terminal :
    (dates : Dates) (run : RunAggregate) (command : TransitionCommand) (out : TransitionResult)
    → is_terminal_run_status run.status ≡ true
    → transition_run dates run command ≡ ok out
    → out ≡ replayed run
transition_run_terminal dates run command out final h =
    elim (transition_run_cases dates run command h) [
      | inl (seen, same) ↦ same
      | inr (fresh, a, same) ↦ cc (terminal_has_no_Edge a.edge)
    ]
