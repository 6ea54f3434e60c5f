-- ===== src/Reconciliation/Calls.antt =====
-- What a call inside `PaymentReconciler` did, from the fact that it returned.
use ship_yard.Prelude.{
  some-injective, none-ne-some, ◌≡◌, sym, ap, ◌∙◌, inl, inr, none, some, Option, Result, ok, err,
  ok-injective,
}
use ship_yard.Dates.{Dates}
use ship_yard.Run.{
  RunAggregate, RunTransitionedEvent, TransitionCommand, TransitionResult, RunError, event_of,
  transition_run,
}
use ship_yard.Run.Transition.{accepted, transition_run_cases}
use ship_yard.Reconciliation.Store.{Store, StoreError}
use ship_yard.Reconciliation.Reconciler.{ReconcileError, ran, stored, called}

pub ran-ok : (m : Result RunError TransitionResult) {t : TransitionResult} → ran m ≡ ok t → m ≡ ok t
ran-ok (err e) h = cc
ran-ok (ok r) h = ap ok (ok-injective h)

pub stored-ok : (m : Result StoreError Store) {s : Store} → stored m ≡ ok s → m ≡ ok s
stored-ok (err e) h = cc
stored-ok (ok r) h = ap ok (ok-injective h)

pub called-ok :
    {A : Type 0} (e : ReconcileError) (o : Option A) {a : A} → called e o ≡ ok a → o ≡ some a
called-ok e none h = cc
called-ok e (some b) h = ap some (ok-injective h)

-- A transition with an event is the accepted command.
pub ran_with_event :
    (dates : Dates) (run : RunAggregate) (command : TransitionCommand) {t : TransitionResult}
    {e : RunTransitionedEvent}
    → ran (transition_run dates run command) ≡ ok t
    → t.event ≡ some e
    → (transition_run dates run command ≡ ok (accepted run command))
      × (t ≡ accepted run command)
      × (e ≡ event_of run command)
ran_with_event dates run command {t} {e} h s =
    let call = ran-ok (transition_run dates run command) h in
    elim (transition_run_cases dates run command call) [
      | inl (seen, same) ↦ absurd (none-ne-some (sym (ap (λ o. o.event) same) ∙ s))
      | inr (fresh, a, same) ↦
          (call ∙ ap ok same, same, some-injective (sym s ∙ ap (λ o. o.event) same))
    ]
