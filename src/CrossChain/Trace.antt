-- ===== src/CrossChain/Trace.antt =====
-- Sequences of cross-chain procurement events: what must have come before a target payment.
use ship_yard.Prelude.{
  ℕ, ◌≤◌, ◌≡◌, refl, arith, Bool, true, false, List, [], ◌∷◌, Text, ok, ◌>>=◌, >>=-eq-ok, Ensures,
  Ensures->>=, Ensures_ok, ok-injective, Bool-cases, ltb, some, Option-cases, inl, inr, ◌++◌, sym,
  ◌∙◌, append-nil, append_assoc,
}
use ship_yard.Money.{parse_atomic_amount}
use ship_yard.CrossChain.Checks.{assert_atomic_amount, assert_hash}
use ship_yard.CrossChain.Defs.{
  State, awaiting_source_lock, source_locked, bridging, destination_funded,
  target_payment_submitted, target_paid, attested, refund_pending, refunded, failed, Event,
  source_funds_locked, bridge_submitted, destination_funds_received, target_payment_created,
  target_payment_confirmed, Outcome, apply, transition_cross_chain_procurement,
}

-- Events applied one after the other; a throw ends the run.
unfoldable pub apply_all : Text → State → List Event → Outcome
apply_all target_maximum state [] = ok state
apply_all target_maximum state (e ∷ es) = do
  next ← transition_cross_chain_procurement state e target_maximum
  apply_all target_maximum next es

-- The states on the way to a target payment.
abbrev pub is_open : State → Bool
is_open (attested _ _) = false
is_open (refund_pending _) = false
is_open (refunded _ _) = false
is_open (failed _) = false
is_open _ = true

-- The one sequence of events that leads to such a state, read off the state.
abbrev pub path : State → List Event
path (source_locked s) = source_funds_locked s ∷ []
path (bridging s t) = source_funds_locked s ∷ bridge_submitted t ∷ []
path (destination_funded s t d a) =
    source_funds_locked s ∷ bridge_submitted t ∷ destination_funds_received d a ∷ []
path (target_payment_submitted s t d a p) =
    source_funds_locked s
    ∷ bridge_submitted t
    ∷ destination_funds_received d a
    ∷ target_payment_created p
    ∷ []
path (target_paid s t d a p h x) =
    source_funds_locked s
    ∷ bridge_submitted t
    ∷ destination_funds_received d a
    ∷ target_payment_created p
    ∷ target_payment_confirmed h x
    ∷ []
path _ = []

-- What the state says about the money: the bridge delivered at least the ceiling before a target
-- payment, and the payment spent no more than it.
abbrev pub IsCovered : ℕ → State → Type 0
IsCovered ceiling (destination_funded _ _ _ amount) =
    (n : ℕ) × (parse_atomic_amount amount ≡ some n) × (ceiling ≤ n)
IsCovered ceiling (target_payment_submitted _ _ _ amount _) =
    (n : ℕ) × (parse_atomic_amount amount ≡ some n) × (ceiling ≤ n)
IsCovered ceiling (target_paid _ _ _ amount _ _ spent) =
    (n : ℕ) × (m : ℕ) × (parse_atomic_amount amount ≡ some n)
    × (parse_atomic_amount spent ≡ some m)
    × (ceiling ≤ n)
    × (m ≤ ceiling)
IsCovered ceiling _ = Unit

pub amount_sound :
    (value : Text) (allow_zero : Bool) {n : ℕ}
    → assert_atomic_amount value allow_zero ≡ ok n
    → parse_atomic_amount value ≡ some n
unfolding assert_atomic_amount
amount_sound value allow_zero h = elim (Option-cases (parse_atomic_amount value)) [
  | inl bad ↦ cc (rw bad at h)
  | inr (m, good) ↦ ground arith
]

-- One transition keeps the money covered.
apply-IsCovered :
    (ceiling : ℕ) (state : State) (event : Event)
    → IsCovered ceiling state
    → Ensures (IsCovered ceiling) (apply ceiling state event)
unfolding apply
apply-IsCovered ceiling (bridging s t) (destination_funds_received hash amount) c =
    Ensures->>= (IsCovered ceiling) (assert_hash hash) _ λ u checked.
      Ensures->>= (IsCovered ceiling) (assert_atomic_amount amount false) _ λ n read.
        elim (Bool-cases (ltb n ceiling)) [
          | inl short ↦ rw short tt
          | inr enough ↦ rw enough (n, amount_sound amount false read, ground arith)
        ]
apply-IsCovered ceiling (target_payment_submitted s t d amount payment)
      (target_payment_confirmed hash spent) (n, received, covers) =
    Ensures->>= (IsCovered ceiling) (assert_hash hash) _ λ u checked.
      Ensures->>= (IsCovered ceiling) (assert_atomic_amount spent false) _ λ m read.
        elim (Bool-cases (ltb ceiling m)) [
          | inl over ↦ rw over tt
          | inr within ↦
              rw within (n, m, received, amount_sound spent false read, covers, ground arith)
        ]
apply-IsCovered ceiling state event c = ground arith

abbrev Extends : State → Event → State → Type 0
Extends state event next =
    is_open next ≡ true → (is_open state ≡ true) × (path next ≡ path state ++ event ∷ [])

apply-Extends :
    (ceiling : ℕ) (state : State) (event : Event)
    → Ensures (Extends state event) (apply ceiling state event)
unfolding apply
apply-Extends ceiling awaiting_source_lock event = ground arith
apply-Extends ceiling state event = ground arith

transition-apply :
    (target_maximum : Text) {ceiling : ℕ} (state : State) (event : Event)
    → assert_atomic_amount target_maximum false ≡ ok ceiling
    → transition_cross_chain_procurement state event target_maximum ≡ apply ceiling state event
unfolding transition_cross_chain_procurement
transition-apply target_maximum state event read = rw read

module _ (target_maximum : Text) (ceiling : ℕ)
    (read : assert_atomic_amount target_maximum false ≡ ok ceiling) where
  apply_all_cons :
      (state : State) (e : Event) (es : List Event) {final : State}
      → apply_all target_maximum state (e ∷ es) ≡ ok final
      → (next : State) × (apply ceiling state e ≡ ok next)
        × (apply_all target_maximum next es ≡ ok final)
  unfolding apply_all
  apply_all_cons state e es h =
      let (next, stepped, rest) = >>=-eq-ok _ (λ n. apply_all target_maximum n es) h in
      (next, sym (transition-apply target_maximum state e read) ∙ stepped, rest)

  apply_all-path :
      (state : State) (es : List Event) {final : State}
      → apply_all target_maximum state es ≡ ok final
      → is_open final ≡ true
      → (is_open state ≡ true) × (path final ≡ path state ++ es)
  unfolding apply_all
  apply_all-path state [] h open_end =
      let same : _ = ok-injective h in (rw same open_end, rw (append-nil, same))
  apply_all-path state (e ∷ es) h open_end =
      let (next, stepped, rest) = apply_all_cons state e es h in
      let (open_next, tail) = apply_all-path next es rest open_end in
      let (open_here, head) =
        Ensures_ok (Extends state e) (apply ceiling state e) (apply-Extends ceiling state e) stepped
          open_next in
      (open_here, tail ∙ rw head (append_assoc (path state) (e ∷ []) es))

  apply_all-IsCovered :
      (state : State) (es : List Event) {final : State}
      → IsCovered ceiling state
      → apply_all target_maximum state es ≡ ok final
      → IsCovered ceiling final
  unfolding apply_all
  apply_all-IsCovered state [] c h = rw (← ok-injective h) c
  apply_all-IsCovered state (e ∷ es) c h =
      let (next, stepped, rest) = apply_all_cons state e es h in
      apply_all-IsCovered next es
        (Ensures_ok (IsCovered ceiling) (apply ceiling state e) (apply-IsCovered ceiling state e c)
          stepped)
        rest

-- Only one sequence of events leads from the start to a paid target: the source lock, the bridge
-- submission, the destination receipt, the payment's creation and its confirmation, in this order
-- and with nothing between. The receipt covered the target's ceiling, and no more was spent than it.
pub apply_all-target_paid :
    (target_maximum : Text) (ceiling : ℕ) (es : List Event)
    (source transfer destination received payment paid spent : Text)
    → assert_atomic_amount target_maximum false ≡ ok ceiling
    → apply_all target_maximum awaiting_source_lock es
      ≡ ok (target_paid source transfer destination received payment paid spent)
    → (es
        ≡ source_funds_locked source
          ∷ bridge_submitted transfer
          ∷ destination_funds_received destination received
          ∷ target_payment_created payment
          ∷ target_payment_confirmed paid spent
          ∷ [])
      × IsCovered ceiling (target_paid source transfer destination received payment paid spent)
apply_all-target_paid target_maximum ceiling es source transfer destination received payment paid
      spent read h =
    (
      sym ((apply_all-path target_maximum ceiling read awaiting_source_lock es h refl).1),
      apply_all-IsCovered target_maximum ceiling read awaiting_source_lock es tt h,
    )
