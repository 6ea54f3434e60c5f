-- ===== src/Policy/Purchase/Authorized.antt =====
-- When `authorizePurchase` authorises.
use ship_yard.Prelude.{
  sym, ◌∙◌, ap, append-nil, ok-injective, ℕ, ◌+◌, ◌≤◌, ◌<◌, ◌≡◌, ◌↔◌, ◌⊎◌, refl, arith, true, false,
  Option, none, some, [], Text, length, includes, All, pushed, pushed-nil, passed, is_empty,
  is_empty_sound, ◌==◌, ok, >>=-eq-ok, text_eq, text_eq_iff,
}
use ship_yard.Money.{parse_atomic_amount}
use ship_yard.Run.{is_terminal_run_status}
use ship_yard.Policy.Hosts.{canonicalize_host}
use ship_yard.Policy.Purchase.{
  is_none, host_or, amount_or_zero, RunMandate, PurchaseIntent, PurchaseContext,
  PurchaseAuthorization, Figures, denial_checks, decide, read_figures, authorize_purchase,
  canonical_hosts,
}

-- The figures stand in the mandate, the intent and the context.
pub record AreRead (mandate : RunMandate) (context : PurchaseContext) (f : Figures) : Type 0 where
  pub current : parse_atomic_amount context.current_total_spend ≡ some f.current
  pub controlled : canonical_hosts context.shipyard_controlled_hosts ≡ ok f.controlled
  pub single : parse_atomic_amount mandate.maximum_single_purchase ≡ some f.single
  pub total : parse_atomic_amount mandate.maximum_total_spend ≡ some f.total
  pub threshold : parse_atomic_amount mandate.additional_spend_approval_threshold ≡ some f.threshold

-- The purchase keeps every rule of the mandate.
pub record IsAllowed (mandate : RunMandate) (intent : PurchaseIntent) (context : PurchaseContext)
    (f : Figures) : Type 0 where
  pub amount : parse_atomic_amount intent.atomic_amount ≡ some f.amount
  pub positive : 0 < f.amount
  pub host : canonicalize_host intent.host ≡ some f.host
  pub running : is_terminal_run_status context.run_status ≡ false
  pub in_time : context.now_epoch_seconds ≤ mandate.deadline
  pub tool_listed : includes mandate.allowed_tool_agent_ids intent.tool_agent_id ≡ true
  pub host_listed : includes mandate.allowed_hosts f.host ≡ true
  pub other_tool : ¬ (intent.tool_agent_id ≡ context.shipyard_agent_id)
  pub other_host : includes f.controlled f.host ≡ false
  pub under_single : f.amount ≤ f.single
  pub under_total : f.current + f.amount ≤ f.total
  pub calls_left : context.completed_tool_calls < mandate.maximum_tool_calls
  pub retries_left : context.prior_attempts_for_tool ≤ mandate.maximum_retries_per_tool
  pub approved : (f.current + f.amount ≤ f.threshold) ⊎ (context.additional_spend_approved ≡ true)
  pub long_key : 16 ≤ length intent.idempotency_key
  pub short_key : length intent.idempotency_key ≤ 200

read_figures_sound :
    (mandate : RunMandate) (intent : PurchaseIntent) (context : PurchaseContext) {f : Figures}
    → read_figures mandate intent context ≡ ok f
    → AreRead mandate context f
unfolding read_figures
read_figures_sound mandate intent context {f} h = record {
  current = ground arith;
  controlled = ground arith;
  single = ground arith;
  total = ground arith;
  threshold = ground arith;
}

-- Reading does not look at the intent but for its amount and its host.
read_figures_intent :
    (mandate : RunMandate) (intent : PurchaseIntent) (context : PurchaseContext) {f : Figures}
    → read_figures mandate intent context ≡ ok f
    → (f.amount ≡ amount_or_zero (parse_atomic_amount intent.atomic_amount))
      × (f.host ≡ host_or intent.host (canonicalize_host intent.host))
unfolding read_figures
read_figures_intent mandate intent context {f} h = (ground arith, ground arith)

amount_positive :
    (o : Option ℕ) (n : ℕ) → (n ≡ amount_or_zero o) → ((n == 0) ≡ false) ↔ ((o ≡ some n) × (0 < n))
amount_positive none n e = ground (arith, e)
amount_positive (some m) n e = ground (arith, e)

host_known :
    (host : Text) (o : Option Text) (h : Text)
    → (h ≡ host_or host o)
    → (is_none o ≡ false) ↔ (o ≡ some h)
host_known host none h e = ((λ p. cc), (λ p. cc))
host_known host (some c) h e = ((λ p. cc e), (λ p. refl))

text_ne_iff : (s t : Text) → (text_eq s t ≡ false) ↔ (¬ (s ≡ t))
text_ne_iff s t = ground (arith, text_eq_iff s t)

decide_granted :
    (mandate : RunMandate) (intent : PurchaseIntent) (context : PurchaseContext) (f : Figures)
    (out : PurchaseAuthorization)
    → decide mandate intent context f ≡ out
    → out.authorized ≡ true
    → All (λ c. c.0 ≡ false) (denial_checks mandate intent context f)
decide_granted mandate intent context f out e h =
    let codes = denial_checks mandate intent context f in
    ((pushed-nil codes []).0
      (append-nil (pushed codes) ∙ is_empty_sound (pushed codes) (ap (λ o. o.authorized) e ∙ h))).0

granted_decide :
    (mandate : RunMandate) (intent : PurchaseIntent) (context : PurchaseContext) (f : Figures)
    (out : PurchaseAuthorization)
    → out ≡ decide mandate intent context f
    → All (λ c. c.0 ≡ false) (denial_checks mandate intent context f)
    → out.authorized ≡ true
granted_decide mandate intent context f out e h =
    let codes = denial_checks mandate intent context f in
    ap (λ o. o.authorized) e
    ∙ ap is_empty (sym (append-nil (pushed codes)) ∙ (pushed-nil codes []).1 (h, refl))

checks_iff :
    (mandate : RunMandate) (intent : PurchaseIntent) (context : PurchaseContext) (f : Figures)
    → f.amount ≡ amount_or_zero (parse_atomic_amount intent.atomic_amount)
    → f.host ≡ host_or intent.host (canonicalize_host intent.host)
    → All (λ c. c.0 ≡ false) (denial_checks mandate intent context f)
      ↔ IsAllowed mandate intent context f
checks_iff mandate intent context f amount host =
    let money = amount_positive (parse_atomic_amount intent.atomic_amount) f.amount amount in
    let place = host_known intent.host (canonicalize_host intent.host) f.host host in
    let other = text_ne_iff intent.tool_agent_id context.shipyard_agent_id in
    (
      λ h.
          let t1 = h.1 in
          let t2 = t1.1 in
          let t3 = t2.1 in
          let t4 = t3.1 in
          let t5 = t4.1 in
          let t6 = t5.1 in
          let t7 = t6.1 in
          let t8 = t7.1 in
          let t9 = t8.1 in
          let t10 = t9.1 in
          let t11 = t10.1 in
          let t12 = t11.1 in
          let t13 = t12.1 in
          let (amount_read, positive) = money.0 (h.0) in
          record {
            amount = amount_read;
            positive = positive;
            host = place.0 (t1.0);
            running = t2.0;
            in_time = ground (arith, t3.0);
            tool_listed = (passed _).0 (t4.0);
            host_listed = (passed _).0 (t5.0);
            other_tool = other.0 (t6.0);
            other_host = t7.0;
            under_single = ground (arith, t8.0);
            under_total = ground (arith, t9.0);
            calls_left = ground (arith, t10.0);
            retries_left = ground (arith, t11.0);
            approved = ground (arith, t12.0);
            long_key = ground (arith, t13.0);
            short_key = ground (arith, t13.0);
          },
      λ a. (
        money.1 (a.amount, a.positive),
        (
          place.1 a.host,
          (
            a.running,
            (
              ground (arith, a.in_time),
              (
                ground (arith, a.tool_listed),
                (
                  ground (arith, a.host_listed),
                  (
                    other.1 a.other_tool,
                    (
                      a.other_host,
                      (
                        ground (arith, a.under_single),
                        (
                          ground (arith, a.under_total),
                          (
                            ground (arith, a.calls_left),
                            (
                              ground (arith, a.retries_left),
                              (
                                ground (arith, a.approved),
                                (ground (arith, a.long_key, a.short_key), tt),
                              ),
                            ),
                          ),
                        ),
                      ),
                    ),
                  ),
                ),
              ),
            ),
          ),
        ),
      ),
    )

read_figures_complete :
    (mandate : RunMandate) (intent : PurchaseIntent) (context : PurchaseContext) (f : Figures)
    → AreRead mandate context f
    → f.amount ≡ amount_or_zero (parse_atomic_amount intent.atomic_amount)
    → f.host ≡ host_or intent.host (canonicalize_host intent.host)
    → read_figures mandate intent context ≡ ok f
unfolding read_figures
read_figures_complete mandate intent context f r amount host =
    ground (arith, r.current, r.controlled, r.single, r.total, r.threshold, amount, host)

-- A call returns an authorisation that is granted exactly when the amounts of the mandate, the spend
-- so far and the controlled hosts can be read and the purchase keeps every rule of the mandate; what
-- it returns is then the decision on the figures read.
pub authorize_purchase-authorized_iff :
    (mandate : RunMandate) (intent : PurchaseIntent) (context : PurchaseContext)
    (out : PurchaseAuthorization)
    → ((authorize_purchase mandate intent context ≡ ok out) × (out.authorized ≡ true)) ↔ (
        (f : Figures) × AreRead mandate context f
        × IsAllowed mandate intent context f
        × (out ≡ decide mandate intent context f))
unfolding authorize_purchase
authorize_purchase-authorized_iff mandate intent context out = (
  λ s.
      let (f, read, e) =
        >>=-eq-ok (read_figures mandate intent context) (λ f. ok (decide mandate intent context f))
          (s.0) in
      let (amount, host) = read_figures_intent mandate intent context read in
      let granted = decide_granted mandate intent context f out (ok-injective e) (s.1) in
      (
        f,
        read_figures_sound mandate intent context read,
        (checks_iff mandate intent context f amount host).0 granted,
        sym (ok-injective e),
      ),
  λ (f, read, allowed, e).
      let amount : f.amount ≡ amount_or_zero (parse_atomic_amount intent.atomic_amount) =
        rw allowed.amount refl in
      let host : f.host ≡ host_or intent.host (canonicalize_host intent.host) =
        rw allowed.host refl in
      let figures = read_figures_complete mandate intent context f read amount host in
      (
        rw figures (ap ok (sym e)),
        granted_decide mandate intent context f out e
            ((checks_iff mandate intent context f amount host).1 allowed),
      ),
)
