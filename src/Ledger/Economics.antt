-- ===== src/Ledger/Economics.antt =====
-- The totals of a ledger against one pass over its entries.
use ship_yard.Prelude.{
  ap, ℕ, ◌+◌, ◌≡◌, refl, ◌∙◌, arith, List, [], ◌∷◌, if◌then◌else◌, Result, ok, err, >>=-eq-ok,
  Ensures, Ensures->>=, Ensures_ok, Bool-cases, inl, inr,
}
use ship_yard.Prelude.Int.{ℤ, pos, pos_part, neg_part, ◌-ℤ◌, int_laws, +ℤ_parts, -ℤ_parts}
use ship_yard.Ledger.{
  LedgerCategory, customer_payment, customer_refund, tool_spend, model_cost, chain_cost,
  storage_cost, same_category, LedgerEntry, LedgerError, value_of, filter_category, sum_values,
  total, int_to_string, RunEconomics, calculate_run_economics, moved,
}

abbrev value_or_zero : Result LedgerError ℕ → ℕ
value_or_zero (ok n) = n
value_or_zero (err e) = 0

-- The valuation of an entry, 0 where it has none.
abbrev micros : LedgerEntry → ℕ
micros e = value_or_zero (value_of e)

-- One pass over all entries: a payment adds its valuation, every other category takes it off.
pub net : List LedgerEntry → ℤ
net [] = pos 0
net (e ∷ es) = moved e.category (net es) (micros e)

share : LedgerCategory → List LedgerEntry → ℕ
share category [] = 0
share category (e ∷ es) =
    (if same_category e.category category then micros e else 0) + share category es

sum_values-share :
    (category : LedgerCategory) (es : List LedgerEntry) (start n : ℕ)
    → sum_values start (filter_category category es) ≡ ok n
    → n ≡ start + share category es
unfolding sum_values filter_category share
sum_values-share category [] start n h = ground arith
sum_values-share category (e ∷ es) start n h =
    elim (Bool-cases (same_category e.category category)) [
      | inl here ↦
          let (v, valued, rest) =
            >>=-eq-ok (value_of e) (λ v. sum_values (start + v) (filter_category category es))
              (rw here at h) in
          rw here (
            omega (arith, sum_values-share category es (start + v) n rest, ap value_or_zero valued))
      | inr there ↦ rw there (sum_values-share category es start n (rw there at h) ∙ omega arith)
    ]

net_parts :
    (es : List LedgerEntry)
    → pos_part (net es)
        + (share customer_refund es
            + share tool_spend es
            + share model_cost es
            + share chain_cost es
            + share storage_cost es)
      ≡ neg_part (net es) + share customer_payment es
unfolding net share
net_parts [] = refl
net_parts (e ∷ es) =
    ground
      (arith, net_parts es, +ℤ_parts (net es) (pos (micros e)), -ℤ_parts (net es) (pos (micros e)))

total-share :
    (category : LedgerCategory) (es : List LedgerEntry) {n : ℕ}
    → total category es ≡ ok n
    → n ≡ share category es
unfolding total
total-share category es {n} h = sum_values-share category es 0 n h ∙ omega arith

-- The five subtractions of the gross contribution, at the totals.
gross-net :
    (es : List LedgerEntry) (a b c d e f : ℕ)
    → total customer_payment es ≡ ok a
    → total customer_refund es ≡ ok b
    → total tool_spend es ≡ ok c
    → total model_cost es ≡ ok d
    → total chain_cost es ≡ ok e
    → total storage_cost es ≡ ok f
    → pos a -ℤ pos b -ℤ pos c -ℤ pos d -ℤ pos e -ℤ pos f ≡ net es
gross-net es a b c d e f ha hb hc hd he hf = omega (
  int_laws,
  net_parts es,
  total-share _ es ha,
  total-share _ es hb,
  total-share _ es hc,
  total-share _ es hd,
  total-share _ es he,
  total-share _ es hf,
)

abbrev HasNet : List LedgerEntry → RunEconomics → Type 0
HasNet entries r = r.gross_contribution_micros ≡ int_to_string (net entries)

economics-Ensures :
    (entries : List LedgerEntry) → Ensures (HasNet entries) (calculate_run_economics entries)
unfolding calculate_run_economics
economics-Ensures entries = Ensures->>= (HasNet entries) (total customer_payment entries) _ λ a ha.
    Ensures->>= (HasNet entries) (total customer_refund entries) _ λ b hb.
      Ensures->>= (HasNet entries) (total tool_spend entries) _ λ c hc.
        Ensures->>= (HasNet entries) (total model_cost entries) _ λ d hd.
          Ensures->>= (HasNet entries) (total chain_cost entries) _ λ e he.
            Ensures->>= (HasNet entries) (total storage_cost entries) _
              λ f hf. ap int_to_string (gross-net entries a b c d e f ha hb hc hd he hf)

-- Where the economics are computed, the gross contribution is the signed sum of one pass over the
-- entries, payments added and every refund and cost taken off: no entry is counted twice or missed.
pub calculate_run_economics-net :
    (entries : List LedgerEntry) (r : RunEconomics)
    → calculate_run_economics entries ≡ ok r
    → r.gross_contribution_micros ≡ int_to_string (net entries)
calculate_run_economics-net entries r h =
    Ensures_ok (HasNet entries) (calculate_run_economics entries) (economics-Ensures entries) h

-- Every entry has a valuation that reads as an amount.
abbrev pub IsValued : LedgerEntry → Type 0
IsValued e = (n : ℕ) × (value_of e ≡ ok n)
