-- ===== src/Money/Decimal.antt =====
-- The pattern and `BigInt` of `parseAtomicAmount` against `toString` of a `bigint`.
use mathlib.Core.WellFounded.{Acc-prop}
use mathlib.Core.Logic.{dif_neg}
use ship_yard.Prelude.{
  ℕ, zero, suc, ◌+◌, ◌-◌, ◌*◌, ◌/◌, ◌%◌, ◌<◌, ◌≤◌, ◌≡◌, ◌↔◌, refl, sym, ◌∙◌, arith, Acc, lt_wf,
  subst, ap, dec_lt, some, [], ◌∷◌, Text,
}
use ship_yard.Money.{tenth-lt, read_digits, only_zero, parse_atomic_amount, emit_digits, to_string}

read_last : (n : ℕ) (out : Text) → read_digits (n / 10) ((b'0' + n % 10) ∷ out) ≡ read_digits n out
unfolding read_digits
read_last n out = ground arith

parse-emit_digits :
    (n : ℕ) (w : Acc ◌<◌ n) (out : Text)
    → 0 < n
    → parse_atomic_amount (emit_digits n w out) ≡ read_digits n out
unfolding emit_digits parse_atomic_amount
parse-emit_digits n (Acc.intro _ smaller) out pos = grind (
  arith,
  λ (p : n / 10 < n). parse-emit_digits (n / 10) (smaller (n / 10) p) ((b'0' + n % 10) ∷ out),
  read_last n out,
)

emit_digits_small :
    (n : ℕ) (w : Acc ◌<◌ n) (out : Text) → n < 10 → emit_digits n w out ≡ (b'0' + n) ∷ out
unfolding emit_digits
emit_digits_small n (Acc.intro _ smaller) out h = grind arith

parse-emit_digits_nil : (n : ℕ) (w : Acc ◌<◌ n) → parse_atomic_amount (emit_digits n w []) ≡ some n
unfolding read_digits parse_atomic_amount
parse-emit_digits_nil zero w = rw (emit_digits_small 0 w [] (omega arith)) refl
parse-emit_digits_nil (suc n) w = parse-emit_digits (suc n) w [] (omega arith)

-- The printer's result does not depend on how its argument is written.
emit_digits_cong :
    (n k : ℕ) (w : Acc ◌<◌ n) (v : Acc ◌<◌ k) (out : Text)
    → n ≡ k
    → emit_digits n w out ≡ emit_digits k v out
emit_digits_cong n k w v out e =
    subst (λ j. (u : Acc ◌<◌ j) → emit_digits n w out ≡ emit_digits j u out) e
      (λ u. ap (λ a. emit_digits n a out) (Acc-prop w u)) v

emit_digits_large :
    (n : ℕ) (w : Acc ◌<◌ n) (v : Acc ◌<◌ (n / 10)) (out : Text)
    → 10 ≤ n
    → emit_digits n w out ≡ emit_digits (n / 10) v ((b'0' + n % 10) ∷ out)
unfolding emit_digits
emit_digits_large n (Acc.intro _ smaller) v out h =
    let k : ¬ (n < 10) = λ j. omega arith in
    dif_neg (dec_lt n 10) k _ _
    ∙ emit_digits_cong (n / 10) (n / 10) (smaller (n / 10) (tenth-lt n k)) v ((b'0' + n % 10) ∷ out)
        refl

-- One more digit behind a positive number.
emit_digits_push :
    (m d : ℕ) (v : Acc ◌<◌ (m * 10 + d)) (w : Acc ◌<◌ m) (out : Text)
    → 0 < m
    → d < 10
    → emit_digits (m * 10 + d) v out ≡ emit_digits m w ((b'0' + d) ∷ out)
emit_digits_push m d v w out pos h =
    let q : (m * 10 + d) / 10 ≡ m = omega arith in
    let r : (m * 10 + d) % 10 ≡ d = omega arith in
    emit_digits_large (m * 10 + d) v (lt_wf.apply _) out (omega arith)
    ∙ emit_digits_cong _ m _ w _ q
    ∙ ap (λ k. emit_digits m w ((b'0' + k) ∷ out)) r

-- What `read_digits` accepts behind `m` is what the printer puts there.
emit-read_digits :
    (s : Text) (m n : ℕ) (v : Acc ◌<◌ n) (w : Acc ◌<◌ m)
    → 0 < m
    → read_digits m s ≡ some n
    → emit_digits n v [] ≡ emit_digits m w s
unfolding read_digits
emit-read_digits [] m n v w pos h = emit_digits_cong n m v w [] (ground arith)
emit-read_digits (c ∷ s) m n v w pos h =
    let digit : (b'0' ≤ c) × (c ≤ b'9') = ground arith in
    let same : b'0' + (c - b'0') ≡ c = omega arith in
    emit-read_digits s (m * 10 + (c - b'0')) n v (lt_wf.apply _) (omega arith) (ground arith)
    ∙ emit_digits_push m (c - b'0') (lt_wf.apply _) w s pos (omega arith)
    ∙ ap (λ k. emit_digits m w (k ∷ s)) same

lone_zero :
    (s : Text) (n : ℕ) (w : Acc ◌<◌ n) → only_zero s ≡ some n → b'0' ∷ s ≡ emit_digits n w []
lone_zero [] n w h =
    let none_left : n ≡ 0 = ground arith in
    rw (emit_digits_small n w [] (omega arith)) (rw none_left)
lone_zero (d ∷ s) n w h = cc

leading_digit :
    (c : ℕ) (s : Text) (n : ℕ) (w : Acc ◌<◌ n)
    → b'0' < c
    → c ≤ b'9'
    → read_digits (c - b'0') s ≡ some n
    → c ∷ s ≡ emit_digits n w []
leading_digit c s n w low high h =
    let v = lt_wf.apply (c - b'0') in
    let same : b'0' + (c - b'0') ≡ c = omega arith in
    sym (
      emit-read_digits s (c - b'0') n w v (omega arith) h
      ∙ emit_digits_small (c - b'0') v s (omega arith)
      ∙ ap (λ k. k ∷ s) same)

emit-parse :
    (s : Text) (n : ℕ) (w : Acc ◌<◌ n) → parse_atomic_amount s ≡ some n → s ≡ emit_digits n w []
unfolding parse_atomic_amount
emit-parse [] n w h = cc
emit-parse (c ∷ s) n w h = ground (arith, lone_zero s n w, leading_digit c s n w)

-- A text is accepted exactly when it is the decimal print of the number returned: no sign, no
-- leading zero, no blank.
pub parse_atomic_amount_iff :
    (s : Text) (n : ℕ) → (parse_atomic_amount s ≡ some n) ↔ (s ≡ to_string n)
unfolding to_string
parse_atomic_amount_iff s n =
    (emit-parse s n (lt_wf.apply n), λ e. rw e (parse-emit_digits_nil n (lt_wf.apply n)))
