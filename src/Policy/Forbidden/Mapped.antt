-- ===== src/Policy/Forbidden/Mapped.antt =====
-- An IPv4 address inside an IPv6 one, printed and read back.
use ship_yard.Prelude.{
  subst, ℕ, ◌+◌, ◌-◌, ◌*◌, ◌/◌, ◌%◌, ◌≡◌, refl, sym, ap, ◌∙◌, arith, true, false, some, [], ◌∷◌,
  ◌++◌, map, Text, ◌==◌, Bool-cases, inl, inr,
}
use ship_yard.Money.{is_digit, read_digits, only_zero, parse_atomic_amount, to_string}
use ship_yard.Money.Decimal.{parse_atomic_amount_iff}
use ship_yard.Policy.Forbidden.{split_on, number_of, is_forbidden_pair, is_forbidden_ipv4, dotted}

-- Digits hold no dot, so a split at the dot behind them leaves them whole.
split-digits :
    (m : ℕ) (s t : Text) {n : ℕ}
    → read_digits m s ≡ some n
    → split_on b'.' (s ++ b'.' ∷ t) ≡ s ∷ split_on b'.' t
unfolding read_digits split_on
split-digits m [] t h = refl
split-digits m (c ∷ s) t h = elim (Bool-cases (is_digit c)) [
  | inl digit ↦
      let rest = split-digits (m * 10 + (c - b'0')) s t (rw digit at h) in
      let other : (c == b'.') ≡ false = ground (arith, digit) in rw (other, rest) refl
  | inr other ↦ absurd (ground arith)
]

split-last : (m : ℕ) (s : Text) {n : ℕ} → read_digits m s ≡ some n → split_on b'.' s ≡ s ∷ []
unfolding read_digits split_on
split-last m [] h = refl
split-last m (c ∷ s) h = elim (Bool-cases (is_digit c)) [
  | inl digit ↦
      let rest = split-last (m * 10 + (c - b'0')) s (rw digit at h) in
      let other : (c == b'.') ≡ false = ground (arith, digit) in rw (other, rest) refl
  | inr other ↦ absurd (ground arith)
]

only_zero-read : (s : Text) {n : ℕ} → only_zero s ≡ some n → read_digits 0 s ≡ some n
unfolding read_digits
only_zero-read [] h = h
only_zero-read (c ∷ s) h = cc

read-parse : (s : Text) {n : ℕ} → parse_atomic_amount s ≡ some n → read_digits 0 s ≡ some n
unfolding parse_atomic_amount read_digits
read-parse [] h = cc
read-parse (c ∷ s) {n} h = elim (Bool-cases (c == b'0')) [
  | inl zero_first ↦
      let same : c ≡ 48 = ground arith in
      let digit : is_digit c ≡ true = ground arith in
      let nothing : c - 48 ≡ 0 = omega (arith, same) in
      rw (digit, nothing) (only_zero-read s (ground arith))
  | inr other ↦ elim (Bool-cases (is_digit c)) [
    | inl digit ↦
        let start : read_digits (c - b'0') s ≡ some n = ground arith in
        let plus : 0 * 10 + (c - b'0') ≡ c - b'0' = omega arith in
        rw digit (subst (λ k. read_digits k s ≡ some n) (sym plus) start)
    | inr strange ↦ absurd (ground arith)
  ]
]

read-to_string : (n : ℕ) → read_digits 0 (to_string n) ≡ some n
read-to_string n = read-parse (to_string n) ((parse_atomic_amount_iff (to_string n) n).1 refl)

split-to_string :
    (n : ℕ) (t : Text) → split_on b'.' (to_string n ++ b'.' ∷ t) ≡ to_string n ∷ split_on b'.' t
split-to_string n t = split-digits 0 (to_string n) t (read-to_string n)

read_four :
    (a b c d : ℕ)
    → map (read_digits 0) (to_string a ∷ to_string b ∷ to_string c ∷ to_string d ∷ [])
      ≡ some a ∷ some b ∷ some c ∷ some d ∷ []
read_four a b c d = simp (read-to_string a, read-to_string b, read-to_string c, read-to_string d)

-- The octets of a printed quadruple are its four numbers.
octets-dotted :
    (high low : ℕ)
    → map number_of (split_on b'.' (dotted high low))
      ≡ some (high / 256 % 256) ∷ some (high % 256) ∷ some (low / 256 % 256) ∷ some (low % 256) ∷ []
unfolding dotted number_of
octets-dotted high low =
    let a = high / 256 % 256 in
    let b = high % 256 in
    let c = low / 256 % 256 in
    let d = low % 256 in
    let rest = to_string c ++ b'.' ∷ to_string d in
    ap (map (read_digits 0)) (
      split-to_string a (to_string b ++ b'.' ∷ rest)
      ∙ ap (λ l. to_string a ∷ l)
          (split-to_string b rest
            ∙ ap (λ l. to_string b ∷ l)
                (split-to_string c (to_string d)
                  ∙ ap (λ l. to_string c ∷ l) (split-last 0 (to_string d) (read-to_string d)))))
    ∙ read_four a b c d

-- An IPv4 address given as the two last groups of an IPv6 one is judged by its own octets: the
-- address that is printed from the groups is forbidden exactly when the first octet, the high byte
-- of the first group, and the second, its low byte, are those of a forbidden range.
pub is_forbidden_ipv4-dotted :
    (high low : ℕ)
    → is_forbidden_ipv4 (dotted high low)
      ≡ is_forbidden_pair (some (high / 256 % 256)) (some (high % 256))
unfolding is_forbidden_ipv4
is_forbidden_ipv4-dotted high low = rw (octets-dotted high low) refl
