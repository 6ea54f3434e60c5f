-- ===== src/Dates.antt =====
-- The dates of the JavaScript runtime, as the sources use them: `Date.parse` and `toISOString`.
-- An instant is counted in milliseconds from the earliest `Date`, so it is a natural number, and the
-- comparisons and additions of the sources read the same.
use ship_yard.Prelude.{ℕ, ◌≤◌, ◌≡◌, Bool, true, false, Option, none, some, Text, ltb, refl, [], ◌∷◌}

-- The last instant that a `Date` holds.
abbrev pub last_instant : ℕ
last_instant = 17_280_000_000_000_000

pub record Dates : Type 0 where
  -- `Date.parse`: `none` is NaN.
  pub parse : Text → Option ℕ
  -- `toISOString`
  pub to_iso : ℕ → Text
  pub parse-to_iso : (t : ℕ) → t ≤ last_instant → parse (to_iso t) ≡ some t

-- `Number.isFinite(Date.parse(value))`
abbrev pub is_date : Dates → Text → Bool
is_date dates value = elim (dates.parse value) [ none ↦ false | some _ ↦ true ]

-- `a < b` on two results of `Date.parse`; false where one is NaN.
abbrev pub number_before : Option ℕ → Option ℕ → Bool
number_before (some a) (some b) = ltb a b
number_before (some a) none = false
number_before none b = false

-- `Date.parse(a) < Date.parse(b)`
abbrev pub time_before : Dates → Text → Text → Bool
time_before dates a b = number_before (dates.parse a) (dates.parse b)

-- A runtime for the tests: an instant is printed as one unit behind a mark.
abbrev pub sample_parse : Text → Option ℕ
sample_parse (t ∷ []) = some t
sample_parse _ = none

abbrev pub sample_dates : Dates
sample_dates = record { parse = sample_parse; to_iso = λ t. t ∷ []; parse-to_iso = λ t h. refl }
