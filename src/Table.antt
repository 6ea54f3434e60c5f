-- ===== src/Table.antt =====
-- Tables with a text as their primary key: reads and guarded updates of one row.
use ship_yard.Prelude.{
  All, ◌≡◌, refl, sym, ap, ◌∙◌, arith, Bool, true, false, none, some, Option, Option-cases,
  Bool-cases, List, [], ◌∷◌, Text, text_eq, text_eq_iff, inl, inr, if◌then◌else◌,
}

abbrev pub in_front : {Row : Type 0} → Row → Option (List Row) → Option (List Row)
in_front r none = none
in_front r (some rs) = some (r ∷ rs)

module _ {Row : Type 0} (key : Row → Text) where
  -- `SELECT ... WHERE key = id`
  unfoldable pub find_row : Text → List Row → Option Row
  find_row id [] = none
  find_row id (r ∷ rs) = if text_eq (key r) id then some r else find_row id rs

  -- `UPDATE ... WHERE key = id AND guard`: `none` where no row is affected.
  unfoldable pub update_row : Text → (Row → Bool) → (Row → Row) → List Row → Option (List Row)
  update_row id guard change [] = none
  update_row id guard change (r ∷ rs) =
      let rest = update_row id guard change rs in
      if text_eq (key r) id
      then (if guard r then some (change r ∷ rs) else none)
      else in_front r rest

pub find_row_id :
    {Row : Type 0} (key : Row → Text) (id : Text) (rs : List Row) {r : Row}
    → find_row key id rs ≡ some r
    → key r ≡ id
unfolding find_row
find_row_id key id [] h = cc
find_row_id key id (x ∷ rs) {r} h = elim (Bool-cases (text_eq (key x) id)) [
  | inl here ↦
      let same : x ≡ r = ground arith in ap key (sym same) ∙ (text_eq_iff (key x) id).0 here
  | inr there ↦ find_row_id key id rs (rw there at h)
]

find_here :
    {Row : Type 0} (key : Row → Text) (id : Text) (r : Row) (rs : List Row)
    → text_eq (key r) id ≡ true
    → find_row key id (r ∷ rs) ≡ some r
unfolding find_row
find_here key id r rs h = rw h refl

find_there :
    {Row : Type 0} (key : Row → Text) (id : Text) (r : Row) (rs : List Row)
    → text_eq (key r) id ≡ false
    → find_row key id (r ∷ rs) ≡ find_row key id rs
unfolding find_row
find_there key id r rs h = rw h refl

module _ {Row : Type 0} (key : Row → Text) (guard : Row → Bool) (change : Row → Row)
    (keeps : (x : Row) → key (change x) ≡ key x) where
  -- An update that affects a row found the run's row, met its guard and leaves the changed row.
  pub update_row_found :
      (id : Text) (rs : List Row) {after : List Row}
      → update_row key id guard change rs ≡ some after
      → (r : Row) × (find_row key id rs ≡ some r)
        × (guard r ≡ true)
        × (find_row key id after ≡ some (change r))
  unfolding update_row
  update_row_found id [] h = cc
  update_row_found id (x ∷ rs) {after} h = elim (Bool-cases (text_eq (key x) id)) [
    | inl here ↦
        let met : guard x ≡ true = ground arith in
        let same : change x ∷ rs ≡ after = ground arith in
        (
          x,
          find_here key id x rs here,
          met,
          rw (← same) (find_here key id (change x) rs (rw (keeps x) here)),
        )
    | inr there ↦ elim (Option-cases (update_row key id guard change rs)) [
      | inl bad ↦ absurd (ground arith)
      | inr (tail, good) ↦
          let (r, found, met, now) = update_row_found id rs good in
          let same : x ∷ tail ≡ after = ground arith in
          (
            r,
            find_there key id x rs there ∙ found,
            met,
            rw (← same) (find_there key id x tail there ∙ now),
          )
    ]
  ]

  -- An update whose guard the run's row does not meet affects nothing.
  pub update_row_stale :
      (id : Text) (rs : List Row) {r : Row}
      → find_row key id rs ≡ some r
      → guard r ≡ false
      → update_row key id guard change rs ≡ none
  unfolding update_row find_row
  update_row_stale id [] h g = cc
  update_row_stale id (x ∷ rs) {r} h g = elim (Bool-cases (text_eq (key x) id)) [
    | inl here ↦
        let same : x ≡ r = ground arith in let failed : guard x ≡ false = rw same g in ground arith
    | inr there ↦ let tail = update_row_stale id rs (rw there at h) g in rw (there, tail) refl
  ]

  -- What every row has, every row keeps, if the change keeps it where the guard is met.
  pub update_row-All :
      (P : Row → Type 0)
      → ((x : Row) → P x → guard x ≡ true → P (change x))
      → (id : Text) (rs : List Row) {after : List Row} → All P rs
      → update_row key id guard change rs ≡ some after
      → All P after
  unfolding update_row
  update_row-All P step id [] all h = cc
  update_row-All P step id (x ∷ rs) {after} all h = elim (Bool-cases (text_eq (key x) id)) [
    | inl here ↦
        let met : guard x ≡ true = ground arith in
        let same : change x ∷ rs ≡ after = ground arith in rw (← same) (step x (all.0) met, all.1)
    | inr there ↦ elim (Option-cases (update_row key id guard change rs)) [
      | inl bad ↦ absurd (ground arith)
      | inr (tail, good) ↦
          let same : x ∷ tail ≡ after = ground arith in
          rw (← same) (all.0, update_row-All P step id rs (all.1) good)
    ]
  ]

  -- An update of a row that is there and meets the guard affects it.
  pub update_row_hit :
      (id : Text) (rs : List Row) {r : Row}
      → find_row key id rs ≡ some r
      → guard r ≡ true
      → (after : List Row) × (update_row key id guard change rs ≡ some after)
  unfolding update_row find_row
  update_row_hit id [] h g = cc
  update_row_hit id (x ∷ rs) {r} h g = elim (Bool-cases (text_eq (key x) id)) [
    | inl here ↦
        let same : x ≡ r = ground arith in
        let met : guard x ≡ true = rw same g in (change x ∷ rs, rw (here, met) refl)
    | inr there ↦
        let (tail, good) = update_row_hit id rs (rw there at h) g in
        (x ∷ tail, rw (there, good) refl)
  ]
