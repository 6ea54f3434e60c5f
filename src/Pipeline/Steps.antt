-- ===== src/Pipeline/Steps.antt =====
-- A call that changes the rows and returns or throws; what it changed before it threw stays.
use ship_yard.Prelude.{ℕ, Bool, true, false, Option, none, some, ◌∷◌, Text, length, Result, ok, err}
use ship_yard.Pipeline.State.{World, Call, statement_sent, PipelineError, thrown}
use ship_yard.Pipeline.Ports.{Deps}

abbrev pub Outcome : Type 0 → Type 0
Outcome A = Result PipelineError A × World

abbrev pub Step : Type 0 → Type 0
Step A = World → Outcome A

abbrev pub pure : {A : Type 0} → A → Step A
pure a w = (ok a, w)

abbrev pub raise : {A : Type 0} → PipelineError → Step A
raise e w = (err e, w)

-- The rest of a call, on what was returned.
unfoldable pub onward : {A B : Type 0} → (A → Step B) → Outcome A → Outcome B
onward rest (ok a, w) = rest a w
onward rest (err e, w) = (err e, w)

infixl 5 ◌>>=◌ ◌>>◌
abbrev pub ◌>>=◌ : {A B : Type 0} → Step A → (A → Step B) → Step B
◌>>=◌ call rest w = onward rest (call w)

abbrev pub ◌>>◌ : {B : Type 0} → Step (Unit {0}) → Step B → Step B
call >> rest = call >>= λ _. rest

abbrev pub raise_if : Bool → PipelineError → Step (Unit {0})
raise_if false e = pure tt
raise_if true e = raise e

-- A call of the modelled packages, which throws an error of its own.
abbrev pub lift : {E A : Type 0} → (E → PipelineError) → Result E A → Step A
lift wrap (ok a) = pure a
lift wrap (err e) = raise (wrap e)

abbrev pub or_raise : {A : Type 0} → PipelineError → Option A → Step A
or_raise e none = raise e
or_raise e (some a) = pure a

-- The number of the next call.
abbrev pub tick : World → ℕ
tick w = length w.calls

abbrev pub logged : Call → World → World
logged call w = record w { calls = call ∷ w.calls }

-- A call of a port: it is made, and then it answers.
unfoldable pub perform : {E A : Type 0} → (E → PipelineError) → Call → (ℕ → Result E A) → Step A
perform wrap call answer w = lift wrap (answer (tick w)) (logged call w)

-- The milliseconds of `now()`.
abbrev pub instant : Deps → Step ℕ
instant d w = (ok (d.time (tick w)), w)

-- What a statement does, if the database takes it.
abbrev pub settle : {A : Type 0} → Option Text → (World → Outcome A) → World → Outcome A
settle none change w = change w
settle (some message) change w = (err (thrown message), w)

-- A statement of a store; `change` is atomic.
abbrev pub statement : {A : Type 0} → Deps → (World → Outcome A) → Step A
statement d change w = settle (d.broken (tick w)) change (logged statement_sent w)
