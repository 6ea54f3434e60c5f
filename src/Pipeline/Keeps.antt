-- ===== src/Pipeline/Keeps.antt =====
-- The rule for a sequence of calls, and what the ports and the stores keep.
use ship_yard.Prelude.{ℕ, Bool, true, false, ◌≡◌, refl, Option, none, some, Text, Result, ok, err}
use ship_yard.Pipeline.State.{PipelineError, Call, statement_sent, World}
use ship_yard.Pipeline.Ports.{Deps}
use ship_yard.Pipeline.Steps.{
  Outcome, Step, pure, onward, raise_if, lift, or_raise, tick, logged, perform, instant, settle,
  statement,
}
use ship_yard.Pipeline.Backed.{IsBacked, AllBacked, Grows, Grows-refl, Grows-trans}

-- The calls up to a later world are backed, and the checkpoint has only grown.
pub record IsLater (w later : World) : Type 0 where
  pub backed : AllBacked later
  pub grows : Grows w.row later.row

abbrev pub Held : {A : Type 0} → (A → World → Type 0) → World → Outcome A → Type 0
Held Q w (ok a, later) = IsLater w later × Q a later
Held Q w (err e, later) = IsLater w later

-- What holds once a call has returned; that the world is a later one holds even where it threw.
pub record After {A : Type 0} (Q : A → World → Type 0) (w : World) (o : Outcome A) : Type 0 where
  pub held : Held Q w o

-- Nothing more.
abbrev pub Any : {A : Type 0} → A → World → Type 0
Any a w = Unit {0}

pub later_refl : {w : World} → AllBacked w → IsLater w w
later_refl {w} b = record { backed = b; grows = Grows-refl w.row }

pub later_trans : {a b c : World} → IsLater a b → IsLater b c → IsLater a c
later_trans l m = record { backed = m.backed; grows = Grows-trans l.grows m.grows }

pub returned :
    {A : Type 0} {Q : A → World → Type 0} {w v : World} {a : A}
    → IsLater w v
    → Q a v
    → After Q w (ok a, v)
returned l q = record { held = (l, q) }

pub threw :
    {A : Type 0} {Q : A → World → Type 0} {w v : World} {e : PipelineError}
    → IsLater w v
    → After Q w (err e, v)
threw l = record { held = l }

pub After-later :
    {A : Type 0} (Q : A → World → Type 0) {w v : World} (o : Outcome A)
    → IsLater w v
    → After Q v o
    → After Q w o
After-later Q (ok a, later) l h = returned (later_trans l h.held.0) h.held.1
After-later Q (err e, later) l h = threw (later_trans l h.held)

onward_from :
    {A B : Type 0} (Q : A → World → Type 0) (R : B → World → Type 0) (w : World) (o : Outcome A)
    (rest : A → Step B)
    → After Q w o
    → ((a : A) (v : World) → IsLater w v → Q a v → After R v (rest a v))
    → After R w (onward rest o)
unfolding onward
onward_from Q R w (ok a, v) rest h k = After-later R (rest a v) h.held.0 (k a v h.held.0 h.held.1)
onward_from Q R w (err e, v) rest h k = threw h.held

-- A call and what follows it.
pub After-onward :
    {A B : Type 0} {Q : A → World → Type 0} {R : B → World → Type 0} {w : World} {o : Outcome A}
    {rest : A → Step B}
    → After Q w o
    → ((a : A) (v : World) → IsLater w v → Q a v → After R v (rest a v))
    → After R w (onward rest o)
After-onward {A} {B} {Q} {R} {w} {o} {rest} h k = onward_from Q R w o rest h k

map_from :
    {A : Type 0} (Q R : A → World → Type 0) (w : World) (o : Outcome A)
    → After Q w o
    → ((a : A) (v : World) → IsLater w v → Q a v → R a v)
    → After R w o
map_from Q R w (ok a, v) h k = returned h.held.0 (k a v h.held.0 h.held.1)
map_from Q R w (err e, v) h k = threw h.held

pub After-map :
    {A : Type 0} {Q R : A → World → Type 0} {w : World} {o : Outcome A}
    → After Q w o
    → ((a : A) (v : World) → IsLater w v → Q a v → R a v)
    → After R w o
After-map {A} {Q} {R} {w} {o} h k = map_from Q R w o h k

module _ (w : World) (b : AllBacked w) where
  pub pure_lem : {A : Type 0} (Q : A → World → Type 0) (a : A) → Q a w → After Q w (pure a w)
  pure_lem Q a q = returned (later_refl b) q

  pub raise_if_lem : (c : Bool) (e : PipelineError) → After (λ _ v. c ≡ false) w (raise_if c e w)
  raise_if_lem true e = threw (later_refl b)
  raise_if_lem false e = returned (later_refl b) refl

  pub lift_lem :
      {E A : Type 0} (wrap : E → PipelineError) (r : Result E A)
      → After (λ a _. r ≡ ok a) w (lift wrap r w)
  lift_lem wrap (ok a) = returned (later_refl b) refl
  lift_lem wrap (err e) = threw (later_refl b)

  pub or_raise_lem :
      {A : Type 0} (e : PipelineError) (o : Option A) → After (λ a _. o ≡ some a) w (or_raise e o w)
  or_raise_lem e none = threw (later_refl b)
  or_raise_lem e (some a) = returned (later_refl b) refl

  pub logged_lem : (c : Call) → IsBacked w.row c → IsLater w (logged c w)
  logged_lem c h = record { backed = (h, b); grows = Grows-refl w.row }

  lift-Any :
      {E A : Type 0} (wrap : E → PipelineError) (c : Call) (r : Result E A)
      → IsBacked w.row c
      → After Any w (lift wrap r (logged c w))
  lift-Any wrap c (ok a) h = returned (logged_lem c h) tt
  lift-Any wrap c (err e) h = threw (logged_lem c h)

  -- A call of a port, which the row must back.
  pub perform_lem :
      {E A : Type 0} (wrap : E → PipelineError) (c : Call) (answer : ℕ → Result E A)
      → IsBacked w.row c
      → After Any w (perform wrap c answer w)
  unfolding perform
  perform_lem wrap c answer h = lift-Any wrap c (answer (tick w)) h

  pub instant_lem : (d : Deps) → After Any w (instant d w)
  instant_lem d = returned (later_refl b) tt

  settle_lem :
      {A : Type 0} (Q : A → World → Type 0) (o : Option Text) (change : World → Outcome A)
      → After Q w (change (logged statement_sent w))
      → After Q w (settle o change (logged statement_sent w))
  settle_lem Q none change h = h
  settle_lem Q (some message) change h = threw (logged_lem statement_sent tt)

  pub statement_lem :
      {A : Type 0} (Q : A → World → Type 0) (d : Deps) (change : World → Outcome A)
      → After Q w (change (logged statement_sent w))
      → After Q w (statement d change w)
  statement_lem Q d change h = settle_lem Q (d.broken (tick w)) change h

  -- The same, where nothing is asked of what is returned.
  pub lift_kept :
      {E A : Type 0} (wrap : E → PipelineError) (r : Result E A) → After Any w (lift wrap r w)
  lift_kept wrap (ok a) = returned (later_refl b) tt
  lift_kept wrap (err e) = threw (later_refl b)

  pub or_raise_kept : {A : Type 0} (e : PipelineError) (o : Option A) → After Any w (or_raise e o w)
  or_raise_kept e none = threw (later_refl b)
  or_raise_kept e (some a) = returned (later_refl b) tt

  pub raise_if_kept : (c : Bool) (e : PipelineError) → After Any w (raise_if c e w)
  raise_if_kept true e = threw (later_refl b)
  raise_if_kept false e = returned (later_refl b) tt
