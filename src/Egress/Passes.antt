-- ===== src/Egress/Passes.antt =====
-- The loop of the broker, pass by pass.
use ship_yard.Prelude.{
  ℕ, ◌+◌, ◌≡◌, ◌⊎◌, inl, inr, suc, refl, ap, ◌∙◌, sym, arith, Option-cases, [], ◌∷◌, Result,
  Result-cases, err,
}
use ship_yard.Egress.{
  Url, Init, Response, EgressError, Network, Hop, refused, ended, onward, too_many_redirects, sent,
  next_init, target_of, fetch_hop, follow, assert_host_allowed,
}

-- To split on a pass and keep the equation.
pub Hop-cases :
    (h : Hop)
    → ((e : EgressError) × (h ≡ refused e))
      ⊎ (((r : Result EgressError Response) × (h ≡ ended r))
          ⊎ ((next : Url) × (init : Init) × (h ≡ onward next init)))
Hop-cases (refused e) = inl (e, refl)
Hop-cases (ended r) = inr (inl (r, refl))
Hop-cases (onward next init) = inr (inr (next, init, refl))

-- The parts of a pass that goes on.
abbrev hop_init_or : Init → Hop → Init
hop_init_or other (onward next init) = init
hop_init_or other _ = other

abbrev hop_url : Url → Hop → Url
hop_url other (onward next init) = next
hop_url other _ = other

onward-next :
    (url there : Url) (status : ℕ) (init : Init) {next : Url} {rest : Init}
    → onward there (next_init url there status init) ≡ onward next rest
    → rest ≡ next_init url next status init
onward-next url there status init {next} {rest} h =
    sym (ap (hop_init_or rest) h) ∙ ap (λ u. next_init url u status init) (ap (hop_url next) h)

module _ (network : Network) where
  pub follow_zero :
      (hop : ℕ) (url : Url) (init : Init)
      → follow network 0 hop url init ≡ ([], err too_many_redirects)
  unfolding follow
  follow_zero hop url init = refl

  pub follow_refused :
      (left hop : ℕ) (url : Url) (init : Init) {e : EgressError}
      → fetch_hop network hop url init ≡ refused e
      → follow network (suc left) hop url init ≡ ([], err e)
  unfolding follow
  follow_refused left hop url init h = rw (h, follow) refl

  pub follow_ended :
      (left hop : ℕ) (url : Url) (init : Init) {result : Result EgressError Response}
      → fetch_hop network hop url init ≡ ended result
      → follow network (suc left) hop url init
        ≡ (record { hop = hop; url = url; init = init } ∷ [], result)
  unfolding follow
  follow_ended left hop url init h = rw (h, follow) refl

  pub follow-onward :
      (left hop : ℕ) (url : Url) (init : Init) {next : Url} {rest : Init}
      → fetch_hop network hop url init ≡ onward next rest
      → follow network (suc left) hop url init
        ≡ sent
            (record { hop = hop; url = url; init = init })
            (follow network left (hop + 1) next rest)
  unfolding follow
  follow-onward left hop url init h = rw (h, follow) refl

  -- Where a pass goes on, it goes on with the init that the redirect leaves.
  pub fetch_hop-onward :
      (hop : ℕ) (url : Url) (init : Init) {next : Url} {rest : Init}
      → fetch_hop network hop url init ≡ onward next rest
      → (status : ℕ) × (rest ≡ next_init url next status init)
  unfolding fetch_hop
  fetch_hop-onward hop url init h =
      elim (Result-cases (assert_host_allowed network hop url.hostname)) [
        | inl (e, bad) ↦ absurd (ground arith)
        | inr (u, good) ↦ elim (Option-cases (network.base_fetch hop url init)) [
          | inl lost ↦ absurd (ground arith)
          | inr (response, got) ↦ elim (Option-cases (target_of response)) [
            | inl stays ↦ absurd (cc (rw (good, got, stays) at h))
            | inr (location, goes) ↦ elim (Option-cases (network.resolve_url location url)) [
              | inl broken ↦ absurd (cc (rw (good, got, goes, broken) at h))
              | inr (there, found) ↦
                  let last = rw (good, got, goes, found) at h in
                  (response.status, onward-next url there response.status init last)
            ]
          ]
        ]
      ]
