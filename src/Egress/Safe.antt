-- ===== src/Egress/Safe.antt =====
-- What a fetch may reach, and how often.
use ship_yard.Prelude.{
  ◌∙◌, ◌⊎◌, ℕ, ◌+◌, ◌≡◌, ◌≤◌, zero, suc, refl, sym, arith, false, List, [], ◌∷◌, All, Text, length,
  Result, Result-cases, inl, inr, ok, >>=-eq-ok, throw_if, throw_if-ok,
}
use ship_yard.Policy.Forbidden.{is_forbidden_host}
use ship_yard.Egress.Passes.{Hop-cases, follow_zero, follow_refused, follow_ended, follow-onward}
use ship_yard.Egress.{
  Url, Init, Response, EgressError, Network, Request, refused, ended, onward, any_forbidden,
  host_forbidden, strip_brackets, addresses_of, assert_host_allowed, fetch_hop, follow,
  egress_safe_fetch,
}

refused-ne-ended : {e : EgressError} {r : Result EgressError Response} → ¬ (refused e ≡ ended r)
refused-ne-ended h = cc

refused-ne-onward : {e : EgressError} {u : Url} {i : Init} → ¬ (refused e ≡ onward u i)
refused-ne-onward h = cc

module _ (network : Network) where
  -- Neither the host nor any address that it had when the request was sent is forbidden.
  pub record IsAllowed (request : Request) : Type 0 where
    pub host : is_forbidden_host network.is_ip (strip_brackets request.url.hostname) ≡ false
    pub addresses : List Text
    pub resolved :
        addresses_of network request.hop (strip_brackets request.url.hostname) ≡ ok addresses
    pub each : All (λ a. is_forbidden_host network.is_ip a ≡ false) addresses

  any_forbidden-All :
      (addresses : List Text)
      → any_forbidden network.is_ip addresses ≡ false
      → All (λ a. is_forbidden_host network.is_ip a ≡ false) addresses
  unfolding any_forbidden
  any_forbidden-All [] h = tt
  any_forbidden-All (a ∷ addresses) h = (ground arith, any_forbidden-All addresses (ground arith))

  assert_host_allowed-IsAllowed :
      (request : Request) {u : Unit {0}}
      → assert_host_allowed network request.hop request.url.hostname ≡ ok u
      → IsAllowed request
  unfolding assert_host_allowed
  assert_host_allowed-IsAllowed request h =
      let name = strip_brackets request.url.hostname in
      let (_, one, rest) =
        >>=-eq-ok (throw_if (is_forbidden_host network.is_ip name) host_forbidden) _ h in
      let (addresses, two, last) = >>=-eq-ok (addresses_of network request.hop name) _ rest in
      record {
        host = throw_if-ok _ _ one;
        addresses = addresses;
        resolved = two;
        each = any_forbidden-All addresses (throw_if-ok _ _ last);
      }

  -- A pass that sent a request had its host allowed.
  fetch_hop-IsAllowed :
      (hop : ℕ) (url : Url) (init : Init)
      → ((e : EgressError) × (fetch_hop network hop url init ≡ refused e))
        ⊎ IsAllowed (record { hop = hop; url = url; init = init })
  unfolding fetch_hop
  fetch_hop-IsAllowed hop url init =
      elim (Result-cases (assert_host_allowed network hop url.hostname)) [
        | inl (e, bad) ↦ inl (e, rw bad refl)
        | inr (u, good) ↦
            inr (assert_host_allowed-IsAllowed (record { hop = hop; url = url; init = init }) good)
      ]

  ended-IsAllowed :
      (hop : ℕ) (url : Url) (init : Init) {result : Result EgressError Response}
      → fetch_hop network hop url init ≡ ended result
      → IsAllowed (record { hop = hop; url = url; init = init })
  ended-IsAllowed hop url init h = elim (fetch_hop-IsAllowed hop url init) [
    | inl (e, bad) ↦ absurd (refused-ne-ended (sym bad ∙ h))
    | inr good ↦ good
  ]

  onward-IsAllowed :
      (hop : ℕ) (url : Url) (init : Init) {next : Url} {rest : Init}
      → fetch_hop network hop url init ≡ onward next rest
      → IsAllowed (record { hop = hop; url = url; init = init })
  onward-IsAllowed hop url init h = elim (fetch_hop-IsAllowed hop url init) [
    | inl (e, bad) ↦ absurd (refused-ne-onward (sym bad ∙ h))
    | inr good ↦ good
  ]

  follow-IsAllowed :
      (left hop : ℕ) (url : Url) (init : Init)
      → All IsAllowed (follow network left hop url init).0
        × (length (follow network left hop url init).0 ≤ left)
  follow-IsAllowed zero hop url init = rw (follow_zero network hop url init) (tt, omega arith)
  follow-IsAllowed (suc left) hop url init = elim (Hop-cases (fetch_hop network hop url init)) [
    | inl (e, bad) ↦ rw (follow_refused network left hop url init bad) (tt, omega arith)
    | inr (inl (result, last)) ↦
        rw (follow_ended network left hop url init last)
          ((ended-IsAllowed hop url init last, tt), omega arith)
    | inr (inr (next, rest, on)) ↦
        let (each, few) = follow-IsAllowed left (hop + 1) next rest in
        rw (follow-onward network left hop url init on)
          ((onward-IsAllowed hop url init on, each), omega (arith, few))
  ]

  -- Every request that the fetch sends goes to a host that is not forbidden and none of whose
  -- addresses, as resolved for that very hop, is forbidden; and it sends at most one request more
  -- than the redirects it may follow.
  pub egress_safe_fetch-IsAllowed :
      (max_redirects : ℕ) (url : Url) (init : Init)
      → All IsAllowed (egress_safe_fetch network max_redirects url init).0
        × (length (egress_safe_fetch network max_redirects url init).0 ≤ max_redirects + 1)
  unfolding egress_safe_fetch
  egress_safe_fetch-IsAllowed max_redirects url init =
      follow-IsAllowed (max_redirects + 1) 0 url init
