-- ===== src/Egress/Headers.antt =====
-- What the broker sends across origins.
use ship_yard.Prelude.{
  subst, ℕ, ◌+◌, ◌≡◌, ◌⊎◌, inl, inr, zero, suc, refl, sym, ◌∙◌, arith, true, false, none, some,
  Option, Bool-cases, List, [], ◌∷◌, All, Text, text_eq, text_eq_iff,
}
use ship_yard.Egress.Passes.{
  Hop-cases, follow_zero, follow_refused, follow_ended, follow-onward, fetch_hop-onward,
}
use ship_yard.Egress.{
  Url, Init, Network, is_safe_header, safe_headers, strip_optional, strip_cross_origin_headers,
  downgrade_for_redirect, next_init, fetch_hop, follow, egress_safe_fetch,
}

-- Only content negotiation is left.
abbrev pub AreSafe : Option (List (Text × Text)) → Type 0
AreSafe none = Unit
AreSafe (some hs) = All (λ h. is_safe_header h ≡ true) hs

safe_headers-All : (hs : List (Text × Text)) → All (λ h. is_safe_header h ≡ true) (safe_headers hs)
unfolding safe_headers
safe_headers-All [] = tt
safe_headers-All (h ∷ hs) = elim (Bool-cases (is_safe_header h)) [
  | inl good ↦ rw good (good, safe_headers-All hs)
  | inr bad ↦ rw bad (safe_headers-All hs)
]

strip_optional-AreSafe : (o : Option (List (Text × Text))) → AreSafe (strip_optional o)
strip_optional-AreSafe none = tt
strip_optional-AreSafe (some hs) = safe_headers-All hs

downgrade_headers :
    (status : ℕ) (init : Init) → (downgrade_for_redirect status init).headers ≡ init.headers
unfolding downgrade_for_redirect
downgrade_headers status init = ground arith

-- The request stays with the origin, or it carries nothing but content negotiation.
abbrev pub KeepsOrigin : Text → Url → Init → Type 0
KeepsOrigin origin url init = (url.origin ≡ origin) ⊎ AreSafe init.headers

next_init_same :
    (url next : Url) (status : ℕ) (init : Init)
    → text_eq next.origin url.origin ≡ true
    → (next_init url next status init).headers ≡ init.headers
unfolding next_init
next_init_same url next status init h = rw h (downgrade_headers status init)

next_init_other :
    (url next : Url) (status : ℕ) (init : Init)
    → text_eq next.origin url.origin ≡ false
    → (next_init url next status init).headers ≡ strip_optional init.headers
unfolding next_init
next_init_other url next status init h =
    rw h (downgrade_headers status (strip_cross_origin_headers init))

next_init-KeepsOrigin :
    (origin : Text) (url next : Url) (status : ℕ) (init : Init)
    → KeepsOrigin origin url init
    → KeepsOrigin origin next (next_init url next status init)
next_init-KeepsOrigin origin url next status init h =
    elim (Bool-cases (text_eq next.origin url.origin)) [
      | inl same ↦ elim h [
        | inl home ↦ inl ((text_eq_iff next.origin url.origin).0 same ∙ home)
        | inr safe ↦ inr (subst AreSafe (sym (next_init_same url next status init same)) safe)
      ]
      | inr other ↦ inr (
          subst AreSafe (sym (next_init_other url next status init other))
            (strip_optional-AreSafe init.headers))
    ]

module _ (network : Network) where
  follow-KeepsOrigin :
      (origin : Text) (left hop : ℕ) (url : Url) (init : Init)
      → KeepsOrigin origin url init
      → All (λ q. KeepsOrigin origin q.url q.init) (follow network left hop url init).0
  follow-KeepsOrigin origin zero hop url init kept = rw (follow_zero network hop url init) tt
  follow-KeepsOrigin origin (suc left) hop url init kept =
      elim (Hop-cases (fetch_hop network hop url init)) [
        | inl (e, bad) ↦ rw (follow_refused network left hop url init bad) tt
        | inr (inl (result, last)) ↦ rw (follow_ended network left hop url init last) (kept, tt)
        | inr (inr (next, rest, on)) ↦
            let (status, same) = fetch_hop-onward network hop url init on in
            let later : KeepsOrigin origin next rest =
              subst (KeepsOrigin origin next) (sym same)
                (next_init-KeepsOrigin origin url next status init kept) in
            rw (follow-onward network left hop url init on)
              (kept, follow-KeepsOrigin origin left (hop + 1) next rest later)
      ]

  -- Every request that the fetch sends goes to the origin that the caller asked for, or carries no
  -- header but content negotiation; that holds also behind a redirect that comes back to the origin.
  pub egress_safe_fetch-KeepsOrigin :
      (max_redirects : ℕ) (url : Url) (init : Init)
      → All
          (λ q. KeepsOrigin url.origin q.url q.init)
          (egress_safe_fetch network max_redirects url init).0
  unfolding egress_safe_fetch
  egress_safe_fetch-KeepsOrigin max_redirects url init =
      follow-KeepsOrigin url.origin (max_redirects + 1) 0 url init (inl refl)
