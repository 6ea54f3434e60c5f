-- ===== src/Egress.antt =====
-- packages/policy-engine/src/egress-broker.ts: a fetch that follows redirects itself.
pub mod Passes
pub mod Safe
pub mod Headers
mod Tests
use ship_yard.Prelude.{
  ◌≡◌, ◌⊎◌, inl, inr, refl, ℕ, ◌+◌, ◌-◌, zero, suc, Bool, true, false, ◌||◌, ◌&&◌, not, Option,
  none, some, List, [], ◌∷◌, ◌++◌, map, ◌==◌, leb, Text, codes, text_eq, to_lower, includes,
  if◌then◌else◌, Result, ok, err, ◌>>=◌, ◌>>◌, throw_if,
}
use ship_yard.Policy.Forbidden.{is_forbidden_host}

pub record Url : Type 0 where
  pub href : Text
  pub hostname : Text
  pub origin : Text

-- `RequestInit`, as far as the broker looks into it.
pub record Init : Type 0 where
  pub method : Option Text
  pub headers : Option (List (Text × Text))
  pub body : Option Text

pub record Response : Type 0 where
  pub status : ℕ
  pub location : Option Text

pub data EgressError : Type 0 where
  host_forbidden address_forbidden unresolved fetch_failed bad_url too_many_redirects : EgressError

-- What the broker calls. Name resolution and the network may answer differently at each hop, so
-- both take its number; `none` is a throw. `resolve_url` is `new URL(location, url)`.
pub record Network : Type 0 where
  pub is_ip : Text → ℕ
  pub resolve_host : ℕ → Text → Option (List Text)
  pub base_fetch : ℕ → Url → Init → Option Response
  pub resolve_url : Text → Url → Option Url

abbrev pub is_redirect : ℕ → Bool
is_redirect s = s == 301 || s == 302 || s == 303 || s == 307 || s == 308

-- `hostname.slice(0, -1)` behind a bracket, if the text ends with one.
unfoldable pub drop_bracket : Text → Option Text
drop_bracket [] = none
drop_bracket (c ∷ []) = if c == b']' then some [] else none
drop_bracket (c ∷ d ∷ s) = elim (drop_bracket (d ∷ s)) [ none ↦ none | some t ↦ some (c ∷ t) ]

abbrev pub or_text : Text → Option Text → Text
or_text s none = s
or_text s (some t) = t

-- `stripBrackets`
unfoldable pub strip_brackets : Text → Text
strip_brackets [] = []
strip_brackets (c ∷ s) = if c == b'[' then or_text (c ∷ s) (drop_bracket s) else c ∷ s

-- `CROSS_ORIGIN_SAFE_HEADERS.has(name.toLowerCase())`
unfoldable pub is_safe_header : Text × Text → Bool
is_safe_header header =
    let name = to_lower (header.0) in
    text_eq name (codes "accept") || text_eq name (codes "content-type")

unfoldable pub safe_headers : List (Text × Text) → List (Text × Text)
safe_headers [] = []
safe_headers (h ∷ hs) = let rest = safe_headers hs in if is_safe_header h then h ∷ rest else rest

abbrev pub strip_optional : Option (List (Text × Text)) → Option (List (Text × Text))
strip_optional none = none
strip_optional (some hs) = some (safe_headers hs)

-- `stripCrossOriginHeaders`
abbrev pub strip_cross_origin_headers : Init → Init
strip_cross_origin_headers init = record init { headers = strip_optional init.headers }

abbrev pub upper_unit : ℕ → ℕ
upper_unit c = if leb b'a' c && leb c b'z' then c - 32 else c

abbrev pub method_of : Option Text → Text
method_of none = codes "GET"
method_of (some m) = map upper_unit m

-- `downgradeForRedirect`
unfoldable pub downgrade_for_redirect : ℕ → Init → Init
downgrade_for_redirect status init =
    let method = method_of init.method in
    if status == 307
      || status == 308
      || text_eq method (codes "GET")
      || text_eq method (codes "HEAD")
    then init
    else record init { method = some (codes "GET"); body = none }

-- Some address is forbidden.
unfoldable pub any_forbidden : (Text → ℕ) → List Text → Bool
any_forbidden is_ip [] = false
any_forbidden is_ip (a ∷ addresses) = is_forbidden_host is_ip a || any_forbidden is_ip addresses

abbrev pub resolved_or : Option (List Text) → Result EgressError (List Text)
resolved_or none = err unresolved
resolved_or (some addresses) = ok addresses

-- The init of the next hop.
unfoldable pub next_init : Url → Url → ℕ → Init → Init
next_init url next status init =
    downgrade_for_redirect status
      (if text_eq next.origin url.origin then init else strip_cross_origin_headers init)

pub record Request : Type 0 where
  pub hop : ℕ
  pub url : Url
  pub init : Init

-- The requests that were sent, and what the call came to.
abbrev pub Run : Type 0
Run = List Request × Result EgressError Response

abbrev pub sent : Request → Run → Run
sent request run = (request ∷ run.0, run.1)

-- What a pass of the loop came to: the host was refused, the call ends, or it goes on.
pub data Hop : Type 0 where
  refused : EgressError → Hop
  ended : Result EgressError Response → Hop
  onward : Url → Init → Hop

abbrev pub reached : Url → Init → Response → Option Url → Hop
reached url init response none = ended (err bad_url)
reached url init response (some next) = onward next (next_init url next response.status init)

-- Where a response points to.
abbrev pub target_of : Response → Option Text
target_of response = if is_redirect response.status then response.location else none

module _ (network : Network) where
  -- The addresses that are checked: the literal itself, or what the name resolves to.
  abbrev pub addresses_of : ℕ → Text → Result EgressError (List Text)
  addresses_of hop host =
      if network.is_ip host == 0
      then resolved_or (network.resolve_host hop host)
      else ok (host ∷ [])

  -- `assertHostAllowed`
  unfoldable pub assert_host_allowed : ℕ → Text → Result EgressError (Unit {0})
  assert_host_allowed hop hostname = do
    throw_if (is_forbidden_host network.is_ip (strip_brackets hostname)) host_forbidden
    addresses ← addresses_of hop (strip_brackets hostname)
    throw_if (any_forbidden network.is_ip addresses) address_forbidden

  abbrev pub towards : Url → Init → Response → Option Text → Hop
  towards url init response none = ended (ok response)
  towards url init response (some location) =
      reached url init response (network.resolve_url location url)

  abbrev pub fetched : Url → Init → Option Response → Hop
  fetched url init none = ended (err fetch_failed)
  fetched url init (some response) = towards url init response (target_of response)

  abbrev pub checked : ℕ → Url → Init → Result EgressError (Unit {0}) → Hop
  checked hop url init (err e) = refused e
  checked hop url init (ok u) = fetched url init (network.base_fetch hop url init)

  -- One pass of the loop: the check of the host, the request, and where its response points to.
  unfoldable pub fetch_hop : ℕ → Url → Init → Hop
  fetch_hop hop url init = checked hop url init (assert_host_allowed hop url.hostname)

  -- The loop, on the number of hops that are left.
  unfoldable pub follow : ℕ → ℕ → Url → Init → Run
  follow zero hop url init = ([], err too_many_redirects)
  follow (suc left) hop url init = elim (fetch_hop hop url init) [
    | refused e ↦ ([], err e)
    | ended result ↦ (record { hop = hop; url = url; init = init } ∷ [], result)
    | onward next next_init ↦
        sent (record { hop = hop; url = url; init = init }) (follow left (hop + 1) next next_init)
  ]

  -- The function that `createEgressSafeFetch` returns: `maxRedirects + 1` passes are all it makes.
  unfoldable pub egress_safe_fetch : ℕ → Url → Init → Run
  egress_safe_fetch max_redirects url init = follow (max_redirects + 1) 0 url init
