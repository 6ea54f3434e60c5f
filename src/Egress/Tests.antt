-- ===== src/Egress/Tests.antt =====
-- A fetch that a first host redirects to a second one, and to a metadata address.
use ship_yard.Prelude.{
  ℕ, zero, suc, ◌≡◌, ◌≤◌, ◌+◌, refl, none, some, [], ◌∷◌, All, Text, codes, text_eq, to_lower,
  length, ok, err, if◌then◌else◌,
}
use ship_yard.Money.{is_digit, read_digits}
use ship_yard.Policy.Hosts.{canonical, trim_start, trim_end, drop_last_dot}
use ship_yard.Policy.Forbidden.{
  is_forbidden_host, is_forbidden_name, is_forbidden_ipv4, is_forbidden_ipv6, is_forbidden_pair,
  ends_with, split_on, number_of,
}
use ship_yard.Egress.{
  Url, Init, Response, Network, host_forbidden, any_forbidden, strip_brackets, drop_bracket,
  is_safe_header, safe_headers, downgrade_for_redirect, next_init, assert_host_allowed, fetch_hop,
  follow, egress_safe_fetch,
}
use ship_yard.Egress.Safe.{IsAllowed, egress_safe_fetch-IsAllowed}
use ship_yard.Egress.Headers.{KeepsOrigin, egress_safe_fetch-KeepsOrigin}

abbrev url_of : Text → Url
url_of host = record { href = host; hostname = host; origin = host }

abbrev ip_version : Text → ℕ
ip_version [] = 0
ip_version (c ∷ _) = if is_digit c then 4 else 0

abbrev answer : Text → ℕ → Response
answer location zero = record { status = 302; location = some location }
answer location (suc _) = record { status = 200; location = none }

abbrev network_to : Text → Network
network_to location = record {
  is_ip = ip_version;
  resolve_host = λ hop host. some (codes "1.2.3.4" ∷ []);
  base_fetch = λ hop url init. some (answer location hop);
  resolve_url = λ target url. some (url_of target);
}

abbrev init : Init
init = record {
  method = none;
  headers = some ((codes "X-Payment", codes "secret") ∷ (codes "Accept", codes "json") ∷ []);
  body = none;
}

machine : Unit {0}
unfolding codes text_eq to_lower read_digits canonical trim_start trim_end drop_last_dot
    is_forbidden_host is_forbidden_name is_forbidden_ipv4 is_forbidden_ipv6 is_forbidden_pair
    ends_with split_on number_of any_forbidden strip_brackets drop_bracket is_safe_header
    safe_headers downgrade_for_redirect next_init assert_host_allowed fetch_hop follow
    egress_safe_fetch
machine = tt

-- The payment header stays behind.
redirected : egress_safe_fetch (network_to (codes "b")) 5 (url_of (codes "a")) init ≡ (
  record { hop = 0; url = url_of (codes "a"); init = init }
      ∷ record {
        hop = 1;
        url = url_of (codes "b");
        init = record init { headers = some ((codes "Accept", codes "json") ∷ []) };
      }
      ∷ [],
  ok (answer (codes "b") 1),
)
unfolding machine
redirected = refl

-- The metadata address is not asked.
refuses :
    egress_safe_fetch (network_to (codes "169.254.169.254")) 5 (url_of (codes "a")) init
    ≡ (record { hop = 0; url = url_of (codes "a"); init = init } ∷ [], err host_forbidden)
unfolding machine
refuses = refl

egress_safe_fetch-IsAllowed_example :
    All
      (IsAllowed (network_to (codes "b")))
      (egress_safe_fetch (network_to (codes "b")) 5 (url_of (codes "a")) init).0
    × (length (egress_safe_fetch (network_to (codes "b")) 5 (url_of (codes "a")) init).0 ≤ 5 + 1)
egress_safe_fetch-IsAllowed_example =
    egress_safe_fetch-IsAllowed (network_to (codes "b")) 5 (url_of (codes "a")) init

egress_safe_fetch-KeepsOrigin_example :
    All
      (λ q. KeepsOrigin (codes "a") q.url q.init)
      (egress_safe_fetch (network_to (codes "b")) 5 (url_of (codes "a")) init).0
egress_safe_fetch-KeepsOrigin_example =
    egress_safe_fetch-KeepsOrigin (network_to (codes "b")) 5 (url_of (codes "a")) init
