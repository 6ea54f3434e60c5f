-- ===== src/Policy/Hosts.antt =====
-- packages/policy-engine/src/mandate.ts: `canonicalizeHost`.
use ship_yard.Prelude.{
  ℕ, Bool, false, ◌||◌, ◌&&◌, Option, none, some, [], ◌∷◌, ◌==◌, Text, to_lower, is_space, is_empty,
  if◌then◌else◌,
}

-- `trimStart()`
unfoldable pub trim_start : Text → Text
trim_start [] = []
trim_start (c ∷ s) = let rest = trim_start s in if is_space c then rest else c ∷ s

-- `trimEnd()`
unfoldable pub trim_end : Text → Text
trim_end [] = []
trim_end (c ∷ s) = let rest = trim_end s in if is_space c && is_empty rest then [] else c ∷ rest

-- `.replace(/\.$/, '')`
unfoldable pub drop_last_dot : Text → Text
drop_last_dot [] = []
drop_last_dot (c ∷ []) = if c == b'.' then [] else c ∷ []
drop_last_dot (c ∷ d ∷ s) = c ∷ drop_last_dot (d ∷ s)

-- `input.trim().toLowerCase().replace(/\.$/, '')`
unfoldable pub canonical : Text → Text
unfolding trim_start trim_end drop_last_dot to_lower
canonical input = drop_last_dot (to_lower (trim_end (trim_start input)))

-- `value.includes(unit)`
unfoldable pub has_unit : ℕ → Text → Bool
has_unit u [] = false
has_unit u (c ∷ s) = c == u || has_unit u s

-- `canonicalizeHost`; `none` where it throws.
unfoldable pub canonicalize_host : Text → Option Text
unfolding canonical has_unit
canonicalize_host input =
    let value = canonical input in
    if is_empty value || has_unit b'/' value || has_unit b'@' value || has_unit b':' value
    then none
    else some value
