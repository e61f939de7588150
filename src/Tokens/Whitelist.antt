-- ===== src/Tokens/Whitelist.antt =====
-- params/config.go: AddOrRemoveBigValueWhitelist, on the whitelist that the lookups read and on the one
-- of the extra configuration. A whitelist is a set, kept as the list of its members; a nil map of the
-- configuration is an empty one.
use check_tx_server.Common.{
  String, ◌≡◌, Bool, true, false, Option, none, some, List, [], ◌∷◌, any, str_eq, to_lower, without,
  lookup, set_entry, lookup-set_entry, if◌then◌else◌, arith,
}
use mathlib.Core.Option

pub record Whitelists : Type 0 where
  pub current : List (String × List String)
  pub extra : Option (List (String × List String))

-- The loop over the callers
abbrev with_callers : Bool → List String → List String → List String
with_callers is_add [] members = members
with_callers is_add (caller ∷ callers) members =
    let key = to_lower caller in
    with_callers is_add callers (
      if is_add
      then (if any (str_eq key) members then members else key ∷ members)
      else without key members)

store :
    String
    → List (String × List String)
    → Option (List (String × List String))
    → List String
    → Whitelists
store token_id current extra members = record {
  current = set_entry token_id members current;
  extra = Option.map (set_entry token_id members) extra;
}

change : String → List String → Whitelists → Option (List String) → Bool → Whitelists
change token_id callers w none true = store token_id [] w.extra (with_callers true callers [])
change token_id callers w none false = w
change token_id callers w (some members) is_add =
    store token_id w.current w.extra (with_callers is_add callers members)

unfoldable pub add_or_remove_big_value_whitelist :
    String → List String → Bool → Whitelists → Whitelists
unfolding change store lookup set_entry
add_or_remove_big_value_whitelist token_id callers is_add w =
    change token_id callers w (lookup token_id w.current) is_add

module _ (token_id : String) (callers : List String) (w : Whitelists) (other : String) where
  abbrev after : Bool → Whitelists
  after is_add = add_or_remove_big_value_whitelist token_id callers is_add w

  -- An addition for a token that has no whitelist leaves no other token with one.
  pub whitelist-first :
      lookup token_id w.current ≡ none
      → str_eq token_id other ≡ false
      → lookup other (after true).current ≡ none
  unfolding add_or_remove_big_value_whitelist change store lookup
  whitelist-first absent differs =
      rw absent (ground (arith, lookup-set_entry token_id other (with_callers true callers []) []))
