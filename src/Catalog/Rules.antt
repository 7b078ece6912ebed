-- ===== src/Catalog/Rules.antt =====
-- domain/contracts/catalog-rules.ts: localized texts, selection limits and the chain of parents.
pub mod Ends
pub mod Ancestry
use alpha_shadow.Prelude.{
  ℕ, zero, suc, Bool, true, false, not, ◌&&◌, any, length, if◌then◌else◌, Option, none, some, Num,
  int, non_integer, ℤ, pos, negsuc, ltb, eqb_ℤ, List, [], ◌∷◌, Text, text_eq, ◌===◌, codes, Result,
  ok, err, ◌>>=◌, ◌>>◌, guard, validation,
}
use alpha_shadow.Prelude.Strings.{is_blank}
use alpha_shadow.Prelude.Assoc.{get, has}
use alpha_shadow.Prelude.Json.{
  Json, null_value, boolean, number, string, array, object, JsonFields, no_fields, field,
}

abbrev pub LocalizedText : Type 0
LocalizedText = List (Text × Text)

abbrev pub non_empty_text : Json → Result Text
non_empty_text (string text) = if is_blank text then err validation else ok text
non_empty_text null_value = err validation
non_empty_text (boolean _) = err validation
non_empty_text (number _) = err validation
non_empty_text (array _) = err validation
non_empty_text (object _) = err validation

abbrev pub parse_entries : JsonFields → Result LocalizedText
parse_entries no_fields = ok []
parse_entries (field key value rest) = do
  guard (not (is_blank key)) validation
  text ← non_empty_text value
  entries ← parse_entries rest
  ok ((key, text) ∷ entries)

-- An object without fields is refused unless it is allowed.
abbrev pub parse_fields : JsonFields → Bool → Result LocalizedText
parse_fields no_fields allow_empty = if allow_empty then ok [] else err validation
parse_fields (field key value rest) allow_empty = parse_entries (field key value rest)

unfoldable pub parse_localized_text : Json → Bool → Result LocalizedText
parse_localized_text (object entries) allow_empty = parse_fields entries allow_empty
parse_localized_text null_value _ = err validation
parse_localized_text (boolean _) _ = err validation
parse_localized_text (number _) _ = err validation
parse_localized_text (string _) _ = err validation
parse_localized_text (array _) _ = err validation

-- `max === null || max === 1`.
abbrev pub is_single_cap : Option Num → Bool
is_single_cap none = true
is_single_cap (some (int n)) = eqb_ℤ n (pos 1)
is_single_cap (some non_integer) = false

unfoldable pub assert_selection_type_consistency : Text → Option Num → Result (Unit {0})
assert_selection_type_consistency selection_type max_selections =
    guard (not (selection_type === codes "single" && not (is_single_cap max_selections))) validation

-- A non-negative integer.
abbrev pub count_of : Num → Result ℕ
count_of (int (pos n)) = ok n
count_of (int (negsuc n)) = err validation
count_of non_integer = err validation

abbrev pub within_max : ℕ → Option Num → Result (Unit {0})
within_max min none = ok tt
within_max min (some limit) = do max ← count_of limit; guard (not (ltb max min)) validation

unfoldable pub assert_min_max_selections : Num → Option Num → Result (Unit {0})
assert_min_max_selections min_selections max_selections = do
  min ← count_of min_selections
  within_max min max_selections

abbrev pub is_in : Text → List Text → Bool
is_in x xs = any (λ y. y === x) xs

-- `parentById.get(cursor)`, where an absent parent is null.
abbrev pub parent_or_null : Option (Option Text) → Option Text
parent_or_null none = none
parent_or_null (some parent) = parent

-- The loop on `cursor`, for at most `fuel` rounds; `none` when they do not suffice.
unfoldable pub walk_parents :
    ℕ → Text → List (Text × Option Text) → List Text → Option Text → Option Bool
walk_parents zero category parents seen cursor = none
walk_parents (suc fuel) category parents seen none = some false
walk_parents (suc fuel) category parents seen (some id) =
    let later = walk_parents fuel category parents (id ∷ seen) (parent_or_null (get id parents)) in
    if id === category
    then some true
    else if is_in id seen
    then some true
    else if has id parents
    then later
    else some false

-- A round for each entry of the map and two more are enough.
unfoldable pub parent_chain_contains : Text → Option Text → List (Text × Option Text) → Option Bool
parent_chain_contains category start parents =
    walk_parents (suc (suc (length parents))) category parents [] start
