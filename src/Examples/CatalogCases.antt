-- ===== src/Examples/CatalogCases.antt =====
-- A night window, and the parents of three categories.
use alpha_shadow.Prelude.{
  ◌≡◌, ◌↔◌, refl, ◌<◌, ◌+◌, ◌-◌, ◌%◌, Bool, true, false, Option, none, some, int, pos, List, [],
  ◌∷◌, Text, codes, text_beq, ok, arith,
}
use alpha_shadow.Prelude.Assoc.{get, has}
use alpha_shadow.Money.Decimal.{digits_value}
use alpha_shadow.Catalog.Rules.{walk_parents, parent_chain_contains}
use alpha_shadow.Catalog.Rules.Ends.{parent_chain_contains-ends}
use alpha_shadow.Catalog.Rules.Ancestry.{IsContained, parent_chain_contains_lem}
use alpha_shadow.Catalog.Availability.{
  AvailabilityWindow, ZonedClock, parse_clock_to_minutes, window_matches,
}
use alpha_shadow.Catalog.Availability.Windows.{window_matches-cyclic}

abbrev late_bar : AvailabilityWindow
late_bar = record {
  days_of_week = some (int (pos 5) ∷ []);
  start = some (codes "22:00");
  end = some (codes "02:30");
}

ten_in_the_evening : parse_clock_to_minutes (codes "22:00") ≡ ok 1320
unfolding parse_clock_to_minutes digits_value
ten_in_the_evening = refl

half_past_two : parse_clock_to_minutes (codes "02:30") ≡ ok 150
unfolding parse_clock_to_minutes digits_value
half_past_two = refl

abbrev one_in_the_night : ZonedClock
one_in_the_night = record { weekday = 5; minutes = 60 }

window_matches-cyclic_example :
    (window_matches late_bar one_in_the_night ≡ ok true)
    ↔ ((60 + 1440 - 1320) % 1440 < (150 + 1440 - 1320) % 1440)
window_matches-cyclic_example =
    window_matches-cyclic late_bar one_in_the_night (codes "22:00") (codes "02:30") refl refl
      ten_in_the_evening half_past_two refl (omega arith)

abbrev menu_parents : List (Text × Option Text)
menu_parents =
    (codes "tea", some (codes "hot"))
    ∷ (codes "hot", some (codes "drinks"))
    ∷ (codes "drinks", none)
    ∷ []

drinks_above_tea :
    parent_chain_contains (codes "drinks") (some (codes "tea")) menu_parents ≡ some true
unfolding parent_chain_contains walk_parents get has text_beq
drinks_above_tea = refl

parent_chain_contains-ends_example :
    (answer : Bool) × (parent_chain_contains (codes "drinks") (some (codes "tea")) menu_parents
      ≡ some answer)
parent_chain_contains-ends_example =
    parent_chain_contains-ends (codes "drinks") (some (codes "tea")) menu_parents

parent_chain_contains_lem_example :
    ((parent_chain_contains (codes "drinks") (some (codes "tea")) menu_parents ≡ some true)
      ↔ IsContained menu_parents (codes "tea") (codes "drinks"))
    × ((parent_chain_contains (codes "drinks") (some (codes "tea")) menu_parents ≡ some false)
        ↔ (¬ IsContained menu_parents (codes "tea") (codes "drinks")))
parent_chain_contains_lem_example =
    parent_chain_contains_lem (codes "drinks") (codes "tea") menu_parents
