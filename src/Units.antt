-- ===== src/Units.antt =====
-- internal/units/units.go: the known measurement units and their direction.
-- A Go error is `none`: its text only repeats the symbol.
use conbench.Base.{
  ◌≡◌, refl, Bool, true, false, Option, none, some, [], ◌∷◌, String, str_eq, if◌then◌else◌,
}
use conbench.Base.Maps.{Map, lookup, string_key}
use mathlib.Core.Option as Options

pub record MeasureUnit : Type 0 where
  pub symbol : String
  pub long : String
  pub less_is_better : Bool

abbrev pub known_units : Map String MeasureUnit
known_units =
    ("B", record { symbol = "B"; long = "bytes"; less_is_better = true })
    ∷ ("B/s", record { symbol = "B/s"; long = "bytes per second"; less_is_better = false })
    ∷ ("s", record { symbol = "s"; long = "seconds"; less_is_better = true })
    ∷ ("ns", record { symbol = "ns"; long = "nanoseconds"; less_is_better = true })
    ∷ ("i/s", record { symbol = "i/s"; long = "iterations per second"; less_is_better = false })
    ∷ []

abbrev has : Option MeasureUnit → Bool
has none = false
has (some u) = true

unfoldable pub known : String → Bool
unfolding lookup
known symbol = has (lookup symbol known_units)

unfoldable pub less_is_better : String → Option Bool
unfolding lookup
less_is_better symbol =
    Options.map (λ (u : MeasureUnit). u.less_is_better) (lookup symbol known_units)

unfoldable pub longform : String → Option String
unfolding lookup
longform symbol = Options.map (λ (u : MeasureUnit). u.long) (lookup symbol known_units)

unfoldable pub legacy_convert : String → Option String
unfolding known
legacy_convert symbol =
    if str_eq symbol "b/s" then some "B/s" else if known symbol then some symbol else none

-- What a symbol converts to is known, and converts to itself.
pub legacy_convert-known :
    (symbol converted : String)
    → legacy_convert symbol ≡ some converted
    → (known converted ≡ true) × (legacy_convert converted ≡ some converted)
unfolding legacy_convert known lookup
legacy_convert-known symbol converted h = by_tests (str_eq symbol "b/s") refl (known symbol) refl h
  where
    by_tests :
        (old : Bool)
        → str_eq symbol "b/s" ≡ old
        → (listed : Bool) → known symbol ≡ listed
        → (if old then some "B/s" else if listed then some symbol else none) ≡ some converted
        → (known converted ≡ true)
          × ((if str_eq converted "b/s"
                then some "B/s"
                else if known converted
                then some converted
                else none)
              ≡ some converted)
    by_tests true o listed k h = let e : "B/s" ≡ converted = cc in rw (← e) (refl, refl)
    by_tests false o true k h = let e : symbol ≡ converted = cc in rw (← e) (k, rw (o, k) refl)
    by_tests false o false k h = cc
