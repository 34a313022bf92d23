-- ===== src/Filter.antt =====
-- src/common/Filter.h: the filters on device names and window titles. A regular expression is the
-- standard library's search for it, as a test on texts.
pub mod GrabFilters
mod Tests
use Prim.Native.String.{String}
use text.Mathlib.Text.{◌==◌ as str_eq, find?}
use mathlib.Core.Bool.{xor}
use keymapper.Prelude.{
  [], ℕ, Bool, true, false, Option, none, some, List, ◌∷◌, if◌then◌else◌, negate,
}

pub record Filter : Type 0 where
  pub string : String
  pub regex : Option (String → Bool)
  pub invert : Bool

-- `operator bool`
abbrev pub is_set : Filter → Bool
is_set filter = negate (str_eq filter.string "")

abbrev occurs : Option ℕ → Bool
occurs none = false
occurs (some position) = true

unfoldable pub matches_uninverted : Filter → String → Bool → Bool
matches_uninverted filter text substring =
    if str_eq filter.string "" then true else elim filter.regex [
      | some search ↦ search text
      | none ↦ if substring then occurs (find? text filter.string) else str_eq text filter.string
    ]

unfoldable pub matches : Filter → String → Bool → Bool
unfolding matches_uninverted xor
matches filter text substring = xor (matches_uninverted filter text substring) filter.invert

pub record GrabDeviceFilter : Type 0 where
  pub filter : Filter
  pub open filter use *
  pub by_id : Bool

-- The last filter that matches decides, and without one the default does.
unfoldable pub evaluate_grab_filters : List GrabDeviceFilter → String → String → Bool → Bool
unfolding matches_uninverted
evaluate_grab_filters [] device_name device_id grab = grab
evaluate_grab_filters (f ∷ filters) device_name device_id grab =
    evaluate_grab_filters filters device_name device_id (
      if matches_uninverted f.filter (if f.by_id then device_id else device_name) false
      then negate f.invert
      else grab)
