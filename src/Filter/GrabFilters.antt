-- ===== src/Filter/GrabFilters.antt =====
-- src/common/Filter.h: which filter decides whether a device is grabbed.
use Prim.Native.String.{String}
use keymapper.Prelude.{
  ◌≡◌, refl, Bool, false, Option, none, some, List, [], ◌∷◌, if◌then◌else◌, negate, rfind_if, arith,
}
use keymapper.Filter.{GrabDeviceFilter, matches_uninverted, evaluate_grab_filters}

abbrev pub accepts : String → String → GrabDeviceFilter → Bool
accepts device_name device_id f =
    matches_uninverted f.filter (if f.by_id then device_id else device_name) false

abbrev pub decision : Option GrabDeviceFilter → Bool → Bool
decision none grab = grab
decision (some f) grab = negate f.invert

-- A device is grabbed as the last filter that matches its name or its id says, which an inverted one
-- denies; where no filter matches, the default decides.
pub evaluate_grab_filters-last :
    (filters : List GrabDeviceFilter) (device_name device_id : String) (grab : Bool)
    → evaluate_grab_filters filters device_name device_id grab
      ≡ decision (rfind_if (accepts device_name device_id) filters) grab
unfolding evaluate_grab_filters rfind_if
evaluate_grab_filters-last [] device_name device_id grab = refl
evaluate_grab_filters-last (f ∷ filters) device_name device_id grab = ground (
  arith,
  evaluate_grab_filters-last filters device_name device_id
      (if accepts device_name device_id f then negate f.invert else grab),
)
