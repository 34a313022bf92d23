-- ===== src/Filter/Tests.antt =====
-- Grab filters at a concrete device.
use keymapper.Prelude.{[], ◌≡◌, true, false, none, List, ◌∷◌, rfind_if}
use keymapper.Filter.{GrabDeviceFilter, evaluate_grab_filters}
use keymapper.Filter.GrabFilters.{accepts, decision, evaluate_grab_filters-last}

-- All devices but one.
abbrev filters : List GrabDeviceFilter
filters =
    record { filter = record { string = ""; regex = none; invert = false }; by_id = false }
    ∷ record { filter = record { string = "mouse"; regex = none; invert = true }; by_id = false }
    ∷ []

evaluate_grab_filters-last_example :
    evaluate_grab_filters filters "mouse" "usb-1" false
    ≡ decision (rfind_if (accepts "mouse" "usb-1") filters) false
evaluate_grab_filters-last_example = evaluate_grab_filters-last filters "mouse" "usb-1" false
