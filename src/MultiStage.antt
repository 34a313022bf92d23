-- ===== src/MultiStage.antt =====
-- src/runtime/MultiStage.h and .cpp. The buffers for the input and for the indices are emptied before
-- each use, so that they are arguments and results here and no members.
pub mod Contexts
pub mod Requests
pub mod ServerEvents
mod Tests
use keymapper.Prelude.{
  [], ℕ, ℤ, ◌+◌, ◌-◌, Bool, true, false, ◌&&◌, ◌||◌, List, ◌∷◌, ◌++◌, Option, none, some, map, ◌==◌,
  ltb, leb, negate, if◌then◌else◌, all, any, get_last?, length, push,
}
use keymapper.Key
use keymapper.Key.{Key, is_virtual_key, is_action_key}
use keymapper.KeyEvent.{KeyEvent, KeySequence}
use keymapper.Stage.State.{Stage, no_device_index}
use keymapper.Stage.Setup
use keymapper.Stage.Setup.{DeviceDesc}
use keymapper.Stage.Apply
use keymapper.Stage.Contexts as StageContexts
use keymapper.Stage.Validate

unfoldable pub is_server_event : KeyEvent → Bool
is_server_event event =
    event.key == Key.timeout || (is_virtual_key event.key || is_action_key event.key)

pub record MultiStage : Type 0 where
  pub context_count : ℕ
  pub stages : List Stage
  pub active_client_contexts : List ℕ
  pub output_buffer : KeySequence

abbrev count_contexts : List Stage → ℕ
count_contexts [] = 0
count_contexts (s ∷ stages) = length s.contexts + count_contexts stages

unfoldable pub make_multi_stage : List Stage → MultiStage
make_multi_stage stages = record {
  context_count = count_contexts stages;
  stages = stages;
  active_client_contexts = [];
  output_buffer = [];
}

unfoldable pub has_mouse_mappings : MultiStage → Bool
has_mouse_mappings m = any (λ (s : Stage). s.has_mouse_mappings) m.stages

unfoldable pub has_device_filters : MultiStage → Bool
has_device_filters m = any (λ (s : Stage). s.has_device_filter) m.stages

unfoldable pub is_clear : MultiStage → Bool
is_clear m = all Validate.is_clear m.stages

abbrev keys_of_last : Option Stage → List Key
keys_of_last none = []
keys_of_last (some s) = Validate.get_output_keys_down s.out.output_down

unfoldable pub get_output_keys_down : MultiStage → List Key
get_output_keys_down m = keys_of_last (get_last? m.stages)

unfoldable pub evaluate_device_filters : List DeviceDesc → MultiStage → MultiStage
evaluate_device_filters devices m = record m {
  stages = map (Setup.evaluate_device_filters devices) m.stages;
}

-- The stage's output is added to the buffer.
unfoldable pub update_stage : ℕ → ℤ → KeyEvent → KeySequence × Stage → KeySequence × Stage
update_stage now device_index event p =
    let r = Apply.update now event device_index p.1 in (p.0 ++ r.0, r.1)

-- An event that the previous stage put out: it is forwarded to the server, or the stage is updated.
unfoldable pub pass_event : ℕ → ℤ → Bool → KeyEvent → KeySequence × Stage → KeySequence × Stage
pass_event now device_index first event p =
    if negate first && is_server_event event
    then (push p.0 event, p.1)
    else update_stage now device_index event p

unfoldable pub pass_events : ℕ → ℤ → Bool → KeySequence → KeySequence × Stage → KeySequence × Stage
pass_events now device_index first [] p = p
pass_events now device_index first (event ∷ events) p =
    pass_events now device_index first events (pass_event now device_index first event p)

-- A round of the loop of `update`: timeouts and virtual keys go to all stages.
unfoldable pub update_one : ℕ → KeyEvent → ℤ → Bool → KeySequence → Stage → KeySequence × Stage
update_one now event device_index first input s =
    let timed =
      if event.key == Key.timeout && negate first
      then update_stage now device_index event ([], s)
      else ([], s) in
    let toggled =
      if negate first && is_virtual_key event.key
      then update_stage now device_index event timed
      else timed in
    pass_events now device_index first input toggled

unfoldable pub update_stages :
    ℕ → KeyEvent → ℤ → Bool → List Stage → KeySequence → KeySequence × List Stage
update_stages now event device_index first [] input = (input, [])
update_stages now event device_index first (s ∷ stages) input =
    let r = update_one now event device_index first input s in
    let rest = update_stages now event device_index false stages r.0 in (rest.0, r.1 ∷ rest.1)

unfoldable pub update : ℕ → KeyEvent → ℤ → MultiStage → KeySequence × MultiStage
update now event device_index m =
    let r = update_stages now event device_index true m.stages (push m.output_buffer event) in
    (r.0, record m { stages = r.1; output_buffer = [] })

-- The indices from `first` on and before `last`, from zero on.
unfoldable pub translate : ℕ → ℕ → List ℕ → List ℕ
translate first last [] = []
translate first last (index ∷ indices) =
    let rest = translate first last indices in
    if leb first index && ltb index last then (index - first) ∷ rest else rest

-- A round of the loop of `set_active_client_contexts`.
unfoldable pub activate_one : ℕ → List ℕ → ℕ → KeySequence → Stage → KeySequence × Stage
activate_one now indices offset input s =
    let passed = pass_events now no_device_index false input ([], s) in
    let activated =
      StageContexts.set_active_client_contexts
        (translate offset (offset + length (passed.1).contexts) indices) passed.1 in
    (passed.0 ++ activated.0, activated.1)

unfoldable pub activate_stages :
    ℕ → List ℕ → ℕ → List Stage → KeySequence → KeySequence × List Stage
activate_stages now indices offset [] input = (input, [])
activate_stages now indices offset (s ∷ stages) input =
    let r = activate_one now indices offset input s in
    let rest = activate_stages now indices (offset + length (r.1).contexts) stages r.0 in
    (rest.0, r.1 ∷ rest.1)

-- The result is a copy of the buffer, which stays until `reuse_buffer`.
unfoldable pub set_active_client_contexts : ℕ → List ℕ → MultiStage → KeySequence × MultiStage
set_active_client_contexts now indices m =
    let r = activate_stages now indices 0 m.stages m.output_buffer in
    (r.0, record m { active_client_contexts = indices; stages = r.1; output_buffer = r.0 })

unfoldable pub reuse_buffer : MultiStage → MultiStage
reuse_buffer m = record m { output_buffer = [] }

abbrev validate_first : ℕ → (Key → Bool) → List Stage → List Stage
validate_first now is_down [] = []
validate_first now is_down (s ∷ stages) = Validate.validate_state now is_down s ∷ stages

unfoldable pub validate_state : ℕ → (Key → Bool) → MultiStage → MultiStage
validate_state now is_down m = record m { stages = validate_first now is_down m.stages }

abbrev first_exits : List Stage → Bool
first_exits [] = false
first_exits (s ∷ stages) = Apply.should_exit s

unfoldable pub should_exit : MultiStage → Bool
should_exit m = first_exits m.stages
