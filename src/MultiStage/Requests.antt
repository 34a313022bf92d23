-- ===== src/MultiStage/Requests.antt =====
-- src/runtime/MultiStage.cpp: the operations of `MultiStage` as requests, one after the other.
use keymapper.Prelude.{
  [], ℕ, ℤ, ◌≡◌, refl, Bool, true, false, ◌&&◌, List, ◌∷◌, map, ◌==◌, negate, if_rule, All,
}
use keymapper.Key
use keymapper.Key.{Key, is_virtual_key}
use keymapper.KeyEvent.{KeyEvent, KeySequence}
use keymapper.Stage.State.{Stage, Context, no_device_index}
use keymapper.Stage.Setup.{DeviceDesc, make_stage}
use keymapper.Stage.Requests as StageRequests
use keymapper.Stage.Distinct.{Distinct, serve-Distinct, make_stage-Distinct}
use keymapper.MultiStage.{
  MultiStage, is_server_event, update_stage, pass_event, pass_events, update_one, update_stages,
  update, activate_one, activate_stages, set_active_client_contexts, reuse_buffer, validate_state,
  evaluate_device_filters, make_multi_stage,
}

-- What the server asks of its stages.
pub data Request : Type 0 where
  key_input : ℕ → KeyEvent → ℤ → Request
  client_contexts : ℕ → List ℕ → Request
  validation : ℕ → (Key → Bool) → Request
  device_filters : List DeviceDesc → Request
  reused_buffer : Request

unfoldable pub serve : Request → MultiStage → MultiStage
serve (key_input now event device_index) m = (update now event device_index m).1
serve (client_contexts now indices) m = (set_active_client_contexts now indices m).1
serve (validation now is_down) m = validate_state now is_down m
serve (device_filters devices) m = evaluate_device_filters devices m
serve reused_buffer m = reuse_buffer m

unfoldable pub serve_all : List Request → MultiStage → MultiStage
serve_all [] m = m
serve_all (r ∷ rs) m = serve_all rs (serve r m)

module _ (P : Stage → Type 0)
    (served : (r : StageRequests.Request) (s : Stage) → P s → P (StageRequests.serve r s)) where
  update_stage-Holds :
      (now : ℕ) (device_index : ℤ) (event : KeyEvent) (p : KeySequence × Stage)
      → P p.1
      → P (update_stage now device_index event p).1
  unfolding update_stage StageRequests.serve
  update_stage-Holds now device_index event p h =
      served (StageRequests.key_input now event device_index) p.1 h

  pass_events-Holds :
      (now : ℕ) (device_index : ℤ) (first : Bool) (events : KeySequence) (p : KeySequence × Stage)
      → P p.1
      → P (pass_events now device_index first events p).1
  unfolding pass_events pass_event
  pass_events-Holds now device_index first [] p h = h
  pass_events-Holds now device_index first (event ∷ events) p h =
      pass_events-Holds now device_index first events _ (
        if_rule (λ (r : KeySequence × Stage). P r.1) (negate first && is_server_event event)
          (λ _. h) (λ _. update_stage-Holds now device_index event p h))

  update_one-Holds :
      (now : ℕ) (event : KeyEvent) (device_index : ℤ) (first : Bool) (input : KeySequence)
      (s : Stage)
      → P s
      → P (update_one now event device_index first input s).1
  unfolding update_one
  update_one-Holds now event device_index first input s h =
      let timed =
        if_rule (λ (r : KeySequence × Stage). P r.1) (event.key == Key.timeout && negate first)
          (λ _. update_stage-Holds now device_index event ([], s) h) (λ _. h) in
      pass_events-Holds now device_index first input _ (
        if_rule (λ (r : KeySequence × Stage). P r.1) (negate first && is_virtual_key event.key)
          (λ _. update_stage-Holds now device_index event _ timed) (λ _. timed))

  update_stages-Holds :
      (now : ℕ) (event : KeyEvent) (device_index : ℤ) (first : Bool) (stages : List Stage)
      (input : KeySequence)
      → All P stages
      → All P (update_stages now event device_index first stages input).1
  unfolding update_stages
  update_stages-Holds now event device_index first [] input h = tt
  update_stages-Holds now event device_index first (s ∷ stages) input h = (
    update_one-Holds now event device_index first input s h.0,
    update_stages-Holds now event device_index false stages _ h.1,
  )

  activate_stages-Holds :
      (now : ℕ) (indices : List ℕ) (stages : List Stage) (offset : ℕ) (input : KeySequence)
      → All P stages
      → All P (activate_stages now indices offset stages input).1
  unfolding activate_stages activate_one StageRequests.serve
  activate_stages-Holds now indices [] offset input h = tt
  activate_stages-Holds now indices (s ∷ stages) offset input h = (
    served (StageRequests.client_contexts _) _
        (pass_events-Holds now no_device_index false input ([], s) h.0),
    activate_stages-Holds now indices stages _ _ h.1,
  )

  evaluate-Holds :
      (devices : List DeviceDesc) (m : MultiStage)
      → All P m.stages
      → All P (evaluate_device_filters devices m).stages
  unfolding evaluate_device_filters StageRequests.serve
  evaluate-Holds devices m h = each m.stages h
    where
      each :
          (stages : List Stage)
          → All P stages
          → All P (evaluate_device_filters devices (record m { stages = stages })).stages
      each [] h' = tt
      each (s ∷ stages) h' =
          (served (StageRequests.device_filters devices) s h'.0, each stages h'.1)

  validate-Holds :
      (now : ℕ) (is_down : Key → Bool) (stages : List Stage) (m : MultiStage)
      → m.stages ≡ stages
      → All P stages
      → All P (validate_state now is_down m).stages
  unfolding validate_state StageRequests.serve
  validate-Holds now is_down [] m e h = rw (e, All) tt
  validate-Holds now is_down (s ∷ stages) m e h =
      rw (e, All) (served (StageRequests.validation now is_down) s h.0, h.1)

  pub serve_all-Holds :
      (rs : List Request) (m : MultiStage) → All P m.stages → All P (serve_all rs m).stages
  unfolding serve_all serve update set_active_client_contexts reuse_buffer
  serve_all-Holds [] m h = h
  serve_all-Holds (key_input now event device_index ∷ rs) m h =
      serve_all-Holds rs _ (update_stages-Holds now event device_index true m.stages _ h)
  serve_all-Holds (client_contexts now indices ∷ rs) m h =
      serve_all-Holds rs _ (activate_stages-Holds now indices m.stages 0 _ h)
  serve_all-Holds (validation now is_down ∷ rs) m h =
      serve_all-Holds rs _ (validate-Holds now is_down m.stages m refl h)
  serve_all-Holds (device_filters devices ∷ rs) m h =
      serve_all-Holds rs _ (evaluate-Holds devices m h)
  serve_all-Holds (reused_buffer ∷ rs) m h = serve_all-Holds rs _ h

-- After any requests to a multi-stage with new stages, no stage has a key twice in its pressed
-- outputs.
pub multi_serve_all-Distinct :
    (configurations : List (List Context)) (rs : List Request)
    → All
        (λ (s : Stage). Distinct s.out.output_down)
        (serve_all rs (make_multi_stage (map make_stage configurations))).stages
unfolding make_multi_stage
multi_serve_all-Distinct configurations rs =
    serve_all-Holds (λ (s : Stage). Distinct s.out.output_down) serve-Distinct rs _
      (new configurations)
  where
    new :
        (cs : List (List Context))
        → All (λ (s : Stage). Distinct s.out.output_down) (map make_stage cs)
    new [] = tt
    new (c ∷ cs) = (make_stage-Distinct c, new cs)
