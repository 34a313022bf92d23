-- ===== src/MultiStage/Contexts.antt =====
-- src/runtime/MultiStage.cpp: the indices of the client's contexts, and those of each stage.
use keymapper.Prelude.{
  [], ℕ, ◌+◌, ◌≡◌, refl, false, ◌&&◌, List, ◌∷◌, arith, ltb, contains, length, any,
}
use keymapper.KeyEvent.{KeySequence}
use keymapper.Stage.State.{Stage, no_device_index}
use keymapper.Stage.Contexts as StageContexts
use keymapper.Stage.ActiveContexts.{stands_for, contains-active_contexts}
use keymapper.MultiStage.{
  MultiStage, translate, activate_one, activate_stages, set_active_client_contexts, pass_events,
}

-- A stage's index is in the translation if it lies in the stage's range and the client named it.
contains-translate :
    (j first last : ℕ) (indices : List ℕ)
    → contains j (translate first last indices)
      ≡ (ltb (first + j) last && contains (first + j) indices)
unfolding contains translate
contains-translate j first last [] = ground arith
contains-translate j first last (index ∷ indices) =
    ground (arith, contains-translate j first last indices)

-- The contexts that are active are those which one that the client named stands for.
abbrev pub StandsFor : Stage → Type 0
StandsFor s = (j : ℕ) → contains j s.active_contexts ≡ any (stands_for s j) s.active_client_contexts

stage_contexts :
    (indices : List ℕ) (s : Stage)
    → ((StageContexts.set_active_client_contexts indices s).1.active_client_contexts ≡ indices)
      × ((StageContexts.set_active_client_contexts indices s).1.contexts ≡ s.contexts)
unfolding StageContexts.set_active_client_contexts StageContexts.update_active_contexts
    StageContexts.cancel_inactive_output_on_release
stage_contexts indices s = (refl, refl)

set_active_client_contexts-StandsFor :
    (indices : List ℕ) (s : Stage)
    → StandsFor (StageContexts.set_active_client_contexts indices s).1
unfolding StageContexts.set_active_client_contexts StageContexts.update_active_contexts
    StageContexts.cancel_inactive_output_on_release
set_active_client_contexts-StandsFor indices s j =
    contains-active_contexts (record s { active_client_contexts = indices }) j

-- The stages have their contexts one behind the other, from `offset` on. In each stage the contexts of
-- the client are those that it named, and those are active which one of them stands for.
abbrev pub ActiveFrom : List ℕ → ℕ → List Stage → Type 0
ActiveFrom indices offset [] = Unit
ActiveFrom indices offset (s ∷ stages) =
    ((j : ℕ)
      → contains j s.active_client_contexts
        ≡ (ltb j (length s.contexts) && contains (offset + j) indices))
    × StandsFor s
    × ActiveFrom indices (offset + length s.contexts) stages

activate_one-Active :
    (now : ℕ) (indices : List ℕ) (offset : ℕ) (input : KeySequence) (s : Stage) (j : ℕ)
    → contains j (activate_one now indices offset input s).1.active_client_contexts ≡ (
        ltb j (length (activate_one now indices offset input s).1.contexts)
        && contains (offset + j) indices)
unfolding activate_one
activate_one-Active now indices offset input s j =
    let passed : KeySequence × Stage = pass_events now no_device_index false input ([], s) in
    let translated : List ℕ = translate offset (offset + length (passed.1).contexts) indices in
    rw
      (
        (stage_contexts translated passed.1).0,
        (stage_contexts translated passed.1).1,
        contains-translate j offset (offset + length (passed.1).contexts) indices,
      )
      ground arith

activate_one-StandsFor :
    (now : ℕ) (indices : List ℕ) (offset : ℕ) (input : KeySequence) (s : Stage)
    → StandsFor (activate_one now indices offset input s).1
unfolding activate_one
activate_one-StandsFor now indices offset input s = set_active_client_contexts-StandsFor _ _

activate_stages-Active :
    (now : ℕ) (indices : List ℕ) (stages : List Stage) (offset : ℕ) (input : KeySequence)
    → ActiveFrom indices offset (activate_stages now indices offset stages input).1
unfolding activate_stages
activate_stages-Active now indices [] offset input = tt
activate_stages-Active now indices (s ∷ stages) offset input =
    let r : KeySequence × Stage = activate_one now indices offset input s in
    (
      activate_one-Active now indices offset input s,
      activate_one-StandsFor now indices offset input s,
      activate_stages-Active now indices stages (offset + length (r.1).contexts) r.0,
    )

-- After `MultiStage::set_active_client_contexts` each stage has the contexts that the client named,
-- counted from the first context of the stage: no index is lost between two stages or goes to both.
-- Active in a stage are exactly the contexts which one of these stands for: one that fits by its
-- modifiers and devices, and that is this context or, without a device filter, falls through to it.
pub set_active_client_contexts-Active :
    (now : ℕ) (indices : List ℕ) (m : MultiStage)
    → ActiveFrom indices 0 (set_active_client_contexts now indices m).1.stages
unfolding set_active_client_contexts
set_active_client_contexts-Active now indices m =
    activate_stages-Active now indices m.stages 0 m.output_buffer
