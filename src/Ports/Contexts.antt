-- ===== src/Ports/Contexts.antt =====
-- src/client/ServerPort.cpp and src/server/ClientPort.cpp: contexts with their stages.
use mathlib.Core.List.{append_assoc, map-append}
use keymapper.Prelude.{
  suc, ◌≡◌, refl, sym, ap, subst, ◌∙◌, Bool, true, false, List, [], ◌∷◌, ◌++◌, map, length, All,
  push,
}
use keymapper.Stage.State.{Input, CommandOutput, Context, Stage, all_device_bits}
use keymapper.Stage.Setup.{make_stage}
use keymapper.MultiStage.{make_multi_stage}
use keymapper.Config
use keymapper.Connection.{Bytes, write_all, write_bool, write_each}
use keymapper.Connection.Reads.{
  IsInt32, IsSize, Reads, at_last, nothing_read, read_bool-Reads, read_int-Reads, read_u32-Reads,
  bind-Reads,
}
use keymapper.Ports.Encoding.{
  StdRegex, Stages, add_context, end_stage, read_command, read_context, read_input,
  read_key_sequence, read_stage_loop, read_stages, write_command, write_context, write_contexts,
  write_filter, write_input, write_key_sequence,
}
use keymapper.Ports.Reads.{
  IsWireFilter, IsWireSequence, read_filter-Reads, read_key_sequence-Reads, read_same-Reads,
  read_through, sent_filter,
}

abbrev pub IsWireInput : Input → Type 0
IsWireInput input = IsWireSequence input.input × IsInt32 input.output_index

abbrev pub IsWireCommand : CommandOutput → Type 0
IsWireCommand command = IsWireSequence command.output × IsInt32 command.index

-- The sizes and numbers of a context can be written, and its regular expressions be made.
pub record IsWireContext (std_regex : StdRegex) (c : Config.Context) : Type 0 where
  pub inputs : IsSize (length c.inputs) × All IsWireInput c.inputs
  pub outputs : IsSize (length c.outputs) × All IsWireSequence c.outputs
  pub commands : IsSize (length c.command_outputs) × All IsWireCommand c.command_outputs
  pub device : IsWireFilter std_regex c.device_filter
  pub device_id : IsWireFilter std_regex c.device_id_filter
  pub modifiers : IsWireSequence c.modifier_filter

read_input-Reads : (input : Input) → IsWireInput input → Reads read_input (write_input input) input
unfolding read_input write_input
read_input-Reads input h =
    bind-Reads _ (read_key_sequence-Reads input.input h.0)
      (at_last _ (read_int-Reads input.output_index h.1))

read_command-Reads :
    (command : CommandOutput)
    → IsWireCommand command
    → Reads read_command (write_command command) command
unfolding read_command write_command
read_command-Reads command h =
    bind-Reads _ (read_key_sequence-Reads command.output h.0)
      (at_last _ (read_int-Reads command.index h.1))

-- The context as the server has it.
abbrev pub sent_context : StdRegex → Config.Context → Context
sent_context std_regex c = record {
  inputs = c.inputs;
  outputs = c.outputs;
  command_outputs = c.command_outputs;
  device_filter = sent_filter std_regex c.device_filter;
  device_id_filter = sent_filter std_regex c.device_id_filter;
  modifier_filter = c.modifier_filter;
  matching_device_bits = all_device_bits;
  invert_modifier_filter = c.invert_modifier_filter;
  fallthrough = c.fallthrough;
}

-- The bytes of a context behind the mark.
abbrev context_bytes : Config.Context → Bytes
context_bytes c =
    write_all write_input c.inputs
    ++ (write_all write_key_sequence c.outputs
        ++ (write_all write_command c.command_outputs
            ++ (write_filter c.device_filter
                ++ (write_filter c.device_id_filter
                    ++ (write_key_sequence c.modifier_filter
                        ++ (write_bool c.invert_modifier_filter ++ write_bool c.fallthrough))))))

read_context-Reads :
    (std_regex : StdRegex) (c : Config.Context)
    → IsWireContext std_regex c
    → Reads (read_context std_regex) (context_bytes c) (sent_context std_regex c)
unfolding read_context
read_context-Reads std_regex c h =
    bind-Reads _
      (read_same-Reads IsWireInput read_input write_input read_input-Reads c.inputs h.inputs.0
        h.inputs.1)
      (bind-Reads _
        (read_same-Reads IsWireSequence read_key_sequence write_key_sequence read_key_sequence-Reads
          c.outputs h.outputs.0 h.outputs.1)
        (bind-Reads _
          (read_same-Reads IsWireCommand read_command write_command read_command-Reads
            c.command_outputs h.commands.0 h.commands.1)
          (bind-Reads _ (read_filter-Reads std_regex c.device_filter h.device) (
            bind-Reads _ (read_filter-Reads std_regex c.device_id_filter h.device_id) (
              bind-Reads _ (read_key_sequence-Reads c.modifier_filter h.modifiers) (
                bind-Reads _ (read_bool-Reads c.invert_modifier_filter)
                  (at_last _ (read_bool-Reads c.fallthrough))))))))

-- The stages of a configuration: one begins with the first context, and with each context that has
-- the mark.
abbrev starts : List Config.Context → Bool
starts [] = true
starts (c ∷ contexts) = c.begin_stage

abbrev attach {ℓ} : {A : Type ℓ} → List A → Bool → List (List A) → List (List A)
attach front true groups = front ∷ groups
attach front false [] = front ∷ []
attach front false (group ∷ groups) = (front ++ group) ∷ groups

abbrev pub split_stages : List Config.Context → List (List Config.Context)
split_stages [] = []
split_stages (c ∷ contexts) = attach (c ∷ []) (starts contexts) (split_stages contexts)

abbrev pub sent_stages : StdRegex → List (List Config.Context) → List Stage
sent_stages std_regex =
    map (λ (group : List Config.Context). make_stage (map (sent_context std_regex) group))

-- All contexts are added.
abbrev add_contexts : StdRegex → List Config.Context → Stages → Stages
add_contexts std_regex [] s = s
add_contexts std_regex (c ∷ contexts) s =
    add_contexts std_regex contexts (add_context s c.begin_stage (sent_context std_regex c))

read_stage_loop-Reads :
    (std_regex : StdRegex) (contexts : List Config.Context) (s : Stages)
    → All (IsWireContext std_regex) contexts
    → Reads
        (read_stage_loop std_regex (length contexts) s)
        (write_each write_context contexts)
        (add_contexts std_regex contexts s)
unfolding read_stage_loop write_each write_context
read_stage_loop-Reads std_regex [] s h = nothing_read
read_stage_loop-Reads std_regex (c ∷ contexts) s h =
    subst
      (λ (w : Bytes).
        Reads (read_stage_loop std_regex (suc (length contexts)) s) w
          (add_contexts std_regex (c ∷ contexts) s))
      (sym (
        append_assoc (write_bool c.begin_stage) (context_bytes c)
          (write_each write_context contexts)))
      (bind-Reads _ (read_bool-Reads c.begin_stage) (
        bind-Reads _ (read_context-Reads std_regex c h.0)
          (read_stage_loop-Reads std_regex contexts _ h.1)))

attach-attach :
    {A : Type 0} (f g : List A) (b : Bool) (groups : List (List A))
    → attach f false (attach g b groups) ≡ attach (f ++ g) b groups
attach-attach f g true groups = refl
attach-attach f g false [] = refl
attach-attach f g false (h ∷ groups) = ap (λ (l : List _). l ∷ groups) (sym (append_assoc f g h))

module _ (std_regex : StdRegex) where
  abbrev sent : List Config.Context → List Context
  sent = map (sent_context std_regex)

  -- The stages where the contexts of one, `front`, have been read.
  abbrev Begun : List Config.Context → List Stage → List Config.Context → Type 0
  Begun contexts stages front =
      end_stage
        (add_contexts std_regex contexts (record { stages = stages; contexts = sent front }))
      ≡ stages ++ sent_stages std_regex (attach front (starts contexts) (split_stages contexts))

  -- The next context begins a stage or belongs to the one before.
  next-Begun :
      (b : Bool) (d : Config.Context) (contexts : List Config.Context) (stages : List Stage)
      (c : Config.Context) (others : List Config.Context)
      → Begun contexts (push stages (make_stage (sent (c ∷ others)))) (d ∷ [])
      → Begun contexts stages (c ∷ others ++ d ∷ [])
      → end_stage (
          add_contexts std_regex contexts (
            add_context
              (record { stages = stages; contexts = sent (c ∷ others) })
              b
              (sent_context std_regex d)))
        ≡ stages
          ++ sent_stages std_regex
              (attach (c ∷ others) b (attach (d ∷ []) (starts contexts) (split_stages contexts)))
  next-Begun true d contexts stages c others begins goes_on =
      begins ∙ append_assoc stages (make_stage (sent (c ∷ others)) ∷ []) _
  next-Begun false d contexts stages c others begins goes_on =
      ap
        (λ (l : List Context). end_stage (
          add_contexts std_regex contexts
            (record { stages = stages; contexts = sent_context std_regex c ∷ l })))
        (sym (map-append (sent_context std_regex) others (d ∷ [])))
      ∙ goes_on
      ∙ ap (λ (groups : List (List Config.Context)). stages ++ sent_stages std_regex groups)
          (sym (attach-attach (c ∷ others) (d ∷ []) (starts contexts) (split_stages contexts)))

  end_stage-Begun :
      (contexts : List Config.Context) (stages : List Stage) (c : Config.Context)
      (others : List Config.Context)
      → Begun contexts stages (c ∷ others)
  end_stage-Begun [] stages c others = refl
  end_stage-Begun (d ∷ contexts) stages c others =
      next-Begun d.begin_stage d contexts stages c others
        (end_stage-Begun contexts (push stages (make_stage (sent (c ∷ others)))) d [])
        (end_stage-Begun contexts stages c (others ++ d ∷ []))

  -- Before the first context no stage is ended.
  first_context :
      (b : Bool) (context : Context)
      → add_context (record { stages = []; contexts = [] }) b context
        ≡ record { stages = []; contexts = context ∷ [] }
  first_context true context = refl
  first_context false context = refl

  end_stage-split :
      (contexts : List Config.Context)
      → end_stage (add_contexts std_regex contexts (record { stages = []; contexts = [] }))
        ≡ sent_stages std_regex (split_stages contexts)
  end_stage-split [] = refl
  end_stage-split (c ∷ contexts) =
      ap (λ (s : Stages). end_stage (add_contexts std_regex contexts s))
        (first_context c.begin_stage (sent_context std_regex c))
      ∙ end_stage-Begun contexts [] c []

  pub read_stages-Reads :
      (contexts : List Config.Context)
      → IsSize (length contexts)
      → All (IsWireContext std_regex) contexts
      → Reads
          (read_stages std_regex)
          (write_contexts contexts)
          (make_multi_stage (sent_stages std_regex (split_stages contexts)))
  unfolding read_stages write_contexts write_all
  read_stages-Reads contexts size h = bind-Reads _ (read_u32-Reads (length contexts) size) (
      read_through (λ (s : Stages). make_multi_stage (end_stage s))
        (ap make_multi_stage (end_stage-split contexts))
        (read_stage_loop-Reads std_regex contexts _ h))
