-- ===== src/Stage/PassThrough/Idle.antt =====
-- src/runtime/Stage.cpp: a stage that maps nothing, and the same with one key pressed.
use keymapper.Prelude.{[], ◌≡◌, false, ◌∷◌}
use keymapper.KeyEvent.{key_event, down_matched}
use keymapper.Stage.Setup.{no_output}
use keymapper.Stage.State.{no_context_index, Stage, by_key}
use keymapper.Key.{Key}
use keymapper.Stage.Outputs.{new_output}

-- No context is active, and nothing is pressed.
abbrev pub idle : Stage → Stage
idle s = record s {
  has_no_might_match_mapping = false;
  active_client_contexts = [];
  active_contexts = [];
  sequence = [];
  sequence_might_match = false;
  history = [];
  out = no_output;
}

abbrev pub pressed : Key → Stage → Stage
pressed k s = record (idle s) {
  sequence = key_event k down_matched ∷ [];
  out = record no_output { output_down = new_output k (by_key k) no_context_index ∷ [] };
}

-- No context is active, nothing is held or awaited, and no mapping looks back.
abbrev pub IsIdle : Stage → Type 0
IsIdle s = s ≡ idle s
