-- ===== src/ClientState/Contexts.antt =====
-- src/client/ClientState.cpp: the contexts that are active for the focused window.
use keymapper.Prelude.{
  ℕ, zero, suc, ◌+◌, ◌≡◌, refl, ◌∙◌, ap, sym, ◌<◌, Bool, true, false, ◌&&◌, List, [], ◌∷◌, Option,
  none, some, ◌==◌, negate, contains, get_elem?, arith, if_rule, ==_iff, and_parts, is_empty,
}
use keymapper.Config
use keymapper.Config.{Context}
use keymapper.ClientState.{
  ClientState, Window, matching_contexts, same_contexts, evaluate_contexts, update_active_contexts,
}

abbrev pub matches_window : Window → Option Context → Bool
matches_window window none = false
matches_window window (some context) =
    Config.matches context window.window_class window.window_title window.window_path

-- The window that is focused on behind an update.
abbrev pub focused : Option Window → Window → Window
focused none window = window
focused (some window) old = window

-- Whether no change of the window is detected.
abbrev pub is_none : Option Window → Bool
is_none none = true
is_none (some window) = false

contains-matching_lt :
    (i j : ℕ) (window : Window) (contexts : List Context)
    → j < i
    → contains j (matching_contexts i window contexts) ≡ false
unfolding matching_contexts contains
contains-matching_lt i j window [] l = refl
contains-matching_lt i j window (context ∷ contexts) l =
    ground (arith, l, contains-matching_lt (suc i) j window contexts)

contains-matching :
    (i j : ℕ) (window : Window) (contexts : List Context)
    → contains (i + j) (matching_contexts i window contexts)
      ≡ matches_window window (get_elem? contexts j)
unfolding matching_contexts contains
contains-matching i j window [] = refl
contains-matching i zero window (context ∷ contexts) =
    ground (arith, contains-matching_lt (suc i) i window contexts (omega arith))
contains-matching i (suc j) window (context ∷ contexts) =
    ground (arith, contains-matching (suc i) j window contexts)

same_contexts-eq : (left right : List ℕ) → same_contexts left right ≡ true → left ≡ right
same_contexts-eq [] [] h = refl
same_contexts-eq [] (b ∷ right) h = cc
same_contexts-eq (a ∷ left) [] h = cc
same_contexts-eq (a ∷ left) (b ∷ right) h =
    let (first, others) = and_parts (a == b) (same_contexts left right) h in
    ap (λ (x : ℕ). x ∷ left) ((==_iff a b).0 first)
    ∙ ap (λ (xs : List ℕ). b ∷ xs) (same_contexts-eq left right others)

evaluate_contexts-matching :
    (s : ClientState)
    → (evaluate_contexts s).1.active_contexts
      ≡ matching_contexts 0 s.focused_window s.config.contexts
evaluate_contexts-matching s =
    if_rule Matching
      (same_contexts (matching_contexts 0 s.focused_window s.config.contexts) s.active_contexts)
      (λ same. sym (same_contexts-eq _ s.active_contexts same)) (λ _. refl)
  where
    Matching : Bool × ClientState → Type 0
    Matching r = r.1.active_contexts ≡ matching_contexts 0 s.focused_window s.config.contexts

matching :
    (s : ClientState) (index : ℕ)
    → contains index (evaluate_contexts s).1.active_contexts
      ≡ matches_window s.focused_window (get_elem? s.config.contexts index)
matching s index =
    ap (contains index) (evaluate_contexts-matching s)
    ∙ ap (λ (i : ℕ). contains i (matching_contexts 0 s.focused_window s.config.contexts)) from_zero
    ∙ contains-matching 0 index s.focused_window s.config.contexts
  where
    from_zero : index ≡ 0 + index
    from_zero = omega arith

abbrev MatchesAt : Window → ClientState → ℕ → Bool × ClientState → Type 0
MatchesAt window s index r =
    contains index r.1.active_contexts ≡ matches_window window (get_elem? s.config.contexts index)

-- When the client is active, and the update is forced, or the focused window has changed, or no context
-- is active before, then exactly the contexts that match the focused window are active behind it.
pub update_active_contexts-matching :
    (update : Option Window) (force : Bool) (s : ClientState) (index : ℕ)
    → s.active ≡ true
    → (is_none update && (negate (is_empty s.active_contexts) && negate force)) ≡ false
    → contains index (update_active_contexts update force s).1.active_contexts
      ≡ matches_window (focused update s.focused_window) (get_elem? s.config.contexts index)
unfolding update_active_contexts
update_active_contexts-matching none force s index a f =
    if_rule (MatchesAt s.focused_window s index) (negate s.active) (λ n. ground (arith, a, n))
      (λ _.
        if_rule (MatchesAt s.focused_window s index)
          (negate (is_empty s.active_contexts) && negate force) (λ t. ground (arith, t, f))
          (λ _. matching s index))
update_active_contexts-matching (some window) force s index a f =
    if_rule (MatchesAt window s index) (negate s.active) (λ n. ground (arith, a, n))
      (λ _. matching (record s { focused_window = window }) index)
