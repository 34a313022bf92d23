-- ===== src/Stage/Distinct.antt =====
-- src/runtime/Stage.cpp: the keys of the pressed outputs.
use keymapper.Prelude.{
  [], ℤ, ◌≡◌, refl, sym, Bool, true, false, ◌&&◌, List, ◌∷◌, Option, none, some, arith, map, ◌==◌,
  negate, if◌then◌else◌, if_rule, option_rule, any, find_if, contains, remove_if, remove_first,
  modify_first, push, subst,
}
use keymapper.Key.{Key, is_common_modifier}
use keymapper.KeyEvent.{KeyState, up, down, not, KeyEvent, KeySequence, key_event}
use keymapper.Stage.State.{Stage, Trigger, OutputDown, Output, Context}
use keymapper.Stage.Outputs.{
  is_output, on_output, update_up, update_not, reapply, Reapplied, press_output, update_down,
  update_output_in, update_output, new_output,
}
use keymapper.Stage.Apply.{reset_suppressed}
use keymapper.Stage.Setup.{make_stage}
use keymapper.Stage.Requests.{Request, serve, serve_all, serve_all-Holds}

abbrev pub keys : List OutputDown → List Key
keys ds = map (λ (d : OutputDown). d.key) ds

abbrev pub NoRepeat : List Key → Type 0
NoRepeat [] = Unit
NoRepeat (k ∷ ks) = (contains k ks ≡ false) × NoRepeat ks

abbrev pub Distinct : List OutputDown → Type 0
Distinct ds = NoRepeat (keys ds)

keys-modify_first :
    (p : OutputDown → Bool) (g : OutputDown → OutputDown) (ds : List OutputDown)
    → ((d : OutputDown) → (g d).key ≡ d.key)
    → keys (modify_first p g ds) ≡ keys ds
unfolding modify_first
keys-modify_first p g [] same = refl
keys-modify_first p g (d ∷ ds) same = ground (arith, same d, keys-modify_first p g ds same)

keys-reapply :
    (key : Key) (ds : List OutputDown) (buffer : KeySequence) (reapplied : Bool)
    → keys (reapply key ds buffer reapplied).downs ≡ keys ds
unfolding reapply
keys-reapply key [] buffer reapplied = refl
keys-reapply key (d ∷ ds) buffer reapplied = ground (
  arith,
  keys-reapply key ds (push buffer (key_event d.key down)) true,
  keys-reapply key ds buffer reapplied,
)

keys-reset_suppressed : (ds : List OutputDown) → keys (reset_suppressed ds) ≡ keys ds
unfolding reset_suppressed
keys-reset_suppressed ds = same (any (λ d. is_common_modifier d.key && negate d.suppressed) ds) ds
  where
    same :
        (keep : Bool) (xs : List OutputDown)
        → keys (
            map
              (λ (d : OutputDown).
                if is_common_modifier d.key && keep then d else record d { suppressed = false })
              xs)
          ≡ keys xs
    same keep [] = refl
    same keep (x ∷ xs) = ground (arith, same keep xs)

contains-remove_if :
    (k : Key) (p : OutputDown → Bool) (ds : List OutputDown)
    → contains k (keys ds) ≡ false
    → contains k (keys (remove_if p ds)) ≡ false
unfolding contains remove_if
contains-remove_if k p [] h = h
contains-remove_if k p (d ∷ ds) h = ground (arith, contains-remove_if k p ds)

contains-remove_first :
    (k : Key) (p : OutputDown → Bool) (ds : List OutputDown)
    → contains k (keys ds) ≡ false
    → contains k (keys (remove_first p ds)) ≡ false
unfolding contains remove_first
contains-remove_first k p [] h = h
contains-remove_first k p (d ∷ ds) h = ground (arith, contains-remove_first k p ds)

remove_if-Distinct :
    (p : OutputDown → Bool) (ds : List OutputDown) → Distinct ds → Distinct (remove_if p ds)
unfolding remove_if
remove_if-Distinct p [] h = tt
remove_if-Distinct p (d ∷ ds) h =
    ground (arith, remove_if-Distinct p ds h.1, contains-remove_if d.key p ds h.0)

remove_first-Distinct :
    (p : OutputDown → Bool) (ds : List OutputDown) → Distinct ds → Distinct (remove_first p ds)
unfolding remove_first
remove_first-Distinct p [] h = tt
remove_first-Distinct p (d ∷ ds) h =
    ground (arith, remove_first-Distinct p ds h.1, contains-remove_first d.key p ds h.0)

contains-push_ne :
    (k : Key) (d : OutputDown) (ds : List OutputDown)
    → (d.key == k) ≡ false
    → contains k (keys ds) ≡ false
    → contains k (keys (push ds d)) ≡ false
unfolding contains
contains-push_ne k d [] n h = ground arith
contains-push_ne k d (x ∷ ds) n h = ground (arith, contains-push_ne k d ds n)

push-Distinct :
    (d : OutputDown) (ds : List OutputDown)
    → find_if (is_output d.key) ds ≡ none
    → Distinct ds
    → Distinct (push ds d)
unfolding find_if contains
push-Distinct d [] e h = (refl, tt)
push-Distinct d (x ∷ ds) e h = ground (arith, push-Distinct d ds, contains-push_ne x.key d ds)

modify_first-Distinct :
    (p : OutputDown → Bool) (g : OutputDown → OutputDown) (ds : List OutputDown)
    → ((d : OutputDown) → (g d).key ≡ d.key)
    → Distinct ds
    → Distinct (modify_first p g ds)
modify_first-Distinct p g ds same h = subst NoRepeat (sym (keys-modify_first p g ds same)) h

update_up-Distinct :
    (event : KeyEvent) (trigger : Trigger) (it : OutputDown) (o : Output)
    → Distinct o.output_down
    → Distinct (update_up event trigger it o).output_down
unfolding update_up
update_up-Distinct event trigger it o h = ground (
  arith,
  modify_first-Distinct (is_output event.key) (λ d. record d { pressed_twice = false })
      o.output_down (λ _. refl) h,
  modify_first-Distinct (is_output event.key) (λ d. record d { temporarily_released = true })
      o.output_down (λ _. refl) h,
  remove_first-Distinct (is_output event.key) o.output_down h,
)

update_not-Distinct :
    (event : KeyEvent) (it : OutputDown) (o : Output)
    → Distinct o.output_down
    → Distinct (update_not event it o).output_down
unfolding update_not
update_not-Distinct event it o h = ground (
  arith,
  modify_first-Distinct (is_output event.key)
      (λ d. record d { temporarily_released = true; suppressed = true }) o.output_down (λ _. refl)
      h,
)

press_output-Distinct :
    (event : KeyEvent) (trigger : Trigger) (context_index : ℤ) (o : Output)
    → Distinct o.output_down
    → Distinct (press_output event trigger context_index o).output_down
unfolding press_output
press_output-Distinct event trigger context_index o h =
    option_rule (λ (x : Output). Distinct x.output_down)
      (find_if (is_output event.key) o.output_down)
      (λ missing.
        ground (
          arith,
          push-Distinct (new_output event.key trigger context_index) o.output_down missing h,
        ))
      λ it _. ground (
        arith,
        modify_first-Distinct (is_output event.key)
            (λ d. record d { temporarily_released = false; pressed_twice = true }) o.output_down
            (λ _. refl) h,
        modify_first-Distinct (is_output event.key)
            (λ d. record d { temporarily_released = false; pressed_twice = false }) o.output_down
            (λ _. refl) h,
      )

update_down-Distinct :
    (event : KeyEvent) (trigger : Trigger) (context_index : ℤ) (o : Output)
    → Distinct o.output_down
    → Distinct (update_down event trigger context_index o).output_down
unfolding update_down
update_down-Distinct event trigger context_index o h =
    let r : Reapplied = reapply event.key o.output_down o.output_buffer o.temporary_reapplied in
    let a : Distinct r.downs =
      subst NoRepeat
        (sym (keys-reapply event.key o.output_down o.output_buffer o.temporary_reapplied)) h in
    if_rule (λ (x : Output). Distinct x.output_down) r.returned (λ _. a)
      (λ _. press_output-Distinct event trigger context_index _ a)

on_output-Distinct :
    (it : Option OutputDown) (o : Output) (f : OutputDown → Output)
    → Distinct o.output_down
    → ((d : OutputDown) → Distinct (f d).output_down)
    → Distinct (on_output it o f).output_down
on_output-Distinct none o f h k = h
on_output-Distinct (some d) o f h k = k d

update_output_in-Distinct :
    (state : KeyState) (event : KeyEvent) (trigger : Trigger) (context_index : ℤ) (o : Output)
    → Distinct o.output_down
    → Distinct (update_output_in state event trigger context_index o).output_down
unfolding update_output_in
update_output_in-Distinct up event trigger context_index o h =
    on_output-Distinct (find_if (is_output event.key) o.output_down) o
      (λ it. update_up event trigger it o) h (λ it. update_up-Distinct event trigger it o h)
update_output_in-Distinct not event trigger context_index o h =
    on_output-Distinct (find_if (is_output event.key) o.output_down) o (λ it. update_not event it o)
      h (λ it. update_not-Distinct event it o h)
update_output_in-Distinct down event trigger context_index o h =
    update_down-Distinct event trigger context_index o h
update_output_in-Distinct _ event trigger context_index o h = h

update_output-Distinct :
    (event : KeyEvent) (trigger : Trigger) (context_index : ℤ) (o : Output)
    → Distinct o.output_down
    → Distinct (update_output event trigger context_index o).output_down
unfolding update_output
update_output-Distinct event = update_output_in-Distinct event.state event

reset-Distinct : (ds : List OutputDown) → Distinct ds → Distinct (reset_suppressed ds)
reset-Distinct ds h = subst NoRepeat (sym (keys-reset_suppressed ds)) h

pub serve-Distinct :
    (r : Request) (s : Stage) → Distinct s.out.output_down → Distinct (serve r s).out.output_down
unfolding serve_all
serve-Distinct r s =
    serve_all-Holds Distinct update_output-Distinct remove_if-Distinct reset-Distinct (r ∷ []) s

pub make_stage-Distinct : (contexts : List Context) → Distinct (make_stage contexts).out.output_down
unfolding make_stage
make_stage-Distinct contexts = tt

-- After any requests to a new stage, no key stands twice in the pressed outputs.
pub serve_all-Distinct :
    (contexts : List Context) (rs : List Request)
    → Distinct (serve_all rs (make_stage contexts)).out.output_down
serve_all-Distinct contexts rs =
    serve_all-Holds Distinct update_output-Distinct remove_if-Distinct reset-Distinct rs
      (make_stage contexts) (make_stage-Distinct contexts)
