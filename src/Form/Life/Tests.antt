-- ===== src/Form/Life/Tests.antt =====
-- The form of Unit1.cxx on a computer whose files hold ten bytes: a click, the thread, and the closing.
use cosmos_pc.Prelude.{ℕ, ◌≡◌, ◌≢◌, refl, sym, ◌∙◌, inr, true, false, List, [], ◌∷◌, arith}
use mathlib.Core.Path.{subst}
use cosmos_pc.Form.{Form}
use cosmos_pc.Form.Messages.{message_init, message_clear}
use cosmos_pc.Form.Choice.{button1_click}
use cosmos_pc.Form.Settled.{IsSettled, button1_click-IsSettled}
use cosmos_pc.Form.Tests.{desk, form, giving-IsLawful, giving-IsFed}
use cosmos_pc.Form.Life.{
  Worker, tests, waits, updates, enables, over, Life, thread_init, new_form, form_close, execute,
  clicked, clicks, closes, goes, Events, here, next,
}
use cosmos_pc.Form.Life.Runs.{IsOrdered, life-IsOrdered}
use cosmos_pc.Form.Life.Ends.{closes_while_updating}

abbrev born : Life desk
born = record {
  form = form;
  worker = over;
  signalled = false;
  event_open = false;
  has_thread = false;
  terminated = false;
  timer_enabled = false;
  closed = false;
}

abbrev com3 : List ℕ
com3 = b'C' ∷ b'O' ∷ b'M' ∷ b'3' ∷ []

abbrev sending : List ℕ → List ℕ → ℕ → Form desk → ℕ × Form desk
sending image name size t = (0, t)

abbrev made : Life desk
made = new_form 200 born

abbrev click : IsSettled made.form.events (button1_click 1000000 made.form)
click = button1_click-IsSettled 1000000 made.form giving-IsLawful giving-IsFed (omega arith)

abbrev after_click : Life desk
after_click = clicked made click.final

-- The thread has tested `Terminated`.
abbrev waiting : Life desk
waiting = execute 1000000 2 com3 sending tests false after_click

made-tests : made.worker ≡ tests
unfolding new_form thread_init message_init message_clear
made-tests = refl

made-enabled : made.form.button_enabled ≡ true
unfolding new_form thread_init message_init message_clear
made-enabled = refl

abbrev IsTesting : Worker → Type 0
IsTesting tests = Unit
IsTesting waits = ⊥
IsTesting updates = Unit
IsTesting enables = Unit
IsTesting over = Unit

tests_not_waiting : (w : Worker) → w ≡ tests → w ≢ waits
tests_not_waiting w e same = subst IsTesting (sym e ∙ same) tt

waiting-Events : Events 1000000 2 com3 sending made (form_close waiting)
unfolding new_form thread_init
waiting-Events =
    let clicking = next here (clicks made click.final refl made-enabled click.returns) in
    let testing = goes after_click (inr (inr (tests_not_waiting made.worker made-tests))) in
    let reached =
      subst
        (λ w.
          Events 1000000 2 com3 sending made (execute 1000000 2 com3 sending w false after_click))
        made-tests (next clicking testing) in
    next reached (closes waiting)

life-IsOrdered_example : IsOrdered (form_close waiting)
life-IsOrdered_example =
    life-IsOrdered 1000000 2 com3 sending giving-IsLawful giving-IsFed (omega arith) 200 born
      {t = form_close waiting} refl refl refl waiting-Events

abbrev pressed : Life desk
pressed = record born { has_thread = true; event_open = true; signalled = true; worker = waits }

closes_while_updating_example :
    (t : Life desk) × Events 1000000 2 com3 sending pressed t
    × (t.worker ≡ updates)
    × (t.terminated ≡ true)
    × (t.closed ≡ true)
    × (t.event_open ≡ false)
    × (t.has_thread ≡ false)
    × (t.form ≡ form)
closes_while_updating_example = closes_while_updating 1000000 2 com3 sending pressed refl refl refl
