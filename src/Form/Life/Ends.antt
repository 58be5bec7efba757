-- ===== src/Form/Life/Ends.antt =====
-- How the form of Unit1.cxx is closed while an update is asked for.
use cosmos_pc.Prelude.{ℕ, ◌≡◌, refl, sym, ap, true, false, List}
use mathlib.Core.Path.{subst}
use cosmos_pc.Form.{FormOs, Form}
use cosmos_pc.Form.Update.{process_update}
use cosmos_pc.Form.Released.{process_update-Released}
use cosmos_pc.Form.Life.{
  waits, updates, Life, thread_close, form_close, close_timer, update_first, execute, Event, closes,
  ticks, wakes, Events, here, next,
}

module _ {x : FormOs} (fuel item_index : ℕ) (port_text : List ℕ)
    (transmit : List ℕ → List ℕ → ℕ → Form x → ℕ × Form x) where
  -- The two pieces of `Process_Update` are all of it.
  update_first-whole :
      (f : Form x)
      → record (update_first fuel item_index port_text transmit f) { combo_enabled = true }
        ≡ process_update item_index port_text transmit f
  unfolding update_first
  update_first-whole f =
      let t = process_update item_index port_text transmit f in
      ap (λ b. let u : Form x = record t { combo_enabled = b } in u)
        (sym (process_update-Released item_index port_text transmit f).combo)

  -- What `FormClose` leaves when there is a thread, and then the thread when it was woken.
  abbrev asked_to_end : Life x → Life x
  asked_to_end s = record s { terminated = true; timer_enabled = true }

  abbrev woken_late : Life x → Life x
  woken_late s = record (asked_to_end s) { signalled = false; worker = updates }

  form_close-thread : (s : Life x) → s.has_thread ≡ true → form_close s ≡ asked_to_end s
  unfolding form_close thread_close
  form_close-thread s there = simp (there, form_close, thread_close)

  execute-late :
      (s : Life x)
      → s.worker ≡ waits
      → execute fuel item_index port_text transmit s.worker true (asked_to_end s) ≡ woken_late s
  unfolding execute
  execute-late s e = ap (λ w. execute fuel item_index port_text transmit w true (asked_to_end s)) e

  -- The thread waits and the event was just set. Then this can happen: `FormClose`, which asks the thread to
  -- end; the thread is woken all the same, to go to `Process_Update`; the timer that `FormClose` enabled. The
  -- form and the event are closed then, no thread is known of any more, and the update is still to run, on the
  -- form as it was.
  pub closes_while_updating :
      (s : Life x)
      → s.has_thread ≡ true
      → s.worker ≡ waits
      → s.signalled ≡ true
      → (t : Life x) × Events fuel item_index port_text transmit s t
        × (t.worker ≡ updates)
        × (t.terminated ≡ true)
        × (t.closed ≡ true)
        × (t.event_open ≡ false)
        × (t.has_thread ≡ false)
        × (t.form ≡ s.form)
  unfolding close_timer form_close
  closes_while_updating s there e set =
      let E = Event fuel item_index port_text transmit in
      let closing : E s (asked_to_end s) =
        subst (λ u. E s u) (form_close-thread s there) (closes s) in
      let waking : E (asked_to_end s) (woken_late s) =
        subst (λ u. E (asked_to_end s) u) (execute-late s e) (wakes (asked_to_end s) set) in
      (
        close_timer (woken_late s),
        next (next (next here closing) waking) (ticks (woken_late s) refl),
        refl,
        refl,
        refl,
        refl,
        refl,
        refl,
      )
