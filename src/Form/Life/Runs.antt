-- ===== src/Form/Life/Runs.antt =====
-- What holds while the form of Unit1.cxx and its thread live.
use cosmos_pc.Prelude.{
  pick, ℕ, ◌≤◌, ◌<◌, ◌≡◌, refl, sym, ◌∙◌, Bool-cases, inl, inr, Bool, true, false, some, List,
  arith, length, ◌==◌,
}
use mathlib.Core.Path.{subst}
use mathlib.Core.Option
use mathlib.Core.Bool.{true≢false}
use cosmos_pc.Os.{IsLawful}
use cosmos_pc.Ymodem.Transmit.{user_flash_size}
use cosmos_pc.Form.{FormOs, Form}
use cosmos_pc.Form.Messages.{message_init, message_clear}
use cosmos_pc.Form.Choice.{button1_click}
use cosmos_pc.Form.Reading.{IsFed}
use cosmos_pc.Form.Settled.{Settled, back, handed, button1_click-IsSettled}
use cosmos_pc.Form.Released.{process_update-Released}
use cosmos_pc.Form.Life.{
  Worker, tests, waits, updates, enables, over, Life, thread_init, new_form, thread_close,
  form_close, close_timer, execute, clicked, Event, clicks, closes, ticks, wakes, goes,
  update_first, Events, here, next,
}

abbrev pub IsIdle : Worker → Type 0
IsIdle tests = Unit
IsIdle waits = Unit
IsIdle updates = ⊥
IsIdle enables = Unit
IsIdle over = Unit

-- The image is whole, and the button is disabled.
pub record IsReady {x : FormOs} (t : Form x) : Type 0 where
  pub button : t.button_enabled ≡ false
  pub whole : length t.image_data ≡ t.image_length
  pub fits : t.image_length ≤ user_flash_size

-- How far an update is: there is none, and the button is enabled; or the event is set; or the thread is at it.
pub data Stage {x : FormOs} (t : Form x) (signalled : Bool) (w : Worker) : Type 0 where
  none_asked : t.button_enabled ≡ true → signalled ≡ false → IsIdle w → Stage t signalled w
  asked : IsReady t → signalled ≡ true → IsIdle w → Stage t signalled w
  running : IsReady t → signalled ≡ false → w ≡ updates → Stage t signalled w

-- How far the closing is.
pub data Closing {x : FormOs} (s : Life x) : Type 0 where
  lives :
      s.terminated ≡ false
      → s.has_thread ≡ true
      → s.event_open ≡ true
      → s.timer_enabled ≡ false
      → s.closed ≡ false
      → Closing s
  ending : s.terminated ≡ true → Closing s

pub record IsOrdered {x : FormOs} (s : Life x) : Type 0 where
  pub stage : Stage s.form s.signalled s.worker
  pub closing : Closing s

idle-updates : {w : Worker} → IsIdle w → w ≡ updates → ⊥
idle-updates idle e = subst IsIdle e idle

module _ {x : FormOs} where
  form_close-IsOrdered : (s : Life x) → IsOrdered s → IsOrdered (form_close s)
  unfolding form_close thread_close
  form_close-IsOrdered s inv = elim (Bool-cases s.has_thread) [
    | inl there ↦ rw (there, form_close) (record { stage = inv.stage; closing = ending refl })
    | inr gone ↦
        rw (gone, form_close)
          (elim inv.closing [
            | lives e there e2 e3 e4 ↦ absurd (true≢false (sym there ∙ gone))
            | ending e ↦ record { stage = inv.stage; closing = ending e }
          ])
  ]

  close_timer-IsOrdered :
      (s : Life x) → s.timer_enabled ≡ true → IsOrdered s → IsOrdered (close_timer s)
  unfolding close_timer form_close
  close_timer-IsOrdered s on inv = elim inv.closing [
    | lives e there e2 off e4 ↦ absurd (true≢false (sym on ∙ off))
    | ending e ↦ record { stage = inv.stage; closing = ending e }
  ]

  clicked-Stage :
      (s : Life x) (t : Form x)
      → Settled s.form.events t
      → s.form.button_enabled ≡ true
      → Stage s.form s.signalled s.worker
      → Stage t (clicked s t).signalled s.worker
  clicked-Stage s t settled on (asked ready set idle) = absurd (true≢false (sym on ∙ ready.button))
  clicked-Stage s t settled on (running ready reset e) = absurd (true≢false (sym on ∙ ready.button))
  clicked-Stage s t (back button combo same) on (none_asked enabled reset idle) =
      let unset : (t.events == s.form.events) ≡ true = ground (arith, same) in
      none_asked button (rw unset reset) idle
  clicked-Stage s t (handed button combo set whole fits) on (none_asked enabled reset idle) =
      let counted : (t.events == s.form.events) ≡ false = ground (arith, set) in
      asked (record { button = button; whole = whole; fits = fits }) (rw counted refl) idle

  clicked-IsOrdered :
      (s : Life x) (t : Form x)
      → Settled s.form.events t
      → s.form.button_enabled ≡ true
      → IsOrdered s
      → IsOrdered (clicked s t)
  clicked-IsOrdered s t settled on inv = record {
    stage = clicked-Stage s t settled on inv.stage;
    closing = elim inv.closing [ lives a b c d e ↦ lives a b c d e | ending e ↦ ending e ];
  }

  -- The thread goes from one place to another without the event.
  moved-Stage :
      (t : Form x) (b : Bool) (w w' : Worker) → IsIdle w → IsIdle w' → Stage t b w → Stage t b w'
  moved-Stage t b w w' from to (none_asked button reset idle) = none_asked button reset to
  moved-Stage t b w w' from to (asked ready set idle) = asked ready set to
  moved-Stage t b w w' from to (running ready reset e) = absurd (idle-updates from e)

  woken-Stage :
      (t : Form x) (b : Bool) (w : Worker) → b ≡ true → Stage t b w → Stage t false updates
  woken-Stage t b w e (none_asked button reset idle) = absurd (true≢false (sym e ∙ reset))
  woken-Stage t b w e (asked ready set idle) = running ready refl refl
  woken-Stage t b w e (running ready reset e') = absurd (true≢false (sym e ∙ reset))

  -- The box plays no part.
  combo-Stage :
      (t : Form x) (b c : Bool) (w : Worker)
      → Stage t b w
      → Stage (record t { combo_enabled = c }) b w
  combo-Stage t b c w (none_asked button reset idle) = none_asked button reset idle
  combo-Stage t b c w (asked ready set idle) =
      asked (record { button = ready.button; whole = ready.whole; fits = ready.fits }) set idle
  combo-Stage t b c w (running ready reset e) =
      running (record { button = ready.button; whole = ready.whole; fits = ready.fits }) reset e

  running-unset : (t : Form x) (b : Bool) (w : Worker) → w ≡ updates → Stage t b w → b ≡ false
  running-unset t b w e (none_asked button reset idle) = reset
  running-unset t b w e (asked ready set idle) = absurd (idle-updates idle e)
  running-unset t b w e (running ready reset e') = reset

module _ {x : FormOs} (fuel item_index : ℕ) (port_text : List ℕ)
    (transmit : List ℕ → List ℕ → ℕ → Form x → ℕ × Form x) where
  again :
      {s t : Life x}
      → t.terminated ≡ s.terminated
      → t.has_thread ≡ s.has_thread
      → t.event_open ≡ s.event_open
      → t.timer_enabled ≡ s.timer_enabled
      → t.closed ≡ s.closed
      → Closing s
      → Closing t
  again ea eb ec ed ee (lives a b c d e) = lives (ea ∙ a) (eb ∙ b) (ec ∙ c) (ed ∙ d) (ee ∙ e)
  again ea eb ec ed ee (ending e) = ending (ea ∙ e)

  execute-IsOrdered :
      (w : Worker) (woken : Bool) (s : Life x)
      → s.worker ≡ w
      → ((w ≡ waits) → woken ≡ true → s.signalled ≡ true)
      → IsOrdered s
      → IsOrdered (execute fuel item_index port_text transmit w woken s)
  unfolding execute update_first
  execute-IsOrdered tests woken s e can inv =
      let idle = subst IsIdle (sym e) tt in
      pick IsOrdered s.terminated
        (record {
          stage = moved-Stage s.form s.signalled s.worker over idle tt inv.stage;
          closing = again refl refl refl refl refl inv.closing;
        })
        (record {
          stage = moved-Stage s.form s.signalled s.worker waits idle tt inv.stage;
          closing = again refl refl refl refl refl inv.closing;
        })
  execute-IsOrdered waits true s e can inv = record {
    stage = woken-Stage s.form s.signalled s.worker (can refl refl) inv.stage;
    closing = again refl refl refl refl refl inv.closing;
  }
  execute-IsOrdered waits false s e can inv = record {
    stage = moved-Stage s.form s.signalled s.worker tests (subst IsIdle (sym e) tt) tt inv.stage;
    closing = again refl refl refl refl refl inv.closing;
  }
  execute-IsOrdered updates woken s e can inv = record {
    stage =
        none_asked (process_update-Released item_index port_text transmit s.form).button
          (running-unset s.form s.signalled s.worker e inv.stage) tt;
    closing = again refl refl refl refl refl inv.closing;
  }
  execute-IsOrdered enables woken s e can inv = record {
    stage =
        combo-Stage s.form s.signalled true tests
          (moved-Stage s.form s.signalled s.worker tests (subst IsIdle (sym e) tt) tt inv.stage);
    closing = again refl refl refl refl refl inv.closing;
  }
  execute-IsOrdered over woken s e can inv = inv

  module _ (lawful : IsLawful x.os) (fed : IsFed x.os) (enough : user_flash_size < fuel) where
    click-Settled : (s t : Form x) → button1_click fuel s ≡ some t → Settled s.events t
    click-Settled s t e =
        let done = button1_click-IsSettled fuel s lawful fed enough in
        subst (Settled s.events) (Option.some-injective done.final t (sym done.returns ∙ e))
          done.settled

    Event-IsOrdered :
        {s t : Life x} → Event fuel item_index port_text transmit s t → IsOrdered s → IsOrdered t
    Event-IsOrdered (clicks s t there on e) inv =
        clicked-IsOrdered s t (click-Settled s.form t e) on inv
    Event-IsOrdered (closes s) inv = form_close-IsOrdered s inv
    Event-IsOrdered (ticks s on) inv = close_timer-IsOrdered s on inv
    Event-IsOrdered (wakes s set) inv = execute-IsOrdered s.worker true s refl (λ e on. set) inv
    Event-IsOrdered (goes s unset) inv =
        execute-IsOrdered s.worker false s refl (λ e on. absurd (true≢false (sym on))) inv

    Events-IsOrdered :
        {s t : Life x} → Events fuel item_index port_text transmit s t → IsOrdered s → IsOrdered t
    Events-IsOrdered here inv = inv
    Events-IsOrdered (next path e) inv = Event-IsOrdered e (Events-IsOrdered path inv)

    new_form-IsOrdered :
        (max_length : ℕ) (s : Life x)
        → s.form.button_enabled ≡ true
        → s.timer_enabled ≡ false
        → s.closed ≡ false
        → IsOrdered (new_form max_length s)
    unfolding new_form thread_init message_init message_clear
    new_form-IsOrdered max_length s button timer closed = record {
      stage = none_asked button refl tt;
      closing = lives refl refl refl timer closed;
    }

    -- On a system whose reads give no more than they are asked for, and at least a byte as long as one is
    -- asked for, with more rounds than the flash has bytes: whatever the user, the timer and the thread do
    -- after the form was made, with its button enabled, its timer disabled and itself open, in every state either
    -- no update is asked for or running and the button is enabled, or one is asked for or running, never both,
    -- the button is disabled, the image is as long as its file was, and it fits the flash. And the thread
    -- was told to end, or the form, the event and the thread are all there. The box for the port plays no
    -- part: a click may come before the thread enables it.
    pub life-IsOrdered :
        (max_length : ℕ) (s : Life x) {t : Life x}
        → s.form.button_enabled ≡ true
        → s.timer_enabled ≡ false
        → s.closed ≡ false
        → Events fuel item_index port_text transmit (new_form max_length s) t
        → IsOrdered t
    life-IsOrdered max_length s button timer closed path =
        Events-IsOrdered path (new_form-IsOrdered max_length s button timer closed)
