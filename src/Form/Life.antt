-- ===== src/Form/Life.antt =====
-- The life of the form of Unit1.cxx and of its thread: the constructors, `Thread_Init`, `Thread_Close`,
-- `FormClose`, `CloseTimerTimer`, and `Execute`. Unit1.h and the form's resource are not in the repository.
pub mod Runs
pub mod Ends
pub mod Tests
use cosmos_pc.Prelude.{ℕ, ◌≡◌, ◌≢◌, ◌⊎◌, Bool, true, false, Option, some, List, ◌==◌, if◌then◌else◌}
use cosmos_pc.Os.{invalid_handle}
use cosmos_pc.Form.{FormOs, Form}
use cosmos_pc.Form.Messages.{message_init}
use cosmos_pc.Form.Choice.{button1_click}
use cosmos_pc.Form.Update.{process_update}

-- Where `Execute` stands: before the test of `Terminated`, in the wait, in `Process_Update` before the button
-- is enabled, there before the box is enabled, or behind the loop. The object of the thread is freed there.
pub data Worker : Type 0 where
  tests : Worker
  waits : Worker
  updates : Worker
  enables : Worker
  over : Worker

-- `has_thread` says that `SystemThread` is not NULL, `event_open` that START_UPDATE_EVENT is a handle, and
-- `signalled` that the event is set. `timer_enabled` is the field of `CloseTimer`; `closed` says that the form
-- is gone.
pub record Life (x : FormOs) : Type 0 where
  pub form : Form x
  pub worker : Worker
  pub signalled : Bool
  pub event_open : Bool
  pub has_thread : Bool
  pub terminated : Bool
  pub timer_enabled : Bool
  pub closed : Bool

module _ {x : FormOs} where
  -- `Thread_Init`, with the constructor of the thread, which starts it.
  unfoldable pub thread_init : Life x → Life x
  thread_init s = record s {
    worker = tests;
    signalled = false;
    event_open = true;
    has_thread = true;
    terminated = false;
  }

  -- The constructor of the form: `max_length` is `Memo1->MaxLength`. The timer starts disabled.
  unfoldable pub new_form : ℕ → Life x → Life x
  new_form max_length s =
      let s1 = thread_init (record s { form = record s.form { h_com = invalid_handle } }) in
      record s1 { form = message_init max_length s1.form }

  -- `Thread_Close`
  unfoldable pub thread_close : Life x → Life x
  thread_close s = if s.has_thread then record s { terminated = true } else s

  -- `FormClose`: if it does not set another action, the form goes.
  unfoldable pub form_close : Life x → Life x
  form_close s =
      if s.has_thread
      then record (thread_close s) { timer_enabled = true }
      else record s { closed = true }

  -- `CloseTimerTimer`: `Close` calls `FormClose`.
  unfoldable pub close_timer : Life x → Life x
  close_timer s =
      form_close (record s { timer_enabled = false; has_thread = false; event_open = false })

  -- `Button1Click` has made `t` of the form, and set the event if `t` counts it.
  abbrev pub clicked : Life x → Form x → Life x
  clicked s t = record s {
    form = t;
    signalled = if t.events == s.form.events then s.signalled else true;
  }

-- `fuel` is that of `Button1Click`, and the others what `Process_Update` takes.
module _ {x : FormOs} (fuel item_index : ℕ) (port_text : List ℕ)
    (transmit : List ℕ → List ℕ → ℕ → Form x → ℕ × Form x) where
  -- `Process_Update` up to `Button1->Enabled = true`: each way out enables the button and then the box, which
  -- nothing else in it touches, and returns.
  unfoldable pub update_first : Form x → Form x
  update_first f = record (process_update item_index port_text transmit f) {
    combo_enabled = f.combo_enabled;
  }

  -- `Execute` from where it stands, to the next place. `woken` is whether `WaitForMultipleObjects` gives
  -- WAIT_OBJECT_0, which resets the event.
  unfoldable pub execute : Worker → Bool → Life x → Life x
  execute tests woken s =
      if s.terminated then record s { worker = over } else record s { worker = waits }
  execute waits true s = record s { signalled = false; worker = updates }
  execute waits false s = record s { worker = tests }
  execute updates woken s = record s { form = update_first s.form; worker = enables }
  execute enables woken s = record s {
    form = record s.form { combo_enabled = true };
    worker = tests;
  }
  execute over woken s = s

  -- What happens: clicks on the button while it is enabled and the form is there, the user or the system
  -- closing the form, the timer, and the thread going on. A click sets the event last, and until then the thread
  -- has at most the box to enable. The thread is woken by the event alone; a wait that began before the event
  -- was closed may still be; and one ends without it when the event is not set for 3 seconds, or has no handle.
  pub data Event : Life x → Life x → Type 0 where
    clicks :
        (s : Life x) (t : Form x)
        → s.closed ≡ false
        → s.form.button_enabled ≡ true
        → button1_click fuel s.form ≡ some t
        → Event s (clicked s t)
    closes : (s : Life x) → Event s (form_close s)
    ticks : (s : Life x) → s.timer_enabled ≡ true → Event s (close_timer s)
    wakes : (s : Life x) → s.signalled ≡ true → Event s (execute s.worker true s)
    goes :
        (s : Life x)
        → (s.signalled ≡ false) ⊎ (s.event_open ≡ false) ⊎ (s.worker ≢ waits)
        → Event s (execute s.worker false s)

  pub data Events (s : Life x) : Life x → Type 0 where
    here : Events s s
    next : {t u : Life x} → Events s t → Event t u → Events s u
