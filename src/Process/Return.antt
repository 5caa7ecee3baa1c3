-- ===== src/Process/Return.antt =====
-- `run` (main.go) returns once its applications have: no goroutine is left waiting for another.
use kubemod.Prelude.{
  ℕ, ◌+◌, ◌≤◌, ◌<◌, ◌≡◌, ◌⊎◌, refl, Option, none, some, List, Error, inl, inr, arith,
}
use kubemod.Process.{
  Config, App, operator, web_app, Routine, running, finishing, exited, sending, Pump, receiving,
  signalling, stopped, appending, Main, waiting, joining, aggregating, returned, Process, app_error,
  after_initialize, Step, initialized, received, appended, left, waited, drained, joined,
  aggregated, Run, started, stepped,
}

-- An upper bound of the steps that are left.
abbrev routine_steps : Routine → ℕ
routine_steps running = 4
routine_steps (sending e) = 3
routine_steps finishing = 1
routine_steps exited = 0

abbrev pump_steps : Pump → ℕ
pump_steps receiving = 2
pump_steps (appending e) = 3
pump_steps signalling = 1
pump_steps stopped = 0

abbrev main_steps : Main → ℕ
main_steps waiting = 3
main_steps joining = 2
main_steps aggregating = 1
main_steps (returned r) = 0

abbrev steps_left : Process → ℕ
steps_left p =
    routine_steps p.operator_routine
    + routine_steps p.web_app_routine
    + pump_steps p.pump
    + main_steps p.main

after_initialize_lem : (o : Option Error) → routine_steps (after_initialize o) < 4
after_initialize_lem none = omega arith
after_initialize_lem (some e) = omega arith

-- The pump receives while an application may send, and signals before the main goroutine goes on.
abbrev IsOpen : Main → Pump → Type 0
IsOpen waiting receiving = Unit
IsOpen waiting (appending e) = Unit
IsOpen waiting _ = ⊥
IsOpen joining stopped = ⊥
IsOpen joining _ = Unit
IsOpen _ _ = Unit

receiving-IsOpen : (m : Main) → IsOpen m receiving
receiving-IsOpen waiting = tt
receiving-IsOpen joining = tt
receiving-IsOpen aggregating = tt
receiving-IsOpen (returned r) = tt

appending-IsOpen : (m : Main) (e : Error) → IsOpen m (appending e)
appending-IsOpen waiting e = tt
appending-IsOpen joining e = tt
appending-IsOpen aggregating e = tt
appending-IsOpen (returned r) e = tt

joining-IsOpen : (pump : Pump) → IsOpen waiting pump → IsOpen joining pump
joining-IsOpen receiving h = tt
joining-IsOpen (appending e) h = tt
joining-IsOpen signalling h = absurd h
joining-IsOpen stopped h = absurd h

module _ (config : Config) (initialize : App → Option Error) where
  abbrev Next : Process → Type 0
  Next p = (q : Process) × Step config initialize p q

  Step-IsOpen :
      {p q : Process} → Step config initialize p q → IsOpen p.main p.pump → IsOpen q.main q.pump
  Step-IsOpen (initialized p operator h) v = v
  Step-IsOpen (initialized p web_app h) v = v
  Step-IsOpen (received p operator e h k) v = appending-IsOpen p.main e
  Step-IsOpen (received p web_app e h k) v = appending-IsOpen p.main e
  Step-IsOpen (appended p e h) v = receiving-IsOpen p.main
  Step-IsOpen (left p operator h) v = v
  Step-IsOpen (left p web_app h) v = v
  Step-IsOpen (waited p h o w) v = joining-IsOpen p.pump (rw h at v)
  Step-IsOpen (drained p h k) v = rw k tt
  Step-IsOpen (joined p h k) v = tt
  Step-IsOpen (aggregated p h) v = tt

  Run-IsOpen : {n : ℕ} {p : Process} → Run config initialize n p → IsOpen p.main p.pump
  Run-IsOpen started = tt
  Run-IsOpen (stepped r s) = Step-IsOpen s (Run-IsOpen r)

  Step-steps_left : {p q : Process} → Step config initialize p q → steps_left q < steps_left p
  Step-steps_left (initialized p operator h) =
      let b = after_initialize_lem (app_error config initialize operator) in rw h (omega (arith, b))
  Step-steps_left (initialized p web_app h) =
      let b = after_initialize_lem (app_error config initialize web_app) in rw h (omega (arith, b))
  Step-steps_left (received p operator e h k) = rw (h, k) (omega arith)
  Step-steps_left (received p web_app e h k) = rw (h, k) (omega arith)
  Step-steps_left (appended p e h) = rw h (omega arith)
  Step-steps_left (left p operator h) = rw h (omega arith)
  Step-steps_left (left p web_app h) = rw h (omega arith)
  Step-steps_left (waited p h o w) = rw h (omega arith)
  Step-steps_left (drained p h k) = rw h (omega arith)
  Step-steps_left (joined p h k) = rw (h, k) (omega arith)
  Step-steps_left (aggregated p h) = rw h (omega arith)

  Run-steps_left : {n : ℕ} {p : Process} → Run config initialize n p → n + steps_left p ≤ 13
  Run-steps_left started = omega arith
  Run-steps_left (stepped r s) =
      let b = Run-steps_left r in let d = Step-steps_left s in omega (arith, b, d)

  abbrev process : Routine → Routine → Pump → Main → List Error → Process
  process o w pump m errors = record {
    operator_routine = o;
    web_app_routine = w;
    pump = pump;
    main = m;
    errors = errors;
  }

  -- While the main goroutine waits, an application or the pump can go on, or the wait is over.
  progress-waiting :
      (o w : Routine) (pump : Pump) (errors : List Error)
      → IsOpen waiting pump
      → Next (process o w pump waiting errors)
  progress-waiting o w (appending e) errors v =
      (_, appended (process o w (appending e) waiting errors) e refl)
  progress-waiting running w receiving errors v =
      (_, initialized (process running w receiving waiting errors) operator refl)
  progress-waiting (sending e) w receiving errors v =
      (_, received (process (sending e) w receiving waiting errors) operator e refl refl)
  progress-waiting finishing w receiving errors v =
      (_, left (process finishing w receiving waiting errors) operator refl)
  progress-waiting exited running receiving errors v =
      (_, initialized (process exited running receiving waiting errors) web_app refl)
  progress-waiting exited (sending e) receiving errors v =
      (_, received (process exited (sending e) receiving waiting errors) web_app e refl refl)
  progress-waiting exited finishing receiving errors v =
      (_, left (process exited finishing receiving waiting errors) web_app refl)
  progress-waiting exited exited receiving errors v =
      (_, waited (process exited exited receiving waiting errors) refl refl refl)
  progress-waiting o w signalling errors v = absurd v
  progress-waiting o w stopped errors v = absurd v

  progress-joining :
      (o w : Routine) (pump : Pump) (errors : List Error)
      → IsOpen joining pump
      → Next (process o w pump joining errors)
  progress-joining o w receiving errors v =
      (_, drained (process o w receiving joining errors) refl refl)
  progress-joining o w (appending e) errors v =
      (_, appended (process o w (appending e) joining errors) e refl)
  progress-joining o w signalling errors v =
      (_, joined (process o w signalling joining errors) refl refl)
  progress-joining o w stopped errors v = absurd v

  progress :
      (o w : Routine) (pump : Pump) (m : Main) (errors : List Error)
      → IsOpen m pump
      → Next (process o w pump m errors) ⊎ ((r : Option Error) × (m ≡ returned r))
  progress o w pump waiting errors v = inl (progress-waiting o w pump errors v)
  progress o w pump joining errors v = inl (progress-joining o w pump errors v)
  progress o w pump aggregating errors v =
      inl (_, aggregated (process o w pump aggregating errors) refl)
  progress o w pump (returned r) errors v = inr (r, refl)

  -- When the initializations of both applications return, `run` returns, in whatever order the
  -- goroutines run: no run has more than 13 steps, and a run that has not returned has a next step.
  pub Run-returns :
      (n : ℕ) (p : Process)
      → Run config initialize n p
      → (n ≤ 13)
        × (((q : Process) × Step config initialize p q)
            ⊎ ((r : Option Error) × (p.main ≡ returned r)))
  Run-returns n p run =
      let b = Run-steps_left run in
      (
        omega (arith, b),
        progress p.operator_routine p.web_app_routine p.pump p.main p.errors (Run-IsOpen run),
      )
