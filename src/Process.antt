-- ===== src/Process.antt =====
-- The process (`run` of main.go): a goroutine for each of the two applications, one that collects
-- their errors from an unbuffered channel, and the main one, which waits for them and makes one
-- error of all. The steps of the goroutines come in any order.
pub mod Errors
pub mod Return
pub mod Applications
use kubemod.Prelude.{
  ℕ, zero, suc, String, ◌≡◌, Bool, Option, none, some, List, [], ◌∷◌, ◌++◌, Error, if◌then◌else◌,
}
use kubemod.Prelude.Text.{join}

-- The fields of `Config` that `run` branches on.
pub record Config : Type 0 where
  pub run_operator : Bool
  pub run_web_app : Bool

pub data App : Type 0 where
  operator web_app : App

-- How far the goroutine of an application is: in `Initialize…`, at `errChan <- err`, at `wg.Done`,
-- and after it.
pub data Routine : Type 0 where
  running finishing exited : Routine
  sending : String → Routine

-- The error pump: at the head of its loop, in its body, at `done <- true`, and after it.
pub data Pump : Type 0 where
  receiving signalling stopped : Pump
  appending : String → Pump

-- The main goroutine: at `wg.Wait`, at `<-errorPumpDone` with the channel closed, after it, and out
-- of `run`.
pub data Main : Type 0 where
  waiting joining aggregating : Main
  returned : Option Error → Main

pub record Process : Type 0 where
  pub operator_routine : Routine
  pub web_app_routine : Routine
  pub pump : Pump
  pub main : Main
  pub errors : List String

abbrev pub start : Process
start = record {
  operator_routine = running;
  web_app_routine = running;
  pump = receiving;
  main = waiting;
  errors = [];
}

abbrev pub routine : App → Process → Routine
routine operator p = p.operator_routine
routine web_app p = p.web_app_routine

abbrev pub with_routine : App → Routine → Process → Process
with_routine operator r p = record p { operator_routine = r }
with_routine web_app r p = record p { web_app_routine = r }

abbrev pub is_enabled : Config → App → Bool
is_enabled config operator = config.run_operator
is_enabled config web_app = config.run_web_app

-- The error that the goroutine of an application has to send: none where the application is
-- disabled or where its `Initialize…` returns `nil`.
unfoldable pub app_error : Config → (App → Option Error) → App → Option Error
app_error config initialize a = if is_enabled config a then initialize a else none

abbrev pub after_initialize : Option Error → Routine
after_initialize none = finishing
after_initialize (some e) = sending e

-- The end of `run`; no error is `nil`.
unfoldable pub aggregate : List String → Option Error
aggregate [] = none
aggregate (e ∷ es) = some (join ";" (e ∷ es))

module _ (config : Config) (initialize : App → Option Error) where
  pub data Step : Process → Process → Type 0 where
    initialized :
        (p : Process) (a : App)
        → routine a p ≡ running
        → Step p (with_routine a (after_initialize (app_error config initialize a)) p)
    received :
        (p : Process) (a : App) (e : String)
        → routine a p ≡ sending e
        → p.pump ≡ receiving
        → Step p (record (with_routine a finishing p) { pump = appending e })
    appended :
        (p : Process) (e : String)
        → p.pump ≡ appending e
        → Step p (record p { pump = receiving; errors = p.errors ++ (e ∷ []) })
    left : (p : Process) (a : App) → routine a p ≡ finishing → Step p (with_routine a exited p)
    waited :
        (p : Process)
        → p.main ≡ waiting
        → p.operator_routine ≡ exited
        → p.web_app_routine ≡ exited
        → Step p (record p { main = joining })
    drained :
        (p : Process)
        → p.pump ≡ receiving
        → p.main ≡ joining
        → Step p (record p { pump = signalling })
    joined :
        (p : Process)
        → p.pump ≡ signalling
        → p.main ≡ joining
        → Step p (record p { pump = stopped; main = aggregating })
    aggregated :
        (p : Process)
        → p.main ≡ aggregating
        → Step p (record p { main = returned (aggregate p.errors) })

  -- A run of a number of steps.
  pub data Run : ℕ → Process → Type 0 where
    started : Run 0 start
    stepped : {n : ℕ} {p q : Process} → Run n p → Step p q → Run (suc n) q
