-- ===== src/Process/Errors.antt =====
-- No error is lost and none is made up: what `run` (main.go) returns when it returns.
use mathlib.Core.List.Permᴰ
use mathlib.Core.List.{Permᴰ}
use mathlib.Core.List.{append_assoc, append-nil}
use kubemod.Prelude.{
  ℕ, String, ◌≡◌, refl, sym, ap, subst, Bool, true, false, Option, none, some, List, [], ◌∷◌, ◌++◌,
  Error, arith,
}
use kubemod.Process.{
  Config, App, operator, web_app, Routine, running, exited, sending, Pump, stopped, appending, Main,
  waiting, joining, returned, Process, start, app_error, after_initialize, aggregate, Step,
  initialized, received, appended, left, waited, drained, joined, aggregated, Run, started, stepped,
}

abbrev pub to_list : Option Error → List String
to_list none = []
to_list (some e) = e ∷ []

-- The errors that the applications' initializations return.
abbrev pub app_errors : Config → (App → Option Error) → List String
app_errors config initialize =
    to_list (app_error config initialize operator) ++ to_list (app_error config initialize web_app)

-- What a goroutine has still to send, and what the pump has still to append.
abbrev owed : Option Error → Routine → List String
owed o running = to_list o
owed o (sending e) = e ∷ []
owed o _ = []

abbrev carried : Pump → List String
carried (appending e) = e ∷ []
carried _ = []

abbrev is_waiting : Main → Bool
is_waiting waiting = true
is_waiting _ = false

abbrev has_joined : Main → Bool
has_joined waiting = false
has_joined joining = false
has_joined _ = true

abbrev returned_error : Main → Option Error
returned_error (returned r) = r
returned_error _ = none

owed-after_initialize : (o : Option Error) → owed o (after_initialize o) ≡ to_list o
owed-after_initialize none = refl
owed-after_initialize (some e) = refl

module _ (config : Config) (initialize : App → Option Error) where
  abbrev accounts : Process → List String
  accounts p =
      p.errors
      ++ (carried p.pump
          ++ (owed (app_error config initialize operator) p.operator_routine
              ++ owed (app_error config initialize web_app) p.web_app_routine))

  record IsAccounted (p : Process) : Type 0 where
    all : Permᴰ (accounts p) (app_errors config initialize)
    exits : is_waiting p.main ≡ false → (p.operator_routine ≡ exited) × (p.web_app_routine ≡ exited)
    stops : has_joined p.main ≡ true → p.pump ≡ stopped
    result : (r : Option Error) → p.main ≡ returned r → r ≡ aggregate p.errors

  start-IsAccounted : IsAccounted start
  start-IsAccounted = record {
    all = Permᴰ.refl (app_errors config initialize);
    exits = λ h. absurd (ground (arith, h));
    stops = λ h. absurd (ground (arith, h));
    result = λ r h. absurd (ground (arith, h));
  }

  -- A step that leaves the accounts as they are.
  same_accounts :
      {l m : List Error}
      → Permᴰ l (app_errors config initialize)
      → l ≡ m
      → Permᴰ m (app_errors config initialize)
  same_accounts v e = subst (λ l. Permᴰ l (app_errors config initialize)) e v

  -- The web application hands over its error: it moves in front of what the operator owes.
  hand_over :
      (errors owes : List String) (e : String)
      → Permᴰ (errors ++ (e ∷ (owes ++ []))) (errors ++ (owes ++ (e ∷ [])))
  hand_over errors owes e = Permᴰ.append_left errors (Permᴰ.symm (Permᴰ.middle e owes []))

  Step-IsAccounted : {p q : Process} → Step config initialize p q → IsAccounted p → IsAccounted q
  Step-IsAccounted (initialized p operator h) v = record {
    all =
        same_accounts v.all
          (rw (h, owed-after_initialize (app_error config initialize operator)) refl);
    exits = λ w. absurd (ground (arith, h, v.exits w));
    stops = v.stops;
    result = v.result;
  }
  Step-IsAccounted (initialized p web_app h) v = record {
    all =
        same_accounts v.all
          (rw (h, owed-after_initialize (app_error config initialize web_app)) refl);
    exits = λ w. absurd (ground (arith, h, v.exits w));
    stops = v.stops;
    result = v.result;
  }
  Step-IsAccounted (received p operator e h k) v = record {
    all = same_accounts v.all (rw (h, k) refl);
    exits = λ w. absurd (ground (arith, h, v.exits w));
    stops = λ w. absurd (ground (arith, k, v.stops w));
    result = v.result;
  }
  Step-IsAccounted (received p web_app e h k) v = record {
    all =
        Permᴰ.trans
          (hand_over p.errors (owed (app_error config initialize operator) p.operator_routine) e)
          (rw (h, k) at v.all);
    exits = λ w. absurd (ground (arith, h, v.exits w));
    stops = λ w. absurd (ground (arith, k, v.stops w));
    result = v.result;
  }
  Step-IsAccounted (appended p e h) v = record {
    all = same_accounts v.all (
        rw h (
          sym (
            append_assoc p.errors (e ∷ []) (
              owed (app_error config initialize operator) p.operator_routine
              ++ owed (app_error config initialize web_app) p.web_app_routine))));
    exits = v.exits;
    stops = λ w. absurd (ground (arith, h, v.stops w));
    result = λ r w. absurd (ground (arith, h, v.stops (rw w refl)));
  }
  Step-IsAccounted (left p operator h) v = record {
    all = same_accounts v.all (rw h refl);
    exits = λ w. absurd (ground (arith, h, v.exits w));
    stops = v.stops;
    result = v.result;
  }
  Step-IsAccounted (left p web_app h) v = record {
    all = same_accounts v.all (rw h refl);
    exits = λ w. absurd (ground (arith, h, v.exits w));
    stops = v.stops;
    result = v.result;
  }
  Step-IsAccounted (waited p h o w) v = record {
    all = v.all;
    exits = λ k. (o, w);
    stops = λ k. absurd (ground (arith, k));
    result = λ r k. absurd (ground (arith, k));
  }
  Step-IsAccounted (drained p h k) v = record {
    all = same_accounts v.all (rw h refl);
    exits = v.exits;
    stops = λ w. absurd (ground (arith, k, w));
    result = v.result;
  }
  Step-IsAccounted (joined p h k) v = record {
    all = same_accounts v.all (rw h refl);
    exits = λ w. v.exits (rw k refl);
    stops = λ w. refl;
    result = λ r w. absurd (ground (arith, w));
  }
  Step-IsAccounted (aggregated p h) v = record {
    all = v.all;
    exits = λ w. v.exits (rw h refl);
    stops = λ w. v.stops (rw h refl);
    result = λ r w. ap returned_error (sym w);
  }

  Run-IsAccounted : {n : ℕ} {p : Process} → Run config initialize n p → IsAccounted p
  Run-IsAccounted started = start-IsAccounted
  Run-IsAccounted (stepped r s) = Step-IsAccounted s (Run-IsAccounted r)

  -- When `run` returns, in whatever order the goroutines ran, it returns the aggregate of a
  -- rearrangement of all the errors of its applications: none is lost and none is made up.
  pub returned-aggregate :
      (n : ℕ) (p : Process) (r : Option Error)
      → Run config initialize n p
      → p.main ≡ returned r
      → (errors : List Error) × (r ≡ aggregate errors) × Permᴰ errors (app_errors config initialize)
  returned-aggregate n p r run e =
      let v = Run-IsAccounted run in
      let gone = v.exits (rw e refl) in
      (
        p.errors,
        v.result r e,
        same_accounts (rw (v.stops (rw e refl), gone.0, gone.1) at v.all) (append-nil p.errors),
      )
