-- ===== src/System/Progress.antt =====
-- The calls of `Reconcile` that the framework owes bring the store to agree with the API server
-- (controllers/modrule_controller.go).
use kubemod.Prelude.{
  String, ◌==◌, ◌≡◌, refl, subst, ◌∙◌, Bool, true, false, ◌&&◌, none, some, List, [], ◌∷◌,
  if◌then◌else◌, arith, Bool-cases, Option, inl, inr,
}
use kubemod.Prelude.Lists.{any}
use kubemod.Library.{Library}
use kubemod.Store.{Sort}
use kubemod.Store.Contents.{stored, Rearranges}
use kubemod.Controller.Spec.{desired}
use kubemod.Controller.Converge.{Settles}
use kubemod.System.{System, Call, answer, finished, fetches, fetched_rule, acted, Reached, moved}
use kubemod.System.Synced.{Reached-IsSynced}

-- Steps of calls that fetch and act, while the server stays as it is.
pub data Calls (lib : Library) (sort : Sort) (st : System) : System → Type 0 where
  rest : Calls lib sort st st
  fetch :
      {st' : System}
      → (namespace name : String) → Calls lib sort st st'
      → st'.running ≡ none
      → Calls lib sort st (fetches st' namespace name (answer (st'.server namespace name)) false)
  act :
      {st' : System}
      → (c : Call) → Calls lib sort st st'
      → st'.running ≡ some c
      → Calls lib sort st (finished lib sort st' c)

abbrev key_in : List (String × String) → String → String → Bool
key_in ks n m = any (λ k. k.0 == n && k.1 == m) ks

covered :
    {p q : Bool} → (b : Bool) → (p ≡ true → b ≡ true) → q ≡ p → (if b then false else q) ≡ false
covered {p} true h same = refl
covered {p} false h same = elim (Bool-cases p) [
  | inl e ↦ absurd (ground (arith, h e))
  | inr e ↦ same ∙ e
]

module _ (lib : Library) (sort : Sort) where
  Calls-Reached :
      (cluster : String) {st st' : System}
      → Reached lib sort cluster st
      → Calls lib sort st st'
      → Reached lib sort cluster st'
  Calls-Reached cluster r rest = r
  Calls-Reached cluster r (fetch namespace name cs idle) =
      moved (Calls-Reached cluster r cs) (fetched_rule namespace name idle)
  Calls-Reached cluster r (act c cs h) = moved (Calls-Reached cluster r cs) (acted c h)

  ended : Option Call → System → System
  ended none st = st
  ended (some c) st = finished lib sort st c

  -- The call that runs ends, and then there is a call for each of the keys, the last one first.
  unfoldable pub served : List (String × String) → System → System
  unfolding ended
  served [] st = ended st.running st
  served (k ∷ ks) st =
      let before = served ks st in
      let f = answer (before.server k.0 k.1) in
      finished lib sort (fetches before k.0 k.1 f false)
        (record { namespace = k.0; name = k.1; fetched = f })

  -- What the calls leave as it was, and what they leave owed.
  record Served (st : System) (ks : List (String × String)) (after : System) : Type 0 where
    calls : Calls lib sort st after
    same_server : after.server ≡ st.server
    idle : after.running ≡ none
    owed : (n m : String) → after.pending n m ≡ (if key_in ks n m then false else st.pending n m)

  ended-Served : (st : System) (o : Option Call) → st.running ≡ o → Served st [] (ended o st)
  unfolding ended
  ended-Served st none h = record { calls = rest; same_server = refl; idle = h; owed = λ n m. refl }
  ended-Served st (some c) h = record {
    calls = act c rest h;
    same_server = refl;
    idle = refl;
    owed = λ n m. refl;
  }

  served-Served : (ks : List (String × String)) (st : System) → Served st ks (served ks st)
  unfolding served
  served-Served [] st = ended-Served st st.running refl
  served-Served (k ∷ ks) st =
      let before = served-Served ks st in
      record {
        calls = act _ (fetch k.0 k.1 before.calls before.idle) refl;
        same_server = before.same_server;
        idle = refl;
        owed = λ n m. ground (arith, before.owed n m);
      }

  -- With a sort that leaves the same elements, from every state that the system reaches, and for
  -- every key whose rule at the server is gone or compiles: if the keys that are served hold it in
  -- case a call is owed for it, then the state after the calls for these keys is reached by calls
  -- that do not fail, it has the same server, no call runs in it and none is owed for the key, and the
  -- store holds for the key what the server does.
  pub served-stored :
      Rearranges sort
      → (cluster : String) (st : System) (ks : List (String × String)) (n m : String)
      → Reached lib sort cluster st
      → (st.pending n m ≡ true → any (λ k. k.0 == n && k.1 == m) ks ≡ true)
      → Settles lib n (answer (st.server n m))
      → Calls lib sort st (served ks st)
        × ((served ks st).server ≡ st.server)
        × ((served ks st).running ≡ none)
        × ((served ks st).pending n m ≡ false)
        × (stored (served ks st).store n m ≡ desired lib n none (answer (st.server n m)))
  served-stored rearranges cluster st ks n m r covers settles =
      let end = served-Served ks st in
      let synced =
        Reached-IsSynced lib sort rearranges cluster (served ks st)
          (Calls-Reached cluster r end.calls) in
      let none_owed : (served ks st).pending n m ≡ false =
        end.owed n m ∙ covered (key_in ks n m) covers refl in
      (
        end.calls,
        end.same_server,
        end.idle,
        none_owed,
        subst
            (λ f.
              Settles lib n (answer (f n m))
              → stored (served ks st).store n m ≡ desired lib n none (answer (f n m)))
            end.same_server (synced.agrees n m none_owed (rw end.idle refl)) settles,
      )
