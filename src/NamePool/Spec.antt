-- ===== src/NamePool/Spec.antt =====
-- The names that a pool of util/namepool.go hands out.
use Prim.Native.Nat.{◌%◌, ◌^◌}
use kubemod.Prelude.{ℕ, zero, suc, ◌+◌, ◌<◌, ◌≡◌, refl, ap, ◌∙◌, String, some, done, arith}
use native.Mathlib.Nat.{mod-lt}
use kubemod.Prelude.Lists.{get_elem?}
use kubemod.NamePool.{NamePool, names_from, new_name_pool, name_at, get_next_name, reset_index}

get_elem?-names_from :
    (ksuid : ℕ → String) (i n j : ℕ)
    → j < n
    → get_elem? (names_from ksuid i n) j ≡ some (ksuid (i + j))
unfolding names_from
get_elem?-names_from ksuid i zero j h = absurd (omega arith)
get_elem?-names_from ksuid i (suc n) zero h = ap (λ k. some (ksuid k)) (omega arith)
get_elem?-names_from ksuid i (suc n) (suc j) h =
    get_elem?-names_from ksuid (suc i) n j (omega arith) ∙ ap (λ k. some (ksuid k)) (omega arith)

zero-add : (n : ℕ) → 0 + n ≡ n
zero-add n = omega arith

-- The pool that `n` calls of `GetNextName` leave behind, counted from the last reset.
abbrev pub counted : (ℕ → String) → ℕ → ℕ → NamePool
counted ksuid n c = record (new_name_pool ksuid n) { incremental_index = c }

-- A pool made for at least one name never panics: after any number `c` of calls, the next call
-- returns a name of the pool, the one at the new count modulo the size, and counts itself; the
-- count wraps at 2^64. After a reset the names start again.
pub get_next_name-new_name_pool :
    (ksuid : ℕ → String) (m c : ℕ)
    → (get_next_name (counted ksuid (suc m) c)
        ≡ done (ksuid ((c + 1) % 2 ^ 64 % suc m), counted ksuid (suc m) ((c + 1) % 2 ^ 64)))
      × (reset_index (counted ksuid (suc m) c) ≡ new_name_pool ksuid (suc m))
unfolding get_next_name new_name_pool reset_index name_at
get_next_name-new_name_pool ksuid m c =
    let at =
      get_elem?-names_from ksuid 0 (suc m) ((c + 1) % 2 ^ 64 % suc m)
        (mod-lt ((c + 1) % 2 ^ 64) (omega arith))
      ∙ ap (λ k. some (ksuid k)) (zero-add ((c + 1) % 2 ^ 64 % suc m)) in
    (rw at, refl)
