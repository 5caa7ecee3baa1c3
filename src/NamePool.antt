-- ===== src/NamePool.antt =====
-- `NamePool` (util/namepool.go). The generator of random names, `ksuid.New`, is a parameter: the
-- name that its n-th call returns.
pub mod Spec
use Prim.Native.Nat.{◌%◌, ◌^◌}
use kubemod.Prelude.{
  ℕ, zero, suc, ◌+◌, String, Option, List, [], ◌∷◌, Exec, panic, ◌>>=◌, expect, done,
}
use kubemod.Prelude.Lists.{get_elem?}

pub record NamePool : Type 0 where
  pub pool : List String
  pub size : ℕ
  pub incremental_index : ℕ

-- The loop that fills the pool, from the call `i` on.
names_from : (ℕ → String) → ℕ → ℕ → List String
names_from ksuid i zero = []
names_from ksuid i (suc n) = ksuid i ∷ names_from ksuid (suc i) n

unfoldable pub new_name_pool : (ℕ → String) → ℕ → NamePool
unfolding names_from
new_name_pool ksuid size = record {
  pool = names_from ksuid 0 size;
  size = size;
  incremental_index = 0;
}

-- `np.pool[index % uint64(np.size)]`, which panics on a size of zero and out of range.
name_at : NamePool → ℕ → Exec String
name_at np index = elim np.size [
  | zero ↦ panic
  | suc n ↦ expect (get_elem? np.pool (index % suc n))
]

-- The atomic addition wraps at 2^64.
unfoldable pub get_next_name : NamePool → Exec (String × NamePool)
unfolding name_at
get_next_name np =
    let index = (np.incremental_index + 1) % 2 ^ 64 in
    name_at np index >>= λ name. done (name, record np { incremental_index = index })

unfoldable pub reset_index : NamePool → NamePool
reset_index np = record np { incremental_index = 0 }
