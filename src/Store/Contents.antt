-- ===== src/Store/Contents.antt =====
-- What a store holds, and when it is well formed: the view of the store as a finite map from
-- namespace and name to items.
use mathlib.Core.List.{Permᴰ}
use kubemod.Prelude.{ℕ, zero, suc, ◌++◌, String, ◌≡◌, Option, List, [], ◌∷◌, map, ok}
use kubemod.Prelude.Lists.{All, set}
use kubemod.Prelude.Keyed.{Distinct, find}
use kubemod.Library.{Library}
use kubemod.Item.{ModRuleStoreItem, new_mod_rule_store_item}
use kubemod.Store.{ModRuleStore, Sort, item_name, less, items_in}

-- The item that a store holds under a namespace and a name.
unfoldable pub stored : ModRuleStore → String → String → Option ModRuleStoreItem
stored s namespace name = find item_name name (items_in s namespace)

-- What `sort.Sort` documents of the slice that it leaves: the same elements, in the order of
-- `Less`. Nothing here needs the order.
abbrev pub Rearranges : Sort → Type 0
Rearranges sort = (items : List ModRuleStoreItem) → Permᴰ items (sort less items)

-- The slice of a namespace: no name twice, and every item made by the factory from a ModRule of
-- that namespace.
pub record IsSlice (lib : Library) (namespace : String) (items : List ModRuleStoreItem)
    : Type 0 where
  pub distinct : Distinct (map item_name items)
  pub made :
      All
        (λ si.
          (new_mod_rule_store_item lib si.mod_rule ≡ ok si) × (si.mod_rule.namespace ≡ namespace))
        items

abbrev pub IsValid : Library → ModRuleStore → Type 0
IsValid lib s = (namespace : String) → IsSlice lib namespace (items_in s namespace)

abbrev pub Made : Library → String → ModRuleStoreItem → Type 0
Made lib namespace si =
    (new_mod_rule_store_item lib si.mod_rule ≡ ok si) × (si.mod_rule.namespace ≡ namespace)

pub All-set :
    (P : ModRuleStoreItem → Type 0) (xs : List ModRuleStoreItem) (i : ℕ) (x : ModRuleStoreItem)
    → P x
    → All P xs
    → All P (set xs i x)
All-set P [] i x p h = tt
All-set P (y ∷ xs) zero x p h = (p, h.1)
All-set P (y ∷ xs) (suc i) x p h = (h.0, All-set P xs i x p h.1)

pub All-append :
    (P : ModRuleStoreItem → Type 0) (xs : List ModRuleStoreItem) (x : ModRuleStoreItem)
    → P x
    → All P xs
    → All P (xs ++ x ∷ [])
All-append P [] x p h = (p, tt)
All-append P (y ∷ xs) x p h = (h.0, All-append P xs x p h.1)
