-- ===== src/Store/Delete.antt =====
-- `Delete` on the store seen as a map from namespace and name to items.
use mathlib.Core.List.Permᴰ.{symm}
use kubemod.Prelude.{
  ℕ, String, ◌==◌, eq_iff, ◌≡◌, refl, subst, ◌&&◌, Option, none, some, List, [], ◌∷◌, if◌then◌else◌,
  arith, inl, inr, Option-cases, Bool-cases,
}
use kubemod.Prelude.Lists.{get_elem?, set}
use kubemod.Prelude.Dict
use kubemod.Prelude.Dict.{get-put, get-remove}
use kubemod.Prelude.Keyed.{
  find, find-fresh, find-swap_remove, index_from-some, index_from-none, Distinct-swap_remove,
  swap_remove-perm, All-perm, last?, drop_last,
}
use kubemod.Library.{Library}
use kubemod.Item.{ModRuleStoreItem}
use kubemod.Store.{
  ModRuleStore, item_name, delete, items_in, store_rest, find_item_index_by_name, or_empty,
  delete_from,
}
use kubemod.Store.Contents.{stored, IsSlice, IsValid, Made}

items_in-store_rest :
    (s : ModRuleStore) (namespace other : String) (items : List ModRuleStoreItem)
    → items_in (store_rest s namespace items) other
      ≡ (if namespace == other then items else items_in s other)
unfolding items_in store_rest
items_in-store_rest s namespace other [] =
    ground (arith, get-remove namespace other s.mod_rule_list_map)
items_in-store_rest s namespace other (x ∷ xs) =
    ground (arith, get-put namespace other (x ∷ xs) s.mod_rule_list_map)

last?-some : {A : Type 0} (x : A) (xs : List A) → (z : A) × (last? (x ∷ xs) ≡ some z)
unfolding last?
last?-some x [] = (x, refl)
last?-some x (y ∷ xs) = last?-some y xs

abbrev Slices : Type 0
Slices = Option (List ModRuleStoreItem)

module _ (s : ModRuleStore) (namespace name : String) where
  -- `Delete` of a name that the slice holds moves the last element into its place.
  delete_from-hit :
      (o : Slices) (i : ℕ) (z : ModRuleStoreItem)
      → find_item_index_by_name (or_empty o) name ≡ some i
      → last? (or_empty o) ≡ some z
      → delete_from s namespace name o ≡ store_rest s namespace (drop_last (set (or_empty o) i z))
  unfolding find_item_index_by_name
  delete_from-hit none i z found last = cc
  delete_from-hit (some items) i z found last = rw (found, last)

  delete_from-miss :
      (o : Slices)
      → find_item_index_by_name (or_empty o) name ≡ none
      → delete_from s namespace name o ≡ s
  delete_from-miss none missed = refl
  delete_from-miss (some items) missed = rw missed

-- What a `Delete` does to the slice of its namespace, by whether the name is there.
data Deletion (s : ModRuleStore) (namespace name : String) : Type 0 where
  missed :
      find item_name name (items_in s namespace) ≡ none
      → delete s namespace name ≡ s
      → Deletion s namespace name
  hit :
      (i : ℕ) (x z : ModRuleStoreItem)
      → get_elem? (items_in s namespace) i ≡ some x
      → item_name x ≡ name
      → last? (items_in s namespace) ≡ some z
      → delete s namespace name
        ≡ store_rest s namespace (drop_last (set (items_in s namespace) i z))
      → Deletion s namespace name

last?-get_elem? :
    (xs : List ModRuleStoreItem) (i : ℕ) {x : ModRuleStoreItem}
    → get_elem? xs i ≡ some x
    → (z : ModRuleStoreItem) × (last? xs ≡ some z)
last?-get_elem? [] i e = absurd (cc)
last?-get_elem? (x ∷ xs) i e = last?-some x xs

deletion : (s : ModRuleStore) (namespace name : String) → Deletion s namespace name
unfolding delete items_in find_item_index_by_name
deletion s namespace name =
    elim (Option-cases (find_item_index_by_name (items_in s namespace) name)) [
      | inl none_found ↦
          missed
            (find-fresh item_name name (items_in s namespace)
              (index_from-none item_name 0 (items_in s namespace) name none_found))
            (delete_from-miss s namespace name (Dict.get namespace s.mod_rule_list_map) none_found)
      | inr (i, found) ↦
          let (d, at, x, here, same) =
            index_from-some item_name 0 (items_in s namespace) name found in
          let d≡i : d ≡ i = omega arith in
          let here' = subst (λ k. get_elem? (items_in s namespace) k ≡ some x) d≡i here in
          let (z, last) = last?-get_elem? (items_in s namespace) i here' in
          hit i x z here' same last (
            delete_from-hit s namespace name (Dict.get namespace s.mod_rule_list_map) i z found
              last)
    ]

module _ (lib : Library) where
  -- On a well-formed store `Delete` removes what the store holds under its namespace and name, and
  -- nothing else, although it reorders the slice.
  pub stored-delete :
      (s : ModRuleStore) (namespace name other_namespace other : String)
      → IsValid lib s
      → stored (delete s namespace name) other_namespace other ≡ (
          if namespace == other_namespace && name == other
          then none
          else stored s other_namespace other)
  unfolding stored
  stored-delete s namespace name on o v = elim (deletion s namespace name) [
    | missed absent same ↦ rw same (ground (arith, absent, eq_iff namespace on, eq_iff name o))
    | hit i x z here name_x last step ↦
        rw (step, items_in-store_rest, ← name_x)
          (elim (Bool-cases (namespace == on)) [
            | inl e ↦ rw e (
                subst
                  (λ n.
                    find item_name o (drop_last (set (items_in s namespace) i z))
                    ≡ (if item_name x == o then none else find item_name o (items_in s n)))
                  ((eq_iff namespace on).0 e)
                  (find-swap_remove item_name o (items_in s namespace) i (v namespace).distinct here
                    last))
            | inr e ↦ rw e
          ])
  ]

  -- `Delete` keeps a well-formed store well formed.
  pub delete-IsValid :
      (s : ModRuleStore) (namespace name : String)
      → IsValid lib s
      → IsValid lib (delete s namespace name)
  delete-IsValid s namespace name v on = elim (deletion s namespace name) [
    | missed absent same ↦ rw same (v on)
    | hit i x z here name_x last step ↦
        rw (step, items_in-store_rest)
          (elim (Bool-cases (namespace == on)) [
            | inl e ↦ rw e (
                subst (λ n. IsSlice lib n (drop_last (set (items_in s namespace) i z)))
                  ((eq_iff namespace on).0 e)
                  (record {
                    distinct =
                        Distinct-swap_remove item_name (items_in s namespace) i
                          (v namespace).distinct here last;
                    made =
                        (All-perm (Made lib namespace)
                          (symm (swap_remove-perm (items_in s namespace) i here last))
                          (v namespace).made).1;
                  }))
            | inr e ↦ rw e (v on)
          ])
  ]
