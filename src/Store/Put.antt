-- ===== src/Store/Put.antt =====
-- `Put` on the store seen as a map from namespace and name to items.
use kubemod.Prelude.{
  String, ◌==◌, eq_iff, ◌≡◌, refl, sym, ap, subst, ◌∙◌, ◌&&◌, some, List, [], if◌then◌else◌, ok,
  err, Error, arith, inl, inr, Option-cases, Bool-cases, Result-cases,
}
use kubemod.Prelude.Lists.{get_elem?}
use kubemod.Prelude.Dict
use kubemod.Prelude.Dict.{get-put, get-remove}
use kubemod.Prelude.Keyed.{
  find, find-perm, find-set, find-append, index_from, index_from-some, index_from-none,
  Distinct-map-perm, Distinct-append, Distinct-set, All-perm,
}
use kubemod.Prelude.Text.{concat}
use kubemod.Library.{Library}
use kubemod.Api.{ModRule}
use kubemod.Item.{ModRuleStoreItem, new_mod_rule_store_item}
use kubemod.Item.Factory.{new_mod_rule_store_item-IsCompiledFrom}
use kubemod.Store.{
  ModRuleStore, Sort, item_name, less, put, store_item, items_in, replaced, find_item_index_by_name,
}
use kubemod.Store.Contents.{stored, Rearranges, IsSlice, IsValid, Made, All-set, All-append}

module _ (lib : Library) (sort : Sort) (rearranges : Rearranges sort) where
  module _ (r : ModRule) (item : ModRuleStoreItem)
      (made : new_mod_rule_store_item lib r ≡ ok item) where
    pub item-mod_rule : item.mod_rule ≡ r
    item-mod_rule = (new_mod_rule_store_item-IsCompiledFrom lib r item made).mod_rule

    item-Made : Made lib r.namespace item
    item-Made = (
      subst (λ m. new_mod_rule_store_item lib m ≡ ok item) (sym item-mod_rule) made,
      ap (λ (m : ModRule). m.namespace) item-mod_rule,
    )

    item-name : item_name item ≡ r.name
    item-name = ap (λ (m : ModRule). m.name) item-mod_rule

    -- The slice before it is sorted.
    replaced-IsSlice :
        (items : List ModRuleStoreItem)
        → IsSlice lib r.namespace items
        → IsSlice lib r.namespace (replaced items (find_item_index_by_name items r.name) item)
    unfolding find_item_index_by_name
    replaced-IsSlice items v = elim (Option-cases (index_from item_name 0 items r.name)) [
      | inl e ↦ rw e (record {
        distinct =
            Distinct-append item_name items item
              (rw item-name (index_from-none item_name 0 items r.name e)) v.distinct;
        made = All-append (Made lib r.namespace) items item item-Made v.made;
      })
      | inr (i, e) ↦
          let (d, at, x, found, same) = index_from-some item_name 0 items r.name e in
          let d≡i : d ≡ i = omega arith in
          rw e (record {
            distinct =
                Distinct-set item_name items i item
                  (subst (λ k. get_elem? items k ≡ some x) d≡i found) (same ∙ sym item-name)
                  v.distinct;
            made = All-set (Made lib r.namespace) items i item item-Made v.made;
          })
    ]

    find-replaced :
        (name : String) (items : List ModRuleStoreItem)
        → IsSlice lib r.namespace items
        → find item_name name (replaced items (find_item_index_by_name items r.name) item)
          ≡ (if r.name == name then some item else find item_name name items)
    unfolding find_item_index_by_name
    find-replaced name items v = elim (Option-cases (index_from item_name 0 items r.name)) [
      | inl e ↦
          rw (e, ← item-name)
            (find-append item_name name items item
              (rw item-name (index_from-none item_name 0 items r.name e)))
      | inr (i, e) ↦
          let (d, at, x, found, same) = index_from-some item_name 0 items r.name e in
          let d≡i : d ≡ i = omega arith in
          rw (e, ← item-name)
            (find-set item_name name items i item v.distinct
              (subst (λ k. get_elem? items k ≡ some x) d≡i found) (same ∙ sym item-name))
    ]

    sorted-IsSlice :
        (items : List ModRuleStoreItem)
        → IsSlice lib r.namespace items
        → IsSlice lib r.namespace (sort less items)
    sorted-IsSlice items v = record {
      distinct = Distinct-map-perm item_name (rearranges items) v.distinct;
      made = All-perm (Made lib r.namespace) (rearranges items) v.made;
    }

  -- The slice of the rule's namespace after a `Put` that stores `item`.
  abbrev pub after_put : ModRuleStore → ModRule → ModRuleStoreItem → List ModRuleStoreItem
  after_put s r item = sort less (
      replaced (items_in s r.namespace) (find_item_index_by_name (items_in s r.namespace) r.name)
        item)

  -- The slices after a `Put`.
  slices-put :
      (s : ModRuleStore) (r : ModRule) (item : ModRuleStoreItem) (namespace : String)
      → new_mod_rule_store_item lib r ≡ ok item
      → Dict.get namespace (put lib sort s r).0.mod_rule_list_map ≡ (
          if r.namespace == namespace
          then some (after_put s r item)
          else Dict.get namespace s.mod_rule_list_map)
  unfolding put store_item items_in find_item_index_by_name
  slices-put s r item namespace made =
      elim (Option-cases (Dict.get r.namespace s.mod_rule_list_map)) [
        | inl e ↦
            rw (e, made)
              (get-put r.namespace namespace _ _
                ∙ ground (arith, get-put r.namespace namespace [] s.mod_rule_list_map))
        | inr (items, e) ↦ rw (e, made) (get-put r.namespace namespace _ s.mod_rule_list_map)
      ]

  pub slices-put_error :
      (s : ModRuleStore) (r : ModRule) (e : Error) (namespace : String)
      → new_mod_rule_store_item lib r ≡ err e
      → items_in (put lib sort s r).0 namespace ≡ items_in s namespace
  unfolding put store_item items_in
  slices-put_error s r x namespace failed =
      elim (Option-cases (Dict.get r.namespace s.mod_rule_list_map)) [
        | inl e ↦ rw (e, failed, get-put) (ground (arith, e, eq_iff r.namespace namespace))
        | inr (items, e) ↦ rw (e, failed) refl
      ]

  pub items_in-put :
      (s : ModRuleStore) (r : ModRule) (item : ModRuleStoreItem) (namespace : String)
      → new_mod_rule_store_item lib r ≡ ok item
      → items_in (put lib sort s r).0 namespace
        ≡ (if r.namespace == namespace then after_put s r item else items_in s namespace)
  unfolding items_in
  items_in-put s r item namespace made = elim (Bool-cases (r.namespace == namespace)) [
    | inl same ↦ rw (slices-put s r item namespace made, same)
    | inr other ↦ rw (slices-put s r item namespace made, other)
  ]

  put_error_result :
      (s : ModRuleStore) (r : ModRule) (e : Error)
      → new_mod_rule_store_item lib r ≡ err e
      → (put lib sort s r).1 ≡ err (concat "failed to add ModRule to ModRuleStore: " e)
  unfolding put store_item
  put_error_result s r x failed = elim (Option-cases (Dict.get r.namespace s.mod_rule_list_map)) [
    | inl e ↦ rw (e, failed)
    | inr (items, e) ↦ rw (e, failed)
  ]

  -- With a sort that leaves the same elements, and on a well-formed store: `Put` of a rule that
  -- compiles stores its item under the rule's namespace and name, and leaves what the store holds
  -- everywhere else.
  pub stored-put :
      (s : ModRuleStore) (r : ModRule) (item : ModRuleStoreItem) (namespace name : String)
      → IsValid lib s
      → new_mod_rule_store_item lib r ≡ ok item
      → stored (put lib sort s r).0 namespace name ≡ (
          if r.namespace == namespace && r.name == name then some item else stored s namespace name)
  unfolding stored
  stored-put s r item namespace name v made = elim (Bool-cases (r.namespace == namespace)) [
    | inl same ↦
        rw (items_in-put s r item namespace made, same)
          (subst
            (λ n.
              find item_name name (after_put s r item)
              ≡ (if r.name == name then some item else find item_name name (items_in s n)))
            ((eq_iff r.namespace namespace).0 same)
            (sym (
                find-perm item_name name (rearranges _)
                  (replaced-IsSlice r item made (items_in s r.namespace) (v r.namespace)).distinct)
              ∙ find-replaced r item made name (items_in s r.namespace) (v r.namespace)))
    | inr other ↦ rw (items_in-put s r item namespace made, other)
  ]

  -- A rule that does not compile is refused with the wrapped error, and changes nothing that the
  -- store holds (the sort, which leaves the same elements, is not reached).
  pub stored-put_error :
      (s : ModRuleStore) (r : ModRule) (e : Error) (namespace name : String)
      → new_mod_rule_store_item lib r ≡ err e
      → ((put lib sort s r).1 ≡ err (concat "failed to add ModRule to ModRuleStore: " e))
        × (stored (put lib sort s r).0 namespace name ≡ stored s namespace name)
  unfolding stored
  stored-put_error s r e namespace name failed = (
    put_error_result s r e failed,
    ap (find item_name name) (slices-put_error s r e namespace failed),
  )

  -- With a sort that leaves the same elements, `Put` keeps a well-formed store well formed, whether
  -- the rule compiles or not.
  pub put-IsValid :
      (s : ModRuleStore) (r : ModRule) → IsValid lib s → IsValid lib (put lib sort s r).0
  put-IsValid s r v namespace = elim (Result-cases (new_mod_rule_store_item lib r)) [
    | inl (item, made) ↦ elim (Bool-cases (r.namespace == namespace)) [
      | inl same ↦
          rw (items_in-put s r item namespace made, same)
            (subst (λ n. IsSlice lib n (after_put s r item)) ((eq_iff r.namespace namespace).0 same)
              (sorted-IsSlice r item made _
                (replaced-IsSlice r item made (items_in s r.namespace) (v r.namespace))))
      | inr other ↦ rw (items_in-put s r item namespace made, other) (v namespace)
    ]
    | inr (e, failed) ↦ rw (slices-put_error s r e namespace failed) (v namespace)
  ]
