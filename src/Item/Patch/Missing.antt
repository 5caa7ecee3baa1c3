-- ===== src/Item/Patch/Missing.antt =====
-- A path template that names a key which a match does not have (core/modrulestoreitem.go,
-- `calculatePatch`).
use text.Mathlib.Text.{starts_with}
use native.Mathlib.Omega.{arith}
use kubemod.Prelude.{
  String, ◌≡◌, refl, sym, ap, subst, ◌∙◌, true, false, none, List, [], ◌∷◌, done, fail, Bool-cases,
  inl, inr, Error, ok, some, ◌≢◌, >>=-eq-done,
}
use kubemod.Prelude.Lists.{All, get_elem?}
use kubemod.Prelude.Member.{In}
use kubemod.Prelude.Text.{concat}
use kubemod.Prelude.Strings.{concat_nil, concat_cons, starts_with-concat, prepend, concat-prepend}
use kubemod.Json.{Value, Fields, end, field, entries, object, null}
use kubemod.Library.{Library, KeyPart, Patch, Evaluable}
use kubemod.Paths.{
  contains, key_parts_from_select_key, path_template_to_sprintf_template, path_from_key_parts,
}
use kubemod.Paths.Render.{
  PathTemplate, Hole, IsTemplate, IsPlainKey, print, fill, fill_holes, shown,
}
use kubemod.Paths.Render.Filled.{path_from_key_parts-print}
use kubemod.Item.{ModRuleStoreItem, CompiledJsonPatchOperation}
use kubemod.Item.Patch.{
  bad_path_error, selected_path_items, select_result, path_items, calculate_patch,
}
use kubemod.Item.Patch.Text.{item_operations, operations, calculate_patch-operations}

abbrev mark : String
mark = "(BADINDEX)"

contains-append_left : (pat a s : String) → contains pat s ≡ true → contains pat (concat a s) ≡ true
unfolding contains
contains-append_left pat String.[] s h = ap (contains pat) (concat_nil s) ∙ h
contains-append_left pat (String.◌∷◌ c a) s h =
    let ih = contains-append_left pat a s h in
    ap (contains pat) (concat_cons c a s)
    ∙ elim (Bool-cases (starts_with (String.◌∷◌ c (concat a s)) pat)) [
      | inl e ↦ ap (λ b. elim b [ true ↦ true | false ↦ contains pat (concat a s) ]) e
      | inr e ↦ ap (λ b. elim b [ true ↦ true | false ↦ contains pat (concat a s) ]) e ∙ ih
    ]

contains-mark : (s : String) → contains mark (concat mark s) ≡ true
unfolding contains
contains-mark s =
    let here : starts_with (prepend mark s) mark ≡ true =
      subst (λ t. starts_with t mark ≡ true) (concat-prepend mark s) (starts_with-concat mark s) in
    ap (contains mark) (concat-prepend mark s)
    ∙ ap (λ b. elim b [ true ↦ true | false ↦ contains mark (prepend "BADINDEX)" s) ]) here

contains-hole : (s : String) → contains mark (concat "#(BADINDEX)" s) ≡ true
unfolding contains
contains-hole s =
    let split : concat "#(BADINDEX)" s ≡ concat "#" (concat mark s) =
      concat-prepend "#(BADINDEX)" s
      ∙ sym (concat-prepend "#" (concat mark s) ∙ ap (prepend "#") (concat-prepend mark s)) in
    ap (contains mark) split ∙ contains-append_left mark "#" (concat mark s) (contains-mark s)

-- A hole for which there is no key leaves the mark in the path.
contains-fill_holes :
    (keys : List KeyPart) (holes : List Hole) (h : Hole)
    → In h holes
    → get_elem? keys h.index ≡ none
    → contains mark (fill_holes keys holes) ≡ true
unfolding fill_holes shown contains
contains-fill_holes keys [] h i e = absurd i
contains-fill_holes keys (x ∷ rest) h (inl same) e =
    rw (shown, subst (λ g. get_elem? keys g.index ≡ none) same e)
      (contains-hole (concat x.after (fill_holes keys rest)))
contains-fill_holes keys (x ∷ rest) h (inr i) e =
    contains-append_left mark (shown keys x.index) (concat x.after (fill_holes keys rest)) (
      contains-append_left mark x.after (fill_holes keys rest)
        (contains-fill_holes keys rest h i e))

contains-fill :
    (keys : List KeyPart) (t : PathTemplate) (h : Hole)
    → In h t.holes
    → get_elem? keys h.index ≡ none
    → contains mark (fill keys t) ≡ true
unfolding fill contains
contains-fill keys t h i e =
    contains-append_left mark t.first (fill_holes keys t.holes)
      (contains-fill_holes keys t.holes h i e)

path_of : Library → CompiledJsonPatchOperation → String → String
path_of lib cop key =
    path_from_key_parts lib (key_parts_from_select_key key) cop.path_sprintf_template

-- A match whose path holds the mark ends the loop over the matches with an error.
selected_path_items-bad :
    (lib : Library) (cop : CompiledJsonPatchOperation) (key : String) (val : Value) (fs : Fields)
    → In (key, val) (entries fs)
    → contains mark (path_of lib cop key) ≡ true
    → (e : Error) × (selected_path_items lib cop fs ≡ fail e)
unfolding selected_path_items path_of
selected_path_items-bad lib cop key val end i h = absurd i
selected_path_items-bad lib cop key val (field k v rest) i h =
    elim (Bool-cases (contains mark (path_of lib cop k))) [
      | inl e ↦ (bad_path_error cop.path (path_of lib cop k), rw (selected_path_items, e) refl)
      | inr e ↦ elim i [
        | inl same ↦
            let impossible : true ≡ false =
              sym (ap (λ q. contains mark (path_of lib cop q.0)) (sym same) ∙ h) ∙ e in
            absurd (ground (arith, impossible))
        | inr j ↦
            let (x, failed) = selected_path_items-bad lib cop key val rest j h in
            (x, rw (selected_path_items, e, failed) refl)
      ]
    ]

selected_path_items-missing :
    (lib : Library) (cop : CompiledJsonPatchOperation) (t : PathTemplate) (h : Hole) (key : String)
    (val : Value) (fs : Fields)
    → IsTemplate t
    → cop.path_sprintf_template ≡ path_template_to_sprintf_template lib (print t)
    → In (key, val) (entries fs)
    → All IsPlainKey (key_parts_from_select_key key)
    → In h t.holes
    → get_elem? (key_parts_from_select_key key) h.index ≡ none
    → (e : Error) × (selected_path_items lib cop fs ≡ fail e)
unfolding path_of
selected_path_items-missing lib cop t h key val fs v made at_key plain i missing =
    selected_path_items-bad lib cop key val fs at_key (
      ap (contains mark) (
        ap (path_from_key_parts lib (key_parts_from_select_key key)) made
        ∙ path_from_key_parts-print lib (key_parts_from_select_key key) t v plain)
      ∙ contains-fill (key_parts_from_select_key key) t h i missing)

-- An operation whose paths cannot be made spoils the whole patch.
operations-fail :
    (lib : Library) (namespace : String) (target : Value) (cop : CompiledJsonPatchOperation)
    (cops : List CompiledJsonPatchOperation) (e : Error)
    → In cop cops
    → path_items lib cop target ≡ fail e
    → (ops : List String) → operations lib namespace target cops ≢ done ops
unfolding operations
operations-fail lib namespace target cop [] e i h ops = absurd i
operations-fail lib namespace target cop (c ∷ cops) e (inl same) h ops = λ made.
    let (items, m, r) = >>=-eq-done (path_items lib c target) _ made in
    let impossible : fail e ≡ done items = sym h ∙ ap (λ x. path_items lib x target) same ∙ m in
    absurd (cc)
operations-fail lib namespace target cop (c ∷ cops) e (inr i) h ops = λ made.
    let (items, m, r) = >>=-eq-done (path_items lib c target) _ made in
    let (here, m', r') = >>=-eq-done (item_operations lib namespace target c items) _ r in
    let (more, m'', r'') = >>=-eq-done (operations lib namespace target cops) _ r' in
    operations-fail lib namespace target cop cops e i h more m''

path_items-selected :
    (lib : Library) (cop : CompiledJsonPatchOperation) (target : Value) (select : Evaluable)
    (fs : Fields)
    → cop.patch_select ≡ some select
    → select target ≡ ok (object fs)
    → path_items lib cop target ≡ selected_path_items lib cop fs
unfolding path_items select_result
path_items-selected lib cop target select fs selects found =
    ap
      (λ o. elim o [
        | some f ↦ select_result lib cop (f target)
        | none ↦ done (record { path = cop.path; select_key_parts = []; selected_item = null } ∷ [])
      ])
      selects
    ∙ ap (select_result lib cop) found

-- When an object matches the select expression of an operation with fewer keys than the operation's
-- path template needs, no patch of the rule comes out: not for that match, nor for others. The
-- texts of the template hold no `#` and no `%`, its numbers end and fit an `int`, and the keys hold
-- no `%`.
pub calculate_patch-missing :
    (lib : Library) (si : ModRuleStoreItem) (namespace : String) (target : Value)
    (cop : CompiledJsonPatchOperation) (select : Evaluable) (t : PathTemplate) (h : Hole)
    (key : String) (val : Value) (fs : Fields)
    → In cop si.compiled_json_patch
    → cop.patch_select ≡ some select
    → select target ≡ ok (object fs)
    → IsTemplate t
    → cop.path_sprintf_template ≡ path_template_to_sprintf_template lib (print t)
    → In (key, val) (entries fs)
    → All IsPlainKey (key_parts_from_select_key key)
    → In h t.holes
    → get_elem? (key_parts_from_select_key key) h.index ≡ none
    → (p : Patch) → calculate_patch lib si namespace target ≢ done p
calculate_patch-missing lib si namespace target cop select t h key val fs at_cop selects found v
      made at_key plain i missing p =
    λ patched.
      let (e, failed) =
        selected_path_items-missing lib cop t h key val fs v made at_key plain i missing in
      let stops : path_items lib cop target ≡ fail e =
        path_items-selected lib cop target select fs selects found ∙ failed in
      let (ops, m, r) =
        >>=-eq-done (operations lib namespace target si.compiled_json_patch) _
          (sym (calculate_patch-operations lib si namespace target) ∙ patched) in
      operations-fail lib namespace target cop si.compiled_json_patch e at_cop stops ops m
