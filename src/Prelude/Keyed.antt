-- ===== src/Prelude/Keyed.antt =====
-- Lists whose elements have a key that no two of them share: lookup by the key, and how it meets
-- a permutation, a write at an index and the removal that moves the last element.
use mathlib.Core.List.{Permᴰ}
use mathlib.Core.List.Permᴰ.{nil, cons, swap, trans, symm}
use kubemod.Prelude.{
  ℕ, zero, suc, String, ◌≡◌, ◌≢◌, refl, sym, ap, eq_of_some, subst, ◌∙◌, Option, none, some, List,
  [], ◌∷◌, ◌++◌, ◌+◌, map, arith, ◌==◌, eq_iff, if◌then◌else◌, Bool-cases, inl, inr,
}
use kubemod.Prelude.Lists.{All, get_elem?, set}

pub All-perm {ℓ κ} :
    {A : Type ℓ} (P : A → Type κ) {xs ys : List A} → Permᴰ xs ys → All P xs → All P ys
All-perm P nil h = h
All-perm P (cons e p) h = (subst P e h.0, All-perm P p h.1)
All-perm P (swap e₁ e₂) h = (subst P e₂ h.1.0, (subst P e₁ h.0, h.1.1))
All-perm P (trans p q) h = All-perm P q (All-perm P p h)

pub map-perm {ℓ κ} :
    {A : Type ℓ} {B : Type κ} (f : A → B) {xs ys : List A}
    → Permᴰ xs ys
    → Permᴰ (map f xs) (map f ys)
map-perm f nil = nil
map-perm f (cons e p) = cons (ap f e) (map-perm f p)
map-perm f (swap e₁ e₂) = swap (ap f e₁) (ap f e₂)
map-perm f (trans p q) = trans (map-perm f p) (map-perm f q)

-- No key occurs twice.
abbrev pub Distinct : List String → Type 0
Distinct [] = Unit
Distinct (k ∷ ks) = All (λ j. k ≢ j) ks × Distinct ks

Distinct-perm : {ks js : List String} → Permᴰ ks js → Distinct ks → Distinct js
Distinct-perm nil d = tt
Distinct-perm {ks} {js} (cons {a = a} {b = b} {l₂ = l₂} e p) d =
    (subst (λ k. All (λ j. k ≢ j) l₂) e (All-perm (λ j. a ≢ j) p d.0), Distinct-perm p d.1)
Distinct-perm (swap {a = a} {b = b} {l = l} e₁ e₂) d = (
  (λ h. d.0.0 (e₁ ∙ sym h ∙ sym e₂), subst (λ k. All (λ j. k ≢ j) l) e₂ d.1.0),
  (subst (λ k. All (λ j. k ≢ j) l) e₁ d.0.1, d.1.1),
)
Distinct-perm (trans p q) d = Distinct-perm q (Distinct-perm p d)

pub All-get_elem? {ℓ κ} :
    {A : Type ℓ} (P : A → Type κ) (xs : List A) (i : ℕ) {x : A}
    → All P xs
    → get_elem? xs i ≡ some x
    → P x
All-get_elem? P [] i h e = absurd (cc)
All-get_elem? P (y ∷ xs) zero h e = subst P (eq_of_some e) h.0
All-get_elem? P (y ∷ xs) (suc i) h e = All-get_elem? P xs i h.1 e

module _ {ℓ} {A : Type ℓ} (key : A → String) where
  -- The first element with a key.
  unfoldable pub find : String → List A → Option A
  find k [] = none
  find k (x ∷ xs) = if key x == k then some x else find k xs

  pub find-fresh : (k : String) (xs : List A) → All (λ j. k ≢ j) (map key xs) → find k xs ≡ none
  unfolding find
  find-fresh k [] h = refl
  find-fresh k (x ∷ xs) h =
      ground (arith, eq_iff (key x) k, find-fresh k xs h.1, λ (e : key x ≡ k). h.0 (sym e))

  pub find-perm :
      (k : String) {xs ys : List A} → Permᴰ xs ys → Distinct (map key xs) → find k xs ≡ find k ys
  unfolding find
  find-perm k nil d = refl
  find-perm k (cons {a = a} {b = b} e p) d =
      rw e (ap (λ r. if key b == k then some b else r) (find-perm k p d.1))
  find-perm k (swap {a = a} {b = b} {l = l} e₁ e₂) d =
      rw (← e₁, ← e₂) (ground (arith, eq_iff (key a) k, eq_iff (key b) k, d.0.0))
  find-perm k (trans p q) d = find-perm k p d ∙ find-perm k q (Distinct-perm (map-perm key p) d)

  -- The index of the first element with a key, counted from `j`.
  unfoldable pub index_from : ℕ → List A → String → Option ℕ
  index_from j [] k = none
  index_from j (x ∷ xs) k = if key x == k then some j else index_from (suc j) xs k

  pub index_from-some :
      (j : ℕ) (xs : List A) (k : String) {i : ℕ}
      → index_from j xs k ≡ some i
      → (d : ℕ) × (i ≡ j + d) × (x : A) × (get_elem? xs d ≡ some x) × (key x ≡ k)
  unfolding index_from
  index_from-some j [] k h = absurd (cc)
  index_from-some j (x ∷ xs) k {i} h = elim (Bool-cases (key x == k)) [
    | inl here ↦ (0, ground arith, x, refl, (eq_iff (key x) k).0 here)
    | inr there ↦
        let (d, e, y, at, same) = index_from-some (suc j) xs k (rw there at h) in
        (suc d, omega arith, y, at, same)
  ]

  pub index_from-none :
      (j : ℕ) (xs : List A) (k : String) → index_from j xs k ≡ none → All (λ i. k ≢ i) (map key xs)
  unfolding index_from
  index_from-none j [] k h = tt
  index_from-none j (x ∷ xs) k h = elim (Bool-cases (key x == k)) [
    | inl here ↦ absurd (ground (arith, here))
    | inr there ↦
        ((λ e. ground (arith, eq_iff (key x) k)), index_from-none (suc j) xs k (rw there at h))
  ]

  keys-set :
      (xs : List A) (i : ℕ) {x : A} (new : A)
      → get_elem? xs i ≡ some x
      → key x ≡ key new
      → map key (set xs i new) ≡ map key xs
  keys-set [] i new e same = refl
  keys-set (y ∷ xs) zero new e same = ap (λ k. k ∷ map key xs) (sym (ap key (eq_of_some e) ∙ same))
  keys-set (y ∷ xs) (suc i) new e same = ap (λ ks. key y ∷ ks) (keys-set xs i new e same)

  Fresh-get_elem? :
      (k : String) (xs : List A) (i : ℕ) {x : A}
      → All (λ j. k ≢ j) (map key xs)
      → get_elem? xs i ≡ some x
      → k ≢ key x
  Fresh-get_elem? k [] i h e = absurd (cc)
  Fresh-get_elem? k (y ∷ xs) zero h e = λ q. h.0 (q ∙ sym (ap key (eq_of_some e)))
  Fresh-get_elem? k (y ∷ xs) (suc i) h e = Fresh-get_elem? k xs i h.1 e

  -- A write of an element with the same key.
  pub find-set :
      (k : String) (xs : List A) (i : ℕ) {x : A} (new : A)
      → Distinct (map key xs)
      → get_elem? xs i ≡ some x
      → key x ≡ key new
      → find k (set xs i new) ≡ (if key new == k then some new else find k xs)
  unfolding find
  find-set k [] i new d e same = absurd (cc)
  find-set k (y ∷ xs) zero {x} new d e same =
      ground (arith, eq_iff (key y) k, eq_iff (key new) k, ap key (eq_of_some e) ∙ same)
  find-set k (y ∷ xs) (suc i) {x} new d e same = ground (
    arith,
    find-set k xs i new d.1 e same,
    eq_iff (key y) k,
    eq_iff (key new) k,
    Fresh-get_elem? (key y) xs i d.0 e,
  )

  pub find-append :
      (k : String) (xs : List A) (new : A)
      → All (λ j. key new ≢ j) (map key xs)
      → find k (xs ++ new ∷ []) ≡ (if key new == k then some new else find k xs)
  unfolding find
  find-append k [] new h = refl
  find-append k (y ∷ xs) new h =
      ground (arith, find-append k xs new h.1, eq_iff (key y) k, eq_iff (key new) k, h.0)

-- Deleting by moving the last element into the slot: `xs[i] = xs[len-1]; xs = xs[:len-1]`.
module _ {ℓ} {A : Type ℓ} where
  unfoldable pub last? : List A → Option A
  last? [] = none
  last? (x ∷ []) = some x
  last? (x ∷ y ∷ xs) = last? (y ∷ xs)

  unfoldable pub drop_last : List A → List A
  drop_last [] = []
  drop_last (x ∷ []) = []
  drop_last (x ∷ y ∷ xs) = x ∷ drop_last (y ∷ xs)

  drop_last-perm : (xs : List A) {z : A} → last? xs ≡ some z → Permᴰ (z ∷ drop_last xs) xs
  unfolding last? drop_last
  drop_last-perm [] h = absurd (cc)
  drop_last-perm (x ∷ []) h = cons (sym (eq_of_some h)) nil
  drop_last-perm (x ∷ y ∷ xs) h = trans (swap refl refl) (cons refl (drop_last-perm (y ∷ xs) h))

  -- What is left, with the element that was deleted, is what there was.
  pub swap_remove-perm :
      (xs : List A) (i : ℕ) {x z : A}
      → get_elem? xs i ≡ some x
      → last? xs ≡ some z
      → Permᴰ (x ∷ drop_last (set xs i z)) xs
  unfolding last? drop_last
  swap_remove-perm [] i e h = absurd (cc)
  swap_remove-perm (y ∷ []) zero e h = cons (sym (eq_of_some e)) nil
  swap_remove-perm (y ∷ []) (suc i) e h = absurd (cc)
  swap_remove-perm (y ∷ w ∷ ws) zero e h = cons (sym (eq_of_some e)) (drop_last-perm (w ∷ ws) h)
  swap_remove-perm (y ∷ w ∷ ws) (suc zero) e h =
      trans (swap refl refl) (cons refl (swap_remove-perm (w ∷ ws) zero e h))
  swap_remove-perm (y ∷ w ∷ ws) (suc (suc i)) e h =
      trans (swap refl refl) (cons refl (swap_remove-perm (w ∷ ws) (suc i) e h))

module _ {ℓ} {A : Type ℓ} (key : A → String) where
  -- Permuted lists have the same elements under the same keys.
  pub Distinct-map-perm :
      {xs ys : List A} → Permᴰ xs ys → Distinct (map key xs) → Distinct (map key ys)
  Distinct-map-perm p d = Distinct-perm (map-perm key p) d

  pub Distinct-append :
      (xs : List A) (new : A)
      → All (λ j. key new ≢ j) (map key xs)
      → Distinct (map key xs)
      → Distinct (map key (xs ++ new ∷ []))
  Distinct-append [] new h d = (tt, tt)
  Distinct-append (y ∷ xs) new h d = (fresh xs d.0, Distinct-append xs new h.1 d.1)
    where
      fresh :
          (zs : List A)
          → All (λ j. key y ≢ j) (map key zs)
          → All (λ j. key y ≢ j) (map key (zs ++ new ∷ []))
      fresh [] g = ((λ e. h.0 (sym e)), tt)
      fresh (z ∷ zs) g = (g.0, fresh zs g.1)

  pub Distinct-set :
      (xs : List A) (i : ℕ) {x : A} (new : A)
      → get_elem? xs i ≡ some x
      → key x ≡ key new
      → Distinct (map key xs)
      → Distinct (map key (set xs i new))
  Distinct-set xs i new e same d = subst Distinct (sym (keys-set key xs i new e same)) d

  -- Deleting the element with a key leaves the others.
  pub find-swap_remove :
      (k : String) (xs : List A) (i : ℕ) {x z : A}
      → Distinct (map key xs)
      → get_elem? xs i ≡ some x
      → last? xs ≡ some z
      → find key k (drop_last (set xs i z)) ≡ (if key x == k then none else find key k xs)
  unfolding find
  find-swap_remove k xs i {x} {z} d e h =
      let p = swap_remove-perm xs i e h in
      let d' = Distinct-map-perm (symm p) d in
      elim (Bool-cases (key x == k)) [
        | inl here ↦ rw here (
            find-fresh key k (drop_last (set xs i z)) (
              subst (λ j. All (λ l. j ≢ l) (map key (drop_last (set xs i z))))
                ((eq_iff (key x) k).0 here) d'.0))
        | inr there ↦ ground (arith, there, find-perm key k p d')
      ]

  pub Distinct-swap_remove :
      (xs : List A) (i : ℕ) {x z : A}
      → Distinct (map key xs)
      → get_elem? xs i ≡ some x
      → last? xs ≡ some z
      → Distinct (map key (drop_last (set xs i z)))
  Distinct-swap_remove xs i d e h = (Distinct-map-perm (symm (swap_remove-perm xs i e h)) d).1
