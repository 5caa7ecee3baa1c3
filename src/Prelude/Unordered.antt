-- ===== src/Prelude/Unordered.antt =====
-- Permutations: of parts that are put together, and of two lists with distinct keys that find the
-- same elements.
use mathlib.Core.List.{Permᴰ, append_assoc}
use mathlib.Core.List.Permᴰ
use mathlib.Core.List.Permᴰ.{nil, cons, swap, trans, symm}
use text.Mathlib.TextPositions.{eq_refl}
use kubemod.Prelude.{
  String, ◌==◌, eq_iff, ◌≡◌, refl, sym, ap, subst, ◌∙◌, Bool, none, some, List, [], ◌∷◌, ◌++◌, map,
  if◌then◌else◌, Bool-cases, inl, inr, arith, eq_of_some,
}
use kubemod.Prelude.Lists.{select}
use kubemod.Prelude.Keyed.{Distinct, find, find-fresh, find-perm, Distinct-map-perm}

-- (a ++ b) ++ (c ++ d) has the elements of (a ++ c) ++ (b ++ d).
pub interchange :
    {A : Type 0} (a b c d : List A) → Permᴰ ((a ++ b) ++ (c ++ d)) ((a ++ c) ++ (b ++ d))
interchange a b c d =
    rw (append_assoc, append_assoc, ← append_assoc b c d, ← append_assoc c b d)
      (Permᴰ.append_left a (Permᴰ.append_right d (Permᴰ.append_comm b c)))

pub append-perm : {A : Type 0} {a b c d : List A} → Permᴰ a b → Permᴰ c d → Permᴰ (a ++ c) (b ++ d)
append-perm {a} {b} {c} {d} p q = Permᴰ.trans (Permᴰ.append_right c p) (Permᴰ.append_left b q)

module _ {A : Type 0} (key : A → String) where
  -- The list less its first element with a key.
  without : String → List A → List A
  without k [] = []
  without k (x ∷ xs) = if key x == k then xs else x ∷ without k xs

  find-key : (k : String) (xs : List A) (x : A) → find key k xs ≡ some x → key x ≡ k
  unfolding find
  find-key k [] x h = absurd (cc)
  find-key k (y ∷ xs) x h = elim (Bool-cases (key y == k)) [
    | inl e ↦ let y≡x : y ≡ x = eq_of_some (rw e at h) in ap key (sym y≡x) ∙ (eq_iff (key y) k).0 e
    | inr e ↦ find-key k xs x (rw e at h)
  ]

  perm-without :
      (k : String) (xs : List A) (x : A) → find key k xs ≡ some x → Permᴰ xs (x ∷ without k xs)
  unfolding find without
  perm-without k [] x h = absurd (cc)
  perm-without k (y ∷ xs) x h = elim (Bool-cases (key y == k)) [
    | inl e ↦ let y≡x : y ≡ x = eq_of_some (rw e at h) in rw e (cons y≡x (Permᴰ.refl xs))
    | inr e ↦ rw e (trans (cons refl (perm-without k xs x (rw e at h))) (swap refl refl))
  ]

  -- The first element gone, none is left with its key.
  find-rest :
      (x : A) (xs : List A) (j : String)
      → Distinct (map key (x ∷ xs))
      → find key j xs ≡ (if key x == j then none else find key j (x ∷ xs))
  unfolding find
  find-rest x xs j d = elim (Bool-cases (key x == j)) [
    | inl e ↦
        rw e (
          subst (λ k. find key k xs ≡ none) ((eq_iff (key x) j).0 e)
            (find-fresh key (key x) xs d.0))
    | inr e ↦ rw e
  ]

  pub same_finds-perm :
      (xs ys : List A)
      → Distinct (map key xs)
      → Distinct (map key ys)
      → ((k : String) → find key k xs ≡ find key k ys)
      → Permᴰ xs ys
  unfolding find
  same_finds-perm [] [] dx dy h = nil
  same_finds-perm [] (y ∷ ys) dx dy h = absurd (ground (arith, h (key y), eq_refl (key y)))
  same_finds-perm (x ∷ xs) ys dx dy h =
      let here : find key (key x) ys ≡ some x = sym (h (key x)) ∙ rw eq_refl refl in
      let p = perm-without (key x) ys x here in
      let d = Distinct-map-perm key p dy in
      trans
        (cons refl (
          same_finds-perm xs (without (key x) ys) dx.1 d.1 (λ j.
            find-rest x xs j dx
            ∙ ap (λ r. if key x == j then none else r) (h j ∙ find-perm key j p dy)
            ∙ sym (find-rest x (without (key x) ys) j d))))
        (symm p)

pub select-perm :
    {A : Type 0} (p : A → Bool) {xs ys : List A} → Permᴰ xs ys → Permᴰ (select p xs) (select p ys)
select-perm p nil = nil
select-perm p (cons {a = a} {b = b} e q) = rw e (elim (Bool-cases (p b)) [
  | inl t ↦ rw t (cons refl (select-perm p q))
  | inr f ↦ rw f (select-perm p q)
])
select-perm p (swap {a = a} {b = b} {l = l} e₁ e₂) =
    rw (← e₁, ← e₂)
      (elim (Bool-cases (p a)) [
        | inl t ↦ elim (Bool-cases (p b)) [
          | inl u ↦ rw (t, u) (swap refl refl)
          | inr u ↦ rw (t, u) (Permᴰ.refl _)
        ]
        | inr f ↦ elim (Bool-cases (p b)) [
          | inl u ↦ rw (f, u) (Permᴰ.refl _)
          | inr u ↦ rw (f, u) (Permᴰ.refl _)
        ]
      ])
select-perm p (trans q r) = trans (select-perm p q) (select-perm p r)
