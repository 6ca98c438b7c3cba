-- ===== src/Prelude/Members.antt =====
-- What is in a list that is filtered, mapped or turned round.
use mathlib.Core.Path.{◌≡◌, refl, sym, ap, ◌∙◌, subst}
use mathlib.Core.Logic.{◌⊎◌, inl, inr}
use mathlib.Core.Bool.{Bool, true, false}
use mathlib.Core.List.{List, [], ◌∷◌, map, reverse, reverse_aux}
use Prim.Native.Nat.{◌+◌}
use native.Mathlib.Omega.{arith}
use connect4codex.Prelude.Lists.{keep_if, Elem, length}
use connect4codex.Prelude.Tests.{Bool-cases}

module _ {A : Type 0} (p : A → Bool) where
  pub keep : (y : A) (xs : List A) → p y ≡ true → keep_if p (y ∷ xs) ≡ y ∷ keep_if p xs
  keep y xs h = ap (λ b. elim b [ true ↦ y ∷ keep_if p xs | false ↦ keep_if p xs ]) h

  pub leave : (y : A) (xs : List A) → p y ≡ false → keep_if p (y ∷ xs) ≡ keep_if p xs
  leave y xs h = ap (λ b. elim b [ true ↦ y ∷ keep_if p xs | false ↦ keep_if p xs ]) h

  pub Elem-keep_if : (x : A) (xs : List A) → Elem x xs → p x ≡ true → Elem x (keep_if p xs)
  Elem-keep_if x [] e h = e
  Elem-keep_if x (y ∷ xs) (inl e) h =
      subst (λ ys. Elem x ys) (sym (keep y xs (ap p (sym e) ∙ h))) (inl e)
  Elem-keep_if x (y ∷ xs) (inr e) h = elim (Bool-cases (p y)) [
    | inl f ↦ subst (λ ys. Elem x ys) (sym (keep y xs f)) (inr (Elem-keep_if x xs e h))
    | inr f ↦ subst (λ ys. Elem x ys) (sym (leave y xs f)) (Elem-keep_if x xs e h)
  ]

  pub keep_if-Elem : (x : A) (xs : List A) → Elem x (keep_if p xs) → Elem x xs × (p x ≡ true)
  keep_if-Elem x [] e = absurd e
  keep_if-Elem x (y ∷ xs) e = elim (Bool-cases (p y)) [
    | inl f ↦ elim (subst (λ ys. Elem x ys) (keep y xs f) e) [
      | inl same ↦ (inl same, ap p same ∙ f)
      | inr later ↦ let (there, h) = keep_if-Elem x xs later in (inr there, h)
    ]
    | inr f ↦
        let (there, h) = keep_if-Elem x xs (subst (λ ys. Elem x ys) (leave y xs f) e) in
        (inr there, h)
  ]

pub map-Elem :
    {A B : Type 0} (f : A → B) (y : B) (xs : List A)
    → Elem y (map f xs)
    → (x : A) × (Elem x xs × (f x ≡ y))
map-Elem f y [] e = absurd e
map-Elem f y (x ∷ xs) (inl e) = (x, (inl refl, sym e))
map-Elem f y (x ∷ xs) (inr e) = let (z, (there, h)) = map-Elem f y xs e in (z, (inr there, h))

reverse_aux-Elem :
    {A : Type 0} (x : A) (xs acc : List A) → Elem x (reverse_aux xs acc) → Elem x xs ⊎ Elem x acc
reverse_aux-Elem x [] acc e = inr e
reverse_aux-Elem x (y ∷ xs) acc e = elim (reverse_aux-Elem x xs (y ∷ acc) e) [
  | inl there ↦ inl (inr there)
  | inr (inl same) ↦ inl (inl same)
  | inr (inr old) ↦ inr old
]

pub reverse-Elem : {A : Type 0} (x : A) (xs : List A) → Elem x (reverse xs) → Elem x xs
reverse-Elem x xs e = elim (reverse_aux-Elem x xs [] e) [
  | inl there ↦ there
  | inr none_left ↦ absurd none_left
]

pub Elem-map : {A B : Type 0} (f : A → B) (x : A) (xs : List A) → Elem x xs → Elem (f x) (map f xs)
Elem-map f x [] e = absurd e
Elem-map f x (y ∷ xs) (inl e) = inl (ap f e)
Elem-map f x (y ∷ xs) (inr e) = inr (Elem-map f x xs e)

Elem-reverse_aux :
    {A : Type 0} (x : A) (xs acc : List A) → Elem x xs ⊎ Elem x acc → Elem x (reverse_aux xs acc)
Elem-reverse_aux x [] acc (inl e) = absurd e
Elem-reverse_aux x [] acc (inr e) = e
Elem-reverse_aux x (y ∷ xs) acc (inl (inl e)) = Elem-reverse_aux x xs (y ∷ acc) (inr (inl e))
Elem-reverse_aux x (y ∷ xs) acc (inl (inr e)) = Elem-reverse_aux x xs (y ∷ acc) (inl e)
Elem-reverse_aux x (y ∷ xs) acc (inr e) = Elem-reverse_aux x xs (y ∷ acc) (inr (inr e))

pub Elem-reverse : {A : Type 0} (x : A) (xs : List A) → Elem x xs → Elem x (reverse xs)
Elem-reverse x xs e = Elem-reverse_aux x xs [] (inl e)

module _ {A : Type 0} (p : A → Bool) where
  length-keep_if-reverse_aux :
      (xs acc : List A)
      → length (keep_if p (reverse_aux xs acc)) ≡ length (keep_if p xs) + length (keep_if p acc)
  length-keep_if-reverse_aux [] acc = omega arith
  length-keep_if-reverse_aux (x ∷ xs) acc = ground (arith, length-keep_if-reverse_aux xs (x ∷ acc))

  pub length-keep_if-reverse :
      (xs : List A) → length (keep_if p (reverse xs)) ≡ length (keep_if p xs)
  length-keep_if-reverse xs = omega (arith, length-keep_if-reverse_aux xs [])
