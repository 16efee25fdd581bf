-- ===== src/Base/Maximum.antt =====
-- `Iterator::max_by_key`: the last of the elements whose key is greatest.
use mathlib.Core.Path.{◌≡◌, refl, subst}
use mathlib.Core.Bool.{Bool, true, false}
use mathlib.Core.List.{List, [], ◌∷◌, Memᴰ}
use mathlib.Core.Logic.{inl, inr}
use mathlib.Core.Option.{Option, none, some}
use native.Mathlib.Omega.{arith}
use hot_iron_oxide.Base.Tests.{if◌then◌else◌, Bool-cases, some_injective}

-- A comparison by which any two keys are comparable.
pub record IsTotal {ℓ} {K : Type ℓ} (le : K → K → Bool) : Type ℓ where
  pub le_total : (a b : K) → le a b ≡ false → le b a ≡ true
  pub le_trans : (a b c : K) → le a b ≡ true → le b c ≡ true → le a c ≡ true

module _ {ℓ κ} {A : Type ℓ} {K : Type κ} (le : K → K → Bool) (key : A → K) where
  unfoldable pub max_from : A → List A → A
  max_from best [] = best
  max_from best (x ∷ xs) = max_from (if le (key best) (key x) then x else best) xs

  unfoldable pub max_by_key : List A → Option A
  unfolding max_from
  max_by_key [] = none
  max_by_key (x ∷ xs) = some (max_from x xs)

  max_from-Mem : (best : A) (xs : List A) → Memᴰ (max_from best xs) (best ∷ xs)
  unfolding max_from
  max_from-Mem best [] = Memᴰ.head refl
  max_from-Mem best (x ∷ xs) = elim (Bool-cases (le (key best) (key x))) [
    | inl e ↦ rw e (Memᴰ.tail (max_from-Mem x xs))
    | inr e ↦ rw e (skip (max_from-Mem best xs))
  ]
    where
      skip : {a : A} → Memᴰ a (best ∷ xs) → Memᴰ a (best ∷ x ∷ xs)
      skip (Memᴰ.head h) = Memᴰ.head h
      skip (Memᴰ.tail h) = Memᴰ.tail (Memᴰ.tail h)

  pub max_by_key-Mem : {m : A} (xs : List A) → max_by_key xs ≡ some m → Memᴰ m xs
  unfolding max_by_key
  max_by_key-Mem [] h = cc
  max_by_key-Mem (x ∷ xs) h = subst (λ m. Memᴰ m (x ∷ xs)) (some_injective h) (max_from-Mem x xs)

module _ {ℓ κ} {A : Type ℓ} {K : Type κ} (le : K → K → Bool) (key : A → K)
    (order : IsTotal le) where
  le_refl : (a : K) → le a a ≡ true
  le_refl a = ground (arith, order.le_total a a)

  le-max_from : (best : A) (xs : List A) → le (key best) (key (max_from le key best xs)) ≡ true
  unfolding max_from
  le-max_from best [] = le_refl (key best)
  le-max_from best (x ∷ xs) = ground (
    arith,
    le-max_from x xs,
    le-max_from best xs,
    order.le_trans (key best) (key x) (key (max_from le key x xs)),
  )

  max_from_upper :
      (best : A) (xs : List A) (y : A)
      → Memᴰ y xs
      → le (key y) (key (max_from le key best xs)) ≡ true
  unfolding max_from
  max_from_upper best [] y h = elim h [ ]
  max_from_upper best (x ∷ xs) y (Memᴰ.head e) =
      let kept = if le (key best) (key x) then x else best in
      rw e (
        order.le_trans (key x) (key kept) _
          (ground (arith, le_refl (key x), order.le_total (key best) (key x)))
          (le-max_from kept xs))
  max_from_upper best (x ∷ xs) y (Memᴰ.tail h) =
      max_from_upper (if le (key best) (key x) then x else best) xs y h

  -- The greatest element is one of the list, and no key exceeds its key.
  pub max_by_key-some :
      (xs : List A) {m : A}
      → max_by_key le key xs ≡ some m
      → Memᴰ m xs × ((y : A) → Memᴰ y xs → le (key y) (key m) ≡ true)
  unfolding max_by_key
  max_by_key-some [] h = cc
  max_by_key-some (x ∷ xs) h = rw (← some_injective h) (max_from-Mem le key x xs, upper)
    where
      upper : (y : A) → Memᴰ y (x ∷ xs) → le (key y) (key (max_from le key x xs)) ≡ true
      upper y (Memᴰ.head e) = rw e (le-max_from x xs)
      upper y (Memᴰ.tail t) = max_from_upper x xs y t

  pub max_by_key-none : {x : A} (xs : List A) → max_by_key le key xs ≡ none → ¬ Memᴰ x xs
  unfolding max_by_key
  max_by_key-none [] h m = elim m [ ]
  max_by_key-none (x ∷ xs) h m = cc
