-- ===== src/Base/Map.antt =====
-- `HashMap` as an association list in the map's order of iteration. A theorem about one call holds
-- of every list, so of every order in which a map may be iterated.
use Prim.Native.Nat.{◌+◌}
use mathlib.Core.Path.{◌≡◌, refl, subst}
use mathlib.Core.Logic.{ite}
use mathlib.Core.List.{List, [], ◌∷◌}
use mathlib.Core.Option.{Option, none, some}
use native.Mathlib.Omega.{arith}
use hot_iron_oxide.Base.Lists.{length, All}
use hot_iron_oxide.Base.Tests.{ite_rule}

abbrev pub Map {ℓ} : Type ℓ → Type ℓ → Type ℓ
Map K V = List (K × V)

module _ {ℓ} {K V : Type ℓ} (dec : Discrete K) where
  unfoldable pub get : K → Map K V → Option V
  get k [] = none
  get k (e ∷ m) = ite (dec e.0 k) (some e.1) (get k m)

  unfoldable pub get_or_default : K → V → Map K V → V
  unfolding get
  get_or_default k v m = elim (get k m) [ none ↦ v | some w ↦ w ]

  -- The new map. The value that was under the key is `get k m`, which `insert` returns.
  unfoldable pub insert : K → V → Map K V → Map K V
  insert k v [] = (k, v) ∷ []
  insert k v (e ∷ m) = ite (dec e.0 k) ((k, v) ∷ m) (e ∷ insert k v m)

  unfoldable pub remove : K → Map K V → Map K V
  remove k [] = []
  remove k (e ∷ m) = ite (dec e.0 k) m (e ∷ remove k m)

  pub get-insert :
      (k j : K) (v : V) (m : Map K V) → get j (insert k v m) ≡ ite (dec k j) (some v) (get j m)
  unfolding get insert
  get-insert k j v [] = refl
  get-insert k j v (e ∷ m) = ground (arith, get-insert k j v m)

  pub length-insert :
      (k : K) (v : V) (m : Map K V)
      → length (insert k v m) ≡ length m + (elim (get k m) [ none ↦ 1 | some _ ↦ 0 ])
  unfolding get insert
  length-insert k v [] = refl
  length-insert k v (e ∷ m) = ground (arith, length-insert k v m)

  pub get_or_default-insert :
      (k j : K) (v w : V) (m : Map K V)
      → get_or_default j w (insert k v m) ≡ ite (dec k j) v (get_or_default j w m)
  unfolding get_or_default
  get_or_default-insert k j v w m = ground (arith, get-insert k j v m)

  -- No key is in the map twice.
  pub data Distinct : Map K V → Type ℓ where
    empty : Distinct []
    entry : {e : K × V} {m : Map K V} → get e.0 m ≡ none → Distinct m → Distinct (e ∷ m)

  pub All-insert {μ} :
      (P : K × V → Type μ) (k : K) (v : V) (m : Map K V) → P (k, v) → All P m → All P (insert k v m)
  unfolding insert
  All-insert P k v [] h all = (h, tt)
  All-insert P k v (e ∷ m) h (first, rest) =
      ite_rule (All P) (dec e.0 k) (λ _. (h, rest)) (λ _. (first, All-insert P k v m h rest))

  pub insert-Distinct : (k : K) (v : V) (m : Map K V) → Distinct m → Distinct (insert k v m)
  unfolding insert get
  insert-Distinct k v [] h = Distinct.entry refl Distinct.empty
  insert-Distinct k v (e ∷ m) (Distinct.entry fresh rest) =
      ite_rule Distinct (dec e.0 k)
        (λ same. Distinct.entry (subst (λ j. get j m ≡ none) same fresh) rest)
        (λ other.
          Distinct.entry (rw (get-insert k e.0 v m) (ground (arith, fresh)))
            (insert-Distinct k v m rest))

  pub get_or_default_rule {μ} :
      (P : V → Type μ) (Q : K × V → Type μ) (k : K) (v : V) (m : Map K V)
      → ((w : V) → Q (k, w) → P w)
      → P v
      → All Q m
      → P (get_or_default k v m)
  unfolding get_or_default get
  get_or_default_rule P Q k v [] f h all = h
  get_or_default_rule P Q k v (e ∷ m) f h (first, rest) =
      ite_rule {B = Option V} (λ o. P (elim o [ none ↦ v | some w ↦ w ])) (dec e.0 k)
        (λ same. f e.1 (subst (λ j. Q (j, e.1)) same first))
        (λ _. get_or_default_rule P Q k v m f h rest)

  -- What is found under a key is one of the entries.
  pub get-All {μ} :
      (P : K × V → Type μ) (k : K) (m : Map K V) {v : V} → All P m → get k m ≡ some v → P (k, v)
  unfolding get
  get-All P k [] all h = cc
  get-All P k (e ∷ m) {v} (first, rest) h =
      ite_rule (λ o. o ≡ some v → P (k, v)) (dec e.0 k) (λ same found. subst P (ground arith) first)
        (λ _ found. get-All P k m rest found) h
