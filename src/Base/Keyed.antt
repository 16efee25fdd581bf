-- ===== src/Base/Keyed.antt =====
-- Maps in which every entry fits its key, and no key stands twice.
use mathlib.Core.Path.{◌≡◌, refl, sym, ap, subst}
use mathlib.Core.Logic.{◌≢◌}
use mathlib.Core.List.{[], ◌∷◌, ◌++◌}
use hot_iron_oxide.Base.Lists.{All, All-append}
use hot_iron_oxide.Base.Tests.{ite_rule}
use hot_iron_oxide.Base.Map
use hot_iron_oxide.Base.Map.{Map}

module _ {ℓ κ} {K V : Type ℓ} (dec : Discrete K) (P : K × V → Type κ) where
  abbrev pub NoKey : K → Map K V → Type ℓ
  NoKey k m = All (λ (e : K × V). e.0 ≢ k) m

  abbrev pub Keyed : Map K V → Type (ℓ ⊔ κ)
  Keyed [] = Unit
  Keyed (e ∷ m) = P e × NoKey e.0 m × Keyed m

  pub insert-NoKey :
      (k : K) (v : V) (m : Map K V) → NoKey k m → Map.insert dec k v m ≡ m ++ (k, v) ∷ []
  unfolding Map.insert
  insert-NoKey k v [] h = refl
  insert-NoKey k v (e ∷ m) h =
      ite_rule (λ r. r ≡ e ∷ m ++ (k, v) ∷ []) (dec e.0 k) (λ y. absurd (h.0 y))
        (λ _. ap (λ r. e ∷ r) (insert-NoKey k v m h.1))

  NoKey-insert :
      (j k : K) (v : V) (m : Map K V) → k ≢ j → NoKey j m → NoKey j (Map.insert dec k v m)
  unfolding Map.insert
  NoKey-insert j k v [] n h = (n, tt)
  NoKey-insert j k v (e ∷ m) n h =
      ite_rule (NoKey j) (dec e.0 k) (λ y. (n, h.1)) (λ _. (h.0, NoKey-insert j k v m n h.1))

  pub Keyed-insert :
      (k : K) (v : V) (m : Map K V) → P (k, v) → Keyed m → Keyed (Map.insert dec k v m)
  unfolding Map.insert
  Keyed-insert k v [] p h = (p, tt, tt)
  Keyed-insert k v (e ∷ m) p h =
      ite_rule Keyed (dec e.0 k) (λ y. (p, subst (λ k. NoKey k m) y h.1, h.2))
        (λ n. (h.0, NoKey-insert e.0 k v m (λ y. n (sym y)) h.1, Keyed-insert k v m p h.2))

  pub NoKey-push :
      (front : Map K V) (e : K × V) (m : Map K V)
      → NoKey e.0 m
      → All (λ (x : K × V). NoKey x.0 front) m
      → All (λ (x : K × V). NoKey x.0 (front ++ e ∷ [])) m
  NoKey-push front e [] n a = tt
  NoKey-push front e (x ∷ m) n a = (
    All-append (λ (y : K × V). y.0 ≢ x.0) front (e ∷ []) a.0 (λ y. n.0 (sym y), tt),
    NoKey-push front e m n.1 a.1,
  )

  pub none_keyed : (m : Map K V) → All (λ (e : K × V). NoKey e.0 []) m
  none_keyed [] = tt
  none_keyed (e ∷ m) = (tt, none_keyed m)
