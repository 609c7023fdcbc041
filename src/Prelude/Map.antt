-- ===== src/Prelude/Map.antt =====
-- `BTreeMap` as an association list in the order of the keys.
use mathlib.Core.List.{Mem, mem-cons_self, mem-cons_of_mem}
use mathlib.Core.Path.{◌≡◌, refl, subst}
use mathlib.Core.Logic.{inl, inr}
use mathlib.Core.Bool.{false}
use mathlib.Core.Option.{Option, none, some}
use mathlib.Core.List.{List, [], ◌∷◌, map}
use native.Mathlib.Omega.{arith}
use sideswapclient.Prelude.Tests.{if◌then◌else◌, Bool-cases}
use Prim.Native.Nat.{◌+◌, ◌≤◌}
use sideswapclient.Prelude.Lists.{length}
use sideswapclient.Prelude.Key.{Key}

abbrev pub Map {ℓ κ} : Type ℓ → Type κ → Type (ℓ ⊔ κ)
Map K V = List (K × V)

module _ {ℓ κ} {K : Type ℓ} {V : Type κ} where
  abbrev pub values : Map K V → List V
  values = map λ entry. entry.1

module _ {ℓ κ} {K : Type ℓ} {V : Type κ} ⦃key : Key K⦄ where
  unfoldable pub get : K → Map K V → Option V
  get k [] = none
  get k ((j, v) ∷ m) = if key.beq j k then some v else get k m

  unfoldable pub insert : K → V → Map K V → Map K V
  insert k v [] = (k, v) ∷ []
  insert k v ((j, w) ∷ m) =
      let later = (j, w) ∷ insert k v m in
      if key.beq j k then (k, v) ∷ m else if key.before k j then (k, v) ∷ (j, w) ∷ m else later

  -- The keys of a map differ, so the first entry is the only one.
  unfoldable pub remove : K → Map K V → Map K V
  remove k [] = []
  remove k ((j, w) ∷ m) = if key.beq j k then m else (j, w) ∷ remove k m

  pub get-insert :
      (k j : K) (v : V) (m : Map K V)
      → get j (insert k v m) ≡ (if key.beq k j then some v else get j m)
  unfolding get insert
  get-insert k j v [] = refl
  get-insert k j v ((i, w) ∷ m) =
      ground (arith, key.beq_iff k j, key.beq_iff i k, key.beq_iff i j, get-insert k j v m)

  pub get-remove_ne : (k j : K) (m : Map K V) → key.beq k j ≡ false → get j (remove k m) ≡ get j m
  unfolding get remove
  get-remove_ne k j [] h = refl
  get-remove_ne k j ((i, w) ∷ m) h =
      ground (arith, key.beq_iff k j, key.beq_iff i k, key.beq_iff i j, get-remove_ne k j m h)

  pub get-remove-none : (k j : K) (m : Map K V) → get j m ≡ none → get j (remove k m) ≡ none
  unfolding get remove
  get-remove-none k j [] h = refl
  get-remove-none k j ((i, w) ∷ m) h = ground (arith, get-remove-none k j m)

  -- What a key holds is one of the values.
  pub mem-values : (k : K) (m : Map K V) {v : V} → get k m ≡ some v → Mem v (values m)
  unfolding get
  mem-values k [] h = cc
  mem-values k ((j, w) ∷ m) {v} h = elim (Bool-cases (key.beq j k)) [
    | inl e ↦
        let same : w ≡ v = ground (arith, e) in subst (λ z. Mem z (w ∷ values m)) same mem-cons_self
    | inr e ↦ mem-cons_of_mem w (mem-values k m (ground (arith, e)))
  ]

  pub length-insert : (k : K) (v : V) (m : Map K V) → length (insert k v m) ≤ length m + 1
  unfolding insert
  length-insert k v [] = omega arith
  length-insert k v ((j, w) ∷ m) = ground (arith, length-insert k v m)

  pub length-remove : (k : K) (m : Map K V) → length (remove k m) ≤ length m
  unfolding remove
  length-remove k [] = omega arith
  length-remove k ((j, w) ∷ m) = ground (arith, length-remove k m)

  -- A key that is there is removed.
  pub length-remove_known :
      (k : K) (m : Map K V) {v : V} → get k m ≡ some v → length (remove k m) + 1 ≤ length m
  unfolding get remove
  length-remove_known k [] h = cc
  length-remove_known k ((j, w) ∷ m) {v} h = elim (Bool-cases (key.beq j k)) [
    | inl e ↦ rw e (omega arith)
    | inr e ↦ rw e (omega (arith, length-remove_known k m {v = v} (ground (arith, e))))
  ]
