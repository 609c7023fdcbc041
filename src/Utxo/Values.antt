-- ===== src/Utxo/Values.antt =====
-- `select_utxo_values`: the amounts that `select_utxo` picks, matched back to the inputs.
use mathlib.Core.List.{append-nil, append_assoc, mem-cons, mem-cons_self, not-mem-nil, Mem}
use mathlib.Core.Logic.Or
use mathlib.Core.Path.{ap₂}
use mathlib.Core.HLevel.{⊥_prop}
use mathlib.Core.List.Perm
use sideswapclient.Prelude.{
  ℕ, ◌+◌, ◌≤◌, ◌<◌, ◌≡◌, refl, sym, ◌∙◌, ap, Option, none, some, List, [], ◌∷◌, ◌++◌, map, Perm,
  sum, arith, All, All-append, Option-cases, inl, inr, subst, ◌==◌, ==_iff,
}
use sideswapclient.Prelude.Int64
use sideswapclient.Prelude.Int64.{I64}
use sideswapclient.Utxo.{select_utxo, take_values, select_utxo_values}
use sideswapclient.Utxo.Vec.{position, swap_remove, swap_remove-position, swap_remove-All}
use sideswapclient.Utxo.Selection.{select_utxo-Selects}

module _ {ℓ} {T : Type ℓ} where
  abbrev pub amounts : List (I64 × T) → List I64
  amounts = map λ input. input.0

  abbrev pub values : List (I64 × T) → List T
  values = map λ input. input.1

  position-ne-none :
      (wanted : I64) (inputs : List (I64 × T))
      → Mem wanted (amounts inputs)
      → position (λ input. input.0 == wanted) inputs ≡ none
      → ⊥
  unfolding position
  position-ne-none wanted [] m e = not-mem-nil m
  position-ne-none wanted (input ∷ inputs) m e =
      Or.elim ⊥_prop (mem-cons.0 m) (λ h. ground (arith, h))
        λ later. ground (arith, position-ne-none wanted inputs later)

  abbrev Takes : List I64 → List (I64 × T) → List T → Option (List T) → Type ℓ
  Takes selected inputs result outcome =
      (picked : List (I64 × T)) × (others : List (I64 × T)) × (outcome
        ≡ some (result ++ values picked))
      × (amounts picked ≡ selected)
      × Perm (picked ++ others) inputs

  take_values-next :
      (wanted : I64) (selected : List I64) (inputs : List (I64 × T)) (result : List T) {index : ℕ}
      {input : I64 × T} {rest : List (I64 × T)}
      → position (λ input. input.0 == wanted) inputs ≡ some index
      → swap_remove inputs index ≡ some (input, rest)
      → take_values (wanted ∷ selected) inputs result
        ≡ take_values selected rest (result ++ input.1 ∷ [])
  unfolding take_values
  take_values-next wanted selected inputs result e k = rw (e, take_values, k)

  pub take_values_lem :
      (selected : List I64) (inputs : List (I64 × T)) (result : List T) (left : List I64)
      → Perm (selected ++ left) (amounts inputs)
      → Takes selected inputs result (take_values selected inputs result)
  unfolding take_values
  take_values_lem [] inputs result left p =
      ([], inputs, ap some (sym (append-nil result)), refl, Perm.refl _)
  take_values_lem (wanted ∷ selected) inputs result left p =
      elim (Option-cases (position (λ input. input.0 == wanted) inputs)) [
        | inl e ↦ absurd (position-ne-none wanted inputs (Perm.subset p wanted mem-cons_self) e)
        | inr (index, e) ↦
            let (input, rest, k, t, q) =
              swap_remove-position (λ input. input.0 == wanted) inputs e in
            let same : input.0 ≡ wanted = (==_iff input.0 wanted).0 t in
            let inner : Perm (selected ++ left) (amounts rest) = Perm.cons_inv (
              Perm.trans p (
                Perm.symm
                  (subst (λ w. Perm (w ∷ amounts rest) (amounts inputs)) same (Perm.map _ q)))) in
            let (picked, others, found, chosen, perm) =
              take_values_lem selected rest (result ++ input.1 ∷ []) left inner in
            (
              input ∷ picked,
              others,
              take_values-next wanted selected inputs result e k
                  ∙ found
                  ∙ ap some (append_assoc result (input.1 ∷ []) (values picked)),
              ap₂ ◌∷◌ same chosen,
              Perm.trans (Perm.cons input perm) q,
            )
      ]

  -- The values that are chosen, as entries of the inputs.
  abbrev pub SelectsValues : List (I64 × T) → I64 → Option (List T) → Type ℓ
  SelectsValues inputs amount outcome =
      (picked : List (I64 × T)) × (others : List (I64 × T)) × (outcome ≡ some (values picked))
      × Perm (picked ++ others) inputs
      × (amount ≤ sum (amounts picked))
      × All (λ x. sum (amounts picked) ≤ amount + x) (amounts picked)

  select_utxo_values-chain :
      (inputs : List (I64 × T)) (amount : I64) {selected : List I64}
      → select_utxo (amounts inputs) amount ≡ some selected
      → select_utxo_values inputs amount ≡ take_values selected inputs []
  unfolding select_utxo_values
  select_utxo_values-chain inputs amount e = rw (e, select_utxo_values)

  -- For an amount above 0 that the inputs cover, with a sum of amounts below 2^63, no `unwrap` of
  -- `select_utxo_values` panics. It returns the values of a part of the inputs, each taken once;
  -- their amounts cover the amount asked for, and none of them can be spared.
  pub select_utxo_values-SelectsValues :
      (inputs : List (I64 × T)) (amount : I64)
      → 0 < amount
      → amount ≤ sum (amounts inputs)
      → sum (amounts inputs) < Int64.half
      → SelectsValues inputs amount (select_utxo_values inputs amount)
  select_utxo_values-SelectsValues inputs amount h c b =
      let (selected, e, (left, p, enough, spare)) =
        select_utxo-Selects (amounts inputs) amount h c b in
      let (picked, others, found, same, perm) = take_values_lem selected inputs [] left p in
      (
        picked,
        others,
        select_utxo_values-chain inputs amount e ∙ found,
        perm,
        subst (λ z. amount ≤ sum z) (sym same) enough,
        subst (λ z. All (λ x. sum z ≤ amount + x) z) (sym same) spare,
      )

  take_values-All {κ} :
      (P : I64 × T → Type κ) (Q : T → Type κ) (selected : List I64) (inputs : List (I64 × T))
      (result : List T) {chosen : List T}
      → ((input : I64 × T) → P input → Q input.1)
      → All P inputs
      → All Q result
      → take_values selected inputs result ≡ some chosen
      → All Q chosen
  unfolding take_values
  take_values-All P Q [] inputs result f a b h = subst (All Q) (ground arith) b
  take_values-All P Q (wanted ∷ selected) inputs result f a b h =
      elim (Option-cases (position (λ input. input.0 == wanted) inputs)) [
        | inl e ↦ absurd (ground (arith, e))
        | inr (index, e) ↦ elim (Option-cases (swap_remove inputs index)) [
          | inl k ↦ absurd (ground (arith, e, k))
          | inr ((input, rest), k) ↦
              let (p, left) = swap_remove-All P inputs index a k in
              take_values-All P Q selected rest (result ++ input.1 ∷ []) f left
                (All-append Q result (input.1 ∷ []) b (f input p, tt))
                (sym (take_values-next wanted selected inputs result e k) ∙ h)
        ]
      ]

  -- Whatever holds of all the inputs holds of the values that are chosen.
  pub select_utxo_values-All {κ} :
      (P : I64 × T → Type κ) (Q : T → Type κ) (inputs : List (I64 × T)) (amount : I64)
      {chosen : List T}
      → ((input : I64 × T) → P input → Q input.1)
      → All P inputs
      → select_utxo_values inputs amount ≡ some chosen
      → All Q chosen
  unfolding select_utxo_values
  select_utxo_values-All P Q inputs amount f a h =
      elim (Option-cases (select_utxo (amounts inputs) amount)) [
        | inl e ↦ absurd (ground (arith, e))
        | inr (selected, e) ↦
            take_values-All P Q selected inputs [] f a tt
              (sym (select_utxo_values-chain inputs amount e) ∙ h)
      ]
