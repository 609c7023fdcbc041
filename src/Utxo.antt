-- ===== src/Utxo.antt =====
-- The choice of unspent outputs: `select_utxo` and `select_utxo_values` of
-- rust/sideswap_common/src/types.rs, with the methods of `Vec` that they call.
pub mod Vec
mod Order
mod Trim
pub mod Selection
pub mod Values
mod Tests
use sideswapclient.Prelude.{
  ℕ, zero, suc, Bool, true, false, ◌==◌, Option, none, some, List, [], ◌∷◌, ◌++◌, map, length,
  if◌then◌else◌,
}
use sideswapclient.Prelude.Int64
use sideswapclient.Prelude.Int64.{I64}
use mathlib.Core.List.{reverse}
use Vec.{sort_by, pop, position, swap_remove}

-- `iter().sum::<i64>()`
abbrev pub sum_i64 : List I64 → I64
sum_i64 [] = 0
sum_i64 (x ∷ xs) = Int64.add x (sum_i64 xs)

-- The order of `sort_by_key(|value| -(value - amount_remain).abs())`.
abbrev pub farther : I64 → I64 → I64 → Bool
farther remain a b = Int64.lt (key a) (key b)
  where
    key : I64 → I64
    key value = Int64.neg (Int64.abs (Int64.sub value remain))

-- `while amount_remain > 0`. Each round pops an input, so there are at most `length inputs` rounds:
-- with that fuel it is 0 only when no input is left, where `expect` panics (`none`).
pub select_loop : ℕ → List I64 → I64 → List I64 → Option (List I64)
unfolding sort_by pop Int64.sub Int64.neg Int64.abs
select_loop zero inputs remain result = if Int64.lt 0 remain then none else some result
select_loop (suc fuel) inputs remain result = elim (Int64.lt 0 remain) [
  | true ↦ elim (pop (sort_by (farther remain) inputs)) [
    | none ↦ none
    | some (selected, rest) ↦
        select_loop fuel rest (Int64.sub remain selected) (result ++ selected ∷ [])
  ]
  | false ↦ some result
]

-- `while result.iter().sum::<i64>() - result.last().unwrap() > amount`; `unwrap` panics on `[]`.
pub trim_loop : ℕ → List I64 → I64 → Option (List I64)
unfolding pop Int64.sub Int64.add
trim_loop zero result amount = none
trim_loop (suc fuel) result amount = elim (pop result) [
  | none ↦ none
  | some (last, init) ↦ elim (Int64.lt amount (Int64.sub (sum_i64 result) last)) [
    | true ↦ trim_loop fuel init amount
    | false ↦ some result
  ]
]

-- `None` stands for a panic: the `assert!`, the `expect` or the `unwrap`.
unfoldable pub select_utxo : List I64 → I64 → Option (List I64)
unfolding select_loop trim_loop sort_by
select_utxo inputs amount = elim (Int64.lt 0 amount) [
  | false ↦ none
  | true ↦ elim (select_loop (length inputs) inputs amount []) [
    | none ↦ none
    | some result ↦
        let sorted = reverse (sort_by Int64.lt result) in trim_loop (length sorted) sorted amount
  ]
]

module _ {ℓ} {T : Type ℓ} where
  -- The `for` loop: `position(..).unwrap()`, then `swap_remove(index).1`.
  unfoldable pub take_values : List I64 → List (I64 × T) → List T → Option (List T)
  unfolding position swap_remove
  take_values [] inputs result = some result
  take_values (wanted ∷ selected) inputs result =
      elim (position (λ input. input.0 == wanted) inputs) [
        | none ↦ none
        | some index ↦ elim (swap_remove inputs index) [
          | none ↦ none
          | some ((amount, value), rest) ↦ take_values selected rest (result ++ value ∷ [])
        ]
      ]

  unfoldable pub select_utxo_values : List (I64 × T) → I64 → Option (List T)
  unfolding select_utxo take_values
  select_utxo_values inputs amount = elim (select_utxo (map (λ input. input.0) inputs) amount) [
    | none ↦ none
    | some selected ↦ take_values selected inputs []
  ]
