-- ===== src/Utxo/Tests.antt =====
-- The cases of the source's own test, and the theorems at concrete inputs.
use sideswapclient.Prelude.{ℕ, ◌≡◌, refl, some, none, List, [], ◌∷◌, arith}
use sideswapclient.Utxo.{select_utxo, select_utxo_values}
use sideswapclient.Utxo.Selection.{Selects, select_utxo-Selects, select_utxo-shortage}
use sideswapclient.Utxo.Values.{SelectsValues, select_utxo_values-SelectsValues}

abbrev wallet : List ℕ
wallet = 1000 ∷ 100 ∷ 10 ∷ 1 ∷ []

select_small : select_utxo wallet 102 ≡ some (100 ∷ 10 ∷ [])
unfolding select_utxo
select_small = refl

select_one : select_utxo (5000 ∷ 10 ∷ 5 ∷ []) 16 ≡ some (5000 ∷ [])
unfolding select_utxo
select_one = refl

select_utxo-Selects_example :
    (r : List ℕ) × (select_utxo wallet 102 ≡ some r) × Selects wallet 102 r
select_utxo-Selects_example =
    select_utxo-Selects wallet 102 (omega arith) (omega arith) (omega arith)

select_utxo-shortage_example : select_utxo wallet 2000 ≡ none
select_utxo-shortage_example = select_utxo-shortage wallet 2000 (omega arith) (omega arith)

abbrev labelled : List (ℕ × ℕ)
labelled = (1000, 1) ∷ (100, 2) ∷ (10, 3) ∷ (10, 4) ∷ []

select_labelled : select_utxo_values labelled 20 ≡ some (3 ∷ 4 ∷ [])
unfolding select_utxo_values
select_labelled = refl

select_utxo_values-SelectsValues_example :
    SelectsValues labelled 20 (select_utxo_values labelled 20)
select_utxo_values-SelectsValues_example =
    select_utxo_values-SelectsValues labelled 20 (omega arith) (omega arith) (omega arith)
