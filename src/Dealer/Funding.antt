-- ===== src/Dealer/Funding.antt =====
-- The inputs that `get_pset` gives to an order: UTXOs of the wallet that cover the amount.
use mathlib.Core.List.Perm
use sideswapclient.Prelude.{◌+◌, ◌≤◌, ◌≡◌, Bool, ◌&&◌, some, List, ◌++◌, map, sum, Perm, All, ◌==◌}
use sideswapclient.Prelude.Float.{Float}
use sideswapclient.Prelude.Int64
use sideswapclient.Prelude.Int64.{I64}
use sideswapclient.Prelude.Map.{values}
use sideswapclient.Utxo.{sum_i64}
use sideswapclient.Utxo.Values.{values as chosen_of}
use sideswapclient.Dealer.Types.{
  OrderId, AssetId, Utxo, Utxos, PsetInput, Details, Params, PsetRequest, Reply, ok,
}
use sideswapclient.Dealer.Psets.{
  Outside, is_usable, filter, pset_inputs, amounts_of, send_asset_amount, utxo_amount,
}

abbrev values_of : List PsetInput → List I64
values_of = map λ (input : PsetInput). input.value

module _ (asset : AssetId) where
  -- The entry is a usable UTXO with its amount.
  abbrev is_entry : I64 × Utxo → Bool
  is_entry (amount, utxo) = amount == utxo.amount && is_usable asset utxo

  -- The inputs are made of a part of the UTXOs, each taken once, cover the amount, and none of
  -- them can be spared.
  abbrev pub Covers : List Utxo → I64 → List PsetInput → Type 0
  Covers utxos amount inputs =
      (chosen : List Utxo) × (others : List Utxo) × (pset_inputs asset chosen ≡ some inputs)
      × Perm (chosen ++ others) utxos
      × All (λ (input : PsetInput). input.asset ≡ asset) inputs
      × (amount ≤ sum (values_of inputs))
      × All (λ x. sum (values_of inputs) ≤ amount + x) (values_of inputs)

module _ (float : Float) (outside : Outside (float.F64)) (params : Params (float.F64)) where
  open float use {F64}

  -- What the wallet can send for an order.
  abbrev pub usable : Details F64 → Utxos → List Utxo
  usable details utxos =
      filter (is_usable ((send_asset_amount float params details).0)) (values utxos)

  -- The amount that `get_pset` looks for.
  abbrev pub wanted : Details F64 → Utxos → Bool → I64
  wanted details utxos extra =
      utxo_amount float extra details.send_bitcoins ((send_asset_amount float params details).1)
        (sum_i64 (amounts_of (usable details utxos)))

  abbrev pub IsFunded : OrderId → Details F64 → Utxos → Bool → Reply (PsetRequest F64) → Type 0
  IsFunded id details utxos extra reply =
      (request : PsetRequest F64) × (reply ≡ ok request)
      × (request.order_id ≡ id)
      × Covers ((send_asset_amount float params details).0) (usable details utxos)
          (wanted details utxos extra) request.inputs
