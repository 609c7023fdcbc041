-- ===== src/Payjoin/Balance.antt =====
-- The outputs of the PSET spend of each asset what the inputs hold, and the fee is at most the one
-- returned.
use sideswapclient.Prelude.{◌≤◌, ◌≡◌, some, List}
use sideswapclient.Prelude.Float.{Float}
use sideswapclient.Prelude.Int64
use sideswapclient.Payjoin.Types.{
  AssetId, CreatePayjoin, StartResponse, ConstructPsetArgs, PsetInput, TxOutSecrets, Output,
}
use sideswapclient.Payjoin.Plan.{max_asset_fee, paid_asset_fee, construct_pset}
use sideswapclient.Payjoin.Assets.{spent, held}

module _ (float : Float) (req : CreatePayjoin) (resp : StartResponse float.F64) where
  open float use {F64}

  -- `construct_pset` makes outputs that spend of each asset exactly what the inputs hold, and the fee that it
  -- takes is at most the one that `create_payjoin` returns.
  abbrev pub Balanced : ConstructPsetArgs F64 → Type 0
  Balanced args =
      (inputs : List PsetInput) × (secrets : List TxOutSecrets) × (outputs : List Output)
      × (construct_pset float args ≡ some (inputs, (secrets, outputs)))
      × ((asset : AssetId) → spent asset outputs ≡ held asset secrets)
      × (paid_asset_fee float args ≤ max_asset_fee float req resp)
