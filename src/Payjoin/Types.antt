-- ===== src/Payjoin/Types.antt =====
-- The request of the client, the answer of the server, and the parts of a PSET.
use sideswapclient.Prelude.{ℕ, Option, Bool, true, false, none, some, List}
use sideswapclient.Prelude.Key.{Text}

abbrev pub AssetId : Type 0
AssetId = ℕ

-- `elements::Address`: the network's parameters, the script and the key for blinding.
pub record Address : Type 0 where
  pub params : ℕ
  pub script_pubkey : Text
  pub blinding_pubkey : Option ℕ

abbrev pub is_blinded : Address → Bool
is_blinded address = elim address.blinding_pubkey [ none ↦ false | some key ↦ true ]

-- `server_api::Utxo`
pub record Utxo : Type 0 where
  pub txid : ℕ
  pub vout : ℕ
  pub script_pub_key : Text
  pub asset_id : AssetId
  pub value : ℕ
  pub asset_bf : ℕ
  pub value_bf : ℕ
  pub asset_commitment : ℕ
  pub value_commitment : ℕ

-- `CreatePayjoin`, without the URL and the user agent.
pub record CreatePayjoin : Type 0 where
  pub asset_id : AssetId
  pub amount : ℕ
  pub address : Address
  pub subtract_fee_from_amount : Bool
  pub change_address : Address
  pub utxos : List Utxo

-- `server_api::StartResponse`, the fields that are read; `F` is the type of prices.
pub record StartResponse (F : Type 0) : Type 0 where
  pub price : F
  pub fixed_fee : ℕ
  pub fee_address : Address
  pub change_address : Address
  pub utxos : List Utxo

-- `ConstructPsetArgs`
pub record ConstructPsetArgs (F : Type 0) : Type 0 where
  pub selected_utxos : List Utxo
  pub send_address : Address
  pub send_asset_id : AssetId
  pub send_amount : ℕ
  pub fee_address : Address
  pub fixed_fee : ℕ
  pub price : F
  pub client_change_address : Address
  pub utxo_asset_amount : ℕ
  pub utxo_lbtc_amount : ℕ
  pub server_change_address : Address
  pub lbtc_asset_id : AssetId

-- `pset::PsetInput`, `TxOutSecrets`, and an output of the PSET.
pub record PsetInput : Type 0 where
  pub txid : ℕ
  pub vout : ℕ
  pub script_pub_key : Text
  pub asset_commitment : ℕ
  pub value_commitment : ℕ

pub record TxOutSecrets : Type 0 where
  pub asset : AssetId
  pub asset_bf : ℕ
  pub value : ℕ
  pub value_bf : ℕ

pub record Output : Type 0 where
  pub asset : AssetId
  pub amount : ℕ
  pub script_pubkey : Text
  pub blinding_key : Option ℕ
  pub blinder_index : Option ℕ
