-- ===== src/Payjoin/Tests.antt =====
-- A payjoin on concrete numbers.
use mathlib.Core.List.Perm
use sideswapclient.Prelude.{ℕ, ◌≡◌, refl, true, false, Option, none, some, [], ◌∷◌, All}
use sideswapclient.Prelude.Map.{insert}
use sideswapclient.Payjoin.Pset.{
  Input, Pset, Library, is_signed, copy_signatures, arrange, remove_explicit_values,
}
use sideswapclient.Payjoin.Signing.{AllMerged, EndsWithFee, copy_signatures-signed, arrange-hidden}
use sideswapclient.Prelude.Int64
use sideswapclient.Prelude.Key.{codes}
use sideswapclient.Payjoin.Types.{
  Address, Utxo, CreatePayjoin, StartResponse, ConstructPsetArgs, PsetInput, TxOutSecrets, Output,
}

abbrev address : ℕ → Address
address n = record { params = 1; script_pubkey = n ∷ []; blinding_pubkey = some n }

abbrev utxo : ℕ → ℕ → Utxo
utxo asset value = record {
  txid = value;
  vout = 0;
  script_pub_key = codes "script";
  asset_id = asset;
  value = value;
  asset_bf = 1;
  value_bf = 2;
  asset_commitment = 3;
  value_commitment = 4;
}

abbrev request : CreatePayjoin
request = record {
  asset_id = 7;
  amount = 50_000;
  address = address 10;
  subtract_fee_from_amount = false;
  change_address = address 11;
  utxos = utxo 7 40_000 ∷ utxo 7 30_000 ∷ utxo 7 20_000 ∷ [];
}

-- The price is 2.
abbrev answer : StartResponse ℕ
answer = record {
  price = 200_000_000;
  fixed_fee = 100;
  fee_address = address 12;
  change_address = address 13;
  utxos = utxo 1 5_000 ∷ [];
}

abbrev planned : ConstructPsetArgs ℕ
planned = record {
  selected_utxos = utxo 7 40_000 ∷ utxo 7 30_000 ∷ utxo 1 5_000 ∷ [];
  send_address = address 10;
  send_asset_id = 7;
  send_amount = 50_000;
  fee_address = address 12;
  fixed_fee = 100;
  price = 200_000_000;
  client_change_address = address 11;
  utxo_asset_amount = 70_000;
  utxo_lbtc_amount = 5_000;
  server_change_address = address 13;
  lbtc_asset_id = 1;
}

abbrev prevout : ℕ → PsetInput
prevout n = record {
  txid = n;
  vout = 0;
  script_pub_key = codes "script";
  asset_commitment = 3;
  value_commitment = 4;
}

abbrev input : ℕ → Option ℕ → Input
input n witness = record {
  prevout = prevout n;
  final_script_sig = none;
  final_script_witness = witness;
  proprietary = [];
}

abbrev output : Option ℕ → Output
output key = record {
  asset = 7;
  amount = 5;
  script_pubkey = [];
  blinding_key = key;
  blinder_index = none;
}

-- The client signs the first input and the server the second.
abbrev client_pset : Pset
client_pset = record {
  inputs = input 1 (some 8) ∷ input 2 none ∷ [];
  outputs = output none ∷ output (some 3) ∷ output (some 4) ∷ [];
}

abbrev server_pset : Pset
server_pset = record client_pset { inputs = input 1 none ∷ input 2 (some 9) ∷ [] }

copy_signatures-signed_example :
    (pset : Pset) × (copy_signatures client_pset server_pset ≡ some pset)
    × All (λ input. is_signed input ≡ true) pset.inputs
    × AllMerged client_pset.inputs server_pset.inputs pset.inputs
    × (pset.outputs ≡ client_pset.outputs)
copy_signatures-signed_example =
    copy_signatures-signed client_pset server_pset (refl, (refl, tt)) refl

abbrev secrets : ℕ → TxOutSecrets
secrets n = record { asset = 7; asset_bf = 1; value = n; value_bf = 2 }

abbrev library : Library
library = record {
  serialize_value = λ value. value;
  serialize_asset = λ asset. asset;
  blind_asset_proof = λ input secret. some 70;
  blind_value_proof = λ input secret. some 71;
  shuffle_inputs = λ inputs. inputs;
  shuffle_outputs = λ outputs. outputs;
  blind_last = λ secrets pset. some pset;
}

abbrev proved : ℕ → Input
proved n = record (input n none) {
  proprietary = (0x11, n) ∷ (0x12, 71) ∷ (0x13, 7) ∷ (0x14, 70) ∷ [];
}

abbrev arranged : Pset
arranged = record {
  inputs = proved 1 ∷ proved 2 ∷ [];
  outputs = output (some 4) ∷ output (some 3) ∷ output none ∷ [];
}

arranged_lem :
    arrange library client_pset ((input 1 none, secrets 1) ∷ (input 2 none, secrets 2) ∷ [])
    ≡ some arranged
unfolding arrange insert
arranged_lem = refl

arrange-hidden_example :
    EndsWithFee client_pset.outputs arranged.outputs
    × ((remove_explicit_values arranged).inputs ≡ input 1 none ∷ input 2 none ∷ [])
    × ((remove_explicit_values arranged).outputs ≡ arranged.outputs)
arrange-hidden_example =
    arrange-hidden library client_pset arranged
      ((input 1 none, secrets 1) ∷ (input 2 none, secrets 2) ∷ []) (Perm.refl _) (refl, (refl, tt))
      arranged_lem
