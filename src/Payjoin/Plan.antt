-- ===== src/Payjoin/Plan.antt =====
-- `create_payjoin` up to the PSET, and `construct_pset` up to the blinding. A number of 64 bits wraps.
use sideswapclient.Prelude.{
  ℕ, ◌+◌, ◌-◌, ◌*◌, ◌/◌, ◌%◌, Bool, true, false, not, ◌&&◌, Option, none, some, List, [], ◌∷◌, ◌++◌,
  map, length, ltb, leb, ◌==◌, if◌then◌else◌, ◌>>=◌,
}
use sideswapclient.Prelude.Float.{Float}
use sideswapclient.Prelude.Int64
use sideswapclient.Payjoin.Types.{
  AssetId, Address, is_blinded, Utxo, CreatePayjoin, StartResponse, ConstructPsetArgs, PsetInput,
  TxOutSecrets, Output,
}

abbrev pub all_of : AssetId → List Utxo → Bool
all_of asset [] = true
all_of asset (utxo ∷ utxos) = utxo.asset_id == asset && all_of asset utxos

abbrev pub is_empty : List Utxo → Bool
is_empty [] = true
is_empty (utxo ∷ utxos) = false

-- The checks of the request, before the server is asked.
abbrev pub request_checks : CreatePayjoin → Bool
request_checks req =
    not (is_empty req.utxos)
    && all_of req.asset_id req.utxos
    && is_blinded req.address
    && is_blinded req.change_address
    && req.address.params == req.change_address.params
    && ltb 0 req.amount

-- The checks of the server's answer.
abbrev pub response_checks : {F : Type 0} → Address → StartResponse F → Bool
response_checks send_address resp =
    send_address.params == resp.fee_address.params
    && send_address.params == resp.change_address.params
    && is_blinded resp.fee_address
    && is_blinded resp.change_address
    && not (is_empty resp.utxos)

-- The loop over UTXOs: they are pushed until their sum is enough.
unfoldable pub push_until : ℕ → List Utxo → ℕ → ℕ × List Utxo
push_until target [] amount = (amount, [])
push_until target (utxo ∷ utxos) amount =
    let sum = Int64.add amount utxo.value in
    let later = push_until target utxos sum in
    if leb target sum then (sum, utxo ∷ []) else (later.0, utxo ∷ later.1)

abbrev pub output_to : Address → AssetId → ℕ → ℕ → Output
output_to address asset amount blinding_pubkey = record {
  asset = asset;
  amount = amount;
  script_pubkey = address.script_pubkey;
  blinding_key = some blinding_pubkey;
  blinder_index = some 0;
}

-- `pset_output`: an error without a blinding key or for the amount 0.
unfoldable pub pset_output : Address → AssetId → ℕ → Option Output
pset_output address asset amount = elim address.blinding_pubkey [
  | none ↦ none
  | some blinding_pubkey ↦
      if ltb 0 amount then some (output_to address asset amount blinding_pubkey) else none
]

-- The output of the network's fee: no script and no key.
abbrev pub pset_network_fee : AssetId → ℕ → Output
pset_network_fee asset amount = record {
  asset = asset;
  amount = amount;
  script_pubkey = [];
  blinding_key = none;
  blinder_index = none;
}

-- A change output where the amount is not 0.
unfoldable pub change_output : Address → AssetId → ℕ → Option (List Output)
unfolding pset_output
change_output address asset amount =
    if ltb 0 amount
    then (pset_output address asset amount >>= λ output. some (output ∷ []))
    else some []

-- The amount less the fee, where the fee is subtracted; it must be more.
unfoldable pub amount_to_send : Bool → ℕ → ℕ → Option ℕ
amount_to_send false amount max_asset_fee = some amount
amount_to_send true amount max_asset_fee =
    if ltb max_asset_fee amount then some (amount - max_asset_fee) else none

abbrev pub input_of : Utxo → PsetInput
input_of utxo = record {
  txid = utxo.txid;
  vout = utxo.vout;
  script_pub_key = utxo.script_pub_key;
  asset_commitment = utxo.asset_commitment;
  value_commitment = utxo.value_commitment;
}

abbrev pub secrets_of : Utxo → TxOutSecrets
secrets_of utxo = record {
  asset = utxo.asset_id;
  asset_bf = utxo.asset_bf;
  value = utxo.value;
  value_bf = utxo.value_bf;
}

module _ (float : Float) where
  open float use {F64}

  -- `FEE_RATE` is 0.1.
  unfoldable pub expected_network_fee : ℕ → ℕ → ℕ → ℕ
  expected_network_fee single_sig_inputs multi_sig_inputs blinded_outputs =
      let weight =
        (44 + 367 * single_sig_inputs + 526 * multi_sig_inputs + 4810 * blinded_outputs + 178)
        % Int64.modulus in
      let vsize = ((weight + 3) % Int64.modulus) / 4 in
      float.to_u64 (float.ceil (float.mul (float.of_u64 vsize) (float.literal 1 10)))

  -- `fixed_fee + (price * network_fee as f64).round() as u64`
  unfoldable pub asset_fee : ℕ → F64 → ℕ → ℕ
  asset_fee fixed_fee price network_fee =
      Int64.add fixed_fee (float.to_u64 (float.round (float.mul price (float.of_u64 network_fee))))

  abbrev pub max_network_fee : CreatePayjoin → StartResponse F64 → ℕ
  max_network_fee req resp = expected_network_fee (length req.utxos + length resp.utxos) 0 4

  -- The fee that `create_payjoin` returns.
  abbrev pub max_asset_fee : CreatePayjoin → StartResponse F64 → ℕ
  max_asset_fee req resp = asset_fee resp.fixed_fee resp.price (max_network_fee req resp)

  -- The choice of the UTXOs, and the arguments of `construct_pset`.
  unfoldable pub select_utxos :
      CreatePayjoin → StartResponse F64 → AssetId → ℕ → Option (ConstructPsetArgs F64)
  unfolding push_until
  select_utxos req resp lbtc_asset_id send_amount =
      let needed = Int64.add send_amount (max_asset_fee req resp) in
      let client = push_until needed req.utxos 0 in
      let server = push_until (max_network_fee req resp) resp.utxos 0 in
      if leb needed client.0 && leb (max_network_fee req resp) server.0
      then some (record {
        selected_utxos = client.1 ++ server.1;
        send_address = req.address;
        send_asset_id = req.asset_id;
        send_amount = send_amount;
        fee_address = resp.fee_address;
        fixed_fee = resp.fixed_fee;
        price = resp.price;
        client_change_address = req.change_address;
        utxo_asset_amount = client.0;
        utxo_lbtc_amount = server.0;
        server_change_address = resp.change_address;
        lbtc_asset_id = lbtc_asset_id;
      })
      else none

  abbrev pub first_asset : List Utxo → Option AssetId
  first_asset [] = none
  first_asset (utxo ∷ utxos) = some utxo.asset_id

  -- `create_payjoin` between the server's answer and `construct_pset`, with the checks before it.
  unfoldable pub plan : CreatePayjoin → StartResponse F64 → Option (ConstructPsetArgs F64)
  unfolding select_utxos amount_to_send
  plan req resp =
      if request_checks req && response_checks req.address resp
      then (amount_to_send req.subtract_fee_from_amount req.amount (max_asset_fee req resp)
          >>= λ send_amount. first_asset resp.utxos >>= λ lbtc_asset_id.
              select_utxos req resp lbtc_asset_id send_amount)
      else none

  -- The fees by the inputs that were chosen.
  abbrev pub network_fee : ConstructPsetArgs F64 → ℕ
  network_fee args = expected_network_fee (length args.selected_utxos) 0 4

  abbrev pub paid_asset_fee : ConstructPsetArgs F64 → ℕ
  paid_asset_fee args = asset_fee args.fixed_fee args.price (network_fee args)

  unfoldable pub outputs_of : ConstructPsetArgs F64 → Option (List Output)
  unfolding pset_output change_output
  outputs_of args = pset_output args.send_address args.send_asset_id args.send_amount >>= λ sent.
      pset_output args.fee_address args.send_asset_id (paid_asset_fee args) >>= λ fee.
      change_output args.client_change_address args.send_asset_id
        (Int64.sub (Int64.sub args.utxo_asset_amount args.send_amount) (paid_asset_fee args))
      >>= λ asset_change.
          change_output args.server_change_address args.lbtc_asset_id
            (Int64.sub args.utxo_lbtc_amount (network_fee args))
          >>= λ lbtc_change. some (
              sent ∷ fee ∷ asset_change
              ++ lbtc_change
              ++ pset_network_fee args.lbtc_asset_id (network_fee args) ∷ [])

  -- `construct_pset` before the blinding: the inputs, their secrets, and the outputs.
  unfoldable pub construct_pset :
      ConstructPsetArgs F64 → Option (List PsetInput × (List TxOutSecrets × List Output))
  unfolding outputs_of
  construct_pset args = outputs_of args >>= λ outputs.
      some (map input_of args.selected_utxos, (map secrets_of args.selected_utxos, outputs))
