-- ===== src/Dealer/Psets.antt =====
-- `get_pset` and `sign_pset`: the inputs that the dealer gives to an order, and those that it signs.
use sideswapclient.Prelude.{
  ℕ, ◌+◌, Bool, true, false, not, ◌&&◌, Option, none, some, List, [], ◌∷◌, map, if◌then◌else◌, ◌==◌,
  ◌>>=◌,
}
use sideswapclient.Prelude.Float.{Float}
use sideswapclient.Prelude.Int64
use sideswapclient.Prelude.Int64.{I64}
use sideswapclient.Prelude.Map.{get, values}
use sideswapclient.Utxo.{sum_i64, select_utxo, take_values}
use sideswapclient.Dealer.Types.{
  OrderId, AssetId, Address, TxOut, tx_out_key, UnspentItem, Utxo, Utxos, PsetInput, Details,
  Params, PsetRequest, Request, Answer, Reply, ok, SignNotification,
}
use sideswapclient.Dealer.Prices.{
  ensure, unwrap, ok_or, and_reply, min_i64, one_f64, extra_asset_utxo_fraction,
}

-- An input of a PSET, as far as it is read and written.
pub record SignInput : Type 0 where
  pub previous_output : TxOut
  pub final_script_sig : Option ℕ
  pub final_script_witness : Option (ℕ × ℕ)

-- What comes from outside while a message is handled: the server's answer to a request, by the
-- requests sent before; the wallet's answers (`none` is an error); the encodings and the
-- cryptography of the `elements` library; and the clock, in seconds, when it is first and when it is
-- last read.
pub record Outside (F : Type 0) : Type 0 where
  pub answer : List (Request F) → Request F → Answer F
  pub recv_address : List (Request F) → Option Address
  pub change_address : List (Request F) → Option Address
  pub list_unspent : Option (List UnspentItem)
  pub wallet_info : Option ℕ
  pub dump_priv_key : Address → Option ℕ
  pub decode_pset : ℕ → Option (List SignInput)
  pub encode_pset : List SignInput → ℕ
  -- The index of the input, the key, the commitment.
  pub input_sign : ℕ → ℕ → ℕ → ℕ → ℕ
  pub public_key : ℕ → ℕ
  pub push_script : ℕ → ℕ
  pub now : ℕ
  pub now_later : ℕ

abbrev pub is_some : Option ℕ → Bool
is_some none = false
is_some (some x) = true

-- A UTXO of the asset whose blinders are known.
abbrev pub is_usable : AssetId → Utxo → Bool
is_usable send_asset utxo =
    utxo.item.asset == send_asset
    && is_some utxo.item.amountblinder
    && is_some utxo.item.assetblinder

unfoldable pub filter : (Utxo → Bool) → List Utxo → List Utxo
filter test [] = []
filter test (x ∷ xs) = if test x then x ∷ filter test xs else filter test xs

-- `none` where a blinder is missing (a panic).
unfoldable pub pset_input : AssetId → Utxo → Option PsetInput
pset_input send_asset utxo = utxo.item.assetblinder >>= λ asset_bf.
    utxo.item.amountblinder >>= λ value_bf. some (record {
      txid = utxo.item.txid;
      vout = utxo.item.vout;
      asset = send_asset;
      asset_bf = asset_bf;
      value = utxo.amount;
      value_bf = value_bf;
      redeem_script = utxo.item.redeem_script;
    })

unfoldable pub pset_inputs : AssetId → List Utxo → Option (List PsetInput)
unfolding pset_input
pset_inputs send_asset [] = some []
pset_inputs send_asset (utxo ∷ utxos) = pset_input send_asset utxo >>= λ input.
    pset_inputs send_asset utxos >>= λ inputs. some (input ∷ inputs)

abbrev pub weighted : List Utxo → List (I64 × Utxo)
weighted = map λ utxo. (utxo.amount, utxo)

abbrev pub amounts_of : List Utxo → List I64
amounts_of = map λ utxo. utxo.amount

module _ (float : Float) where
  open float use {F64}

  -- `(send_asset, send_amount)`
  abbrev pub send_asset_amount : Params F64 → Details F64 → AssetId × I64
  send_asset_amount params details =
      if details.send_bitcoins
      then (params.policy_asset, Int64.add details.bitcoin_amount details.server_fee)
      else (details.asset, details.asset_amount)

  -- The amount with the part for later edits of the price.
  abbrev pub utxo_amount : Bool → Bool → I64 → I64 → I64
  utxo_amount extra_asset_utxo send_bitcoins send_amount total =
      if extra_asset_utxo && not send_bitcoins
      then min_i64 total (
          float.to_i64 (
            float.round (
              float.mul (float.of_i64 send_amount)
                (float.add (one_f64 float) (extra_asset_utxo_fraction float)))))
      else send_amount

  -- The choice of the inputs: a panic where `select_utxo`, `expect` or `unwrap` has one.
  unfoldable pub choose_inputs : AssetId → List Utxo → I64 → Option (List PsetInput)
  unfolding pset_inputs
  choose_inputs send_asset asset_utxos amount =
      select_utxo (amounts_of asset_utxos) amount >>= λ selected.
      take_values selected (weighted asset_utxos) [] >>= pset_inputs send_asset

  unfoldable pub get_pset :
      Outside F64
      → List (Request F64)
      → OrderId
      → Details F64
      → Utxos
      → Params F64
      → Bool
      → Reply (PsetRequest F64)
  unfolding filter choose_inputs
  get_pset outside sent order_id details utxos params extra_asset_utxo =
      let send = send_asset_amount params details in
      let asset_utxos = filter (is_usable send.0) (values utxos) in
      let total = sum_i64 (amounts_of asset_utxos) in
      ensure (Int64.le send.1 total) (
        unwrap
          (choose_inputs send.0 asset_utxos
            (utxo_amount extra_asset_utxo details.send_bitcoins send.1 total))
          λ inputs. unwrap (outside.recv_address sent) λ recv_addr.
            unwrap (outside.change_address sent) λ change_addr. ok (record {
              order_id = order_id;
              price = details.price;
              inputs = inputs;
              recv_addr = recv_addr;
              change_addr = change_addr;
            }))

-- `redeem_script.as_ref().map(..)`
abbrev script_sig : (ℕ → ℕ) → Option ℕ → Option ℕ
script_sig push none = none
script_sig push (some script) = some (push script)

module _ {F : Type 0} (outside : Outside F) where
  -- The part of the loop for an input that is in the wallet: an RPC error is passed on.
  unfoldable pub sign_own : ℕ → ℕ → Utxo → SignInput → Reply SignInput
  sign_own tx index utxo input = ok_or (outside.dump_priv_key utxo.item.address) λ private_key.
      unwrap utxo.item.amountcommitment λ value_commitment. ok (record input {
        final_script_sig = script_sig outside.push_script utxo.item.redeem_script;
        final_script_witness = some (
          outside.input_sign tx index private_key value_commitment,
          outside.public_key private_key,
        );
      })

  -- The `if let` on the wallet's UTXO.
  abbrev pub sign_known : ℕ → ℕ → Option Utxo → SignInput → Reply SignInput
  sign_known tx index none input = ok input
  sign_known tx index (some utxo) input = sign_own tx index utxo input

  -- The signatures are over the transaction that was extracted first, `tx`.
  unfoldable pub sign_inputs : Utxos → ℕ → ℕ → List SignInput → Reply (List SignInput)
  unfolding sign_own
  sign_inputs utxos tx index [] = ok []
  sign_inputs utxos tx index (input ∷ inputs) =
      and_reply (sign_known tx index (get input.previous_output utxos) input)
        λ first. and_reply (sign_inputs utxos tx (index + 1) inputs) λ rest. ok (first ∷ rest)

  -- The signed PSET.
  unfoldable pub sign_pset : SignNotification F → Utxos → Reply ℕ
  unfolding sign_inputs
  sign_pset msg utxos = ok_or (outside.decode_pset msg.pset) λ inputs.
      and_reply (sign_inputs utxos msg.pset 0 inputs) λ signed. ok (outside.encode_pset signed)
