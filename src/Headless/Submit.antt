-- ===== src/Headless/Submit.antt =====
-- A new order: the request to submit it, the choice of its inputs, and the dispatch of callbacks.
use sideswapclient.Prelude.{
  ◌>>=◌, ℕ, ltb, Bool, true, false, ◌&&◌, Option, none, some, List, [], ◌∷◌, ◌++◌, map,
  if◌then◌else◌, ◌==◌,
}
use sideswapclient.Prelude.Int64
use sideswapclient.Prelude.Int64.{I64}
use sideswapclient.Prelude.Key.{Text, nat_key}
use sideswapclient.Prelude.Map.{get, insert, values}
use sideswapclient.Utxo.{select_utxo_values}
use sideswapclient.Headless.Types.{
  OrderId, AssetId, Sender, OutPoint, OrderState, active, succeed, failed, UnspentOutput, PsetInput,
  SwapInputs, Details, SubmitResponse, NewOrder, submit, pset_maker, submit_resp, Answer, ok, err,
  server, not_inputs, too_many_request, order_error, Callback, on_login, on_sign, on_pset_maker,
  on_submit, Data,
}
use sideswapclient.Headless.Requests.{
  Step, reply, cancel_order, make_async_request, finish_login, finish_sign, finish_pset_maker,
}

-- `OrderState::Active(inputs)` and `Succeed(inputs, _)` hold their inputs.
abbrev pub inputs_of : OrderState → List OutPoint
inputs_of (active inputs) = inputs
inputs_of (succeed inputs txid) = inputs
inputs_of failed = []

abbrev pub outpoint_eq : OutPoint → OutPoint → Bool
outpoint_eq a b = a.txid == b.txid && a.vout == b.vout

-- `reserved.contains(..)`
abbrev pub contains : OutPoint → List OutPoint → Bool
contains o [] = false
contains o (x ∷ xs) = if outpoint_eq x o then true else contains o xs

-- The set `reserved`: the inputs of all orders.
abbrev pub reserved_of : List OrderState → List OutPoint
reserved_of [] = []
reserved_of (order ∷ orders) = inputs_of order ++ reserved_of orders

abbrev pub outpoint : UnspentOutput → OutPoint
outpoint input = record { txid = input.txhash; vout = input.vout }

-- `inputs.retain(|input| !reserved.contains(..))`
unfoldable pub unreserved : List OutPoint → List UnspentOutput → List UnspentOutput
unreserved reserved [] = []
unreserved reserved (input ∷ inputs) =
    if contains (outpoint input) reserved
    then unreserved reserved inputs
    else input ∷ unreserved reserved inputs

-- `iter().map(|input| input.satoshi).sum::<u64>() as i64`
abbrev pub total_satoshi : List UnspentOutput → I64
total_satoshi [] = 0
total_satoshi (input ∷ inputs) = Int64.add input.satoshi (total_satoshi inputs)

-- What is taken from outside: the scripts that the `elements` library makes, the random order of
-- `shuffle`, and the negation of prices.
pub record Outside (F : Type 0) : Type 0 where
  pub p2shwpkh_redeem_script : ℕ → Text
  pub wsh_redeem_script : Text → Text
  pub shuffle : List UnspentOutput → List UnspentOutput
  pub neg : F → F

module _ {F : Type 0} (outside : Outside F) where
  unfoldable pub get_redeem_script : UnspentOutput → Text
  get_redeem_script utxo = elim utxo.public_key [
    | none ↦ outside.wsh_redeem_script utxo.prevout_script
    | some public_key ↦ outside.p2shwpkh_redeem_script public_key
  ]

  unfoldable pub convert_to_swap_utxo : UnspentOutput → PsetInput
  unfolding get_redeem_script
  convert_to_swap_utxo utxo = record {
    txid = utxo.txhash;
    vout = utxo.vout;
    asset = utxo.asset_id;
    asset_bf = utxo.assetblinder;
    value = utxo.satoshi;
    value_bf = utxo.amountblinder;
    redeem_script = some (get_redeem_script utxo);
  }

  abbrev pub input_outpoint : PsetInput → OutPoint
  input_outpoint input = record { txid = input.txid; vout = input.vout }

  abbrev pub weighted : List UnspentOutput → List (I64 × PsetInput)
  weighted = map λ input. (input.satoshi, convert_to_swap_utxo input)

  -- `(send_asset, send_amount)`
  abbrev pub send_asset_amount : Data F → Details F → AssetId × I64
  send_asset_amount data' details =
      if details.send_bitcoins
      then (data'.policy_asset, Int64.add details.bitcoin_amount details.server_fee)
      else (details.asset, details.asset_amount)

  -- `.get(&send_asset).cloned().unwrap_or_default()`
  abbrev pub or_empty : Option (List UnspentOutput) → List UnspentOutput
  or_empty none = []
  or_empty (some utxos) = utxos

  -- The inputs that the order may use, in the order of `shuffle`.
  abbrev pub candidates : Data F → SwapInputs → Details F → List UnspentOutput
  candidates data' swap_inputs details = outside.shuffle (
      unreserved (reserved_of (values data'.orders))
        (or_empty (get (send_asset_amount data' details).0 swap_inputs.utxos)))

  -- `cancel_order`, then the reply `NotInputs`.
  abbrev pub refuse_inputs : OrderId → Sender → Data F → Data F
  refuse_inputs order_id sender data' =
      reply sender (order_error not_inputs) (cancel_order order_id data')

  unfoldable pub run_pset_maker : Callback F → Answer F → Step F
  unfolding finish_pset_maker
  run_pset_maker (on_pset_maker order_id details new_order sender) answer data' =
      finish_pset_maker order_id details new_order.unique_key sender answer data'
  run_pset_maker _ answer data' = none

  -- The order is active on the chosen inputs, and they are sent to the server.
  unfoldable pub submit_inputs :
      SubmitResponse F → NewOrder F → Sender → SwapInputs → List PsetInput → Step F
  unfolding run_pset_maker make_async_request
  submit_inputs resp new_order sender swap_inputs inputs data' =
      make_async_request run_pset_maker
        (pset_maker (record {
          order_id = resp.order_id;
          price = resp.details.price;
          inputs = inputs;
          recv_addr = swap_inputs.recv_address;
          change_addr = swap_inputs.change_address;
          private = true;
          ttl_seconds = new_order.ttl_seconds;
        }))
        (on_pset_maker resp.order_id resp.details new_order sender)
        (record data' {
          orders = insert resp.order_id (active (map input_outpoint inputs)) data'.orders;
        })

  -- The rest of `process_submit_inputs`, on what `swap_inputs` is.
  unfoldable pub submit_from : SubmitResponse F → NewOrder F → Sender → Option SwapInputs → Step F
  unfolding submit_inputs
  submit_from resp new_order sender none data' = some (refuse_inputs resp.order_id sender data')
  submit_from resp new_order sender (some swap_inputs) data' =
      let inputs = candidates data' swap_inputs resp.details in
      let send_amount = (send_asset_amount data' resp.details).1 in
      if Int64.lt (total_satoshi inputs) send_amount
      then some (refuse_inputs resp.order_id sender data')
      else select_utxo_values (weighted inputs) send_amount >>= λ chosen.
          submit_inputs resp new_order sender swap_inputs chosen data'

  unfoldable pub process_submit_inputs : SubmitResponse F → NewOrder F → Sender → Step F
  unfolding submit_from
  process_submit_inputs resp new_order sender data' =
      submit_from resp new_order sender data'.inputs data'

  unfoldable pub finish_submit : NewOrder F → Sender → Answer F → Step F
  unfolding process_submit_inputs
  finish_submit new_order sender (ok (submit_resp resp)) data' =
      process_submit_inputs resp new_order sender data'
  finish_submit new_order sender (ok _) data' = none
  finish_submit new_order sender (err e) data' =
      some (reply sender (order_error (server e.message)) data')

  -- `callback(data, res)`
  unfoldable pub run_callback : Callback F → Answer F → Step F
  unfolding finish_submit finish_login finish_sign finish_pset_maker
  run_callback on_login answer data' = finish_login answer data'
  run_callback (on_sign order_id) answer data' = finish_sign order_id answer data'
  run_callback (on_pset_maker order_id details new_order sender) answer data' =
      finish_pset_maker order_id details new_order.unique_key sender answer data'
  run_callback (on_submit new_order sender) answer data' =
      finish_submit new_order sender answer data'

  unfoldable pub process_new_order : NewOrder F → Sender → Step F
  unfolding run_callback make_async_request
  process_new_order new_order sender data' =
      if ltb 5 data'.sign_request_count
      then some (reply sender (order_error too_many_request) data')
      else make_async_request run_callback
          (submit (record {
            asset = new_order.asset_id;
            asset_amount = some (outside.neg new_order.asset_amount);
            price = some new_order.price;
          }))
          (on_submit new_order sender) data'
