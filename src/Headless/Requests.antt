-- ===== src/Headless/Requests.antt =====
-- Sending requests, and the callbacks that send at most a cancellation.
use sideswapclient.Prelude.{
  Bool, true, false, Option, none, some, List, [], ◌∷◌, ◌++◌, if◌then◌else◌,
}
use sideswapclient.Prelude.Int64
use sideswapclient.Prelude.Key.{Text, codes, nat_key, text_key}
use sideswapclient.Prelude.Map.{get, insert}
use sideswapclient.Prelude.Decimal.{decimal}
use sideswapclient.Headless.Types.{
  OrderId, Sender, RequestId, request_id_key, string, OrderState, active, succeed, failed, Details,
  Request, cancel, WrappedRequest, connect, request, ServerError, server_error, login_resp,
  pset_maker_resp, sign_resp, Answer, ok, err, not_inputs, duplicated_order, Reply, order_info,
  order_error, Callback, Data,
}

-- A step of the worker: `none` is a panic, on which the process aborts.
abbrev pub Step : Type 0 → Type 0
Step F = Data F → Option (Data F)

-- `is_allowed`: the order under the key is neither active nor done.
abbrev pub is_allowed : Option OrderState → Bool
is_allowed (some (active inputs)) = false
is_allowed (some (succeed inputs txid)) = false
is_allowed (some failed) = true
is_allowed none = true

abbrev pub not_connected : ServerError
not_connected = record { code = server_error; message = codes "Not connected" }

abbrev pub server_disconnected : ServerError
server_disconnected = record { code = server_error; message = codes "Server disconnected" }

module _ {F : Type 0} where
  abbrev pub send_ws : WrappedRequest F → Data F → Data F
  send_ws msg data' = record data' { ws_sent = data'.ws_sent ++ msg ∷ [] }

  abbrev pub reply : Sender → Reply F → Data F → Data F
  reply sender answer data' = record data' { replies = data'.replies ++ (sender, answer) ∷ [] }

  unfoldable pub request_ws_connect : Data F → Data F
  request_ws_connect data' = send_ws (connect data'.host data'.port data'.use_tls) data'

  -- `next_request_id_str`: the id, and the counter moved on.
  abbrev pub this_id : Data F → RequestId
  this_id data' = string (decimal data'.next_request_id)

  abbrev pub next_id : Data F → Data F
  next_id data' = record data' { next_request_id = Int64.add data'.next_request_id 1 }

  unfoldable pub send_request : Request F → Data F → Data F
  send_request req data' =
      if data'.ws_connected then send_ws (request (this_id data') req) (next_id data') else data'

  unfoldable pub cancel_order : OrderId → Data F → Data F
  unfolding send_request
  cancel_order order_id data' =
      send_request (cancel order_id) (record data' { orders = insert order_id failed data'.orders })

  -- The loop of the `Login` callback.
  unfoldable pub cancel_orders : List OrderId → Data F → Data F
  unfolding cancel_order
  cancel_orders [] data' = data'
  cancel_orders (order_id ∷ rest) data' = cancel_orders rest (cancel_order order_id data')

  -- `run` is the call of the callback, made at once where the server is not connected.
  unfoldable pub make_async_request :
      (Callback F → Answer F → Step F) → Request F → Callback F → Step F
  make_async_request run req callback data' =
      if data'.ws_connected
      then some (record (send_ws (request (this_id data') req) (next_id data')) {
        async_requests = insert (this_id data') callback data'.async_requests;
      })
      else run callback (err not_connected) data'

  unfoldable pub finish_login : Answer F → Step F
  unfolding cancel_orders
  finish_login (ok (login_resp orders)) data' = some (cancel_orders orders data')
  finish_login (ok _) data' = none
  finish_login (err e) data' = some data'

  unfoldable pub finish_sign : OrderId → Answer F → Step F
  unfolding cancel_order
  finish_sign order_id (ok sign_resp) data' = some data'
  finish_sign order_id (ok _) data' = none
  finish_sign order_id (err e) data' = some (cancel_order order_id data')

  -- The key is free: unused, or its order failed.
  abbrev pub key_is_free : Text → Data F → Bool
  key_is_free unique_key data' = elim (get unique_key data'.unique_orders) [
    | none ↦ true
    | some existing ↦ is_allowed (get existing data'.orders)
  ]

  abbrev pub info_of : OrderId → Details F → Reply F
  info_of order_id details = order_info (record {
    order_id = order_id;
    asset_id = details.asset;
    bitcoin_amount = details.bitcoin_amount;
    asset_amount = details.asset_amount;
    price = details.price;
    private = true;
  })

  -- The callback of `PsetMaker`.
  unfoldable pub finish_pset_maker : OrderId → Details F → Option Text → Sender → Answer F → Step F
  unfolding cancel_order
  finish_pset_maker order_id details none sender (ok pset_maker_resp) data' =
      some (reply sender (info_of order_id details) data')
  finish_pset_maker order_id details (some unique_key) sender (ok pset_maker_resp) data' =
      if key_is_free unique_key data'
      then some (
          reply sender (info_of order_id details)
            (record data' { unique_orders = insert unique_key order_id data'.unique_orders }))
      else some (cancel_order order_id (reply sender (order_error duplicated_order) data'))
  finish_pset_maker order_id details unique_key sender (ok _) data' = none
  finish_pset_maker order_id details unique_key sender (err e) data' =
      some (reply sender (order_error not_inputs) (cancel_order order_id data'))
