-- ===== src/Headless/Worker.antt =====
-- The handlers of the worker's messages, and the main loop.
use sideswapclient.Prelude.{
  ◌>>=◌, ℕ, ◌+◌, ◌-◌, ◌%◌, Bool, true, false, Option, none, some, List, [], ◌∷◌, ◌++◌,
}
use sideswapclient.Prelude.Key.{Text, nat_key}
use sideswapclient.Prelude.Map.{get, insert, remove, values}
use sideswapclient.Headless.Types.{
  OrderId, Txid, RequestId, request_id_key, OrderState, active, succeed, failed, login, sign,
  Answer, err, order_status, Status, is_active, expired, is_succeed, Callback, on_login, on_sign,
  Notification, order_created, order_removed, complete, sign_order, other_notification, WsResp,
  connected, disconnected, response, notification, WalletResp, swap_inputs, signed_pset,
  pset_sign_failed, ApiReq, new_order, get_order_status, list_orders, Req, api_server, wallet, ws,
  Data,
}
use sideswapclient.Headless.Requests.{
  Step, reply, request_ws_connect, cancel_order, server_disconnected, make_async_request,
}
use sideswapclient.Headless.Submit.{Outside, run_callback, process_new_order}

-- `sign_request_count` is a `usize`.
abbrev pub usize_modulus : ℕ
usize_modulus = 18_446_744_073_709_551_616

-- `get_order_status`: the status of an order, and its txid.
abbrev pub status_of : Option OrderState → Status × Option Txid
status_of (some (active inputs)) = (is_active, none)
status_of (some (succeed inputs txid)) = (is_succeed, some txid)
status_of (some failed) = (expired, none)
status_of none = (expired, none)

-- `OrderRemoved`: the state is replaced where it does not match `Active(_)`.
abbrev pub removed : OrderState → OrderState
removed (active inputs) = active inputs
removed (succeed inputs txid) = failed
removed failed = failed

module _ {F : Type 0} (outside : Outside F) where
  abbrev pub one_less : Data F → Data F
  one_less data' = record data' {
    sign_request_count = (data'.sign_request_count + (usize_modulus - 1)) % usize_modulus;
  }

  unfoldable pub process_wallet : WalletResp → Step F
  unfolding run_callback make_async_request cancel_order
  process_wallet (swap_inputs inputs) data' = some (record data' { inputs = some inputs })
  process_wallet (signed_pset order_id pset) data' =
      make_async_request (run_callback outside) (sign order_id pset) (on_sign order_id)
        (one_less data')
  process_wallet (pset_sign_failed order_id) data' = some (cancel_order order_id (one_less data'))

  unfoldable pub process_api : ApiReq F → Step F
  unfolding process_new_order
  process_api (new_order order sender) data' = process_new_order outside order sender data'
  process_api (get_order_status order_id sender) data' =
      let (status, txid) = status_of (get order_id data'.orders) in
      some (reply sender (order_status status txid) data')
  process_api (list_orders sender) data' = some data'

  -- The loop over `async_requests.into_values()`.
  unfoldable pub run_all : List (Callback F) → Answer F → Step F
  unfolding run_callback
  run_all [] answer data' = some data'
  run_all (callback ∷ rest) answer data' =
      run_callback outside callback answer data' >>= run_all rest answer

  -- `Complete` with a txid: `remove(..).unwrap()`, and a panic unless the order is active.
  abbrev pub complete_active : OrderId → Txid → Option OrderState → Step F
  complete_active order_id txid (some (active inputs)) data' = some (record data' {
    orders = insert order_id (succeed inputs txid) (remove order_id data'.orders);
  })
  complete_active order_id txid _ data' = none

  -- `OrderRemoved`, on what `get_mut(&order.order_id)` is.
  abbrev pub remove_order : OrderId → Option OrderState → Step F
  remove_order order_id none data' = some data'
  remove_order order_id (some order) data' =
      some (record data' { orders = insert order_id (removed order) data'.orders })

  unfoldable pub process_notification : Notification F → Step F
  process_notification (order_created order_id) data' = some data'
  process_notification (order_removed order_id) data' =
      remove_order order_id (get order_id data'.orders) data'
  process_notification (complete order_id (some txid)) data' =
      complete_active order_id txid (get order_id data'.orders) data'
  process_notification (complete order_id none) data' =
      some (record data' { orders = insert order_id failed data'.orders })
  process_notification (sign_order msg) data' = some (record data' {
    wallet_sent = data'.wallet_sent ++ msg ∷ [];
    sign_request_count = (data'.sign_request_count + 1) % usize_modulus;
  })
  process_notification other_notification data' = some data'

  -- `Response`, on what `async_requests.remove(&request_id)` returns.
  abbrev pub take_answer : RequestId → Answer F → Option (Callback F) → Step F
  take_answer request_id answer none data' = some data'
  take_answer request_id answer (some callback) data' =
      run_callback outside callback answer
        (record data' { async_requests = remove request_id data'.async_requests })

  unfoldable pub process_ws : WsResp F → Step F
  unfolding run_all process_notification request_ws_connect make_async_request run_callback
  process_ws connected data' =
      make_async_request (run_callback outside) (login (some data'.session_id)) on_login
        (record data' { ws_connected = true })
  process_ws disconnected data' =
      run_all (values data'.async_requests) (err server_disconnected)
        (record data' { ws_connected = false; async_requests = [] })
      >>= λ later. some (request_ws_connect later)
  process_ws (response none answer) data' = none
  process_ws (response (some request_id) answer) data' =
      take_answer request_id answer (get request_id data'.async_requests) data'
  process_ws (notification msg) data' = process_notification msg data'

  unfoldable pub step : Req F → Step F
  unfolding process_api process_wallet process_ws
  step (api_server req) = process_api req
  step (wallet resp) = process_wallet resp
  step (ws resp) = process_ws resp

-- `run`: the state before the first message, which asks for a connection.
unfoldable pub start : {F : Type 0} → Text → ℕ → Bool → ℕ → ℕ → Data F
unfolding request_ws_connect
start host port use_tls policy_asset session_id = request_ws_connect (record {
  host = host;
  port = port;
  use_tls = use_tls;
  policy_asset = policy_asset;
  session_id = session_id;
  ws_connected = false;
  async_requests = [];
  ws_sent = [];
  wallet_sent = [];
  orders = [];
  inputs = none;
  unique_orders = [];
  sign_request_count = 0;
  replies = [];
  next_request_id = 1;
})

-- The main loop on the messages received, each with what is outside at its time. It ends at a panic.
unfoldable pub run : {F : Type 0} → List (Outside F × Req F) → Step F
unfolding step
run [] data' = some data'
run ((outside, req) ∷ reqs) data' = step outside req data' >>= run reqs
