-- ===== src/Dealer/Worker.antt =====
-- The handlers of the worker's messages, and its loop.
use text.Mathlib.Text.{◌==◌ as str_eq}
use sideswapclient.Prelude.{
  ℕ, Bool, true, false, ◌&&◌, Option, none, some, List, [], ◌∷◌, map, if◌then◌else◌, ◌==◌, ◌>>=◌,
}
use sideswapclient.Prelude.Float.{Float, to_bitcoin}
use sideswapclient.Prelude.Int64
use sideswapclient.Prelude.Key.{nat_key}
use sideswapclient.Prelude.Map.{Map, get, insert, remove}
use sideswapclient.Ticker.{DealerTicker, ticker_key, ticker_name, ticker_from_string}
use sideswapclient.Dealer.Types.{
  OrderId, Asset, Order, OwnOrderKey, own_key, OwnOrder, Params, Details, SignNotification, Request,
  assets, login, subscribe, sign, assets_resp, login_resp, subscribe_resp, sign_resp, Answer,
  response, case_reply, swap, To, price, limit_balance, reset_prices, Notification, order_created,
  order_removed, sign_order, complete, other_notification, Msg, to, timer, connected, disconnected,
  notification, reload_utxo,
}
use sideswapclient.Dealer.Prices.{find, take_order, actual_bitcoin_amount}
use sideswapclient.Dealer.Psets.{Outside, sign_pset}
use sideswapclient.Dealer.State.{State, Step, queue, report, send, interest_of}
use sideswapclient.Dealer.Reload.{process_reload}
use sideswapclient.Dealer.Timer.{process_timer}

-- Some ticker of the parameters has the asset's name.
abbrev pub any_ticker : List DealerTicker → Asset → Bool
any_ticker [] asset = false
any_ticker (ticker ∷ tickers) asset =
    if str_eq (ticker_name ticker) asset.ticker then true else any_ticker tickers asset

module _ {F : Type 0} where
  -- `send_request!(..).expect(..)`
  abbrev pub assets_of : Answer F → Option (List Asset)
  assets_of (response (assets_resp list)) = some list
  assets_of _ = none

  abbrev pub login_of : Answer F → Option (List OrderId)
  login_of (response (login_resp orders)) = some orders
  login_of _ = none

  abbrev pub orders_of : Answer F → Option (List (Order F))
  orders_of (response (subscribe_resp orders)) = some orders
  orders_of _ = none

  abbrev pub signed_of : Answer F → Option (Unit {0})
  signed_of (response sign_resp) = some tt
  signed_of _ = none

  abbrev pub insert_order : Order F → State F → State F
  insert_order order state = record state { orders = insert order.order_id order state.orders }

  unfoldable pub insert_orders : List (Order F) → State F → State F
  insert_orders [] state = state
  insert_orders (order ∷ orders) state = insert_orders orders (insert_order order state)

  unfoldable pub forget_orders :
      Map OwnOrderKey (Option (OwnOrder F)) → Map OwnOrderKey (Option (OwnOrder F))
  forget_orders = map λ entry. (entry.0, none)

  unfoldable pub process_disconnected : State F → State F
  unfolding forget_orders
  process_disconnected state = record state {
    server_connected = false;
    orders = [];
    taken_orders = [];
    own_orders = forget_orders state.own_orders;
  }

  abbrev pub has_id : OrderId → Option (OwnOrder F) → Bool
  has_id order_id none = false
  has_id order_id (some own) = own.order_id == order_id

  unfoldable pub forget_order :
      OrderId → Map OwnOrderKey (Option (OwnOrder F)) → Map OwnOrderKey (Option (OwnOrder F))
  forget_order order_id = map λ entry. (entry.0, if has_id order_id entry.1 then none else entry.1)

  unfoldable pub process_to : To F → ℕ → State F → State F
  process_to (price ticker (some pair)) now state = queue timer (record state {
    index_prices = insert ticker (record { price = pair; timestamp = now }) state.index_prices;
  })
  process_to (price ticker none) now state =
      queue timer (record state { index_prices = remove ticker state.index_prices })
  process_to (limit_balance ticker true balance) now state = queue timer (record state {
    all_balances = record state.all_balances {
      max_recv = insert ticker balance state.all_balances.max_recv;
    };
  })
  process_to (limit_balance ticker false balance) now state = queue timer (record state {
    all_balances = record state.all_balances {
      max_send = insert ticker balance state.all_balances.max_send;
    };
  })
  process_to reset_prices now state = record state { index_prices = [] }

module _ (float : Float) (outside : Outside (float.F64)) (params : Params (float.F64)) where
  open float use {F64}

  unfoldable pub subscribe_to : Asset → Step F64
  unfolding insert_orders
  subscribe_to asset state =
      orders_of (outside.answer state.sent (subscribe asset.asset_id)) >>= λ orders.
      some (insert_orders orders (send (subscribe asset.asset_id) state))

  -- The subscription to each asset of the parameters.
  unfoldable pub subscribe_all : List Asset → Step F64
  unfolding subscribe_to
  subscribe_all [] state = some state
  subscribe_all (asset ∷ list) state =
      (if any_ticker params.tickers asset then subscribe_to asset state else some state)
      >>= subscribe_all list

  -- `assert!(login_resp.orders.is_empty())`
  abbrev pub no_orders : List OrderId → Option (Unit {0})
  no_orders [] = some tt
  no_orders (x ∷ xs) = none

  unfoldable pub process_connected : Step F64
  unfolding subscribe_all
  process_connected state = assets_of (outside.answer state.sent assets) >>= λ list.
      let loaded = record (send assets state) { assets = list } in
      login_of (outside.answer loaded.sent login) >>= λ own. no_orders own >>= λ _.
      subscribe_all list (send login loaded) >>= λ later.
      some (queue reload_utxo (record later { server_connected = true }))

  -- The order passed `take_order`: its PSET is signed, sent, and the order waits for completion.
  unfoldable pub sign_taken : SignNotification F64 → Step F64
  unfolding sign_pset
  sign_taken msg state = case_reply (sign_pset outside msg state.utxos) (none) λ pset.
      let request : Request F64 = sign msg.order_id pset msg.details.side in
      signed_of (outside.answer state.sent request) >>= λ _. some (record (send request state) {
        pending_signs = insert msg.order_id msg.details state.pending_signs;
      })

  unfoldable pub process_sign : SignNotification F64 → Step F64
  unfolding sign_taken take_order
  process_sign msg state =
      interest_of params msg.details.asset params.interest_sign_usdt params.interest_sign_eurx
      >>= λ interest.
          case_reply
            (take_order float params state.assets msg.details state.all_balances state.index_prices
              interest)
            (some state) λ _. sign_taken msg state

  -- A completed order, which was signed, is reported; a panic where it was not.
  unfoldable pub report_swap : ℕ → Option (Details F64) → Step F64
  unfolding find ticker_from_string
  report_swap txid none state = none
  report_swap txid (some details) state =
      find (λ asset. asset.asset_id == details.asset) state.assets >>= λ asset.
      ticker_from_string asset.ticker >>= λ ticker. some (
        report
          (swap (record {
            txid = txid;
            ticker = ticker;
            bitcoin_amount = actual_bitcoin_amount float details;
            send_bitcoins = details.send_bitcoins;
          }))
          state)

  unfoldable pub process_complete : OrderId → Option ℕ → Step F64
  unfolding report_swap forget_order
  process_complete order_id txid state =
      let later = record state {
        own_orders = forget_order order_id state.own_orders;
        pending_signs = remove order_id state.pending_signs;
      } in
      elim txid [
        | none ↦ some later
        | some txid ↦ report_swap txid (get order_id state.pending_signs) later
      ]

  unfoldable pub process_notification : Notification F64 → Step F64
  unfolding process_sign process_complete
  process_notification (order_created order) state =
      if order.is_own then some state else some (queue timer (insert_order order state))
  process_notification (order_removed order_id) state =
      some (record state { orders = remove order_id state.orders })
  process_notification (sign_order msg) state = process_sign msg state
  process_notification (complete order_id txid) state = process_complete order_id txid state
  process_notification other_notification state = some state

  unfoldable pub step : Msg F64 → Step F64
  unfolding process_to process_connected process_disconnected process_notification process_timer
      process_reload
  step (to msg) state = some (process_to msg outside.now state)
  step timer state = process_timer float outside params state
  step connected state = process_connected state
  step disconnected state = some (process_disconnected state)
  step (notification msg) state = process_notification msg state
  step reload_utxo state = process_reload float outside state

module _ (float : Float) (params : Params (float.F64)) where
  open float use {F64}

  -- The loop on the messages, each with what is outside at its time.
  unfoldable pub run : List (Outside F64 × Msg F64) → Step F64
  unfolding step
  run [] state = some state
  run ((outside, msg) ∷ messages) state = step float outside params msg state >>= run messages

  -- The assertions on the parameters at the start.
  unfoldable pub params_checks : Bool
  params_checks =
      float.le (float.literal 1 10_000) (to_bitcoin float params.bitcoin_amount_min)
      && Int64.le params.bitcoin_amount_min params.bitcoin_amount_submit
      && Int64.le params.bitcoin_amount_submit params.bitcoin_amount_max
      && interests_checks params.interest_sign_usdt params.interest_submit_usdt
      && interests_checks params.interest_sign_eurx params.interest_submit_eurx
    where
      interests_checks : F64 → F64 → Bool
      interests_checks low high =
          float.lt (float.literal 1 1) low
          && float.lt low high
          && float.lt high (float.literal 11 10)

  -- The keys of `own_orders`: each ticker of the parameters, receiving and sending.
  unfoldable pub own_keys : List DealerTicker → Map OwnOrderKey (Option (OwnOrder F64))
  own_keys [] = []
  own_keys (ticker ∷ tickers) =
      insert (record { ticker = ticker; send_bitcoins = false }) none
        (insert (record { ticker = ticker; send_bitcoins = true }) none (own_keys tickers))

  -- The state before the first message.
  unfoldable pub initial : ℕ → State F64
  unfolding own_keys
  initial now = record {
    assets = [];
    server_connected = false;
    utxos = [];
    orders = [];
    taken_orders = [];
    all_balances = record { wallet = []; max_send = []; max_recv = [] };
    index_prices = [];
    pending_signs = [];
    own_orders = own_keys params.tickers;
    wallet_balance = none;
    last_price_edit = now;
    sent = [];
    queued = [];
    reported = [];
  }

  -- `worker` up to its loop: a panic where an assertion fails.
  unfoldable pub start : ℕ → Option (State F64)
  unfolding initial params_checks
  start now = if params_checks then some (initial now) else none
