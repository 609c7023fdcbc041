-- ===== src/Dealer/Timer.antt =====
-- `Timer`: own orders are updated, orders of others taken, the wallet looked at, old prices dropped.
use sideswapclient.Prelude.{
  ℕ, ◌-◌, Bool, false, ◌&&◌, Option, none, some, List, [], ◌∷◌, ltb, leb, if◌then◌else◌, ◌==◌,
  ◌>>=◌,
}
use sideswapclient.Prelude.Float.{Float}
use sideswapclient.Prelude.Map.{Map, values}
use sideswapclient.Ticker.{DealerTicker}
use sideswapclient.Dealer.Types.{
  OrderId, Order, OwnOrderKey, OwnOrder, PriceTimestamp, Params, PsetRequest, Request, pset_taker,
  pset_taker_resp, Answer, error, response, Reply, case_reply, panic, err, ok,
  wallet_balance_updated, reload_utxo,
}
use sideswapclient.Dealer.Prices.{take_order}
use sideswapclient.Dealer.Psets.{Outside, get_pset}
use sideswapclient.Dealer.Own.{update_price}
use sideswapclient.Dealer.State.{State, Step, is_taken, queue, report, send, interest_of}

-- `PRICE_EDIT_MIN_DELAY` and `PRICE_EXPIRATON_TIME`, in seconds.
abbrev pub price_edit_min_delay : ℕ
price_edit_min_delay = 5

abbrev pub price_expiraton_time : ℕ
price_expiraton_time = 60

abbrev pub pset_taken : {F : Type 0} → Answer F → Reply (Unit {0})
pset_taken (response pset_taker_resp) = ok tt
pset_taken error = err
pset_taken _ = panic

-- The prices that are not older than the limit.
unfoldable pub retain_prices :
    {F : Type 0} → ℕ → Map DealerTicker (PriceTimestamp F) → Map DealerTicker (PriceTimestamp F)
retain_prices now [] = []
retain_prices now ((ticker, price) ∷ prices) =
    if ltb price_expiraton_time (now - price.timestamp)
    then retain_prices now prices
    else (ticker, price) ∷ retain_prices now prices

unfoldable pub expire_prices : {F : Type 0} → ℕ → State F → State F
unfolding retain_prices
expire_prices now state = record state { index_prices = retain_prices now state.index_prices }

abbrev pub same_wallet : Option ℕ → ℕ → Bool
same_wallet none info = false
same_wallet (some old) info = old == info

unfoldable pub check_wallet : {F : Type 0} → Option ℕ → State F → State F
check_wallet none state = state
check_wallet (some info) state =
    if same_wallet state.wallet_balance info
    then state
    else report wallet_balance_updated
        (queue reload_utxo (record state { wallet_balance = some info }))

module _ (float : Float) (outside : Outside (float.F64)) (params : Params (float.F64)) where
  open float use {F64}

  abbrev Owns : Type 0
  Owns = Map OwnOrderKey (Option (OwnOrder F64))

  -- The loop over `own_orders.iter_mut()`, with the requests sent.
  unfoldable pub update_all :
      State F64 → Owns → List (Request F64) → Option (Owns × List (Request F64))
  unfolding update_price
  update_all state [] sent = some ([], sent)
  update_all state ((key, own) ∷ owns) sent =
      update_price float outside params own key.send_bitcoins state.assets key.ticker
        state.index_prices state.all_balances state.utxos sent
      >>= λ updated.
          update_all state owns updated.1 >>= λ later. some ((key, updated.0) ∷ later.0, later.1)

  unfoldable pub update_own_orders : Step F64
  unfolding update_all
  update_own_orders state =
      if state.server_connected && leb price_edit_min_delay (outside.now - state.last_price_edit)
      then (update_all state state.own_orders state.sent >>= λ later.
          some
            (record state { own_orders = later.0; sent = later.1; last_price_edit = outside.now }))
      else some state

  -- The PSET is sent to the order's server; an error is only logged.
  unfoldable pub send_taker : OrderId → PsetRequest F64 → Step F64
  send_taker order_id request state =
      case_reply (pset_taken (outside.answer state.sent (pset_taker request)))
        (some (send (pset_taker request) state))
        λ _. some (record (send (pset_taker request) state) {
          taken_orders = order_id ∷ state.taken_orders;
        })

  unfoldable pub make_taker : Order F64 → Step F64
  unfolding send_taker get_pset
  make_taker order state =
      case_reply
        (get_pset float outside state.sent order.order_id order.details state.utxos params false)
        (some state) λ request. send_taker order.order_id request state

  unfoldable pub try_take : Order F64 → F64 → Step F64
  unfolding make_taker take_order
  try_take order interest state =
      case_reply
        (take_order float params state.assets order.details state.all_balances state.index_prices
          interest)
        (some state) λ _. make_taker order state

  -- One round of the loop over the orders.
  unfoldable pub visit_order : Order F64 → Step F64
  unfolding try_take
  visit_order order state =
      if is_taken order.order_id state.taken_orders
      then some state
      else (interest_of params order.details.asset params.interest_submit_usdt
            params.interest_submit_eurx
          >>= λ interest. try_take order interest state)

  unfoldable pub take_orders : List (Order F64) → Step F64
  unfolding visit_order
  take_orders [] state = some state
  take_orders (order ∷ orders) state = visit_order order state >>= take_orders orders

  unfoldable pub process_timer : Step F64
  unfolding update_own_orders take_orders check_wallet expire_prices
  process_timer state = update_own_orders state >>= λ updated.
      take_orders (values updated.orders) updated >>= λ later.
      some (expire_prices outside.now_later (check_wallet outside.wallet_info later))
