-- ===== src/Dealer/Messages.antt =====
-- The messages of the worker keep the limits, the signatures and the orders taken.
use sideswapclient.Prelude.{
  ℕ, ◌≡◌, refl, Bool, true, false, Option, none, some, List, [], ◌∷◌, ◌++◌, if◌then◌else◌, ◌==◌,
  arith, Ensures, Ensures-bind, Ensures-if, Ensures-all, Option-cases, inl, inr,
}
use sideswapclient.Prelude.Float.{Float}
use sideswapclient.Prelude.Key.{nat_key}
use sideswapclient.Prelude.Map.{Map, get, remove, length-insert, length-remove, length-remove_known}
use sideswapclient.Ticker.{DealerTicker, ticker_from_string}
use sideswapclient.Dealer.Types.{
  OrderId, Asset, Order, OwnOrder, OwnOrderKey, Params, Details, SignNotification, Request, assets,
  login, subscribe, sign, From, swap, To, price, limit_balance, reset_prices, Notification,
  order_created, order_removed, sign_order, complete, other_notification, timer, case_reply-Ensures,
}
use sideswapclient.Dealer.Prices.{find, take_order, actual_bitcoin_amount}
use sideswapclient.Dealer.Psets.{Outside, sign_pset}
use sideswapclient.Dealer.State.{State, send, queue, interest_of}
use sideswapclient.Dealer.Worker.{
  any_ticker, assets_of, login_of, orders_of, signed_of, no_orders, insert_order, insert_orders,
  forget_orders, process_disconnected, has_id, forget_order, process_to, subscribe_to,
  subscribe_all, process_connected, sign_taken, process_sign, report_swap, process_complete,
  process_notification,
}
use sideswapclient.Dealer.Trades.{
  signs-append, takes-append, swaps-append, SameTrades, append-SameTrades,
}
use sideswapclient.Dealer.OwnOrders.{IsWithin, AllWithin}
use sideswapclient.Dealer.Safety.{IsSafe, Fine, Fine-refl, Fine-trans, Fine-bind}

module _ {F : Type 0} (params : Params F) where
  abbrev Owns : Type 0
  Owns = Map OwnOrderKey (Option (OwnOrder F))

  forget_orders-AllWithin : (owns : Owns) → AllWithin params (forget_orders owns)
  unfolding forget_orders
  forget_orders-AllWithin [] = tt
  forget_orders-AllWithin (entry ∷ owns) = (tt, forget_orders-AllWithin owns)

  unless-IsWithin :
      (b : Bool) (own : Option (OwnOrder F))
      → IsWithin params own
      → IsWithin params (if b then none else own)
  unless-IsWithin true own w = tt
  unless-IsWithin false own w = w

  forget_order-AllWithin :
      (id : OrderId) (owns : Owns) → AllWithin params owns → AllWithin params (forget_order id owns)
  unfolding forget_order
  forget_order-AllWithin id [] a = tt
  forget_order-AllWithin id (entry ∷ owns) a =
      (unless-IsWithin (has_id id entry.1) entry.1 a.0, forget_order-AllWithin id owns a.1)

  -- A request that is no signature and no inputs for an order of others.
  sent-Fine :
      (state : State F) (request : Request F)
      → SameTrades state.sent (state.sent ++ request ∷ [])
      → Fine params state (send request state)
  sent-Fine state request t = ((λ w. w, omega (arith, t.0)), λ id h. (h, t.1 id))

  pub process_disconnected-IsSafe :
      (state : State F) → IsSafe params state (process_disconnected state)
  unfolding process_disconnected
  process_disconnected-IsSafe state = (λ _. forget_orders-AllWithin state.own_orders, omega arith)

  insert_orders-Fine :
      (orders : List (Order F)) (state : State F) → Fine params state (insert_orders orders state)
  unfolding insert_orders
  insert_orders-Fine [] state = Fine-refl params state
  insert_orders-Fine (order ∷ orders) state =
      Fine-trans params state (insert_order order state)
        (insert_orders orders (insert_order order state)) (Fine-refl params state)
        (insert_orders-Fine orders (insert_order order state))

  pub process_to-Fine :
      (msg : To F) (now : ℕ) (state : State F) → Fine params state (process_to msg now state)
  unfolding process_to
  process_to-Fine (price ticker (some pair)) now state = Fine-refl params state
  process_to-Fine (price ticker none) now state = Fine-refl params state
  process_to-Fine (limit_balance ticker true balance) now state = Fine-refl params state
  process_to-Fine (limit_balance ticker false balance) now state = Fine-refl params state
  process_to-Fine reset_prices now state = Fine-refl params state

module _ (float : Float) (outside : Outside (float.F64)) (params : Params (float.F64)) where
  open float use {F64}

  subscribe_to-Fine :
      (asset : Asset) (state : State F64)
      → Ensures (Fine params state) (subscribe_to float outside params asset state)
  unfolding subscribe_to
  subscribe_to-Fine asset state =
      let request : Request F64 = subscribe asset.asset_id in
      Ensures-bind (λ (_ : List (Order F64)). Unit {0}) (Fine params state)
        (orders_of (outside.answer state.sent request)) _ (Ensures-all _ _ λ _. tt)
        λ (orders : List (Order F64)) _.
          Fine-trans params state (send request state) (insert_orders orders (send request state))
            (sent-Fine params state request (append-SameTrades state.sent request refl (λ _. refl)))
            (insert_orders-Fine params orders (send request state))

  subscribe_all-Fine :
      (list : List Asset) (state : State F64)
      → Ensures (Fine params state) (subscribe_all float outside params list state)
  unfolding subscribe_all
  subscribe_all-Fine [] state = Fine-refl params state
  subscribe_all-Fine (asset ∷ list) state =
      Fine-bind params state _ (subscribe_all float outside params list)
        (Ensures-if (Fine params state) (any_ticker params.tickers asset)
          (subscribe_to float outside params asset state) (some state)
          (λ _. subscribe_to-Fine asset state) (λ _. Fine-refl params state))
        (subscribe_all-Fine list)

  pub process_connected-Fine :
      (state : State F64)
      → Ensures (Fine params state) (process_connected float outside params state)
  unfolding process_connected
  process_connected-Fine state =
      Ensures-bind (λ (_ : List Asset). Unit {0}) (Fine params state)
        (assets_of (outside.answer state.sent assets)) _ (Ensures-all _ _ λ _. tt)
        λ (list : List Asset) _.
          let loaded : State F64 = record (send assets state) { assets = list } in
          Ensures-bind (λ (_ : List OrderId). Unit {0}) (Fine params state)
            (login_of (outside.answer loaded.sent login)) _ (Ensures-all _ _ λ _. tt)
            λ (own : List OrderId) _.
              Ensures-bind (λ (_ : Unit {0}). Unit {0}) (Fine params state)
                (no_orders float outside params own) _ (Ensures-all _ _ λ _. tt)
                λ (_ : Unit {0}) _.
                  Fine-bind params state
                    (subscribe_all float outside params list (send login loaded)) _
                    (Fine-bind params state (some (send login loaded))
                      (subscribe_all float outside params list)
                      (Fine-trans params state loaded (send login loaded)
                        (sent-Fine params state assets
                          (append-SameTrades state.sent assets refl (λ _. refl)))
                        (sent-Fine params loaded login
                          (append-SameTrades loaded.sent login refl (λ _. refl))))
                      (subscribe_all-Fine list))
                    λ later. Fine-refl params later

  sign_taken-Fine :
      (msg : SignNotification F64) (state : State F64)
      → Ensures (Fine params state) (sign_taken float outside params msg state)
  unfolding sign_taken
  sign_taken-Fine msg state =
      case_reply-Ensures (Fine params state) (sign_pset outside msg state.utxos) none _ (λ _. tt)
        λ (pset : ℕ) _.
          let request : Request F64 = sign msg.order_id pset msg.details.side in
          Ensures-bind (λ (_ : Unit {0}). Unit {0}) (Fine params state)
            (signed_of (outside.answer state.sent request)) _ (Ensures-all _ _ λ _. tt)
            λ (_ : Unit {0}) _. (
              (
                λ w. w,
                omega (
                  arith,
                  signs-append state.sent request,
                  length-insert msg.order_id msg.details state.pending_signs,
                ),
              ),
              λ id h. (h, ground (arith, takes-append id state.sent request)),
            )

  process_sign-Fine :
      (msg : SignNotification F64) (state : State F64)
      → Ensures (Fine params state) (process_sign float outside params msg state)
  unfolding process_sign
  process_sign-Fine msg state =
      Ensures-bind (λ (_ : F64). Unit {0}) (Fine params state)
        (interest_of params msg.details.asset params.interest_sign_usdt params.interest_sign_eurx) _
        (Ensures-all _ _ λ _. tt)
        λ (interest : F64) _.
          case_reply-Ensures (Fine params state)
            (take_order float params state.assets msg.details state.all_balances state.index_prices
              interest)
            (some state) _ (λ _. Fine-refl params state) λ _ _. sign_taken-Fine msg state

  -- A completed order leaves those that wait; only one that waited is reported.
  process_complete-Fine :
      (id : OrderId) (txid : Option ℕ) (state : State F64)
      → Ensures (Fine params state) (process_complete float outside params id txid state)
  unfolding process_complete report_swap
  process_complete-Fine id none state = (
    (
      forget_order-AllWithin params id state.own_orders,
      omega (arith, length-remove id state.pending_signs),
    ),
    λ other h. (h, refl),
  )
  process_complete-Fine id (some txid) state = elim (Option-cases (get id state.pending_signs)) [
    | inl e ↦ rw e tt
    | inr (details, e) ↦ rw e (reported details e)
  ]
    where
      later : State F64
      later = record state {
        own_orders = forget_order id state.own_orders;
        pending_signs = remove id state.pending_signs;
      }

      reported :
          (details : Details F64)
          → get id state.pending_signs ≡ some details
          → Ensures (Fine params state) (report_swap float outside params txid (some details) later)
      reported details e =
          Ensures-bind (λ (_ : Asset). Unit {0}) (Fine params state)
            (find (λ asset. asset.asset_id == details.asset) state.assets) _
            (Ensures-all _ _ λ _. tt)
            λ (asset : Asset) _.
              Ensures-bind (λ (_ : DealerTicker). Unit {0}) (Fine params state)
                (ticker_from_string asset.ticker) _ (Ensures-all _ _ λ _. tt)
                λ (ticker : DealerTicker) _.
                  let done : From F64 = swap (record {
                    txid = txid;
                    ticker = ticker;
                    bitcoin_amount = actual_bitcoin_amount float details;
                    send_bitcoins = details.send_bitcoins;
                  }) in
                  (
                    (
                      forget_order-AllWithin params id state.own_orders,
                      omega (
                        arith,
                        swaps-append state.reported done,
                        length-remove_known id state.pending_signs e,
                      ),
                    ),
                    λ other h. (h, refl),
                  )

  pub process_notification-Fine :
      (msg : Notification F64) (state : State F64)
      → Ensures (Fine params state) (process_notification float outside params msg state)
  unfolding process_notification
  process_notification-Fine (order_created order) state =
      Ensures-if (Fine params state) order.is_own (some state)
        (some (queue timer (insert_order order state))) (λ _. Fine-refl params state)
        (λ _. Fine-refl params state)
  process_notification-Fine (order_removed id) state = Fine-refl params state
  process_notification-Fine (sign_order msg) state = process_sign-Fine msg state
  process_notification-Fine (complete id txid) state = process_complete-Fine id txid state
  process_notification-Fine other_notification state = Fine-refl params state
