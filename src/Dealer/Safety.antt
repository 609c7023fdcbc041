-- ===== src/Dealer/Safety.antt =====
-- What every message but a disconnection keeps: limits, signatures, and orders taken once.
use sideswapclient.Prelude.{
  ℕ, ◌+◌, ◌-◌, ◌≤◌, ◌≡◌, refl, sym, ap, subst, ◌∙◌, Bool, true, false, ◌&&◌, Option, none, some,
  List, [], ◌∷◌, ◌++◌, length, leb, ◌==◌, ==_iff, ◌>>=◌, arith, Ensures, Ensures-bind, Ensures-if,
  Ensures-all, Bool-cases, inl, inr,
}
use sideswapclient.Prelude.Float.{Float}
use sideswapclient.Prelude.Int64
use sideswapclient.Prelude.Key.{nat_key}
use sideswapclient.Prelude.Map.{values}
use sideswapclient.Dealer.Types.{
  OrderId, Address, PsetInput, Order, Utxos, Params, PsetRequest, Details, Request, pset_taker,
  wallet_balance_updated, case_reply-Ensures,
}
use sideswapclient.Dealer.Prices.{take_order}
use sideswapclient.Dealer.Replies.{Oks, Oks-ok, ensure-Oks, unwrap-Oks}
use sideswapclient.Dealer.Psets.{
  Outside, get_pset, choose_inputs, send_asset_amount, amounts_of, is_usable, filter,
}
use sideswapclient.Utxo.{sum_i64}
use sideswapclient.Dealer.State.{State, is_taken, send, interest_of}
use sideswapclient.Dealer.Timer.{
  pset_taken, same_wallet, check_wallet, expire_prices, update_own_orders, send_taker, make_taker,
  try_take, visit_order, take_orders, process_timer, price_edit_min_delay,
}
use sideswapclient.Dealer.Trades.{
  signs, takes, swaps, signs-append, takes-append, swaps-append, SameTrades,
}
use sideswapclient.Dealer.OwnOrders.{AllWithin, AllGood, update_all-Good}

module _ {F : Type 0} (params : Params F) where
  -- The own orders stay within the limits; the swaps reported and the orders that wait for completion
  -- grow by no more than the signatures sent.
  abbrev pub IsSafe : State F → State F → Type 0
  IsSafe state later =
      (AllWithin params state.own_orders → AllWithin params later.own_orders)
      × (swaps later.reported + length later.pending_signs + signs state.sent
          ≤ swaps state.reported + length state.pending_signs + signs later.sent)

  -- An order that was taken stays taken, and no inputs are sent for it.
  abbrev pub TakesOnce : State F → State F → Type 0
  TakesOnce state later =
      (id : OrderId)
      → is_taken id state.taken_orders ≡ true
      → (is_taken id later.taken_orders ≡ true) × (takes id later.sent ≡ takes id state.sent)

  abbrev pub Fine : State F → State F → Type 0
  Fine state later = IsSafe state later × TakesOnce state later

  pub Fine-refl : (state : State F) → Fine state state
  Fine-refl state = ((λ w. w, omega arith), λ id h. (h, refl))

  pub Fine-trans : (a b c : State F) → Fine a b → Fine b c → Fine a c
  Fine-trans a b c (p, once) (q, again) = (
    (λ w. q.0 (p.0 w), omega (arith, p.1, q.1)),
    λ id h. let (t, e) = once id h in let (u, f) = again id t in (u, f ∙ e),
  )

  pub Fine-bind :
      (state : State F) (o : Option (State F)) (f : State F → Option (State F))
      → Ensures (Fine state) o
      → ((next : State F) → Ensures (Fine next) (f next))
      → Ensures (Fine state) (o >>= f)
  Fine-bind state none f h k = tt
  Fine-bind state (some next) f h k = step (f next) (k next)
    where
      step : (o : Option (State F)) → Ensures (Fine next) o → Ensures (Fine state) o
      step none g = tt
      step (some later) g = Fine-trans state next later h g

-- The request is for the order.
get_pset-order_id :
    (float : Float) (outside : Outside (float.F64)) (sent : List (Request (float.F64)))
    (id : OrderId) (details : Details (float.F64)) (utxos : Utxos) (params : Params (float.F64))
    (extra : Bool)
    → Oks
        (λ (request : PsetRequest (float.F64)). request.order_id ≡ id)
        (get_pset float outside sent id details utxos params extra)
unfolding get_pset
get_pset-order_id float outside sent id details utxos params extra =
    let IsFor = λ (request : PsetRequest (float.F64)). request.order_id ≡ id in
    ensure-Oks IsFor
      (Int64.le ((send_asset_amount float params details).1) (
        sum_i64 (
          amounts_of
            (filter (is_usable ((send_asset_amount float params details).0)) (values utxos)))))
      _
      λ _. unwrap-Oks IsFor (choose_inputs float _ _ _) _ λ (inputs : List PsetInput) _.
        unwrap-Oks IsFor (outside.recv_address sent) _ λ (recv_addr : Address) _.
          unwrap-Oks IsFor (outside.change_address sent) _ λ (change_addr : Address) _. refl

one_take_other :
    (id order : OrderId) (taken : List OrderId)
    → is_taken id taken ≡ true
    → is_taken order taken ≡ false
    → (order == id) ≡ false
one_take_other id order taken h k = elim (Bool-cases (order == id)) [
  | inl e ↦ absurd (
      ground (arith, e, h, k, subst (λ z. is_taken z taken ≡ true) (sym ((==_iff order id).0 e)) h))
  | inr e ↦ e
]

takes_other :
    {F : Type 0} (id : OrderId) (request : PsetRequest F) (sent : List (Request F))
    → (request.order_id == id) ≡ false
    → takes id (sent ++ pset_taker request ∷ []) ≡ takes id sent
takes_other id request sent h = ground (arith, takes-append id sent (pset_taker request))

module _ (float : Float) (outside : Outside (float.F64)) (params : Params (float.F64)) where
  open float use {F64}

  -- The fields of `IsSafe` and `TakesOnce` after the own orders and the requests changed.
  own_changed :
      (state later : State F64)
      → AllWithin params later.own_orders
      → SameTrades state.sent later.sent
      → later.reported ≡ state.reported
      → later.pending_signs ≡ state.pending_signs
      → later.taken_orders ≡ state.taken_orders
      → Fine params state later
  own_changed state later w t r p k = (
    (λ _. w, omega (arith, t.0, ap swaps r, ap length p)),
    λ id h. (subst (λ z. is_taken id z ≡ true) (sym k) h, t.1 id),
  )

  update_own_orders-Fine :
      (state : State F64)
      → AllWithin params state.own_orders
      → Ensures (Fine params state) (update_own_orders float outside params state)
  unfolding update_own_orders
  update_own_orders-Fine state w =
      Ensures-if (Fine params state)
        (state.server_connected && leb price_edit_min_delay (outside.now - state.last_price_edit)) _
        _
        (λ _.
          Ensures-bind (AllGood float outside params state.sent) (Fine params state) _ _
            (update_all-Good float outside params state state.own_orders state.sent w)
            λ later (ws, t).
              own_changed state
                (record state {
                  own_orders = later.0;
                  sent = later.1;
                  last_price_edit = outside.now;
                })
                ws t refl refl refl)
        λ _. Fine-refl params state

  -- Inputs sent for an order that was not taken.
  taker_sent :
      (id : OrderId) (request : PsetRequest F64) (state later : State F64)
      → request.order_id ≡ id
      → is_taken id state.taken_orders ≡ false
      → later.own_orders ≡ state.own_orders
      → later.reported ≡ state.reported
      → later.pending_signs ≡ state.pending_signs
      → later.sent ≡ state.sent ++ pset_taker request ∷ []
      → ((other : OrderId)
          → is_taken other state.taken_orders ≡ true
          → is_taken other later.taken_orders ≡ true)
      → Fine params state later
  taker_sent id request state later e free w r p t k = (
    (
      λ a. subst (AllWithin params) (sym w) a,
      omega (
        arith,
        ap swaps r,
        ap length p,
        ap signs t,
        signs-append state.sent (pset_taker request),
      ),
    ),
    λ other h. (
      k other h,
      ap (takes other) t
          ∙ takes_other other request state.sent
              (ap (λ z. z == other) e ∙ one_take_other other id state.taken_orders h free),
    ),
  )

  send_taker-Fine :
      (id : OrderId) (request : PsetRequest F64) (state : State F64)
      → request.order_id ≡ id
      → is_taken id state.taken_orders ≡ false
      → Ensures (Fine params state) (send_taker float outside params id request state)
  unfolding send_taker
  send_taker-Fine id request state e free =
      case_reply-Ensures (Fine params state)
        (pset_taken (outside.answer state.sent (pset_taker request))) _ _
        (λ _.
          taker_sent id request state (send (pset_taker request) state) e free refl refl refl refl
            (λ other h. h))
        λ _ _.
          taker_sent id request state
            (record (send (pset_taker request) state) { taken_orders = id ∷ state.taken_orders }) e
            free refl refl refl refl (λ other h. ground arith)

  make_taker-Fine :
      (order : Order F64) (state : State F64)
      → is_taken order.order_id state.taken_orders ≡ false
      → Ensures (Fine params state) (make_taker float outside params order state)
  unfolding make_taker
  make_taker-Fine order state free =
      let id_of =
        get_pset-order_id float outside state.sent order.order_id order.details state.utxos params
          false in
      case_reply-Ensures (Fine params state)
        (get_pset float outside state.sent order.order_id order.details state.utxos params false) _
        _ (λ _. Fine-refl params state)
        λ request k.
          send_taker-Fine order.order_id request state
            (Oks-ok (λ request. request.order_id ≡ order.order_id) _ id_of k) free

  try_take-Fine :
      (order : Order F64) (interest : F64) (state : State F64)
      → is_taken order.order_id state.taken_orders ≡ false
      → Ensures (Fine params state) (try_take float outside params order interest state)
  unfolding try_take
  try_take-Fine order interest state free =
      case_reply-Ensures (Fine params state)
        (take_order float params state.assets order.details state.all_balances state.index_prices
          interest)
        _ _ (λ _. Fine-refl params state) λ _ _. make_taker-Fine order state free

  visit_order-Fine :
      (order : Order F64) (state : State F64)
      → Ensures (Fine params state) (visit_order float outside params order state)
  unfolding visit_order
  visit_order-Fine order state =
      Ensures-if (Fine params state) (is_taken order.order_id state.taken_orders) (some state) _
        (λ _. Fine-refl params state)
        λ free.
          Ensures-bind (λ (_ : F64). Unit {0}) (Fine params state)
            (interest_of params order.details.asset params.interest_submit_usdt
              params.interest_submit_eurx)
            _ (Ensures-all _ _ λ _. tt) λ interest _. try_take-Fine order interest state free

  take_orders-Fine :
      (orders : List (Order F64)) (state : State F64)
      → Ensures (Fine params state) (take_orders float outside params orders state)
  unfolding take_orders
  take_orders-Fine [] state = Fine-refl params state
  take_orders-Fine (order ∷ orders) state =
      Fine-bind params state (visit_order float outside params order state)
        (take_orders float outside params orders) (visit_order-Fine order state)
        λ next. take_orders-Fine orders next

  check_wallet-Fine :
      (info : Option ℕ) (state : State F64) → Fine params state (check_wallet info state)
  unfolding check_wallet
  check_wallet-Fine none state = Fine-refl params state
  check_wallet-Fine (some info) state = elim (Bool-cases (same_wallet state.wallet_balance info)) [
    | inl e ↦ rw e (Fine-refl params state)
    | inr e ↦ rw e (
      (λ w. w, omega (arith, swaps-append state.reported wallet_balance_updated)),
      λ id h. (h, refl),
    )
  ]

  pub process_timer-Fine :
      (state : State F64)
      → AllWithin params state.own_orders
      → Ensures (Fine params state) (process_timer float outside params state)
  unfolding process_timer expire_prices
  process_timer-Fine state w =
      Fine-bind params state (update_own_orders float outside params state) _
        (update_own_orders-Fine state w)
        λ updated.
          Fine-bind params updated
            (take_orders float outside params (values updated.orders) updated) _
            (take_orders-Fine (values updated.orders) updated)
            λ later. check_wallet-Fine outside.wallet_info later
