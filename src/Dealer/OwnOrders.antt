-- ===== src/Dealer/OwnOrders.antt =====
-- Own orders keep their amounts within the limits, and updating them sends no signature.
use sideswapclient.Prelude.{
  ◌≡◌, ◌⊎◌, refl, Bool, true, false, not, Option, none, some, List, [], ◌∷◌, arith, Ensures,
  Ensures-bind, Ensures-if, Ensures-all, inl, inr,
}
use sideswapclient.Prelude.Float.{Float}
use sideswapclient.Prelude.Int64
use sideswapclient.Prelude.Int64.{I64}
use sideswapclient.Prelude.Map.{Map, get}
use sideswapclient.Ticker.{DealerTicker, ticker_key}
use sideswapclient.Dealer.Types.{
  OrderId, AssetId, Asset, OwnOrder, OwnOrderKey, PriceTimestamp, Params, AllBalances, Utxos,
  SubmitResponse, Request, submit, pset_maker, edit, cancel, case_reply-Ensures,
}
use sideswapclient.Dealer.Prices.{min_i64, get_bitcoin_amount}
use sideswapclient.Dealer.Psets.{Outside, get_pset}
use sideswapclient.Dealer.Own.{
  submitted, pset_made, edited, cancelled, and_then, cancel_order, interest_submit,
  interest_take_ajusted, send_pset, submit_order, edit_order, keep, is_outdated, update_own,
  own_price, normal_amount, max_amount, update_price, order_amount,
}
use sideswapclient.Dealer.State.{State}
use sideswapclient.Dealer.Timer.{update_all}
use sideswapclient.Dealer.Trades.{SameTrades, SameTrades-refl, SameTrades-trans, append-SameTrades}

module _ {F : Type 0} (params : Params F) where
  -- The amount of an own order is at least the least one, and at most the one to submit.
  abbrev pub IsWithin : Option (OwnOrder F) → Type 0
  IsWithin none = Unit
  IsWithin (some own) =
      (Int64.le params.bitcoin_amount_min own.bitcoin_amount ≡ true)
      × (Int64.le own.bitcoin_amount params.bitcoin_amount_submit ≡ true)

  abbrev pub AllWithin : Map OwnOrderKey (Option (OwnOrder F)) → Type 0
  AllWithin [] = Unit
  AllWithin (entry ∷ owns) = IsWithin entry.1 × AllWithin owns

min_i64-le : (a b : I64) → Int64.le (min_i64 a b) b ≡ true
min_i64-le a b = ground arith

module _ {F : Type 0} (outside : Outside F) where
  cancel_order-SameTrades :
      (id : OrderId) (sent : List (Request F))
      → Ensures (SameTrades sent) (cancel_order outside id sent)
  unfolding cancel_order
  cancel_order-SameTrades id sent =
      let now = append-SameTrades sent (cancel id) refl (λ _. refl) in
      case_reply-Ensures (SameTrades sent) (cancelled (outside.answer sent (cancel id))) _ _
        (λ _. now) (λ _ _. now)

module _ (float : Float) (outside : Outside (float.F64)) (params : Params (float.F64)) where
  open float use {F64}

  abbrev Good : List (Request F64) → Option (OwnOrder F64) × List (Request F64) → Type 0
  Good sent result = IsWithin params result.0 × SameTrades sent result.1

  keep-Good :
      (own : OwnOrder F64) (sent : List (Request F64)) (outcome : Option (List (Request F64)))
      → IsWithin params (some own)
      → Ensures (SameTrades sent) outcome
      → Ensures (Good sent) (keep float outside params own outcome)
  keep-Good own sent none w h = tt
  keep-Good own sent (some later) w h = (w, h)

  send_pset-Good :
      (utxos : Utxos) (amount : I64) (price : F64) (resp : SubmitResponse F64)
      (before sent : List (Request F64))
      → Int64.le params.bitcoin_amount_min amount ≡ true
      → Int64.le amount params.bitcoin_amount_submit ≡ true
      → SameTrades before sent
      → Ensures (Good before) (send_pset float outside params utxos amount price resp sent)
  unfolding send_pset
  send_pset-Good utxos amount price resp before sent low high t =
      case_reply-Ensures (Good before)
        (get_pset float outside sent resp.order_id resp.details utxos params true) _ _
        (λ _. (tt, t))
        λ request _.
          let now =
            SameTrades-trans before sent (and_then sent (pset_maker request)) t
              (append-SameTrades sent (pset_maker request) refl (λ _. refl)) in
          case_reply-Ensures (Good before) (pset_made (outside.answer sent (pset_maker request))) _
            _ (λ _. (tt, now)) (λ _ _. ((low, high), now))

  submit_order-Good :
      (asset : AssetId) (send_bitcoins : Bool) (utxos : Utxos) (amount : I64) (price : F64)
      (sent : List (Request F64))
      → Int64.le params.bitcoin_amount_min amount ≡ true
      → Int64.le amount params.bitcoin_amount_submit ≡ true
      → Ensures
          (Good sent)
          (submit_order float outside params asset send_bitcoins utxos amount price sent)
  unfolding submit_order
  submit_order-Good asset send_bitcoins utxos amount price sent low high =
      let request : Request F64 = submit asset (order_amount float send_bitcoins amount) price in
      let now : SameTrades sent (and_then sent request) =
        append-SameTrades sent request refl (λ _. refl) in
      case_reply-Ensures (Good sent) (submitted (outside.answer sent request)) _ _ (λ _. (tt, now))
        λ resp _. send_pset-Good utxos amount price resp sent (and_then sent request) low high now

  edit_order-Good :
      (own : OwnOrder F64) (price : F64) (sent : List (Request F64))
      → IsWithin params (some own)
      → Ensures (Good sent) (edit_order float outside params own price sent)
  unfolding edit_order
  edit_order-Good own price sent w =
      let request : Request F64 = edit own.order_id price in
      let now : SameTrades sent (and_then sent request) =
        append-SameTrades sent request refl (λ _. refl) in
      case_reply-Ensures (Good sent) (edited (outside.answer sent request)) _ _
        (λ _.
          Ensures-bind (SameTrades (and_then sent request)) (Good sent)
            (cancel_order outside own.order_id (and_then sent request)) _
            (cancel_order-SameTrades outside own.order_id (and_then sent request))
            λ later t. (tt, SameTrades-trans sent (and_then sent request) later now t))
        λ _ _. (w, now)

  update_own-Good :
      (asset : AssetId) (send_bitcoins : Bool) (utxos : Utxos) (own : Option (OwnOrder F64))
      (price : Option F64) (normal max : I64) (sent : List (Request F64))
      → IsWithin params own
      → (price ≡ none) ⊎ (Int64.le normal params.bitcoin_amount_submit ≡ true)
      → Ensures
          (Good sent)
          (update_own float outside params asset send_bitcoins utxos own price normal max sent)
  unfolding update_own
  update_own-Good asset send_bitcoins utxos none none normal max sent w h =
      (tt, SameTrades-refl sent)
  update_own-Good asset send_bitcoins utxos none (some price) normal max sent w h =
      Ensures-if (Good sent) (Int64.le params.bitcoin_amount_min normal) _ (some (none, sent))
        (λ low.
          submit_order-Good asset send_bitcoins utxos normal price sent low (ground (arith, h)))
        λ _. (tt, SameTrades-refl sent)
  update_own-Good asset send_bitcoins utxos (some own) none normal max sent w h =
      keep-Good own sent _ w (cancel_order-SameTrades outside own.order_id sent)
  update_own-Good asset send_bitcoins utxos (some own) (some price) normal max sent w h =
      Ensures-if (Good sent) (is_outdated float outside params own normal max)
        (keep float outside params own (cancel_order outside own.order_id sent)) _
        (λ _. keep-Good own sent _ w (cancel_order-SameTrades outside own.order_id sent))
        λ _.
          Ensures-if (Good sent) (not (float.eq own.price price))
            (edit_order float outside params own price sent) (some (some own, sent))
            (λ _. edit_order-Good own price sent w) λ _. (w, SameTrades-refl sent)

  normal_amount-le :
      (all : AllBalances F64) (ticker : DealerTicker) (send_bitcoins : Bool) (price : Option F64)
      → (price ≡ none)
        ⊎ (Int64.le
              (normal_amount float outside params all ticker send_bitcoins price)
              params.bitcoin_amount_submit
            ≡ true)
  normal_amount-le all ticker send_bitcoins none = inl refl
  normal_amount-le all ticker send_bitcoins (some price) = inr (
      min_i64-le (get_bitcoin_amount float all ticker price send_bitcoins false)
        params.bitcoin_amount_submit)

  -- After an update the own order is within the limits, if it was before.
  pub update_price-Good :
      (own : Option (OwnOrder F64)) (send_bitcoins : Bool) (list : List Asset)
      (ticker : DealerTicker) (prices : Map DealerTicker (PriceTimestamp F64))
      (all : AllBalances F64) (utxos : Utxos) (sent : List (Request F64))
      → IsWithin params own
      → Ensures
          (Good sent)
          (update_price float outside params own send_bitcoins list ticker prices all utxos sent)
  unfolding update_price
  update_price-Good own send_bitcoins list ticker prices all utxos sent w =
      Ensures-bind (λ (_ : Asset). Unit {0}) (Good sent) _ _ (Ensures-all _ _ λ _. tt)
        λ (asset : Asset) _.
          Ensures-bind (λ (_ : F64). Unit {0}) (Good sent) (interest_submit float params ticker) _
            (Ensures-all _ _ λ _. tt)
            λ (interest : F64) _.
              let price =
                own_price float outside params send_bitcoins
                  (interest_take_ajusted float params interest) (get ticker prices) in
              update_own-Good asset.asset_id send_bitcoins utxos own price
                (normal_amount float outside params all ticker send_bitcoins price)
                (max_amount float outside params all ticker send_bitcoins price) sent w
                (normal_amount-le all ticker send_bitcoins price)

  abbrev pub AllGood :
      List (Request F64) → Map OwnOrderKey (Option (OwnOrder F64)) × List (Request F64) → Type 0
  AllGood sent result = AllWithin params result.0 × SameTrades sent result.1

  pub update_all-Good :
      (state : State F64) (owns : Map OwnOrderKey (Option (OwnOrder F64)))
      (sent : List (Request F64))
      → AllWithin params owns
      → Ensures (AllGood sent) (update_all float outside params state owns sent)
  unfolding update_all
  update_all-Good state [] sent a = (tt, SameTrades-refl sent)
  update_all-Good state ((key, own) ∷ owns) sent a =
      Ensures-bind (Good sent) (AllGood sent) _ _
        (update_price-Good own key.send_bitcoins state.assets key.ticker state.index_prices
          state.all_balances state.utxos sent a.0)
        λ updated (w, t).
          Ensures-bind (AllGood updated.1) (AllGood sent) _ _
            (update_all-Good state owns updated.1 a.1)
            λ later (ws, ts). ((w, ws), SameTrades-trans sent updated.1 later.1 t ts)
