-- ===== src/Dealer/Own.antt =====
-- The dealer's own orders: `update_price`.
use text.Mathlib.Text.{◌==◌ as str_eq}
use sideswapclient.Prelude.{
  Bool, true, false, not, ◌||◌, Option, none, some, List, [], ◌∷◌, ◌++◌, if◌then◌else◌, ◌==◌, ◌>>=◌,
}
use sideswapclient.Prelude.Float.{Float, from_bitcoin, to_bitcoin}
use sideswapclient.Prelude.Int64
use sideswapclient.Prelude.Int64.{I64}
use sideswapclient.Prelude.Map.{Map, get}
use sideswapclient.Ticker.{DealerTicker, lbtc, usdt, eurx, lcad, audl, ticker_key, ticker_name}
use sideswapclient.Dealer.Types.{
  OrderId, AssetId, Asset, OwnOrder, PriceTimestamp, Params, AllBalances, Utxos, SubmitResponse,
  Request, submit, pset_maker, edit, cancel, submit_resp, pset_maker_resp, edit_resp, cancel_resp,
  Answer, error, response, Reply, case_reply, panic, err, ok, SubmitResponse,
}
use sideswapclient.Dealer.Prices.{
  find, min_i64, min_server_fee, server_fee_rate, one_f64, get_bitcoin_amount, get_price,
  amount_change,
}
use sideswapclient.Dealer.Psets.{Outside, get_pset}

module _ {F : Type 0} where
  -- `send_request!`: a timeout or another type of response is a panic.
  abbrev pub submitted : Answer F → Reply (SubmitResponse F)
  submitted (response (submit_resp resp)) = ok resp
  submitted error = err
  submitted _ = panic

  abbrev pub pset_made : Answer F → Reply (Unit {0})
  pset_made (response pset_maker_resp) = ok tt
  pset_made error = err
  pset_made _ = panic

  abbrev pub edited : Answer F → Reply (Unit {0})
  edited (response edit_resp) = ok tt
  edited error = err
  edited _ = panic

  abbrev pub cancelled : Answer F → Reply (Unit {0})
  cancelled (response cancel_resp) = ok tt
  cancelled error = err
  cancelled _ = panic

  -- The requests sent so far, with one more.
  abbrev pub and_then : List (Request F) → Request F → List (Request F)
  and_then sent request = sent ++ request ∷ []

  -- `cancel_order`: an error is only logged; the requests afterwards.
  unfoldable pub cancel_order : Outside F → OrderId → List (Request F) → Option (List (Request F))
  cancel_order outside order_id sent =
      case_reply (cancelled (outside.answer sent (cancel order_id)))
        (some (and_then sent (cancel order_id))) λ _. some (and_then sent (cancel order_id))

module _ (float : Float) where
  open float use {F64}

  -- The own order and the requests sent, after an update; `none` is a panic.
  abbrev pub Updated : Type 0
  Updated = Option (Option (OwnOrder F64) × List (Request F64))

  abbrev pub interest_submit : Params F64 → DealerTicker → Option F64
  interest_submit params usdt = some params.interest_submit_usdt
  interest_submit params eurx = some params.interest_submit_eurx
  interest_submit params lbtc = none
  interest_submit params lcad = none
  interest_submit params audl = none

  abbrev pub expected_server_fee : Params F64 → I64
  expected_server_fee params = from_bitcoin float (
      float.max (float.mul (server_fee_rate float) (to_bitcoin float params.bitcoin_amount_submit))
        (to_bitcoin float min_server_fee))

  abbrev pub interest_take_ajusted : Params F64 → F64 → F64
  interest_take_ajusted params interest = float.mul interest (
      float.add (one_f64 float) (
        float.div (to_bitcoin float (expected_server_fee params))
          (to_bitcoin float params.bitcoin_amount_submit)))

  abbrev pub order_amount : Bool → I64 → F64
  order_amount true amount = float.neg (to_bitcoin float amount)
  order_amount false amount = to_bitcoin float amount

  module _ (outside : Outside F64) (params : Params F64) where
    -- After the order was submitted: its PSET is made and sent.
    unfoldable pub send_pset : Utxos → I64 → F64 → SubmitResponse F64 → List (Request F64) → Updated
    unfolding get_pset
    send_pset utxos amount price resp sent =
        case_reply (get_pset float outside sent resp.order_id resp.details utxos params true)
          (some (none, sent))
          λ request.
            case_reply (pset_made (outside.answer sent (pset_maker request)))
              (some (none, and_then sent (pset_maker request)))
              λ _. some (
                some (record { order_id = resp.order_id; bitcoin_amount = amount; price = price }),
                and_then sent (pset_maker request),
              )

    -- There is no own order, and the amount is enough.
    unfoldable pub submit_order : AssetId → Bool → Utxos → I64 → F64 → List (Request F64) → Updated
    unfolding send_pset
    submit_order asset send_bitcoins utxos amount price sent =
        let request : Request F64 = submit asset (order_amount send_bitcoins amount) price in
        case_reply (submitted (outside.answer sent request)) (some (none, and_then sent request))
          λ resp. send_pset utxos amount price resp (and_then sent request)

    -- A failed edit is followed by a cancellation, and the order is forgotten.
    unfoldable pub edit_order : OwnOrder F64 → F64 → List (Request F64) → Updated
    unfolding cancel_order
    edit_order own price sent =
        let request : Request F64 = edit own.order_id price in
        case_reply (edited (outside.answer sent request))
          (cancel_order outside own.order_id (and_then sent request) >>= λ later.
            some (none, later))
          λ _. some (some (record own { price = price }), and_then sent request)

    abbrev pub keep : OwnOrder F64 → Option (List (Request F64)) → Updated
    keep own none = none
    keep own (some sent) = some (some own, sent)

    -- The amount of the order does not fit any more.
    abbrev pub is_outdated : OwnOrder F64 → I64 → I64 → Bool
    is_outdated own normal max =
        max == 0
        || (Int64.lt max own.bitcoin_amount
            || float.le (float.literal 5 100) (amount_change float normal own.bitcoin_amount))

    -- The match on the own order and the price; `normal` and `max` are the amounts at that price.
    unfoldable pub update_own :
        AssetId
        → Bool
        → Utxos
        → Option (OwnOrder F64)
        → Option F64
        → I64
        → I64
        → List (Request F64)
        → Updated
    unfolding submit_order cancel_order edit_order
    update_own asset send_bitcoins utxos none none normal max sent = some (none, sent)
    update_own asset send_bitcoins utxos none (some price) normal max sent =
        if Int64.le params.bitcoin_amount_min normal
        then submit_order asset send_bitcoins utxos normal price sent
        else some (none, sent)
    update_own asset send_bitcoins utxos (some own) none normal max sent =
        keep own (cancel_order outside own.order_id sent)
    update_own asset send_bitcoins utxos (some own) (some price) normal max sent =
        if is_outdated own normal max
        then keep own (cancel_order outside own.order_id sent)
        else if not (float.eq own.price price)
        then edit_order own price sent
        else some (some own, sent)

    -- The price of the own order, and the amounts at that price.
    abbrev pub own_price : Bool → F64 → Option (PriceTimestamp F64) → Option F64
    own_price send_bitcoins interest none = none
    own_price send_bitcoins interest (some stamped) =
        some (get_price float stamped.price send_bitcoins interest)

    abbrev pub normal_amount : AllBalances F64 → DealerTicker → Bool → Option F64 → I64
    normal_amount all ticker send_bitcoins none = 0
    normal_amount all ticker send_bitcoins (some price) =
        min_i64 (get_bitcoin_amount float all ticker price send_bitcoins false)
          params.bitcoin_amount_submit

    abbrev pub max_amount : AllBalances F64 → DealerTicker → Bool → Option F64 → I64
    max_amount all ticker send_bitcoins none = 0
    max_amount all ticker send_bitcoins (some price) =
        get_bitcoin_amount float all ticker price send_bitcoins true

    unfoldable pub update_price :
        Option (OwnOrder F64)
        → Bool
        → List Asset
        → DealerTicker
        → Map DealerTicker (PriceTimestamp F64)
        → AllBalances F64
        → Utxos
        → List (Request F64)
        → Updated
    unfolding find get_price update_own get_bitcoin_amount
    update_price own send_bitcoins assets ticker index_prices all utxos sent =
        find (λ asset. str_eq asset.ticker (ticker_name ticker)) assets >>= λ asset.
        interest_submit params ticker >>= λ interest.
        let price =
          own_price send_bitcoins (interest_take_ajusted params interest)
            (get ticker index_prices) in
        update_own asset.asset_id send_bitcoins utxos own price
          (normal_amount all ticker send_bitcoins price) (max_amount all ticker send_bitcoins price)
          sent
