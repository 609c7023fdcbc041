-- ===== src/Dealer/Prices.antt =====
-- The prices and amounts of the dealer, and which orders it takes.
use sideswapclient.Prelude.{
  ℕ, ◌^◌, Bool, true, false, ◌&&◌, Option, none, some, List, [], ◌∷◌, ltb, ◌==◌, if◌then◌else◌,
}
use sideswapclient.Prelude.Float.{Float, from_bitcoin, to_bitcoin}
use sideswapclient.Prelude.Int64
use sideswapclient.Prelude.Int64.{I64}
use sideswapclient.Prelude.Map.{Map, get}
use sideswapclient.Ticker.{DealerTicker, lbtc, ticker_key, ticker_from_string}
use sideswapclient.Dealer.Types.{
  Asset, PricePair, PriceTimestamp, Params, AllBalances, Details, Reply, panic, err, ok,
}

-- `iter().find(..)`
unfoldable pub find {ℓ} : {A : Type ℓ} → (A → Bool) → List A → Option A
find test [] = none
find test (x ∷ xs) = if test x then some x else find test xs

abbrev pub or_else {ℓ} : {A : Type ℓ} → A → Option A → A
or_else d none = d
or_else d (some x) = x

-- `ensure!` and `assert!`, and the `unwrap` of an option.
abbrev pub ensure {ℓ} : {A : Type ℓ} → Bool → Reply A → Reply A
ensure test next = if test then next else err

abbrev pub assert {ℓ} : {A : Type ℓ} → Bool → Reply A → Reply A
assert test next = if test then next else panic

abbrev pub unwrap {ℓ κ} : {A : Type ℓ} {B : Type κ} → Option A → (A → Reply B) → Reply B
unwrap none next = panic
unwrap (some x) next = next x

-- The `?` of a result.
abbrev pub and_reply {ℓ κ} : {A : Type ℓ} {B : Type κ} → Reply A → (A → Reply B) → Reply B
and_reply panic next = panic
and_reply err next = err
and_reply (ok x) next = next x

-- The `?` of an option that was made a result.
abbrev pub ok_or {ℓ κ} : {A : Type ℓ} {B : Type κ} → Option A → (A → Reply B) → Reply B
ok_or none next = err
ok_or (some x) next = next x

abbrev max_i64 : I64 → I64 → I64
max_i64 a b = if Int64.le a b then b else a

abbrev pub min_i64 : I64 → I64 → I64
min_i64 a b = if Int64.le a b then a else b

-- `MIN_SERVER_FEE`
abbrev pub min_server_fee : I64
min_server_fee = 500

module _ (float : Float) where
  open float use {F64}

  -- `SERVER_FEE_RATE`, `EXTRA_ASSET_UTXO_FRACTION`, and the literals.
  abbrev pub server_fee_rate : F64
  server_fee_rate = float.literal 1 1_000

  abbrev pub extra_asset_utxo_fraction : F64
  extra_asset_utxo_fraction = float.literal 3 100

  abbrev pub one_f64 : F64
  one_f64 = float.literal 1 1

  abbrev pub zero_f64 : F64
  zero_f64 = float.literal 0 1

  -- `asset_scale`: a panic where the power overflows.
  unfoldable pub asset_scale : ℕ → Option F64
  asset_scale asset_precision =
      if ltb (10 ^ asset_precision) Int64.half
      then some (float.of_i64 (10 ^ asset_precision))
      else none

  unfoldable pub asset_float_amount : I64 → ℕ → Option F64
  unfolding asset_scale
  asset_float_amount asset_amount asset_precision = elim (asset_scale asset_precision) [
    | none ↦ none
    | some scale ↦ some (float.div (float.of_i64 asset_amount) scale)
  ]

  unfoldable pub apply_interest : PricePair F64 → F64 → Option (PricePair F64)
  apply_interest price interest =
      if float.le one_f64 interest && float.le interest (float.literal 11 10)
      then some (record { bid = float.div price.bid interest; ask = float.mul price.ask interest })
      else none

  -- `get_bitcoin_amount`: what the balances and the limits allow at a price.
  unfoldable pub get_bitcoin_amount : AllBalances F64 → DealerTicker → F64 → Bool → Bool → I64
  get_bitcoin_amount all ticker price send_bitcoins max_amount =
      let wallet_asset = or_else zero_f64 (get ticker all.wallet) in
      let wallet_bitcoin =
        float.div (or_else zero_f64 (get lbtc all.wallet)) (float.add one_f64 server_fee_rate) in
      let bitcoin_max_send = or_else float.max_value (get lbtc all.max_send) in
      let bitcoin_max_recv = or_else float.max_value (get lbtc all.max_recv) in
      let asset_max_send = or_else float.max_value (get ticker all.max_send) in
      let asset_max_recv = or_else float.max_value (get ticker all.max_recv) in
      let extra_asset_downscale =
        if max_amount
        then one_f64
        else float.div one_f64 (float.add one_f64 extra_asset_utxo_fraction) in
      if send_bitcoins
      then from_bitcoin float (
          float.min
            (float.min wallet_bitcoin
              (float.div (float.mul asset_max_recv extra_asset_downscale) price))
            bitcoin_max_send)
      else from_bitcoin float (
          float.min
            (float.min (float.div (float.mul wallet_asset extra_asset_downscale) price)
              bitcoin_max_recv)
            (float.div (float.mul asset_max_send extra_asset_downscale) price))

  -- The bitcoins that change hands, with the server's fee.
  abbrev pub actual_bitcoin_amount : Details F64 → I64
  actual_bitcoin_amount details =
      if details.send_bitcoins
      then Int64.add details.bitcoin_amount details.server_fee
      else Int64.sub details.bitcoin_amount details.server_fee

  -- The price is not worse than the dealer's.
  abbrev pub price_accepted : Bool → F64 → PricePair F64 → Bool
  price_accepted true actual_price dealer_price = float.le dealer_price.ask actual_price
  price_accepted false actual_price dealer_price = float.le actual_price dealer_price.bid

  abbrev pub actual_price : Details F64 → F64 → F64
  actual_price details asset_amount =
      float.div asset_amount (to_bitcoin float (actual_bitcoin_amount details))

  unfoldable pub take_order :
      Params F64
      → List Asset
      → Details F64
      → AllBalances F64
      → Map DealerTicker (PriceTimestamp F64)
      → F64
      → Reply (Unit {0})
  unfolding find get_bitcoin_amount apply_interest asset_float_amount
  take_order params assets details all index_prices interest =
      ensure (Int64.le params.bitcoin_amount_min details.bitcoin_amount) (
        ensure (Int64.le details.bitcoin_amount params.bitcoin_amount_max) (
          unwrap (find (λ asset. asset.asset_id == details.asset) assets) λ asset.
            ok_or (ticker_from_string asset.ticker) λ ticker.
              unwrap (asset_float_amount details.asset_amount asset.precision) λ asset_amount.
                let actual = actual_price details asset_amount in
                assert (float.lt zero_f64 actual) (
                  ok_or (get ticker index_prices) λ index_price.
                    unwrap (apply_interest index_price.price interest) λ dealer_price.
                      ensure (price_accepted details.send_bitcoins actual dealer_price) (
                        ensure
                          (Int64.le details.bitcoin_amount
                            (get_bitcoin_amount all ticker actual details.send_bitcoins true))
                          (ok tt)))))

  unfoldable pub get_price : PricePair F64 → Bool → F64 → F64
  get_price price send_bitcoins interest =
      if send_bitcoins then float.mul price.ask interest else float.div price.bid interest

  unfoldable pub amount_change : I64 → I64 → F64
  amount_change new old =
      float.div (float.sub (to_bitcoin float new) (to_bitcoin float old)) (to_bitcoin float old)
