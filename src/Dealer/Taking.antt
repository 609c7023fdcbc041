-- ===== src/Dealer/Taking.antt =====
-- Which orders the dealer takes, and how old the prices are that it takes them at.
use sideswapclient.Prelude.{
  ℕ, ◌-◌, ◌≤◌, ◌≡◌, subst, Bool, true, false, ◌&&◌, some, List, [], ◌∷◌, ltb, ◌==◌, arith, All,
  some-of-bind, Bool-cases, inl, inr,
}
use mathlib.Core.Option.{some-injective}
use sideswapclient.Prelude.Float.{Float}
use sideswapclient.Prelude.Int64
use sideswapclient.Prelude.Int64.{I64}
use sideswapclient.Prelude.Map.{Map, get, values}
use sideswapclient.Ticker.{DealerTicker, ticker_key, ticker_from_string}
use sideswapclient.Dealer.Types.{Asset, PricePair, PriceTimestamp, Params, AllBalances, Details}
use sideswapclient.Dealer.Prices.{
  find, asset_float_amount, actual_price, get_bitcoin_amount, zero_f64, one_f64,
}
use sideswapclient.Dealer.Timer.{
  retain_prices, price_expiraton_time, expire_prices, update_own_orders, take_orders, process_timer,
}
use sideswapclient.Dealer.Psets.{Outside}
use sideswapclient.Dealer.State.{State}

module _ (float : Float) where
  open float use {F64}

  -- The order's price is not worse for the dealer than the index price with the interest.
  abbrev pub worthwhile : Bool → F64 → PricePair F64 → F64 → Bool
  worthwhile true actual index interest = float.le (float.mul index.ask interest) actual
  worthwhile false actual index interest = float.le actual (float.div index.bid interest)

  abbrev pub IsInterest : F64 → Type 0
  IsInterest interest =
      (float.le (one_f64 float) interest && float.le interest (float.literal 11 10)) ≡ true

  abbrev with_interest : PricePair F64 → F64 → PricePair F64
  with_interest index interest = record {
    bid = float.div index.bid interest;
    ask = float.mul index.ask interest;
  }

  module _ (params : Params F64) (list : List Asset) (details : Details F64) (all : AllBalances F64)
      (index_prices : Map DealerTicker (PriceTimestamp F64)) (interest : F64) where
    -- The bitcoins are within the limits of the parameters and of the balances, the asset, its
    -- ticker and its index price are known, and the price is above 0 and worthwhile.
    abbrev pub Accepts : Type 0
    Accepts =
        (asset : Asset) × (ticker : DealerTicker) × (amount : F64) × (index : PriceTimestamp F64)
        × (Int64.le params.bitcoin_amount_min details.bitcoin_amount ≡ true)
        × (Int64.le details.bitcoin_amount params.bitcoin_amount_max ≡ true)
        × (find (λ asset. asset.asset_id == details.asset) list ≡ some asset)
        × (ticker_from_string asset.ticker ≡ some ticker)
        × (asset_float_amount float details.asset_amount asset.precision ≡ some amount)
        × (float.lt (zero_f64 float) (actual_price float details amount) ≡ true)
        × (get ticker index_prices ≡ some index)
        × IsInterest interest
        × (worthwhile details.send_bitcoins (actual_price float details amount) index.price interest
            ≡ true)
        × (Int64.le details.bitcoin_amount (
              get_bitcoin_amount float all ticker (actual_price float details amount)
                details.send_bitcoins true)
            ≡ true)

module _ {F : Type 0} where
  -- The prices of the map that are at most `price_expiraton_time` old.
  abbrev pub IsFresh : ℕ → DealerTicker × PriceTimestamp F → Type 0
  IsFresh now entry = now - entry.1.timestamp ≤ price_expiraton_time

  retain_prices-IsFresh :
      (now : ℕ) (prices : Map DealerTicker (PriceTimestamp F))
      → All (IsFresh now) (retain_prices now prices)
  unfolding retain_prices
  retain_prices-IsFresh now [] = tt
  retain_prices-IsFresh now ((ticker, price) ∷ prices) =
      elim (Bool-cases (ltb price_expiraton_time (now - price.timestamp))) [
        | inl e ↦ rw e (retain_prices-IsFresh now prices)
        | inr e ↦ rw e (ground (arith, e), retain_prices-IsFresh now prices)
      ]

module _ (float : Float) (outside : Outside (float.F64)) (params : Params (float.F64)) where
  -- After a timer's message, if it does not panic, every index price is at most
  -- `price_expiraton_time` seconds old.
  pub process_timer-IsFresh :
      (state later : State (float.F64))
      → process_timer float outside params state ≡ some later
      → All (IsFresh outside.now_later) later.index_prices
  unfolding process_timer expire_prices
  process_timer-IsFresh state later h =
      let (updated, e, k) = some-of-bind (update_own_orders float outside params state) _ h in
      let (taken, f, j) =
        some-of-bind (take_orders float outside params (values updated.orders) updated) _ k in
      subst (λ (z : State (float.F64)). All (IsFresh outside.now_later) z.index_prices)
        (some-injective _ _ j) (retain_prices-IsFresh outside.now_later _)
