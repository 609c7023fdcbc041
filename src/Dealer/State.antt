-- ===== src/Dealer/State.antt =====
-- The variables of the worker's loop.
use sideswapclient.Prelude.{
  ℕ, Bool, true, false, Option, none, some, List, [], ◌∷◌, ◌++◌, ◌==◌, if◌then◌else◌,
}
use sideswapclient.Prelude.Map.{Map}
use sideswapclient.Ticker.{DealerTicker}
use sideswapclient.Dealer.Types.{
  OrderId, Asset, AssetId, Utxos, Order, AllBalances, PriceTimestamp, Details, OwnOrderKey,
  OwnOrder, Params, Request, Msg, From,
}

-- `taken_orders` is a set. `sent` are the requests to the server, `queued` the messages to the
-- worker itself, `reported` those to its owner, each in the order of sending.
pub record State (F : Type 0) : Type 0 where
  pub assets : List Asset
  pub server_connected : Bool
  pub utxos : Utxos
  pub orders : Map OrderId (Order F)
  pub taken_orders : List OrderId
  pub all_balances : AllBalances F
  pub index_prices : Map DealerTicker (PriceTimestamp F)
  pub pending_signs : Map OrderId (Details F)
  pub own_orders : Map OwnOrderKey (Option (OwnOrder F))
  pub wallet_balance : Option ℕ
  pub last_price_edit : ℕ
  pub sent : List (Request F)
  pub queued : List (Msg F)
  pub reported : List (From F)

abbrev pub Step : Type 0 → Type 0
Step F = State F → Option (State F)

abbrev pub is_taken : OrderId → List OrderId → Bool
is_taken id [] = false
is_taken id (x ∷ xs) = if x == id then true else is_taken id xs

module _ {F : Type 0} where
  abbrev pub queue : Msg F → State F → State F
  queue msg state = record state { queued = state.queued ++ msg ∷ [] }

  abbrev pub report : From F → State F → State F
  report msg state = record state { reported = state.reported ++ msg ∷ [] }

  abbrev pub send : Request F → State F → State F
  send request state = record state { sent = state.sent ++ request ∷ [] }

  -- The interest for an asset: USDt, EURx, or a panic.
  abbrev pub interest_of : Params F → AssetId → F → F → Option F
  interest_of params asset of_usdt of_eurx =
      if asset == params.asset_usdt
      then some of_usdt
      else if asset == params.asset_eurx
      then some of_eurx
      else none
