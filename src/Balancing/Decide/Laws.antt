-- ===== src/Balancing/Decide/Laws.antt =====
-- What a transfer that `get_balancing` asks for rests on.
use sideswapclient.Prelude.{◌≡◌, ◌≢◌, refl, Bool, true, false, arith}
use sideswapclient.Prelude.Float.{Float}
use sideswapclient.Balancing.Decide.{
  AssetBalancing, idle, recv_btc, send_btc, recv_usdt, send_usdt, Balances, bitcoin_smaller, worth,
  get_balancing,
}

module _ (float : Float) where
  open float use {F64}

  -- The part of an asset that lies in the wallet.
  abbrev share : F64 → F64 → F64
  share wallet exchange = float.div wallet (float.add wallet exchange)

  abbrev IsLow : F64 → Type 0
  IsLow part = float.lt part (float.literal 1 4) ≡ true

  abbrev IsHigh : F64 → Type 0
  IsHigh part = float.lt (float.literal 3 4) part ≡ true

  abbrev IsBalanced : F64 → Type 0
  IsBalanced part =
      (float.lt part (float.literal 1 4) ≡ false) × (float.lt (float.literal 3 4) part ≡ false)

  abbrev bitcoin_share : Balances float → F64
  bitcoin_share b = share b.wallet_bitcoin b.exchange_bitcoin

  abbrev usdt_share : Balances float → F64
  usdt_share b = share b.wallet_usdt b.exchange_usdt

  -- Whether bitcoin is worth less, and what asks for a transfer of either asset.
  abbrev pub Cause : Bool → Balances float → AssetBalancing float → Type 0
  Cause smaller b idle = Unit {0}
  Cause true b (recv_btc v) = IsLow (bitcoin_share b)
  Cause true b (send_btc v) = IsHigh (bitcoin_share b)
  Cause true b (recv_usdt v) = IsBalanced (bitcoin_share b)
  Cause true b (send_usdt v) = IsBalanced (bitcoin_share b)
  Cause false b (recv_usdt v) = IsLow (usdt_share b)
  Cause false b (send_usdt v) = IsHigh (usdt_share b)
  Cause false b (recv_btc v) = IsBalanced (usdt_share b)
  Cause false b (send_btc v) = IsBalanced (usdt_share b)

  abbrev NonZero : F64 → Type 0
  NonZero x = float.eq x (float.literal 0 1) ≡ false

  -- Each transfer that `get_balancing` asks for is of nonzero balances at a nonzero price, is not
  -- worth less than 1000 USDt, and has its cause: the wallet's part of the asset of less worth is
  -- below a quarter (then that asset is received) or above three quarters (then it is sent), and the
  -- other asset is moved only where that part is within the two bounds.
  pub get_balancing-Cause :
      (b : Balances float) (price : F64) (smaller : Bool) (asked : AssetBalancing float)
      → bitcoin_smaller float b price ≡ smaller
      → get_balancing float b price ≡ asked
      → asked ≢ idle
      → NonZero price
        × NonZero b.wallet_bitcoin
        × NonZero b.exchange_bitcoin
        × NonZero b.wallet_usdt
        × NonZero b.exchange_usdt
        × (float.lt (worth float price asked) (float.literal 1000 1) ≡ false)
        × Cause smaller b asked
  unfolding get_balancing
  get_balancing-Cause b price true idle e h n = absurd (n refl)
  get_balancing-Cause b price true (recv_btc v) e h n = ground arith
  get_balancing-Cause b price true (send_btc v) e h n = ground arith
  get_balancing-Cause b price true (recv_usdt v) e h n = ground arith
  get_balancing-Cause b price true (send_usdt v) e h n = ground arith
  get_balancing-Cause b price false idle e h n = absurd (n refl)
  get_balancing-Cause b price false (recv_btc v) e h n = ground arith
  get_balancing-Cause b price false (send_btc v) e h n = ground arith
  get_balancing-Cause b price false (recv_usdt v) e h n = ground arith
  get_balancing-Cause b price false (send_usdt v) e h n = ground arith
