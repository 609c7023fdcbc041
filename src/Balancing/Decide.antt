-- ===== src/Balancing/Decide.antt =====
-- Which transfer the dealer starts: `get_balancing` of balancing.rs.
pub mod Laws
use sideswapclient.Prelude.{ℕ, Bool, true, false, ◌||◌, if◌then◌else◌}
use sideswapclient.Prelude.Float.{Float, from_bitcoin, to_bitcoin}

module _ (float : Float) where
  open float use {F64}

  pub record Ratio : Type 0 where
    pub min : F64
    pub norm : F64
    pub max : F64

  pub data Balancing : Type 0 where
    stay : Balancing
    recv : F64 → Balancing
    send : F64 → Balancing

  pub data AssetBalancing : Type 0 where
    idle : AssetBalancing
    recv_btc send_btc recv_usdt send_usdt : F64 → AssetBalancing

  abbrev one : F64
  one = float.literal 1 1

  abbrev zero : F64
  zero = float.literal 0 1

  -- `RATIO_BTC` and `RATIO_USDT` are the same.
  abbrev ratio_norm : Ratio
  ratio_norm = record { min = float.literal 1 4; norm = float.literal 1 2; max = float.literal 3 4 }

  abbrev min_balancing_amount_usdt : F64
  min_balancing_amount_usdt = float.literal 1000 1

  get_balancing_smaller : F64 → F64 → Ratio → Balancing
  get_balancing_smaller wallet exchange expected =
      let total = float.add wallet exchange in
      let ratio = float.div wallet total in
      let diff =
        to_bitcoin float
          (from_bitcoin float (float.abs (float.mul (float.sub expected.norm ratio) total))) in
      if float.eq wallet zero || float.eq exchange zero
      then stay
      else if float.lt ratio expected.min
      then recv diff
      else if float.lt expected.max ratio
      then send diff
      else stay

  get_balancing_bigger : F64 → F64 → F64 → F64 → F64 → Balancing
  get_balancing_bigger asset_wallet asset_exchange other_wallet other_exchange scale =
      let recv_amount = float.sub (float.mul other_exchange scale) asset_wallet in
      let send_amount = float.sub (float.mul other_wallet scale) asset_exchange in
      if float.lt zero recv_amount
      then recv recv_amount
      else if float.lt zero send_amount
      then send send_amount
      else stay

  abbrev is_recv_or_send : Bool → Balancing → AssetBalancing
  is_recv_or_send is_bitcoin stay = idle
  is_recv_or_send true (recv amount) = recv_btc amount
  is_recv_or_send true (send amount) = send_btc amount
  is_recv_or_send false (recv amount) = recv_usdt amount
  is_recv_or_send false (send amount) = send_usdt amount

  -- `balancing_amount_usdt`
  abbrev pub worth : F64 → AssetBalancing → F64
  worth price idle = zero
  worth price (recv_btc v) = float.mul v price
  worth price (send_btc v) = float.mul v price
  worth price (recv_usdt v) = v
  worth price (send_usdt v) = v

  -- The balances of the arguments of `get_balancing`, in its order.
  pub record Balances : Type 0 where
    pub wallet_bitcoin : F64
    pub exchange_bitcoin : F64
    pub wallet_usdt : F64
    pub exchange_usdt : F64

  abbrev pub bitcoin_smaller : Balances → F64 → Bool
  bitcoin_smaller b price =
      float.lt (float.mul (float.add b.wallet_bitcoin b.exchange_bitcoin) price)
        (float.add b.wallet_usdt b.exchange_usdt)

  -- The first `match`: the asset of less worth, then the other.
  choose : Balances → F64 → AssetBalancing
  unfolding get_balancing_smaller get_balancing_bigger
  choose b price = elim (bitcoin_smaller b price) [
    | true ↦ elim (get_balancing_smaller b.wallet_bitcoin b.exchange_bitcoin ratio_norm) [
      | stay ↦ is_recv_or_send false (
          get_balancing_bigger b.wallet_usdt b.exchange_usdt b.wallet_bitcoin b.exchange_bitcoin
            price)
      | recv amount ↦ recv_btc amount
      | send amount ↦ send_btc amount
    ]
    | false ↦ elim (get_balancing_smaller b.wallet_usdt b.exchange_usdt ratio_norm) [
      | stay ↦ is_recv_or_send true (
          get_balancing_bigger b.wallet_bitcoin b.exchange_bitcoin b.wallet_usdt b.exchange_usdt
            (float.div one price))
      | recv amount ↦ recv_usdt amount
      | send amount ↦ send_usdt amount
    ]
  ]

  -- The asserts on the ratios are of constants, and hold.
  unfoldable pub get_balancing : Balances → F64 → AssetBalancing
  unfolding choose
  get_balancing b price =
      let balancing = choose b price in
      if float.eq price zero
        || (float.eq b.wallet_bitcoin zero
            || (float.eq b.exchange_bitcoin zero
                || (float.eq b.wallet_usdt zero || float.eq b.exchange_usdt zero)))
      then idle
      else if float.lt (worth price balancing) min_balancing_amount_usdt
      then idle
      else balancing
