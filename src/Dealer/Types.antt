-- ===== src/Dealer/Types.antt =====
-- The types of the dealer. Ids, hashes and scripts that are only compared or passed on are numbers;
-- `F` is the type of `f64`.
use Prim.Native.String.{String}
use sideswapclient.Prelude.{
  ℕ, ◌≡◌, ◌↔◌, refl, Bool, true, false, not, ◌&&◌, ◌||◌, Option, none, Ensures, List, ◌==◌, ltb,
  arith,
}
use sideswapclient.Prelude.Int64.{I64}
use sideswapclient.Prelude.Key.{Key}
use sideswapclient.Prelude.Map.{Map}
use sideswapclient.Ticker.{DealerTicker, ticker_key, ticker_before, ticker_eq, ticker_eq_iff}

abbrev pub OrderId : Type 0
OrderId = ℕ

abbrev pub AssetId : Type 0
AssetId = ℕ

abbrev pub Address : Type 0
Address = ℕ

-- `TxOut`, and its derived order.
pub record TxOut : Type 0 where
  pub txid : ℕ
  pub vout : ℕ

abbrev pub tx_out_eq : TxOut → TxOut → Bool
tx_out_eq a b = a.txid == b.txid && a.vout == b.vout

pub tx_out_eq_iff : (a b : TxOut) → (tx_out_eq a b ≡ true) ↔ (a ≡ b)
tx_out_eq_iff a b = ground arith

abbrev tx_out_before : TxOut → TxOut → Bool
tx_out_before a b = ltb a.txid b.txid || (a.txid == b.txid && ltb a.vout b.vout)

instance abbrev pub tx_out_key : Key TxOut
tx_out_key = record { beq = tx_out_eq; beq_iff = tx_out_eq_iff; before = tx_out_before }

-- `rpc::UnspentItem`, its amount in satoshi (`Amount::from_rpc`).
pub record UnspentItem : Type 0 where
  pub txid : ℕ
  pub vout : ℕ
  pub amount : I64
  pub asset : AssetId
  pub address : Address
  pub redeem_script : Option ℕ
  pub assetblinder : Option ℕ
  pub amountblinder : Option ℕ
  pub amountcommitment : Option ℕ

-- `item.tx_out()`
abbrev pub tx_out : UnspentItem → TxOut
tx_out item = record { txid = item.txid; vout = item.vout }

pub record Utxo : Type 0 where
  pub item : UnspentItem
  pub amount : I64

abbrev pub Utxos : Type 0
Utxos = Map TxOut Utxo

pub record Asset : Type 0 where
  pub asset_id : AssetId
  pub ticker : String
  pub precision : ℕ

pub record OwnOrderKey : Type 0 where
  pub ticker : DealerTicker
  pub send_bitcoins : Bool

abbrev bool_eq : Bool → Bool → Bool
bool_eq true b = b
bool_eq false b = not b

abbrev own_eq : OwnOrderKey → OwnOrderKey → Bool
own_eq a b = ticker_eq a.ticker b.ticker && bool_eq a.send_bitcoins b.send_bitcoins

bool_eq_iff : (a b : Bool) → (bool_eq a b ≡ true) ↔ (a ≡ b)
bool_eq_iff true true = ground arith
bool_eq_iff true false = ground arith
bool_eq_iff false true = ground arith
bool_eq_iff false false = ground arith

pub own_eq_iff : (a b : OwnOrderKey) → (own_eq a b ≡ true) ↔ (a ≡ b)
own_eq_iff a b =
    ground (arith, ticker_eq_iff a.ticker b.ticker, bool_eq_iff a.send_bitcoins b.send_bitcoins)

abbrev own_before : OwnOrderKey → OwnOrderKey → Bool
own_before a b =
    ticker_before a.ticker b.ticker
    || (ticker_eq a.ticker b.ticker && (not a.send_bitcoins && b.send_bitcoins))

instance abbrev pub own_key : Key OwnOrderKey
own_key = record { beq = own_eq; beq_iff = own_eq_iff; before = own_before }

-- `sideswap_api::PsetInput`
pub record PsetInput : Type 0 where
  pub txid : ℕ
  pub vout : ℕ
  pub asset : AssetId
  pub asset_bf : ℕ
  pub value : ℕ
  pub value_bf : ℕ
  pub redeem_script : Option ℕ

pub data OrderSide : Type 0 where
  maker taker : OrderSide

module _ (F : Type 0) where
  pub record PricePair : Type 0 where
    pub bid : F
    pub ask : F

  -- Times are seconds.
  pub record PriceTimestamp : Type 0 where
    pub price : PricePair
    pub timestamp : ℕ

  -- The parameters that the worker reads; the ids of USDt and EURx are those of the network, and
  -- `policy_asset` that of L-BTC.
  pub record Params : Type 0 where
    pub interest_submit_usdt : F
    pub interest_sign_usdt : F
    pub interest_submit_eurx : F
    pub interest_sign_eurx : F
    pub tickers : List DealerTicker
    pub bitcoin_amount_submit : I64
    pub bitcoin_amount_min : I64
    pub bitcoin_amount_max : I64
    pub policy_asset : AssetId
    pub asset_usdt : AssetId
    pub asset_eurx : AssetId

  pub record AllBalances : Type 0 where
    pub wallet : Map DealerTicker F
    pub max_send : Map DealerTicker F
    pub max_recv : Map DealerTicker F

  pub record OwnOrder : Type 0 where
    pub order_id : OrderId
    pub bitcoin_amount : I64
    pub price : F

  -- `sideswap_api::Details`, the fields that are read.
  pub record Details : Type 0 where
    pub asset : AssetId
    pub bitcoin_amount : I64
    pub asset_amount : I64
    pub price : F
    pub server_fee : I64
    pub side : OrderSide
    pub send_bitcoins : Bool

  -- `sideswap_api::Order`: `is_own` says that `own` is some.
  pub record Order : Type 0 where
    pub order_id : OrderId
    pub details : Details
    pub is_own : Bool

  pub record SubmitResponse : Type 0 where
    pub order_id : OrderId
    pub details : Details

  pub record SignNotification : Type 0 where
    pub order_id : OrderId
    pub pset : ℕ
    pub details : Details

  -- The fields that `get_pset` fills; the others are constants.
  pub record PsetRequest : Type 0 where
    pub order_id : OrderId
    pub price : F
    pub inputs : List PsetInput
    pub recv_addr : Address
    pub change_addr : Address

  pub data Request : Type 0 where
    assets login : Request
    subscribe : AssetId → Request
    -- The asset, the amount of bitcoins (negative where they are sent), the price.
    submit : AssetId → F → F → Request
    pset_maker : PsetRequest → Request
    pset_taker : PsetRequest → Request
    sign : OrderId → ℕ → OrderSide → Request
    edit : OrderId → F → Request
    cancel : OrderId → Request

  pub data Response : Type 0 where
    assets_resp : List Asset → Response
    login_resp : List OrderId → Response
    subscribe_resp : List Order → Response
    submit_resp : SubmitResponse → Response
    pset_maker_resp pset_taker_resp sign_resp edit_resp cancel_resp : Response

  -- What comes back for a request in time: a response, or an error; else there is a panic.
  pub data Answer : Type 0 where
    timeout error : Answer
    response : Response → Answer

  pub record SwapSucceed : Type 0 where
    pub txid : ℕ
    pub ticker : DealerTicker
    pub bitcoin_amount : I64
    pub send_bitcoins : Bool

  pub data From : Type 0 where
    swap : SwapSucceed → From
    wallet_balance_updated : From

  pub data To : Type 0 where
    price : DealerTicker → Option PricePair → To
    -- The ticker, `recv_limit`, the balance.
    limit_balance : DealerTicker → Bool → F → To
    reset_prices : To

  pub data Notification : Type 0 where
    order_created : Order → Notification
    order_removed : OrderId → Notification
    sign_order : SignNotification → Notification
    complete : OrderId → Option ℕ → Notification
    other_notification : Notification

  pub data Msg : Type 0 where
    to : To → Msg
    timer connected disconnected : Msg
    notification : Notification → Msg
    reload_utxo : Msg

-- The result of a call: a panic, an error, or a value.
pub data Reply {ℓ} (A : Type ℓ) : Type ℓ where
  panic err : Reply A
  ok : A → Reply A

-- The match on a result: a panic is passed on.
abbrev pub case_reply {ℓ κ} :
    {A : Type ℓ} {B : Type κ} → Reply A → Option B → (A → Option B) → Option B
case_reply panic on_err on_ok = none
case_reply err on_err on_ok = on_err
case_reply (ok a) on_err on_ok = on_ok a

pub case_reply-Ensures {ℓ κ μ} :
    {A : Type ℓ} {B : Type κ} (P : B → Type μ) (r : Reply A) (on_err : Option B)
    (on_ok : A → Option B)
    → (r ≡ err → Ensures P on_err)
    → ((a : A) → r ≡ ok a → Ensures P (on_ok a))
    → Ensures P (case_reply r on_err on_ok)
case_reply-Ensures P panic on_err on_ok h k = tt
case_reply-Ensures P err on_err on_ok h k = h refl
case_reply-Ensures P (ok a) on_err on_ok h k = k a refl
