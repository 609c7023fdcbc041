-- ===== src/Balancing/Process.antt =====
-- The handlers of balancing.rs. Each part of `process_balancing` is the arm of its `match` for one
-- state, on a storage that holds the transfer.
use Prim.Native.String.{String}
use text.Mathlib.Text.{◌==◌ as str_eq}
use sideswapclient.Prelude.{
  ℕ, Bool, true, false, not, ◌&&◌, ◌||◌, Option, none, some, List, [], ◌∷◌, ◌==◌, if◌then◌else◌,
}
use sideswapclient.Prelude.Float.{Float, to_bitcoin, from_bitcoin}
use sideswapclient.Prelude.Int64
use sideswapclient.Prelude.Int64.{I64}
use sideswapclient.Ticker.{DealerTicker, lbtc, usdt, ticker_name}
use sideswapclient.Balancing.Types.{
  TransferState, send_usdt_new, send_usdt_wait_confirm, recv_usdt_new, recv_usdt_wait_withdraw_id,
  recv_usdt_wait_confirm, send_btc_new, send_btc_wait_lbtc_balance, send_btc_wait_confirm,
  recv_btc_new, recv_btc_wait_lbtc_balance, recv_btc_wait_withdraw_id, recv_btc_wait_confirm,
  complete, failed, Transfer, Storage, Args, start_balancing, Action, send_asset, send_bitcoin,
  withdraw, exchange, save, Outcome, after, send_notification, update_balancing_state,
}

pub record Asset : Type 0 where
  pub asset_id : String
  pub ticker : String

-- What `make_rpc_call` gives back if it is called.
pub data RpcResult : Type 0 where
  ok : String → RpcResult
  err : RpcResult

-- The arguments of `process_balancing` but the storage, and the clock.
pub record View (F : Type 0) : Type 0 where
  pub wallet_balances_confirmed : DealerTicker → Option F
  pub exchange_balances : String → Option F
  pub module_connected : Bool
  pub assets : List Asset
  pub args : Args
  pub rpc_result : RpcResult
  pub now : ℕ

-- The fields of the generated `proto::from` messages that the handlers read.
pub record Movement : Type 0 where
  pub id : I64
  pub status : String
  pub transaction_id : String

pub record Movements : Type 0 where
  pub success : Bool
  pub movements : List Movement

abbrev pub wallet_exchange : String
wallet_exchange = "exchange"

abbrev pub method_usdt : String
method_usdt = "tetherusl"

abbrev pub method_lbtc : String
method_lbtc = "LBT"

abbrev pub status_completed : String
status_completed = "COMPLETED"

-- `iter().find(..)`
unfoldable pub find {ℓ} : {A : Type ℓ} → (A → Bool) → List A → Option A
find test [] = none
find test (x ∷ xs) = if test x then some x else find test xs

abbrev pub holding : Transfer → Storage
holding transfer = record { balancing = some transfer }

abbrev pub idle : {F : Type 0} → Storage → Outcome F
idle storage = some (storage, [])

-- `is_none()`
abbrev is_none {ℓ} : {A : Type ℓ} → Option A → Bool
is_none none = true
is_none (some a) = false

-- `Some(&msg) == movements.as_ref()`
abbrev pub seen_before : (Movements → Movements → Bool) → Movements → Option Movements → Bool
seen_before same msg none = false
seen_before same msg (some earlier) = same msg earlier

module _ (float : Float) where
  open float use {F64}

  abbrev pub zero_f64 : F64
  zero_f64 = float.literal 0 1

  -- `.cloned().unwrap_or_default()`
  abbrev pub or_zero : Option F64 → F64
  or_zero none = zero_f64
  or_zero (some balance) = balance

  -- `balancing.amount.to_bitcoin()`
  abbrev pub amount_of : Transfer → F64
  amount_of transfer = to_bitcoin float transfer.amount

  -- The result of a `sendtoaddress` call: the txid is kept, or the transfer has failed.
  unfoldable pub sent : Transfer → View F64 → TransferState → Outcome F64
  unfolding update_balancing_state
  sent transfer view next = elim view.rpc_result [
    | ok txid ↦
        update_balancing_state (holding (record transfer { txid = some txid })) view.args next
          view.now
    | err ↦ update_balancing_state (holding transfer) view.args failed view.now
  ]

  unfoldable pub on_send_usdt_new : Transfer → View F64 → Outcome F64
  unfolding sent find
  on_send_usdt_new transfer view =
      if float.le (amount_of transfer) (or_zero (view.wallet_balances_confirmed usdt))
        && (float.lt zero_f64 (or_zero (view.wallet_balances_confirmed lbtc))
            && view.module_connected)
      then elim (find (λ asset. str_eq asset.ticker (ticker_name usdt)) view.assets) [
        | none ↦ none
        | some asset ↦
            after
              (send_asset view.args.bitfinex_fund_address (amount_of transfer) asset.asset_id ∷ [])
              (sent transfer view send_usdt_wait_confirm)
      ]
      else idle (holding transfer)

  withdraw_msg : Transfer → View F64 → String → Action F64
  withdraw_msg transfer view method = withdraw (record {
    key = view.args.bitfinex_key;
    secret = view.args.bitfinex_secret;
    wallet = wallet_exchange;
    method = method;
    amount = amount_of transfer;
    address = view.args.bitfinex_withdraw_address;
  })

  exchange_msg : Transfer → View F64 → String → String → Action F64
  exchange_msg transfer view currency currency_to = exchange (record {
    key = view.args.bitfinex_key;
    secret = view.args.bitfinex_secret;
    source = wallet_exchange;
    target = wallet_exchange;
    currency = currency;
    currency_to = currency_to;
    amount = amount_of transfer;
  })

  unfoldable pub on_recv_usdt_new : Transfer → View F64 → Outcome F64
  unfolding withdraw_msg update_balancing_state
  on_recv_usdt_new transfer view =
      if (float.le (amount_of transfer)
            (or_zero (view.exchange_balances view.args.bitfinex_currency_usdt))
          || not view.args.mainnet)
        && view.module_connected
      then after (withdraw_msg transfer view method_usdt ∷ [])
          (update_balancing_state (holding transfer) view.args recv_usdt_wait_withdraw_id view.now)
      else idle (holding transfer)

  unfoldable pub on_send_btc_new : Transfer → View F64 → Outcome F64
  unfolding sent
  on_send_btc_new transfer view =
      if float.le (amount_of transfer) (or_zero (view.wallet_balances_confirmed lbtc))
        && view.module_connected
      then after (send_bitcoin view.args.bitfinex_fund_address (amount_of transfer) ∷ [])
          (sent transfer view send_btc_wait_lbtc_balance)
      else idle (holding transfer)

  unfoldable pub on_send_btc_wait_lbtc_balance : Transfer → View F64 → Outcome F64
  unfolding exchange_msg update_balancing_state
  on_send_btc_wait_lbtc_balance transfer view =
      if float.eq (or_zero (view.exchange_balances view.args.bitfinex_currency_lbtc))
          (amount_of transfer)
        && view.module_connected
      then after
          (exchange_msg transfer view view.args.bitfinex_currency_lbtc
              view.args.bitfinex_currency_btc
            ∷ [])
          (update_balancing_state (holding transfer) view.args send_btc_wait_confirm view.now)
      else idle (holding transfer)

  -- `lbtc_balance == Some(0.0)`
  is_some_zero : Option F64 → Bool
  is_some_zero none = false
  is_some_zero (some balance) = float.eq balance zero_f64

  unfoldable pub on_send_btc_wait_confirm : Transfer → View F64 → Outcome F64
  unfolding is_some_zero update_balancing_state
  on_send_btc_wait_confirm transfer view =
      if is_some_zero (view.exchange_balances view.args.bitfinex_currency_lbtc)
      then update_balancing_state (holding transfer) view.args complete view.now
      else idle (holding transfer)

  unfoldable pub on_recv_btc_new : Transfer → View F64 → Outcome F64
  unfolding exchange_msg update_balancing_state
  on_recv_btc_new transfer view =
      if (float.le (amount_of transfer)
            (or_zero (view.exchange_balances view.args.bitfinex_currency_btc))
          || not view.args.mainnet)
        && view.module_connected
      then after
          (exchange_msg transfer view view.args.bitfinex_currency_btc
              view.args.bitfinex_currency_lbtc
            ∷ [])
          (update_balancing_state (holding transfer) view.args recv_btc_wait_lbtc_balance view.now)
      else idle (holding transfer)

  unfoldable pub on_recv_btc_wait_lbtc_balance : Transfer → View F64 → Outcome F64
  unfolding withdraw_msg update_balancing_state
  on_recv_btc_wait_lbtc_balance transfer view =
      if float.eq (or_zero (view.exchange_balances view.args.bitfinex_currency_lbtc))
          (amount_of transfer)
        && view.module_connected
      then after (withdraw_msg transfer view method_lbtc ∷ [])
          (update_balancing_state (holding transfer) view.args recv_btc_wait_withdraw_id view.now)
      else idle (holding transfer)

  unfoldable pub on_complete : View F64 → Outcome F64
  on_complete view =
      let storage : Storage = record { balancing = none } in
      some (storage, save view.args.storage_path storage ∷ [])

  unfoldable pub on_state : TransferState → Transfer → View F64 → Outcome F64
  unfolding on_send_usdt_new on_recv_usdt_new on_send_btc_new on_send_btc_wait_lbtc_balance
      on_send_btc_wait_confirm on_recv_btc_new on_recv_btc_wait_lbtc_balance on_complete
  on_state send_usdt_new transfer view = on_send_usdt_new transfer view
  on_state recv_usdt_new transfer view = on_recv_usdt_new transfer view
  on_state send_btc_new transfer view = on_send_btc_new transfer view
  on_state send_btc_wait_lbtc_balance transfer view = on_send_btc_wait_lbtc_balance transfer view
  on_state send_btc_wait_confirm transfer view = on_send_btc_wait_confirm transfer view
  on_state recv_btc_new transfer view = on_recv_btc_new transfer view
  on_state recv_btc_wait_lbtc_balance transfer view = on_recv_btc_wait_lbtc_balance transfer view
  on_state complete transfer view = on_complete view
  on_state _ transfer view = idle (holding transfer)

  unfoldable pub process_balancing : Storage → View F64 → Outcome F64
  unfolding on_state
  process_balancing storage view = elim storage.balancing [
    | none ↦ idle storage
    | some transfer ↦ on_state transfer.state transfer view
  ]

  -- The arm of `process_withdraw` for a transfer in the given state.
  unfoldable pub on_withdraw_id : TransferState → Transfer → I64 → Args → ℕ → Outcome F64
  unfolding update_balancing_state
  on_withdraw_id recv_usdt_wait_withdraw_id transfer id args now =
      if Int64.lt 0 id && is_none transfer.withdraw_id
      then update_balancing_state (holding (record transfer { withdraw_id = some id })) args
          recv_usdt_wait_confirm now
      else update_balancing_state (holding transfer) args failed now
  on_withdraw_id recv_btc_wait_withdraw_id transfer id args now =
      if Int64.lt 0 id && is_none transfer.withdraw_id
      then update_balancing_state (holding (record transfer { withdraw_id = some id })) args
          recv_btc_wait_confirm now
      else update_balancing_state (holding transfer) args failed now
  on_withdraw_id _ transfer id args now = update_balancing_state (holding transfer) args failed now

  unfoldable pub process_withdraw : Storage → I64 → Args → ℕ → Outcome F64
  unfolding on_withdraw_id
  process_withdraw storage id args now = elim storage.balancing [
    | none ↦ idle storage
    | some transfer ↦ on_withdraw_id transfer.state transfer id args now
  ]

  unfoldable pub process_transfer : Storage → Bool → Args → ℕ → Outcome F64
  unfolding update_balancing_state
  process_transfer storage success args now = elim storage.balancing [
    | none ↦ idle storage
    | some transfer ↦
        if not success then update_balancing_state storage args failed now else idle storage
  ]

  -- The completion tests of `process_movements`.
  unfoldable pub is_movement : String → Movement → Bool
  is_movement txid item = str_eq item.transaction_id txid && str_eq item.status status_completed

  unfoldable pub is_withdrawal : Option I64 → Movement → Bool
  is_withdrawal none item = false
  is_withdrawal (some id) item = item.id == id && str_eq item.status status_completed

  -- `if tx_found`
  unfoldable pub settle : Transfer → Option Movement → Args → ℕ → Outcome F64
  unfolding update_balancing_state
  settle transfer none args now = idle (holding transfer)
  settle transfer (some item) args now = update_balancing_state (holding transfer) args complete now

  -- `expect("txid must be known")` panics where there is none.
  unfoldable pub on_movements : TransferState → Transfer → List Movement → Args → ℕ → Outcome F64
  unfolding settle is_movement is_withdrawal find
  on_movements send_usdt_wait_confirm transfer movements args now = elim transfer.txid [
    | none ↦ none
    | some txid ↦ settle transfer (find (is_movement txid) movements) args now
  ]
  on_movements recv_usdt_wait_confirm transfer movements args now =
      settle transfer (find (is_withdrawal transfer.withdraw_id) movements) args now
  on_movements recv_btc_wait_confirm transfer movements args now =
      settle transfer (find (is_withdrawal transfer.withdraw_id) movements) args now
  on_movements _ transfer movements args now = idle (holding transfer)

  -- The other result is the last movements seen: a message acts only when it repeats them. `same` is
  -- the generated equality of messages.
  unfoldable pub process_movements :
      (Movements → Movements → Bool)
      → Storage
      → Movements
      → Args
      → Option Movements
      → ℕ
      → Outcome F64 × Option Movements
  unfolding on_movements
  process_movements same storage msg args seen now =
      if not msg.success
      then (idle storage, seen)
      else if not (seen_before same msg seen)
      then (idle storage, some msg)
      else (
        elim storage.balancing [
          | none ↦ idle storage
          | some transfer ↦ on_movements transfer.state transfer msg.movements args now
        ],
        seen,
      )

-- `CliRequest`, with the amount in bitcoins.
pub data CliRequest (F : Type 0) : Type 0 where
  test_send_usdt test_recv_usdt test_send_btc test_recv_btc : F → CliRequest F

abbrev pub new_state : {F : Type 0} → CliRequest F → TransferState × F
new_state (test_send_usdt amount) = (send_usdt_new, amount)
new_state (test_recv_usdt amount) = (recv_usdt_new, amount)
new_state (test_send_btc amount) = (send_btc_new, amount)
new_state (test_recv_btc amount) = (recv_btc_new, amount)

-- `Msg::Cli` of main.rs: a transfer starts only where none is active. The first result is the
-- response (`Success` or `Error`), the last the movements seen.
unfoldable pub start :
    (float : Float)
    → Storage
    → CliRequest float.F64
    → Args
    → Option Movements
    → ℕ
    → Bool × Outcome float.F64 × Option Movements
start float storage req args seen now = elim storage.balancing [
  | some transfer ↦ (false, idle storage, seen)
  | none ↦
      let storage' : Storage = holding (record {
        withdraw_id = none;
        state = (new_state req).0;
        amount = from_bitcoin float (new_state req).1;
        created_at = now;
        updated_at = now;
        txid = none;
      }) in
      (
        true,
        some (
          storage',
          save args.storage_path storage'
              ∷ send_notification start_balancing args.notifications_url,
        ),
        none,
      )
]
