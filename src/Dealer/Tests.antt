-- ===== src/Dealer/Tests.antt =====
-- A run of the dealer with one order of its own and one that it takes, and the theorems there.
use sideswapclient.Prelude.{
  ℕ, ◌+◌, ◌*◌, ◌/◌, ◌≤◌, ◌≡◌, ◌↔◌, refl, true, false, none, some, List, [], ◌∷◌, ◌++◌, length, All,
}
use sideswapclient.Prelude.FixedPoint.{fixed_point}
use sideswapclient.Prelude.Int64
use sideswapclient.Prelude.Map.{get, insert, remove}
use sideswapclient.Utxo.{select_utxo, take_values}
use sideswapclient.Ticker.{usdt, ticker_from_string, ticker_from_string_iff, ticker_name}
use sideswapclient.Dealer.Types.{SignNotification}
use sideswapclient.Dealer.Psets.{sign_pset}
use sideswapclient.Dealer.Types.{
  Asset, PricePair, Params, Details, Order, maker, taker, UnspentItem, TxOut, PsetRequest,
  wallet_balance_updated, Utxo, Request, assets, login, subscribe, submit, pset_maker, pset_taker,
  sign, edit, cancel, assets_resp, login_resp, subscribe_resp, submit_resp, pset_maker_resp,
  pset_taker_resp, sign_resp, edit_resp, cancel_resp, Answer, response, Msg, to, timer, connected,
  notification, reload_utxo, price, sign_order, complete, swap, ok,
}
use sideswapclient.Dealer.Psets.{Outside}
use sideswapclient.Dealer.State.{State, is_taken}
use sideswapclient.Dealer.Timer.{process_timer}
use sideswapclient.Dealer.Worker.{start, run, step}
use sideswapclient.Dealer.Trades.{signs, takes, swaps}
use sideswapclient.Dealer.OwnOrders.{AllWithin}
use sideswapclient.Dealer.Runs.{run-AllWithin, run-reported, run-TakesOnce}
use sideswapclient.Dealer.Taking.{IsFresh, process_timer-IsFresh}
use sideswapclient.Dealer.Signing.{IsSignedPset, sign_pset-IsSignedPset}

-- 1, in the units of the arithmetic.
abbrev one : ℕ
one = 100_000_000

abbrev params : Params ℕ
params = record {
  interest_submit_usdt = 101 * one / 100;
  interest_sign_usdt = 1005 * one / 1000;
  interest_submit_eurx = 102 * one / 100;
  interest_sign_eurx = 101 * one / 100;
  tickers = usdt ∷ [];
  bitcoin_amount_submit = 10_000_000;
  bitcoin_amount_min = 100_000;
  bitcoin_amount_max = 50_000_000;
  policy_asset = 1;
  asset_usdt = 2;
  asset_eurx = 3;
}

abbrev usdt_asset : Asset
usdt_asset = record { asset_id = 2; ticker = "USDt"; precision = 8 }

-- 0.01 bitcoins for 200 USDt, which the dealer sends.
abbrev details : Details ℕ
details = record {
  asset = 2;
  bitcoin_amount = 1_000_000;
  asset_amount = 200 * one;
  price = 20_000 * one;
  server_fee = 1_000;
  side = taker;
  send_bitcoins = false;
}

abbrev order : Order ℕ
order = record { order_id = 40; details = details; is_own = false }

abbrev item : ℕ → ℕ → ℕ → UnspentItem
item txid asset amount = record {
  txid = txid;
  vout = 0;
  amount = amount;
  asset = asset;
  address = 8;
  redeem_script = none;
  assetblinder = some 5;
  amountblinder = some 6;
  amountcommitment = some 7;
}

abbrev items : List UnspentItem
items = item 20 1 30_000_000 ∷ item 21 2 (500 * one) ∷ item 22 2 (300 * one) ∷ []

abbrev answer : List (Request ℕ) → Request ℕ → Answer ℕ
answer sent assets = response (assets_resp (usdt_asset ∷ []))
answer sent login = response (login_resp [])
answer sent (subscribe asset) = response (subscribe_resp (order ∷ []))
answer sent (submit asset amount at) =
    response (submit_resp (record { order_id = 50; details = record details { side = maker } }))
answer sent (pset_maker request) = response pset_maker_resp
answer sent (pset_taker request) = response pset_taker_resp
answer sent (sign id pset side) = response sign_resp
answer sent (edit id at) = response edit_resp
answer sent (cancel id) = response cancel_resp

abbrev outside : Outside ℕ
outside = record {
  answer = answer;
  recv_address = λ sent. some 8;
  change_address = λ sent. some 9;
  list_unspent = some items;
  wallet_info = some 1;
  dump_priv_key = λ address. some 3;
  decode_pset = λ pset. some (
      record {
        previous_output = record { txid = 21; vout = 0 };
        final_script_sig = none;
        final_script_witness = none;
      }
      ∷ []);
  encode_pset = λ inputs. 77;
  input_sign = λ tx index key commitment. 4;
  public_key = λ key. key;
  push_script = λ script. script;
  now = 100;
  now_later = 101;
}

abbrev pair : PricePair ℕ
pair = record { bid = 21_000 * one; ask = 21_100 * one }

abbrev messages : List (Outside ℕ × Msg ℕ)
messages =
    (outside, connected)
    ∷ (outside, reload_utxo)
    ∷ (outside, to (price usdt (some pair)))
    ∷ (outside, timer)
    ∷ (outside, notification (sign_order (record { order_id = 40; pset = 66; details = details })))
    ∷ (outside, notification (complete 40 (some 99)))
    ∷ []

abbrev first : State ℕ
first = record {
  assets = [];
  server_connected = false;
  utxos = [];
  orders = [];
  taken_orders = [];
  all_balances = record { wallet = []; max_send = []; max_recv = [] };
  index_prices = [];
  pending_signs = [];
  own_orders =
      (record { ticker = usdt; send_bitcoins = false }, none)
      ∷ (record { ticker = usdt; send_bitcoins = true }, none)
      ∷ [];
  wallet_balance = none;
  last_price_edit = 10;
  sent = [];
  queued = [];
  reported = [];
}

first_lem : start fixed_point params 10 ≡ some first
unfolding start insert
first_lem = refl

-- The assets, the orders and the subscription came; the UTXOs; the price.
abbrev connected_state : State ℕ
connected_state = record first {
  assets = usdt_asset ∷ [];
  server_connected = true;
  orders = (40, order) ∷ [];
  sent = assets ∷ login ∷ subscribe 2 ∷ [];
  queued = reload_utxo ∷ [];
}

abbrev utxo : ℕ → ℕ → ℕ → TxOut × Utxo
utxo txid asset amount =
    (record { txid = txid; vout = 0 }, record { item = item txid asset amount; amount = amount })

abbrev loaded : State ℕ
loaded = record connected_state {
  utxos = utxo 20 1 30_000_000 ∷ utxo 21 2 (500 * one) ∷ utxo 22 2 (300 * one) ∷ [];
  all_balances = record { wallet = (usdt, 800 * one) ∷ []; max_send = []; max_recv = [] };
}

abbrev priced : State ℕ
priced = record loaded {
  index_prices = (usdt, record { price = pair; timestamp = 100 }) ∷ [];
  queued = reload_utxo ∷ timer ∷ [];
}

abbrev request : ℕ → PsetRequest ℕ
request id = record {
  order_id = id;
  price = 20_000 * one;
  inputs =
      record {
        txid = 22;
        vout = 0;
        asset = 2;
        asset_bf = 5;
        value = 300 * one;
        value_bf = 6;
        redeem_script = none;
      }
      ∷ [];
  recv_addr = 8;
  change_addr = 9;
}

-- The own order was submitted, and the other one taken.
abbrev taken : State ℕ
taken = record priced {
  own_orders =
      (
        record { ticker = usdt; send_bitcoins = false },
        some (record { order_id = 50; bitcoin_amount = 3_739_288; price = 2_077_130_790_002 }),
      )
      ∷ (record { ticker = usdt; send_bitcoins = true }, none)
      ∷ [];
  taken_orders = 40 ∷ [];
  wallet_balance = some 1;
  last_price_edit = 100;
  sent =
      assets
      ∷ login
      ∷ subscribe 2
      ∷ submit 2 3_739_288 2_077_130_790_002
      ∷ pset_maker (request 50)
      ∷ pset_taker (request 40)
      ∷ [];
  queued = reload_utxo ∷ timer ∷ reload_utxo ∷ [];
  reported = wallet_balance_updated ∷ [];
}

abbrev signed : State ℕ
signed = record taken {
  pending_signs = (40, details) ∷ [];
  sent = taken.sent ++ sign 40 77 taker ∷ [];
}

abbrev last : State ℕ
last = record signed {
  pending_signs = [];
  reported =
      wallet_balance_updated
      ∷ swap (record { txid = 99; ticker = usdt; bitcoin_amount = 999_000; send_bitcoins = false })
      ∷ [];
}

step_connected : step fixed_point outside params connected first ≡ some connected_state
unfolding step insert
step_connected = refl

step_reload_utxo : step fixed_point outside params reload_utxo connected_state ≡ some loaded
unfolding step insert get
step_reload_utxo = refl

step_price : step fixed_point outside params (to (price usdt (some pair))) loaded ≡ some priced
unfolding step insert
step_price = refl

step_timer : step fixed_point outside params timer priced ≡ some taken
unfolding step insert get Int64.sub Int64.add select_utxo take_values
step_timer = refl

step_sign :
    step fixed_point outside params
      (notification (sign_order (record { order_id = 40; pset = 66; details = details })))
      taken
    ≡ some signed
unfolding step insert get Int64.sub
step_sign = refl

step_complete :
    step fixed_point outside params (notification (complete 40 (some 99))) signed ≡ some last
unfolding step insert get remove Int64.sub
step_complete = refl

next_run_lem :
    (outside : Outside ℕ) (msg : Msg ℕ) (messages : List (Outside ℕ × Msg ℕ))
    (state next result : State ℕ)
    → step fixed_point outside params msg state ≡ some next
    → run fixed_point params messages next ≡ some result
    → run fixed_point params ((outside, msg) ∷ messages) state ≡ some result
unfolding run
next_run_lem outside msg messages state next result h k = rw h k

no_run_lem : (state : State ℕ) → run fixed_point params [] state ≡ some state
unfolding run
no_run_lem state = refl

messages_lem : run fixed_point params messages first ≡ some last
messages_lem = next_run_lem _ _ _ first connected_state last step_connected (
    next_run_lem _ _ _ connected_state loaded last step_reload_utxo (
      next_run_lem _ _ _ loaded priced last step_price (
        next_run_lem _ _ _ priced taken last step_timer (
          next_run_lem _ _ _ taken signed last step_sign
            (next_run_lem _ _ _ signed last last step_complete (no_run_lem last))))))

run-AllWithin_example : AllWithin params last.own_orders
run-AllWithin_example =
    run-AllWithin fixed_point params messages 10 first last first_lem messages_lem

run-reported_example : swaps last.reported + length last.pending_signs ≤ signs last.sent
run-reported_example = run-reported fixed_point params messages 10 first last first_lem messages_lem

-- A timer after that.
idle_lem : step fixed_point outside params timer last ≡ some last
unfolding step get
idle_lem = refl

timers_lem : run fixed_point params ((outside, timer) ∷ []) last ≡ some last
timers_lem = next_run_lem _ _ _ last last last idle_lem (no_run_lem last)

run-TakesOnce_example :
    (is_taken 40 last.taken_orders ≡ true) × (takes 40 last.sent ≡ takes 40 last.sent)
run-TakesOnce_example =
    run-TakesOnce fixed_point params ((outside, timer) ∷ []) last last 40 (tt, tt)
      run-AllWithin_example refl timers_lem

idle_timer_lem : process_timer fixed_point outside params last ≡ some last
unfolding process_timer get
idle_timer_lem = refl

process_timer-IsFresh_example : All (IsFresh 101) last.index_prices
process_timer-IsFresh_example =
    process_timer-IsFresh fixed_point outside params last last idle_timer_lem

ticker_from_string_iff_example :
    (ticker_from_string "USDt" ≡ some usdt) ↔ ("USDt" ≡ ticker_name usdt)
ticker_from_string_iff_example = ticker_from_string_iff "USDt" usdt

abbrev sign_msg : SignNotification ℕ
sign_msg = record { order_id = 40; pset = 66; details = details }

sign_msg_lem : sign_pset outside sign_msg last.utxos ≡ ok 77
unfolding sign_pset get
sign_msg_lem = refl

sign_pset-IsSignedPset_example : IsSignedPset outside sign_msg last.utxos 77
sign_pset-IsSignedPset_example = sign_pset-IsSignedPset outside sign_msg last.utxos 77 sign_msg_lem
