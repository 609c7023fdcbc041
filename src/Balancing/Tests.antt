-- ===== src/Balancing/Tests.antt =====
-- A run of a transfer, cases of the source's own test, and the theorems at concrete inputs.
use sideswapclient.Prelude.{ℕ, ◌≡◌, ◌≤◌, ◌+◌, refl, Bool, true, none, some, List, [], ◌∷◌}
use sideswapclient.Prelude.FixedPoint.{fixed_point}
use sideswapclient.Balancing.Evidence.{Evidence}
use sideswapclient.Balancing.Types.{
  send_usdt_new, save, send_bitcoin, failed, complete, send_usdt_wait_confirm, Args, Storage,
  Transfer, send_btc_new, send_btc_wait_lbtc_balance, Action,
}
use sideswapclient.Balancing.Process.{
  View, ok, Movements, test_send_btc, start, process_withdraw, Movement, find, process_balancing,
}
use sideswapclient.Balancing.Runs.{World, Event, timer, withdraw_result, cli, phase, step, run}
use sideswapclient.Balancing.Spending.{spends, budget, starts, spends-run}
use sideswapclient.Balancing.Diagram.{Follows, step-Follows}
use sideswapclient.Balancing.Safety.{KnowsUsdt, Continues, step-Continues}
use sideswapclient.Balancing.Decide.{Balances, recv_btc, get_balancing}
use sideswapclient.Balancing.Decide.Laws.{Cause, get_balancing-Cause}

abbrev args : Args
args = record {
  bitfinex_key = "key";
  bitfinex_secret = "secret";
  bitfinex_withdraw_address = "wallet";
  bitfinex_fund_address = "fund";
  bitfinex_currency_btc = "BTC";
  bitfinex_currency_lbtc = "LBT";
  bitfinex_currency_usdt = "UST";
  storage_path = "storage.json";
  notifications_url = none;
  mainnet = true;
}

abbrev same : Movements → Movements → Bool
same a b = true

-- Two bitcoins in the wallet, and none at the exchange.
abbrev view : View ℕ
view = record {
  wallet_balances_confirmed = λ ticker. some 200_000_000;
  exchange_balances = λ currency. none;
  module_connected = true;
  assets = record { asset_id = "usdt"; ticker = "USDt" } ∷ [];
  args = args;
  rpc_result = ok "txid";
  now = 5;
}

abbrev idle_world : World
idle_world = record { storage = record { balancing = none }; seen = none }

-- One transfer of a bitcoin is asked for, and sent at the first timer.
abbrev events : List (Event ℕ)
events = cli (test_send_btc 100_000_000) 4 ∷ timer view ∷ timer view ∷ []

abbrev sent_transfer : Transfer
sent_transfer = record {
  withdraw_id = none;
  state = send_btc_wait_lbtc_balance;
  amount = 100_000_000;
  created_at = 4;
  updated_at = 5;
  txid = some "txid";
}

abbrev sent_world : World
sent_world = record { storage = record { balancing = some sent_transfer }; seen = none }

-- The bitcoin is sent once, though the timer fires twice.
abbrev trace : List (Action ℕ)
trace =
    save "storage.json" (record {
      balancing = some (record sent_transfer { state = send_btc_new; updated_at = 4; txid = none });
    })
    ∷ send_bitcoin "fund" 100_000_000
    ∷ save "storage.json" sent_world.storage
    ∷ []

run_once : run fixed_point same args idle_world events ≡ some (sent_world, trace)
unfolding run step start process_balancing
run_once = refl

spends-run_example : spends trace + budget (phase sent_world.storage) ≤ 0 + starts events
spends-run_example = spends-run fixed_point same args idle_world sent_world events trace run_once

-- A withdrawal that was not asked for fails the transfer.
abbrev failed_world : World
failed_world = record {
  storage = record { balancing = some (record sent_transfer { state = failed; updated_at = 9 }) };
  seen = none;
}

step_failed :
    step fixed_point same args sent_world (withdraw_result 7 9)
    ≡ some (failed_world, save "storage.json" failed_world.storage ∷ [])
unfolding step process_withdraw
step_failed = refl

step-Follows_example : Follows (some send_btc_wait_lbtc_balance) (some failed)
step-Follows_example =
    step-Follows fixed_point same args sent_world failed_world (withdraw_result 7 9)
      (save "storage.json" failed_world.storage ∷ []) step_failed

knows_usdt : KnowsUsdt view.assets
unfolding find
knows_usdt h = cc

-- USDt is to be sent, and is sent at the timer.
abbrev usdt_world : World
usdt_world = record {
  storage = record {
    balancing = some (record sent_transfer { state = send_usdt_new; txid = none });
  };
  seen = none;
}

step-Continues_example : Continues fixed_point same args usdt_world (timer view)
step-Continues_example =
    step-Continues fixed_point same args usdt_world (timer view) tt (λ h. knows_usdt)

-- Bitcoin is worth less, and a fifth of it lies in the wallet.
abbrev balances : Balances fixed_point
balances = record {
  wallet_bitcoin = 20_000_000;
  exchange_bitcoin = 80_000_000;
  wallet_usdt = 2_750_000_000_000;
  exchange_usdt = 2_750_000_000_000;
}

get_balancing_low : get_balancing fixed_point balances 5_000_000_000_000 ≡ recv_btc 30_000_000
unfolding get_balancing
get_balancing_low = refl

get_balancing-Cause_example : Cause fixed_point true balances (recv_btc 30_000_000)
get_balancing-Cause_example =
    (get_balancing-Cause fixed_point balances 5_000_000_000_000 true (recv_btc 30_000_000) refl
      get_balancing_low (λ h. cc)).6

abbrev done : Movement
done = record { id = 7; status = "COMPLETED"; transaction_id = "txid" }

abbrev waiting : Transfer
waiting = record sent_transfer { state = send_usdt_wait_confirm }

abbrev report : Movements
report = record { success = true; movements = done ∷ [] }

abbrev completed : Storage
completed = record { balancing = some (record waiting { state = complete; updated_at = 9 }) }
