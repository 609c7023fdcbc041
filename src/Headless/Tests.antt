-- ===== src/Headless/Tests.antt =====
-- The worker on small inputs.
use mathlib.Core.List.Perm
use sideswapclient.Prelude.{
  ℕ, ◌+◌, ◌-◌, ◌++◌, length, Ensures, arith, ◌≡◌, refl, true, false, Option, none, some, List, [],
  ◌∷◌,
}
use sideswapclient.Prelude.Key.{codes}
use sideswapclient.Prelude.Map.{get, insert, remove}
use sideswapclient.Prelude.Int64
use sideswapclient.Utxo.{select_utxo_values}
use sideswapclient.Headless.Exclusive.{Safe}
use sideswapclient.Prelude.Decimal.{decimal}
use sideswapclient.Headless.Types.{
  signed_pset, request_id_key, UnspentOutput, SwapInputs, SubmitResponse, NewOrder, string,
  login_resp, submit_resp, ok, connected, disconnected, response, swap_inputs, new_order, Req,
  api_server, wallet, ws, Data, on_submit, SignNotification, WalletResp, notification, sign_order,
}
use sideswapclient.Headless.Submit.{Outside, unreserved, convert_to_swap_utxo}
use sideswapclient.Headless.Requests.{this_id}
use sideswapclient.Headless.Ledger.{due, Due, answers}
use sideswapclient.Headless.Outage.{step-disconnected}
use sideswapclient.Headless.Answers.{asks, step-Due}
use sideswapclient.Wallet.{Gdk}
use sideswapclient.Headless.Wallet.{Around, sign_pset, start_thread, round}
use sideswapclient.Headless.System.{
  Event, server_message, wallet_message, wallet_sign, wallet_timer, run_system, start_system,
}
use sideswapclient.Headless.Counting.{Counted, run_system-Counted}
use sideswapclient.Headless.Quiet.{signatures}
use sideswapclient.Headless.Guarded.{AllApproved}
use sideswapclient.Headless.Approval.{run_system-AllApproved}
use sideswapclient.Headless.Signing.{IsAnswer, AtMostInputs, round-IsAnswer}
use sideswapclient.Headless.Worker.{run, start, step}
use sideswapclient.Headless.Isolation.{run-IsDisjoint}

abbrev outside : Outside ℕ
outside = record {
  p2shwpkh_redeem_script = λ key. key ∷ [];
  wsh_redeem_script = λ script. script;
  shuffle = λ inputs. inputs;
  neg = λ x. x;
}

abbrev utxo : ℕ → ℕ → UnspentOutput
utxo txid satoshi = record {
  txhash = txid;
  vout = 0;
  asset_id = 1;
  satoshi = satoshi;
  assetblinder = 0;
  amountblinder = 0;
  public_key = some 7;
  prevout_script = [];
}

abbrev inputs : SwapInputs
inputs = record {
  recv_address = codes "recv";
  change_address = codes "change";
  utxos = (1, utxo 100 60 ∷ utxo 200 50 ∷ []) ∷ [];
}

abbrev order : NewOrder ℕ
order = record {
  asset_id = 2;
  asset_amount = 5;
  price = 10;
  private = none;
  ttl_seconds = none;
  unique_key = some (codes "key");
}

abbrev submitted : ℕ → SubmitResponse ℕ
submitted id = record {
  order_id = id;
  details = record {
    asset = 2;
    bitcoin_amount = 40;
    asset_amount = 5;
    price = 10;
    server_fee = 2;
    send_bitcoins = true;
  };
}

abbrev messages : List (Outside ℕ × Req ℕ)
messages =
    (outside, wallet (swap_inputs inputs))
    ∷ (outside, ws connected)
    ∷ (outside, ws (response (some (string (codes "1"))) (ok (login_resp []))))
    ∷ (outside, api_server (new_order order 1))
    ∷ (outside, ws (response (some (string (codes "2"))) (ok (submit_resp (submitted 11)))))
    ∷ (outside, api_server (new_order order 2))
    ∷ (outside, ws (response (some (string (codes "4"))) (ok (submit_resp (submitted 12)))))
    ∷ []

abbrev first : Data ℕ
first = start (codes "host") 443 true 1 9

abbrev orders_after : Option (Data ℕ) → ℕ
orders_after none = 0
orders_after (some later) = elim later.orders [ [] ↦ 1 | x ∷ [] ↦ 2 | x ∷ y ∷ rest ↦ 3 ]

-- Two orders are live, on different inputs.
both_active : orders_after (run messages first) ≡ 3
unfolding run start get insert remove decimal select_utxo_values Int64.add unreserved
    convert_to_swap_utxo
both_active = refl

run-IsDisjoint_example : Safe (run messages first)
run-IsDisjoint_example =
    run-IsDisjoint messages (codes "host") 443 true 1 9
      (Perm.refl, (Perm.refl, (Perm.refl, (Perm.refl, (Perm.refl, (Perm.refl, (Perm.refl, tt)))))))

-- A worker that waits for the answer to an order of caller 1.
abbrev busy : Data ℕ
busy = record first {
  ws_connected = true;
  async_requests = (string (codes "1"), on_submit order 1) ∷ [];
  next_request_id = 2;
}

busy-fresh : get (this_id busy) busy.async_requests ≡ none
unfolding get decimal
busy-fresh = refl

abbrev submit_answer : Req ℕ
submit_answer = ws (response (some (string (codes "1"))) (ok (submit_resp (submitted 11))))

step-Due_example : Due 1 (asks 1 submit_answer + due 1 busy) (step outside submit_answer busy)
step-Due_example = step-Due 1 outside submit_answer busy busy-fresh

step-disconnected_example :
    (later : Data ℕ) × (step outside (ws disconnected) busy ≡ some later)
    × (later.async_requests ≡ [])
    × (later.ws_connected ≡ false)
    × ((s : ℕ) → answers s later.replies ≡ due s busy)
step-disconnected_example = step-disconnected outside busy

-- GDK finds that the PSET pays 39 satoshi and the fee 3, and brings 5 units of the other asset.
abbrev gdk : Gdk
gdk = record {
  unspent_outputs = some inputs.utxos;
  psbt_get_details = λ utxos pset. some (record {
    satoshi = (1, Int64.modulus - 39) ∷ (2, 5) ∷ [];
    transaction_inputs = [];
    transaction_outputs = [];
    fee = some 3;
  });
  psbt_sign = λ utxos pset nonces. some (codes "signed");
}

abbrev around : Around
around = record {
  gdk = gdk;
  now = 20_000_000_000;
  now_after = 20_000_000_001;
  receive_address = some (codes "recv");
  change_address = some (codes "change");
  utxos = some inputs.utxos;
}

abbrev sign_request : SignNotification ℕ
sign_request = record {
  order_id = 8;
  pset = codes "pset";
  details = (submitted 8).details;
  nonces = none;
}

round-IsAnswer_example :
    Ensures
      (λ later.
        (answer : WalletResp) × (rest : List WalletResp) × (later.responses
          ≡ (start_thread 0).responses ++ answer ∷ rest)
        × IsAnswer 1 around sign_request answer
        × AtMostInputs rest)
      (round 1 around (sign_pset sign_request) (start_thread 0))
round-IsAnswer_example = round-IsAnswer 1 around sign_request (start_thread 0)

abbrev events : List (Event ℕ)
events =
    server_message outside connected
    ∷ server_message outside (notification (sign_order sign_request))
    ∷ wallet_timer around
    ∷ wallet_sign around
    ∷ wallet_message outside
    ∷ wallet_message outside
    ∷ []

run_system-Counted_example :
    Ensures
      (Counted 1 (length events))
      (run_system 1 events (start_system 0 (codes "host") 443 true 1 7))
run_system-Counted_example = run_system-Counted 1 events 0 (codes "host") 443 true 7 (omega arith)

run_system-AllApproved_example :
    Ensures
      (λ system.
        AllApproved 1
          (λ g. g ≡ gdk)
          (λ sign. sign ≡ sign_request)
          (signatures system.worker.ws_sent))
      (run_system 1 events (start_system 0 (codes "host") 443 true 1 7))
run_system-AllApproved_example =
    run_system-AllApproved 1 (λ g. g ≡ gdk) (λ sign. sign ≡ sign_request) events 0 (codes "host")
      443 true 7 (tt, (refl, (tt, (refl, (tt, (tt, tt))))))

-- The PSET is signed.
signed_so :
    round 1 around (sign_pset sign_request) (start_thread 0)
    ≡ some (record {
      utxo_update_timestamp = 20_000_000_001;
      utxo_update_needed = false;
      responses = signed_pset 8 (codes "signed") ∷ swap_inputs inputs ∷ [];
    })
unfolding round Int64.add Int64.neg get
signed_so = refl
