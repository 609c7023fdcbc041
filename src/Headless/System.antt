-- ===== src/Headless/System.antt =====
-- The headless server: the worker and the wallet's thread with the channels between them, as
-- rust/sideswap_headless_server/src/main.rs sets them up.
use sideswapclient.Prelude.{ℕ, Bool, Option, some, List, [], ◌∷◌, ◌++◌, ◌>>=◌}
use sideswapclient.Prelude.Key.{Text}
use sideswapclient.Headless.Types.{
  AssetId, SignNotification, WalletResp, ApiReq, WsResp, Req, api_server, wallet, ws, Data,
}
use sideswapclient.Headless.Submit.{Outside}
use sideswapclient.Headless.Worker.{step, start}
use sideswapclient.Headless.Wallet.{
  Around, Thread, WalletReq, notif, sign_pset, timer, start_thread, round,
}

module _ (F : Type 0) where
  -- `to_wallet` and `to_worker` are the messages on their way between the two threads.
  pub record System : Type 0 where
    pub worker : Data F
    pub thread : Thread
    pub to_wallet : List (SignNotification F)
    pub to_worker : List WalletResp

  -- What happens next: the worker takes a message from outside or from the wallet, or the wallet
  -- takes a message from outside or from the worker. The order of all of them is free.
  pub data Event : Type 0 where
    api_message : Outside F → ApiReq F → Event
    server_message : Outside F → WsResp F → Event
    wallet_message : Outside F → Event
    wallet_notif : Around → Event
    wallet_timer : Around → Event
    wallet_sign : Around → Event

-- Both threads have the policy asset of the same network.
module _ {F : Type 0} (policy_asset : AssetId) where
  -- The worker handles a message; what it sends to the wallet goes into the channel.
  abbrev pub work : Outside F → Req F → System F → Option (System F)
  work outside req system = step outside req system.worker >>= λ later. some (record system {
    worker = record later { wallet_sent = [] };
    to_wallet = system.to_wallet ++ later.wallet_sent;
  })

  -- The wallet handles a request; what its callback sends goes into the channel.
  abbrev pub serve : Around → WalletReq F → System F → Option (System F)
  serve around req system = round policy_asset around req system.thread >>= λ later.
      some (record system {
        thread = record later { responses = [] };
        to_worker = system.to_worker ++ later.responses;
      })

  -- The next message for the worker, or for the wallet; without one, the thread waits.
  abbrev pub work_next : Outside F → List WalletResp → System F → Option (System F)
  work_next outside [] system = some system
  work_next outside (resp ∷ rest) system =
      work outside (wallet resp) (record system { to_worker = rest })

  abbrev pub serve_next : Around → List (SignNotification F) → System F → Option (System F)
  serve_next around [] system = some system
  serve_next around (sign ∷ rest) system =
      serve around (sign_pset sign) (record system { to_wallet = rest })

  unfoldable pub happen : Event F → System F → Option (System F)
  unfolding step round
  happen (api_message outside req) system = work outside (api_server req) system
  happen (server_message outside msg) system = work outside (ws msg) system
  happen (wallet_message outside) system = work_next outside system.to_worker system
  happen (wallet_notif around) system = serve around notif system
  happen (wallet_timer around) system = serve around timer system
  happen (wallet_sign around) system = serve_next around system.to_wallet system

  unfoldable pub run_system : List (Event F) → System F → Option (System F)
  unfolding happen
  run_system [] system = some system
  run_system (event ∷ events) system = happen event system >>= run_system events

-- The state of both threads when their loops begin.
abbrev pub start_system : {F : Type 0} → ℕ → Text → ℕ → Bool → ℕ → ℕ → System F
start_system now host port use_tls policy_asset session_id = record {
  worker = start host port use_tls policy_asset session_id;
  thread = start_thread now;
  to_wallet = [];
  to_worker = [];
}
