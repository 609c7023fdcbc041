-- ===== src/Headless/Moves.antt =====
-- What each message of the worker does to the count of sign requests and to the wallet's channel.
use sideswapclient.Prelude.{
  ℕ, ◌+◌, ◌-◌, ◌%◌, ◌≤◌, ◌<◌, ◌≡◌, refl, subst, none, List, [], ◌∷◌, ◌++◌, length, Ensures,
  Ensures-imp, arith,
}
use sideswapclient.Prelude.Key.{Text}
use sideswapclient.Headless.Types.{
  OrderId, WalletResp, swap_inputs, signed_pset, pset_sign_failed, ApiReq, WsResp, connected,
  disconnected, response, notification, order_created, order_removed, complete, sign_order,
  other_notification, api_server, wallet, ws, Data,
}
use sideswapclient.Headless.Requests.{cancel_order}
use sideswapclient.Headless.Submit.{Outside}
use sideswapclient.Headless.Worker.{
  one_less, usize_modulus, process_wallet, process_ws, process_notification, step,
}
use sideswapclient.Headless.Quiet.{Steady, signatures, sign_asked, cancel_order-Steady}
use sideswapclient.Headless.Steady.{Signs, sign-Signs, process_api-Keeps, process_ws-Keeps}

-- The outcomes of sign requests among the messages of the wallet.
abbrev pub outcomes : List WalletResp → ℕ
outcomes [] = 0
outcomes (swap_inputs inputs ∷ rest) = outcomes rest
outcomes (signed_pset id pset ∷ rest) = 1 + outcomes rest
outcomes (pset_sign_failed id ∷ rest) = 1 + outcomes rest

pub outcomes-append : (a b : List WalletResp) → outcomes (a ++ b) ≡ outcomes a + outcomes b
outcomes-append [] b = omega arith
outcomes-append (swap_inputs inputs ∷ a) b = outcomes-append a b
outcomes-append (signed_pset id pset ∷ a) b = omega (arith, outcomes-append a b)
outcomes-append (pset_sign_failed id ∷ a) b = omega (arith, outcomes-append a b)

-- The sign requests in a message of the server.
abbrev pub asked : {F : Type 0} → WsResp F → ℕ
asked (notification (sign_order msg)) = 1
asked _ = 0

pub asked_at_most : {F : Type 0} (msg : WsResp F) → asked msg ≤ 1
asked_at_most (notification (sign_order msg)) = omega arith
asked_at_most _ = omega arith

module _ {F : Type 0} where
  -- `more` requests go to the wallet, and the count becomes `count`.
  abbrev pub Moves : ℕ → ℕ → Data F → Type 0
  Moves more count later = (later.sign_request_count ≡ count) × (length later.wallet_sent ≡ more)

  pub Steady-Moves :
      (count : ℕ) (signed : List (OrderId × Text)) (later : Data F)
      → Steady count [] signed later
      → Moves 0 count later
  Steady-Moves count signed later (e, f, s) = (e, rw f refl)

module _ {F : Type 0} (outside : Outside F) (data' : Data F) (empty : data'.wallet_sent ≡ []) where
  pub process_api-Moves :
      (req : ApiReq F)
      → Ensures (Moves 0 data'.sign_request_count) (step outside (api_server req) data')
  unfolding step
  process_api-Moves req =
      Ensures-imp (Steady data'.sign_request_count [] (signatures data'.ws_sent))
        (Moves 0 data'.sign_request_count) (step outside (api_server req) data')
        (process_api-Keeps data'.sign_request_count [] (signatures data'.ws_sent) outside req data'
          (refl, empty, refl))
        (Steady-Moves data'.sign_request_count (signatures data'.ws_sent))

  pub process_ws-Moves :
      (msg : WsResp F)
      → data'.sign_request_count + 1 < usize_modulus
      → Ensures
          (Moves (asked msg) (data'.sign_request_count + asked msg))
          (step outside (ws msg) data')
  process_ws-Moves msg small = by_msg msg
    where
      steady :
          (m : WsResp F)
          → sign_asked m ≡ none
          → Ensures (Moves 0 (data'.sign_request_count + 0)) (step outside (ws m) data')
      steady m none_asked =
          let same : data'.sign_request_count ≡ data'.sign_request_count + 0 = omega arith in
          subst (λ (n : ℕ). Ensures (Moves 0 n) (step outside (ws m) data')) same
            (unfold step in
              Ensures-imp (Steady data'.sign_request_count [] (signatures data'.ws_sent))
                (Moves 0 data'.sign_request_count) (process_ws outside m data')
                (process_ws-Keeps data'.sign_request_count [] (signatures data'.ws_sent) outside m
                  data' none_asked (refl, empty, refl))
                (Steady-Moves data'.sign_request_count (signatures data'.ws_sent)))

      by_msg :
          (m : WsResp F)
          → Ensures
              (Moves (asked m) (data'.sign_request_count + asked m))
              (step outside (ws m) data')
      by_msg connected = steady connected refl
      by_msg disconnected = steady disconnected refl
      by_msg (response id answer) = steady (response id answer) refl
      by_msg (notification (order_created id)) = steady (notification (order_created id)) refl
      by_msg (notification (order_removed id)) = steady (notification (order_removed id)) refl
      by_msg (notification (complete id txid)) = steady (notification (complete id txid)) refl
      by_msg (notification (sign_order m)) =
          unfold step process_ws process_notification in (omega arith, rw empty refl)
      by_msg (notification other_notification) = steady (notification other_notification) refl

  pub process_wallet-Moves :
      (resp : WalletResp)
      → outcomes (resp ∷ []) ≤ data'.sign_request_count
      → data'.sign_request_count < usize_modulus
      → Ensures
          (Moves 0 (data'.sign_request_count - outcomes (resp ∷ [])))
          (step outside (wallet resp) data')
  process_wallet-Moves resp enough small = by_resp resp enough
    where
      less : ℕ
      less = (data'.sign_request_count + (usize_modulus - 1)) % usize_modulus

      by_resp :
          (r : WalletResp)
          → outcomes (r ∷ []) ≤ data'.sign_request_count
          → Ensures
              (Moves 0 (data'.sign_request_count - outcomes (r ∷ [])))
              (step outside (wallet r) data')
      by_resp (swap_inputs inputs) h = unfold step process_wallet in (omega arith, rw empty refl)
      by_resp (signed_pset id pset) h =
          let same : less ≡ data'.sign_request_count - 1 = omega arith in
          subst (λ (n : ℕ). Ensures (Moves 0 n) (step outside (wallet (signed_pset id pset)) data'))
            same
            (unfold step process_wallet in
              Ensures-imp (Signs less [] (signatures data'.ws_sent) outside id pset) (Moves 0 less)
                (process_wallet outside (signed_pset id pset) data')
                (sign-Signs less [] (signatures data'.ws_sent) outside id pset
                  (one_less outside data') (refl, empty, refl))
                λ later (e, f, g). (e, rw f refl))
      by_resp (pset_sign_failed id) h =
          let same : less ≡ data'.sign_request_count - 1 = omega arith in
          subst (λ (n : ℕ). Ensures (Moves 0 n) (step outside (wallet (pset_sign_failed id)) data'))
            same
            (unfold step process_wallet in
              Steady-Moves less (signatures data'.ws_sent)
                (cancel_order id (one_less outside data'))
                (cancel_order-Steady less [] (signatures data'.ws_sent) id (one_less outside data')
                  (refl, empty, refl)))
