-- ===== src/Headless/Isolation.antt =====
-- No UTXO is spent by two orders: no message makes two orders hold the same input.
use mathlib.Core.Bool.{true≢false}
use sideswapclient.Prelude.{
  ℕ, ◌≡◌, refl, sym, subst, Bool, true, false, Option, none, some, List, [], ◌∷◌, All, ltb,
}
use sideswapclient.Prelude.Key.{nat_key, Text}
use sideswapclient.Prelude.Map.{get, values}
use sideswapclient.Headless.Types.{
  OrderId, Txid, RequestId, request_id_key, OutPoint, OrderState, active, succeed, failed, Request,
  login, Answer, err, order_error, too_many_request, Callback, on_login, Notification,
  order_created, order_removed, complete, sign_order, other_notification, WsResp, connected,
  disconnected, response, notification, WalletResp, swap_inputs, signed_pset, pset_sign_failed,
  ApiReq, new_order, get_order_status, list_orders, Req, api_server, wallet, ws, Data,
}
use sideswapclient.Headless.Requests.{
  reply, request_ws_connect, make_async_request, not_connected, server_disconnected,
}
use sideswapclient.Headless.Submit.{Outside, inputs_of, contains, run_callback, process_new_order}
use sideswapclient.Headless.Worker.{
  removed, remove_order, take_answer, process_wallet, process_api, run_all, complete_active,
  process_notification, process_ws, step, run, start,
}
use sideswapclient.Headless.Reserved.{
  held, IsDisjoint, IsDisjoint-Shrinks, insert-Shrinks, replace-Shrinks,
}
use sideswapclient.Headless.Exclusive.{
  Shuffles, Safe, if-Safe, bind-Safe, cancel_order-IsDisjoint, make_async_request-Safe,
  run_callback-Safe, insert_failed-IsDisjoint,
}

module _ {F : Type 0} (outside : Outside F) (shuffles : Shuffles outside) where
  run_all-Safe :
      (callbacks : List (Callback F)) (answer : Answer F) (data' : Data F)
      → IsDisjoint data'.orders
      → Safe (run_all outside callbacks answer data')
  unfolding run_all
  run_all-Safe [] answer data' d = d
  run_all-Safe (callback ∷ rest) answer data' d =
      bind-Safe {F = F} (run_callback outside callback answer data') (run_all outside rest answer)
        (run_callback-Safe outside shuffles callback answer data' d)
        λ later k. run_all-Safe rest answer later k

  -- A request whose answer is dealt with by `run_callback`.
  ask-Safe :
      (req : Request F) (callback : Callback F) (data' : Data F)
      → IsDisjoint data'.orders
      → Safe (make_async_request (run_callback outside) req callback data')
  ask-Safe req callback data' d =
      make_async_request-Safe {F = F} (run_callback outside) req callback data' d
        (run_callback-Safe outside shuffles callback (err not_connected) data' d)

  process_wallet-Safe :
      (resp : WalletResp) (data' : Data F)
      → IsDisjoint data'.orders
      → Safe (process_wallet outside resp data')
  unfolding process_wallet
  process_wallet-Safe (swap_inputs inputs) data' d = d
  process_wallet-Safe (signed_pset id pset) data' d = ask-Safe _ _ _ d
  process_wallet-Safe (pset_sign_failed id) data' d = cancel_order-IsDisjoint {F = F} id _ d

  process_api-Safe :
      (req : ApiReq F) (data' : Data F)
      → IsDisjoint data'.orders
      → Safe (process_api outside req data')
  unfolding process_api process_new_order
  process_api-Safe (new_order order sender) data' d =
      if-Safe {F = F} (ltb 5 data'.sign_request_count)
        (some (reply sender (order_error too_many_request) data')) _ d (ask-Safe _ _ data' d)
  process_api-Safe (get_order_status id sender) data' d = d
  process_api-Safe (list_orders sender) data' d = d

  removed-inputs :
      (order : OrderState) (o : OutPoint)
      → contains o (inputs_of (removed order)) ≡ true
      → contains o (inputs_of order) ≡ true
  removed-inputs (active inputs) o h = h
  removed-inputs (succeed inputs txid) o h = cc
  removed-inputs failed o h = cc

  complete_active-Safe :
      (id : OrderId) (txid : Txid) (data' : Data F) (order : Option OrderState)
      → order ≡ get id data'.orders
      → IsDisjoint data'.orders
      → Safe (complete_active outside id txid order data')
  complete_active-Safe id txid data' none e d = tt
  complete_active-Safe id txid data' (some failed) e d = tt
  complete_active-Safe id txid data' (some (succeed inputs t)) e d = tt
  complete_active-Safe id txid data' (some (active inputs)) e d =
      IsDisjoint-Shrinks data'.orders _
        (replace-Shrinks id (succeed inputs txid) data'.orders
          λ o h. subst (λ z. contains o (held z) ≡ true) e h)
        d

  remove_order-Safe :
      (id : OrderId) (data' : Data F) (order : Option OrderState)
      → order ≡ get id data'.orders
      → IsDisjoint data'.orders
      → Safe (remove_order outside id order data')
  remove_order-Safe id data' none e d = d
  remove_order-Safe id data' (some order) e d =
      IsDisjoint-Shrinks data'.orders _
        (insert-Shrinks id (removed order) data'.orders
          λ o h. subst (λ z. contains o (held z) ≡ true) e (removed-inputs order o h))
        d

  process_notification-Safe :
      (msg : Notification F) (data' : Data F)
      → IsDisjoint data'.orders
      → Safe (process_notification outside msg data')
  unfolding process_notification
  process_notification-Safe (order_created id) data' d = d
  process_notification-Safe (order_removed id) data' d = remove_order-Safe id data' _ refl d
  process_notification-Safe (complete id (some txid)) data' d =
      complete_active-Safe id txid data' _ refl d
  process_notification-Safe (complete id none) data' d = insert_failed-IsDisjoint id data'.orders d
  process_notification-Safe (sign_order msg) data' d = d
  process_notification-Safe other_notification data' d = d

  take_answer-Safe :
      (id : RequestId) (answer : Answer F) (callback : Option (Callback F)) (data' : Data F)
      → IsDisjoint data'.orders
      → Safe (take_answer outside id answer callback data')
  take_answer-Safe id answer none data' d = d
  take_answer-Safe id answer (some callback) data' d =
      run_callback-Safe outside shuffles callback answer _ d

  process_ws-Safe :
      (msg : WsResp F) (data' : Data F)
      → IsDisjoint data'.orders
      → Safe (process_ws outside msg data')
  unfolding process_ws request_ws_connect
  process_ws-Safe connected data' d =
      ask-Safe (login (some data'.session_id)) on_login (record data' { ws_connected = true }) d
  process_ws-Safe disconnected data' d =
      let callbacks = values data'.async_requests in
      let down = record data' { ws_connected = false; async_requests = [] } in
      bind-Safe {F = F} (run_all outside callbacks (err server_disconnected) down)
        (λ later. some (request_ws_connect later))
        (run_all-Safe callbacks (err server_disconnected) down d) λ later k. k
  process_ws-Safe (response none answer) data' d = tt
  process_ws-Safe (response (some id) answer) data' d = take_answer-Safe id answer _ data' d
  process_ws-Safe (notification msg) data' d = process_notification-Safe msg data' d

  -- Two orders that hold no input in common before a message hold none after it. `shuffle` is taken
  -- to rearrange its list.
  pub step-IsDisjoint :
      (req : Req F) (data' : Data F) → IsDisjoint data'.orders → Safe (step outside req data')
  unfolding step
  step-IsDisjoint (api_server req) data' d = process_api-Safe req data' d
  step-IsDisjoint (wallet resp) data' d = process_wallet-Safe resp data' d
  step-IsDisjoint (ws resp) data' d = process_ws-Safe resp data' d

run_from-Safe :
    {F : Type 0} (messages : List (Outside F × Req F)) (data' : Data F)
    → All (λ message. Shuffles message.0) messages
    → IsDisjoint data'.orders
    → Safe (run messages data')
unfolding run
run_from-Safe [] data' a d = d
run_from-Safe {F} ((outside, req) ∷ messages) data' a d =
    bind-Safe {F = F} (step outside req data') (run messages)
      (step-IsDisjoint outside a.0 req data' d) λ later k. run_from-Safe messages later a.1 k

empty-IsDisjoint : IsDisjoint []
unfolding get
empty-IsDisjoint a b o ne h k = true≢false (sym h)

-- At the end of a run from the start that does not panic, no two orders hold an input in common,
-- whatever messages came in which order, if each `shuffle` rearranges its list.
pub run-IsDisjoint :
    {F : Type 0} (messages : List (Outside F × Req F)) (host : Text) (port : ℕ) (use_tls : Bool)
    (policy_asset session_id : ℕ)
    → All (λ message. Shuffles message.0) messages
    → Safe (run messages (start host port use_tls policy_asset session_id))
unfolding start request_ws_connect
run-IsDisjoint messages host port use_tls policy_asset session_id a =
    run_from-Safe messages _ a empty-IsDisjoint
