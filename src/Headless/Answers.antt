-- ===== src/Headless/Answers.antt =====
-- The answers that the messages send: each caller gets one, and all that wait get theirs when the
-- server is lost.
use sideswapclient.Prelude.{
  ◌>>=◌, ℕ, ◌+◌, ◌≡◌, refl, sym, subst, ◌∙◌, ap, true, false, Option, none, some, List, [], map,
  arith, ltb,
}
use sideswapclient.Prelude.Int64
use sideswapclient.Prelude.Int64.{I64}
use sideswapclient.Prelude.Key.{nat_key}
use sideswapclient.Prelude.Map.{get, insert, remove, values}
use sideswapclient.Utxo.{select_utxo_values}
use sideswapclient.Headless.Types.{
  OrderId, Sender, RequestId, request_id_key, OrderState, active, failed, PsetInput, SwapInputs,
  SubmitResponse, NewOrder, Request, login, login_resp, submit_resp, pset_maker_resp, sign_resp,
  other_resp, Answer, ok, err, order_error, Callback, on_login, on_sign, on_pset_maker, on_submit,
  Data, ws, WsResp, connected, disconnected, response, notification, WalletResp, swap_inputs,
  signed_pset, pset_sign_failed, ApiReq, new_order, get_order_status, list_orders, Req, api_server,
  wallet, Notification, order_created, order_removed, complete, sign_order, other_notification,
  Txid, succeed, order_error, too_many_request, sign,
}
use sideswapclient.Headless.Requests.{
  reply, request_ws_connect, make_async_request, not_connected, server_disconnected, this_id,
}
use sideswapclient.Headless.Submit.{
  Outside, candidates, send_asset_amount, total_satoshi, refuse_inputs, input_outpoint, weighted,
  submit_inputs, submit_from, process_submit_inputs, finish_submit, run_callback, process_new_order,
  run_pset_maker,
}
use sideswapclient.Headless.Worker.{
  one_less, process_wallet, process_api, complete_active, remove_order, take_answer,
  process_notification, process_ws, step,
}
use sideswapclient.Headless.Ledger.{
  one, waits, waiting, answers, due, Due, waiting-insert, waiting-remove, due-reply, if-Due,
  due-cancel_order, reply_cancel, make_async_request-Due, finish_login-Due, finish_sign-Due,
  finish_pset_maker-Due,
}
use sideswapclient.Headless.Outage.{run_all-err}
use sideswapclient.Prelude.Map.{get-remove-none}

-- The answers that a message is to bring about: one for each request of the API but `ListOrders`, whose
-- sender is dropped without an answer.
abbrev pub asks : {F : Type 0} → Sender → Req F → ℕ
asks s (api_server (new_order order sender)) = one s sender
asks s (api_server (get_order_status id sender)) = one s sender
asks s (api_server (list_orders sender)) = 0
asks s (wallet resp) = 0
asks s (ws resp) = 0

module _ {F : Type 0} (s : Sender) (outside : Outside F) where
  submit_inputs-Due :
      (resp : SubmitResponse F) (order : NewOrder F) (sender : Sender) (inputs : SwapInputs)
      (chosen : List PsetInput) (data' : Data F)
      → get (this_id data') data'.async_requests ≡ none
      → Due s
          (one s sender + due s data')
          (submit_inputs outside resp order sender inputs chosen data')
  unfolding submit_inputs run_pset_maker make_async_request
  submit_inputs-Due resp order sender inputs chosen data' fresh =
      let new = record data' {
        orders = insert resp.order_id (active (map (input_outpoint outside) chosen)) data'.orders;
      } in
      if-Due s data'.ws_connected _ _ _
        (omega (
          arith,
          waiting-insert s (this_id data') (on_pset_maker resp.order_id resp.details order sender)
              data'.async_requests fresh,
        ))
        (finish_pset_maker-Due s resp.order_id resp.details order.unique_key sender
          (err not_connected) new)

  choose-Due :
      (resp : SubmitResponse F) (order : NewOrder F) (sender : Sender) (inputs : SwapInputs)
      (data' : Data F) (chosen : Option (List PsetInput))
      → get (this_id data') data'.async_requests ≡ none
      → Due s
          (one s sender + due s data')
          (chosen >>= λ chosen. submit_inputs outside resp order sender inputs chosen data')
  choose-Due resp order sender inputs data' none fresh = tt
  choose-Due resp order sender inputs data' (some chosen) fresh =
      submit_inputs-Due resp order sender inputs chosen data' fresh

  submit_from-Due :
      (resp : SubmitResponse F) (order : NewOrder F) (sender : Sender) (inputs : Option SwapInputs)
      (data' : Data F)
      → get (this_id data') data'.async_requests ≡ none
      → Due s (one s sender + due s data') (submit_from outside resp order sender inputs data')
  unfolding submit_from
  submit_from-Due resp order sender none data' fresh = reply_cancel s resp.order_id sender _ data'
  submit_from-Due resp order sender (some inputs) data' fresh =
      let usable = candidates outside data' inputs resp.details in
      let amount = (send_asset_amount outside data' resp.details).1 in
      if-Due s (Int64.lt (total_satoshi usable) amount)
        (some (refuse_inputs outside resp.order_id sender data')) _ (one s sender + due s data')
        (reply_cancel s resp.order_id sender _ data')
        (choose-Due resp order sender inputs data'
          (select_utxo_values (weighted outside usable) amount) fresh)

  finish_submit-Due :
      (order : NewOrder F) (sender : Sender) (answer : Answer F) (data' : Data F)
      → get (this_id data') data'.async_requests ≡ none
      → Due s (one s sender + due s data') (finish_submit outside order sender answer data')
  unfolding finish_submit process_submit_inputs
  finish_submit-Due order sender (ok (submit_resp resp)) data' fresh =
      submit_from-Due resp order sender data'.inputs data' fresh
  finish_submit-Due order sender (ok (login_resp x)) data' fresh = tt
  finish_submit-Due order sender (ok pset_maker_resp) data' fresh = tt
  finish_submit-Due order sender (ok sign_resp) data' fresh = tt
  finish_submit-Due order sender (ok other_resp) data' fresh = tt
  finish_submit-Due order sender (err e) data' fresh = due-reply s sender _ data'

  -- A callback that runs answers its sender, or hands it on.
  pub run_callback-Due :
      (callback : Callback F) (answer : Answer F) (data' : Data F)
      → get (this_id data') data'.async_requests ≡ none
      → Due s (waits s callback + due s data') (run_callback outside callback answer data')
  unfolding run_callback
  run_callback-Due on_login answer data' fresh = finish_login-Due s answer data'
  run_callback-Due (on_sign id) answer data' fresh = finish_sign-Due s id answer data'
  run_callback-Due (on_pset_maker id details order sender) answer data' fresh =
      finish_pset_maker-Due s id details order.unique_key sender answer data'
  run_callback-Due (on_submit order sender) answer data' fresh =
      finish_submit-Due order sender answer data' fresh

  ask-Due :
      (req : Request F) (callback : Callback F) (data' : Data F)
      → get (this_id data') data'.async_requests ≡ none
      → Due s
          (waits s callback + due s data')
          (make_async_request (run_callback outside) req callback data')
  ask-Due req callback data' fresh =
      make_async_request-Due s (run_callback outside) req callback data' fresh
        (run_callback-Due callback (err not_connected) data' fresh)

  process_wallet-Due :
      (resp : WalletResp) (data' : Data F)
      → get (this_id data') data'.async_requests ≡ none
      → Due s (0 + due s data') (process_wallet outside resp data')
  unfolding process_wallet
  process_wallet-Due (swap_inputs inputs) data' fresh = omega arith
  process_wallet-Due (signed_pset id pset) data' fresh =
      ask-Due (sign id pset) (on_sign id) (one_less outside data') fresh
  process_wallet-Due (pset_sign_failed id) data' fresh =
      omega (arith, due-cancel_order s id (one_less outside data'))

  process_api-Due :
      (req : ApiReq F) (data' : Data F)
      → get (this_id data') data'.async_requests ≡ none
      → Due s (asks s (api_server req) + due s data') (process_api outside req data')
  unfolding process_api process_new_order
  process_api-Due (new_order order sender) data' fresh =
      if-Due s (ltb 5 data'.sign_request_count)
        (some (reply sender (order_error too_many_request) data')) _ (one s sender + due s data')
        (due-reply s sender _ data') (ask-Due _ (on_submit order sender) data' fresh)
  process_api-Due (get_order_status id sender) data' fresh = due-reply s sender _ data'
  process_api-Due (list_orders sender) data' fresh = omega arith

  complete_active-Due :
      (id : OrderId) (txid : Txid) (order : Option OrderState) (data' : Data F)
      → Due s (0 + due s data') (complete_active outside id txid order data')
  complete_active-Due id txid none data' = tt
  complete_active-Due id txid (some (active inputs)) data' = omega arith
  complete_active-Due id txid (some (succeed inputs t)) data' = tt
  complete_active-Due id txid (some failed) data' = tt

  remove_order-Due :
      (id : OrderId) (order : Option OrderState) (data' : Data F)
      → Due s (0 + due s data') (remove_order outside id order data')
  remove_order-Due id none data' = omega arith
  remove_order-Due id (some order) data' = omega arith

  process_notification-Due :
      (msg : Notification F) (data' : Data F)
      → Due s (0 + due s data') (process_notification outside msg data')
  unfolding process_notification
  process_notification-Due (order_created id) data' = omega arith
  process_notification-Due (order_removed id) data' =
      remove_order-Due id (get id data'.orders) data'
  process_notification-Due (complete id (some txid)) data' =
      complete_active-Due id txid (get id data'.orders) data'
  process_notification-Due (complete id none) data' = omega arith
  process_notification-Due (sign_order msg) data' = omega arith
  process_notification-Due other_notification data' = omega arith

  take_answer-Due :
      (id : RequestId) (answer : Answer F) (callback : Option (Callback F)) (data' : Data F)
      → callback ≡ get id data'.async_requests
      → get (this_id data') data'.async_requests ≡ none
      → Due s (0 + due s data') (take_answer outside id answer callback data')
  take_answer-Due id answer none data' e fresh = omega arith
  take_answer-Due id answer (some callback) data' e fresh =
      subst (λ n. Due s n (take_answer outside id answer (some callback) data'))
        (omega (arith, waiting-remove s id callback data'.async_requests (sym e)))
        (run_callback-Due callback answer
          (record data' { async_requests = remove id data'.async_requests })
          (get-remove-none id (this_id data') data'.async_requests fresh))

  process_ws-Due :
      (msg : WsResp F) (data' : Data F)
      → get (this_id data') data'.async_requests ≡ none
      → Due s (0 + due s data') (process_ws outside msg data')
  unfolding process_ws request_ws_connect
  process_ws-Due connected data' fresh =
      ask-Due (login (some data'.session_id)) on_login (record data' { ws_connected = true }) fresh
  process_ws-Due disconnected data' fresh =
      let down = record data' { ws_connected = false; async_requests = [] } in
      let (later, e, requests, offline, replies) =
        run_all-err outside (values data'.async_requests) server_disconnected down in
      subst (λ z. Due s (0 + due s data') (z >>= λ w. some (request_ws_connect w))) (sym e)
        (ap (λ m. waiting s (values m) + answers s later.replies) requests
          ∙ omega (arith, replies s))
  process_ws-Due (response none answer) data' fresh = tt
  process_ws-Due (response (some id) answer) data' fresh =
      take_answer-Due id answer (get id data'.async_requests) data' refl fresh
  process_ws-Due (notification msg) data' fresh = process_notification-Due msg data'

  -- If the next request id is not in use, a message that does not panic adds exactly one to the answers
  -- that a caller has or is to get if it is that caller's request for a new order or for an order's
  -- status, and none otherwise: no answer that was due is lost or doubled. A request for the list of
  -- orders is one of the messages that add none: its sender is dropped, and no answer becomes due.
  pub step-Due :
      (req : Req F) (data' : Data F)
      → get (this_id data') data'.async_requests ≡ none
      → Due s (asks s req + due s data') (step outside req data')
  unfolding step
  step-Due (api_server req) data' fresh = process_api-Due req data' fresh
  step-Due (wallet resp) data' fresh = process_wallet-Due resp data' fresh
  step-Due (ws resp) data' fresh = process_ws-Due resp data' fresh
