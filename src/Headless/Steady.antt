-- ===== src/Headless/Steady.antt =====
-- The handlers of the worker, but those of sign requests, leave the count of sign requests alone,
-- send nothing to the wallet, and send no signed PSET to the server.
use sideswapclient.Prelude.{
  ◌>>=◌, ◌++◌, ap, refl, ◌∙◌, ◌⊎◌, inl, inr, Ensures-if, Ensures-imp, ℕ, ◌≡◌, true, false, Option,
  none, some, List, [], ◌∷◌, ltb, Ensures, Ensures-bind,
}
use sideswapclient.Prelude.Int64
use sideswapclient.Prelude.Int64.{I64}
use sideswapclient.Prelude.Key.{Text, nat_key}
use sideswapclient.Prelude.Map.{values}
use sideswapclient.Headless.Types.{
  OrderId, Txid, Sender, RequestId, request_id_key, OrderState, active, succeed, failed, SwapInputs,
  sign, submit, pset_maker, connect, request, SubmitResponse, NewOrder, Request, login, login_resp,
  submit_resp, pset_maker_resp, sign_resp, other_resp, Answer, ok, err, order_error,
  too_many_request, Callback, on_login, on_sign, on_pset_maker, on_submit, SignNotification,
  order_created, order_removed, complete, sign_order, other_notification, WsResp, connected,
  disconnected, response, notification, ApiReq, new_order, get_order_status, list_orders, Data,
}
use sideswapclient.Headless.Requests.{
  this_id, reply, make_async_request, request_ws_connect, not_connected, server_disconnected,
}
use sideswapclient.Headless.Submit.{
  Outside, candidates, send_asset_amount, total_satoshi, refuse_inputs, run_pset_maker,
  submit_inputs, submit_from, process_submit_inputs, finish_submit, run_callback, process_new_order,
}
use sideswapclient.Headless.Worker.{
  remove_order, take_answer, process_api, run_all, complete_active, process_notification,
  process_ws,
}
use sideswapclient.Headless.Quiet.{
  sign_asked, signature, signatures, signatures-append, Steady, Keeps, if-Keeps, quiet-signatures,
  send_ws-Steady, cancel_order-Steady, finish_login-Keeps, finish_sign-Keeps,
  finish_pset_maker-Keeps, make_async_request-Keeps,
}

module _ {F : Type 0} (count : ℕ) (sent : List (SignNotification F))
    (signed : List (OrderId × Text)) where
  module _ (outside : Outside F) where
    submit_inputs-Keeps :
        (resp : SubmitResponse F) (order : NewOrder F) (sender : Sender) (inputs : SwapInputs)
        (chosen : List _) (data' : Data F)
        → Steady count sent signed data'
        → Keeps count sent signed (submit_inputs outside resp order sender inputs chosen data')
    unfolding submit_inputs run_pset_maker make_async_request
    submit_inputs-Keeps resp order sender inputs chosen data' h =
        if-Keeps count sent signed data'.ws_connected _ _
          (
            h.0,
            h.1,
            quiet-signatures count sent signed data'.ws_sent
                (request (this_id data') (pset_maker _)) refl h.2,
          )
          (finish_pset_maker-Keeps count sent signed resp.order_id resp.details order.unique_key
            sender (err not_connected) _ h)

    choose-Keeps :
        (resp : SubmitResponse F) (order : NewOrder F) (sender : Sender) (inputs : SwapInputs)
        (data' : Data F) (chosen : Option (List _))
        → Steady count sent signed data'
        → Keeps count sent signed
            (chosen >>= λ c. submit_inputs outside resp order sender inputs c data')
    choose-Keeps resp order sender inputs data' none h = tt
    choose-Keeps resp order sender inputs data' (some c) h =
        submit_inputs-Keeps resp order sender inputs c data' h

    submit_from-Keeps :
        (resp : SubmitResponse F) (order : NewOrder F) (sender : Sender)
        (inputs : Option SwapInputs) (data' : Data F)
        → Steady count sent signed data'
        → Keeps count sent signed (submit_from outside resp order sender inputs data')
    unfolding submit_from
    submit_from-Keeps resp order sender none data' h =
        cancel_order-Steady count sent signed resp.order_id data' h
    submit_from-Keeps resp order sender (some inputs) data' h =
        if-Keeps count sent signed
          (Int64.lt (total_satoshi (candidates outside data' inputs resp.details))
            (send_asset_amount outside data' resp.details).1)
          (some (refuse_inputs outside resp.order_id sender data')) _
          (cancel_order-Steady count sent signed resp.order_id data' h)
          (choose-Keeps resp order sender inputs data' _ h)

    finish_submit-Keeps :
        (order : NewOrder F) (sender : Sender) (answer : Answer F) (data' : Data F)
        → Steady count sent signed data'
        → Keeps count sent signed (finish_submit outside order sender answer data')
    unfolding finish_submit process_submit_inputs
    finish_submit-Keeps order sender (ok (submit_resp resp)) data' h =
        submit_from-Keeps resp order sender data'.inputs data' h
    finish_submit-Keeps order sender (ok (login_resp x)) data' h = tt
    finish_submit-Keeps order sender (ok pset_maker_resp) data' h = tt
    finish_submit-Keeps order sender (ok sign_resp) data' h = tt
    finish_submit-Keeps order sender (ok other_resp) data' h = tt
    finish_submit-Keeps order sender (err e) data' h = h

    run_callback-Keeps :
        (callback : Callback F) (answer : Answer F) (data' : Data F)
        → Steady count sent signed data'
        → Keeps count sent signed (run_callback outside callback answer data')
    unfolding run_callback
    run_callback-Keeps on_login answer data' h = finish_login-Keeps count sent signed answer data' h
    run_callback-Keeps (on_sign id) answer data' h =
        finish_sign-Keeps count sent signed id answer data' h
    run_callback-Keeps (on_pset_maker id details order sender) answer data' h =
        finish_pset_maker-Keeps count sent signed id details order.unique_key sender answer data' h
    run_callback-Keeps (on_submit order sender) answer data' h =
        finish_submit-Keeps order sender answer data' h

    run_all-Keeps :
        (callbacks : List (Callback F)) (answer : Answer F) (data' : Data F)
        → Steady count sent signed data'
        → Keeps count sent signed (run_all outside callbacks answer data')
    unfolding run_all
    run_all-Keeps [] answer data' h = h
    run_all-Keeps (callback ∷ rest) answer data' h =
        Ensures-bind (Steady count sent signed) (Steady count sent signed)
          (run_callback outside callback answer data') (run_all outside rest answer)
          (run_callback-Keeps callback answer data' h) λ later k. run_all-Keeps rest answer later k

    -- A request whose answer is dealt with by `run_callback`.
    pub ask-Keeps :
        (req : Request F) (callback : Callback F) (data' : Data F)
        → signature req ≡ []
        → Steady count sent signed data'
        → Keeps count sent signed (make_async_request (run_callback outside) req callback data')
    ask-Keeps req callback data' quiet h =
        make_async_request-Keeps count sent signed (run_callback outside) req callback data' quiet h
          (run_callback-Keeps callback (err not_connected) data' h)

    -- A signed PSET is sent, or not.
    abbrev pub Signs : OrderId → Text → Data F → Type 0
    Signs id pset later =
        (later.sign_request_count ≡ count)
        × (later.wallet_sent ≡ sent)
        × ((signatures later.ws_sent ≡ signed)
            ⊎ (signatures later.ws_sent ≡ signed ++ (id, pset) ∷ []))

    pub sign-Signs :
        (id : OrderId) (pset : Text) (data' : Data F)
        → Steady count sent signed data'
        → Ensures
            (Signs id pset)
            (make_async_request (run_callback outside) (sign id pset) (on_sign id) data')
    unfolding make_async_request
    sign-Signs id pset data' (c, w, s) =
        Ensures-if (Signs id pset) data'.ws_connected _ _
          (λ e. (
            c,
            w,
            inr (
                signatures-append data'.ws_sent (request (this_id data') (sign id pset))
                ∙ ap (λ (l : List (OrderId × Text)). l ++ (id, pset) ∷ []) s),
          ))
          (λ e.
            Ensures-imp (Steady count sent signed) (Signs id pset) _
              (run_callback-Keeps (on_sign id) (err not_connected) data' (c, w, s))
              λ later k. (k.0, k.1, inl k.2))

    pub process_api-Keeps :
        (req : ApiReq F) (data' : Data F)
        → Steady count sent signed data'
        → Keeps count sent signed (process_api outside req data')
    unfolding process_api process_new_order
    process_api-Keeps (new_order order sender) data' h =
        if-Keeps count sent signed (ltb 5 data'.sign_request_count)
          (some (reply sender (order_error too_many_request) data')) _ h
          (ask-Keeps (submit _) _ data' refl h)
    process_api-Keeps (get_order_status id sender) data' h = h
    process_api-Keeps (list_orders sender) data' h = h

    complete_active-Keeps :
        (id : OrderId) (txid : Txid) (order : Option OrderState) (data' : Data F)
        → Steady count sent signed data'
        → Keeps count sent signed (complete_active outside id txid order data')
    complete_active-Keeps id txid none data' h = tt
    complete_active-Keeps id txid (some failed) data' h = tt
    complete_active-Keeps id txid (some (succeed inputs t)) data' h = tt
    complete_active-Keeps id txid (some (active inputs)) data' h = h

    remove_order-Keeps :
        (id : OrderId) (order : Option OrderState) (data' : Data F)
        → Steady count sent signed data'
        → Keeps count sent signed (remove_order outside id order data')
    remove_order-Keeps id none data' h = h
    remove_order-Keeps id (some order) data' h = h

    take_answer-Keeps :
        (id : RequestId) (answer : Answer F) (callback : Option (Callback F)) (data' : Data F)
        → Steady count sent signed data'
        → Keeps count sent signed (take_answer outside id answer callback data')
    take_answer-Keeps id answer none data' h = h
    take_answer-Keeps id answer (some callback) data' h = run_callback-Keeps callback answer _ h

    pub process_ws-Keeps :
        (msg : WsResp F) (data' : Data F)
        → sign_asked msg ≡ none
        → Steady count sent signed data'
        → Keeps count sent signed (process_ws outside msg data')
    unfolding process_ws process_notification request_ws_connect
    process_ws-Keeps connected data' n h =
        ask-Keeps (login (some data'.session_id)) on_login (record data' { ws_connected = true })
          refl h
    process_ws-Keeps disconnected data' n h =
        let callbacks = values data'.async_requests in
        let down : Data F = record data' { ws_connected = false; async_requests = [] } in
        Ensures-bind (Steady count sent signed) (Steady count sent signed)
          (run_all outside callbacks (err server_disconnected) down)
          (λ later. some (request_ws_connect later))
          (run_all-Keeps callbacks (err server_disconnected) down h)
          λ later k.
            send_ws-Steady count sent signed (connect later.host later.port later.use_tls) later
              refl k
    process_ws-Keeps (response none answer) data' n h = tt
    process_ws-Keeps (response (some id) answer) data' n h = take_answer-Keeps id answer _ data' h
    process_ws-Keeps (notification (order_created id)) data' n h = h
    process_ws-Keeps (notification (order_removed id)) data' n h = remove_order-Keeps id _ data' h
    process_ws-Keeps (notification (complete id none)) data' n h = h
    process_ws-Keeps (notification (complete id (some txid))) data' n h =
        complete_active-Keeps id txid _ data' h
    process_ws-Keeps (notification (sign_order msg)) data' n h = cc
    process_ws-Keeps (notification other_notification) data' n h = h
