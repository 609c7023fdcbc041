-- ===== src/Headless/Ledger.antt =====
-- Every caller gets one answer: the answers sent and the callbacks that still hold a sender.
use sideswapclient.Prelude.{
  ℕ, ◌+◌, ◌≡◌, refl, ◌∙◌, ap, Bool, true, false, Option, none, some, List, [], ◌∷◌, ◌++◌, arith,
  if◌then◌else◌, ◌==◌,
}
use sideswapclient.Prelude.Key.{nat_key, Text}
use sideswapclient.Prelude.Map.{Map, get, insert, remove, values}
use sideswapclient.Headless.Types.{
  OrderId, Sender, RequestId, request_id_key, Details, Request, login_resp, submit_resp,
  pset_maker_resp, sign_resp, other_resp, Answer, ok, err, Reply, order_error, duplicated_order,
  Callback, on_login, on_sign, on_pset_maker, on_submit, Data,
}
use sideswapclient.Headless.Requests.{
  Step, reply, cancel_order, cancel_orders, send_request, make_async_request, finish_login,
  finish_sign, finish_pset_maker, key_is_free, not_connected, this_id,
}

abbrev pub one : Sender → Sender → ℕ
one s sender = if s == sender then 1 else 0

module _ {F : Type 0} (s : Sender) where
  -- The callback holds the sender.
  abbrev pub waits : Callback F → ℕ
  waits on_login = 0
  waits (on_sign id) = 0
  waits (on_pset_maker id details order sender) = one s sender
  waits (on_submit order sender) = one s sender

  abbrev pub waiting : List (Callback F) → ℕ
  waiting [] = 0
  waiting (callback ∷ callbacks) = waits callback + waiting callbacks

  abbrev pub answers : List (Sender × Reply F) → ℕ
  answers [] = 0
  answers ((sender, answer) ∷ replies) = one s sender + answers replies

  -- The answers that the sender has, and those that are to come.
  abbrev pub due : Data F → ℕ
  due data' = waiting (values data'.async_requests) + answers data'.replies

  abbrev pub Due : ℕ → Option (Data F) → Type 0
  Due n none = Unit
  Due n (some later) = due later ≡ n

  pub waiting-insert :
      (id : RequestId) (callback : Callback F) (requests : Map RequestId (Callback F))
      → get id requests ≡ none
      → waiting (values (insert id callback requests)) ≡ waits callback + waiting (values requests)
  unfolding get insert
  waiting-insert id callback [] h = refl
  waiting-insert id callback ((j, c) ∷ requests) h =
      ground (arith, waiting-insert id callback requests)

  pub waiting-remove :
      (id : RequestId) (callback : Callback F) (requests : Map RequestId (Callback F))
      → get id requests ≡ some callback
      → waits callback + waiting (values (remove id requests)) ≡ waiting (values requests)
  unfolding get remove
  waiting-remove id callback [] h = cc
  waiting-remove id callback ((j, c) ∷ requests) h =
      ground (arith, waiting-remove id callback requests)

  pub answers-append :
      (replies : List (Sender × Reply F)) (sender : Sender) (answer : Reply F)
      → answers (replies ++ (sender, answer) ∷ []) ≡ one s sender + answers replies
  answers-append [] sender answer = refl
  answers-append ((t, a) ∷ replies) sender answer =
      omega (arith, answers-append replies sender answer)

  pub due-reply :
      (sender : Sender) (answer : Reply F) (data' : Data F)
      → due (reply sender answer data') ≡ one s sender + due data'
  due-reply sender answer data' = omega (arith, answers-append data'.replies sender answer)

  if-due : (b : Bool) (x y : Data F) (n : ℕ) → due x ≡ n → due y ≡ n → due (if b then x else y) ≡ n
  if-due true x y n e f = e
  if-due false x y n e f = f

  pub if-Due :
      (b : Bool) (x y : Option (Data F)) (n : ℕ) → Due n x → Due n y → Due n (if b then x else y)
  if-Due true x y n e f = e
  if-Due false x y n e f = f

  pub due-cancel_order : (id : OrderId) (data' : Data F) → due (cancel_order id data') ≡ due data'
  unfolding cancel_order send_request
  due-cancel_order id data' = if-due data'.ws_connected _ _ _ refl refl

  due-cancel_orders :
      (ids : List OrderId) (data' : Data F) → due (cancel_orders ids data') ≡ due data'
  unfolding cancel_orders
  due-cancel_orders [] data' = refl
  due-cancel_orders (id ∷ ids) data' =
      due-cancel_orders ids (cancel_order id data') ∙ due-cancel_order id data'

  pub make_async_request-Due :
      (respond : Callback F → Answer F → Step F) (req : Request F) (callback : Callback F)
      (data' : Data F)
      → get (this_id data') data'.async_requests ≡ none
      → Due (waits callback + due data') (respond callback (err not_connected) data')
      → Due (waits callback + due data') (make_async_request respond req callback data')
  unfolding make_async_request
  make_async_request-Due respond req callback data' fresh d =
      if-Due data'.ws_connected _ _ _
        (omega (arith, waiting-insert (this_id data') callback data'.async_requests fresh)) d

  pub finish_login-Due :
      (answer : Answer F) (data' : Data F) → Due (0 + due data') (finish_login answer data')
  unfolding finish_login
  finish_login-Due (ok (login_resp orders)) data' = omega (arith, due-cancel_orders orders data')
  finish_login-Due (ok (submit_resp x)) data' = tt
  finish_login-Due (ok pset_maker_resp) data' = tt
  finish_login-Due (ok sign_resp) data' = tt
  finish_login-Due (ok other_resp) data' = tt
  finish_login-Due (err e) data' = omega arith

  pub finish_sign-Due :
      (id : OrderId) (answer : Answer F) (data' : Data F)
      → Due (0 + due data') (finish_sign id answer data')
  unfolding finish_sign
  finish_sign-Due id (ok (login_resp orders)) data' = tt
  finish_sign-Due id (ok (submit_resp x)) data' = tt
  finish_sign-Due id (ok pset_maker_resp) data' = tt
  finish_sign-Due id (ok sign_resp) data' = omega arith
  finish_sign-Due id (ok other_resp) data' = tt
  finish_sign-Due id (err e) data' = omega (arith, due-cancel_order id data')

  pub reply_cancel :
      (id : OrderId) (sender : Sender) (answer : Reply F) (data' : Data F)
      → due (reply sender answer (cancel_order id data')) ≡ one s sender + due data'
  reply_cancel id sender answer data' =
      due-reply sender answer (cancel_order id data')
      ∙ ap (λ n. one s sender + n) (due-cancel_order id data')

  pub finish_pset_maker-Due :
      (id : OrderId) (details : Details F) (unique_key : Option Text) (sender : Sender)
      (answer : Answer F) (data' : Data F)
      → Due (one s sender + due data') (finish_pset_maker id details unique_key sender answer data')
  unfolding finish_pset_maker
  finish_pset_maker-Due id details none sender (ok pset_maker_resp) data' = due-reply sender _ data'
  finish_pset_maker-Due id details (some key) sender (ok pset_maker_resp) data' =
      if-Due (key_is_free key data') _ _ _ (due-reply sender _ data') (
        due-cancel_order id (reply sender (order_error duplicated_order) data')
        ∙ due-reply sender (order_error duplicated_order) data')
  finish_pset_maker-Due id details none sender (ok (login_resp orders)) data' = tt
  finish_pset_maker-Due id details none sender (ok (submit_resp x)) data' = tt
  finish_pset_maker-Due id details none sender (ok sign_resp) data' = tt
  finish_pset_maker-Due id details none sender (ok other_resp) data' = tt
  finish_pset_maker-Due id details (some key) sender (ok (login_resp orders)) data' = tt
  finish_pset_maker-Due id details (some key) sender (ok (submit_resp x)) data' = tt
  finish_pset_maker-Due id details (some key) sender (ok sign_resp) data' = tt
  finish_pset_maker-Due id details (some key) sender (ok other_resp) data' = tt
  finish_pset_maker-Due id details none sender (err e) data' = reply_cancel id sender _ data'
  finish_pset_maker-Due id details (some key) sender (err e) data' = reply_cancel id sender _ data'
