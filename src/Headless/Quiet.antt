-- ===== src/Headless/Quiet.antt =====
-- The callbacks of the worker leave the count of sign requests alone, send nothing to the wallet, and
-- send no signed PSET to the server.
use mathlib.Core.List.{append-nil, append_assoc}
use sideswapclient.Prelude.{
  ◌++◌, ap, sym, refl, ◌∙◌, ℕ, ◌≡◌, Bool, true, false, Option, none, some, List, [], ◌∷◌,
  if◌then◌else◌, Ensures,
}
use sideswapclient.Prelude.Key.{Text, nat_key}
use sideswapclient.Headless.Types.{
  OrderId, Sender, request_id_key, sign, cancel, WrappedRequest, connect, request, Details, Request,
  login_resp, submit_resp, pset_maker_resp, sign_resp, other_resp, Answer, ok, err, Callback,
  SignNotification, sign_order, WsResp, notification, Data,
}
use sideswapclient.Headless.Requests.{
  Step, send_ws, this_id, send_request, cancel_order, cancel_orders, make_async_request,
  finish_login, finish_sign, finish_pset_maker, key_is_free, not_connected,
}

-- The request to sign, if the message is one.
abbrev pub sign_asked : {F : Type 0} → WsResp F → Option (SignNotification F)
sign_asked (notification (sign_order msg)) = some msg
sign_asked _ = none

-- The signed PSETs in what is sent to the server.
abbrev pub signature : {F : Type 0} → Request F → List (OrderId × Text)
signature (sign id pset) = (id, pset) ∷ []
signature _ = []

abbrev pub signatures : {F : Type 0} → List (WrappedRequest F) → List (OrderId × Text)
signatures [] = []
signatures (connect host port use_tls ∷ rest) = signatures rest
signatures (request id req ∷ rest) = signature req ++ signatures rest

pub signatures-append :
    {F : Type 0} (msgs : List (WrappedRequest F)) (msg : WrappedRequest F)
    → signatures (msgs ++ msg ∷ []) ≡ signatures msgs ++ signatures (msg ∷ [])
signatures-append [] msg = refl
signatures-append (connect host port use_tls ∷ rest) msg = signatures-append rest msg
signatures-append (request id req ∷ rest) msg =
    ap (λ (l : List (OrderId × Text)). signature req ++ l) (signatures-append rest msg)
    ∙ sym (append_assoc (signature req) (signatures rest) (signatures (msg ∷ [])))

module _ {F : Type 0} (count : ℕ) (sent : List (SignNotification F))
    (signed : List (OrderId × Text)) where
  -- The count, what was sent to the wallet, and the signed PSETs that were sent to the server.
  abbrev pub Steady : Data F → Type 0
  Steady data' =
      (data'.sign_request_count ≡ count)
      × (data'.wallet_sent ≡ sent)
      × (signatures data'.ws_sent ≡ signed)

  pub quiet-signatures :
      (msgs : List (WrappedRequest F)) (msg : WrappedRequest F)
      → signatures (msg ∷ []) ≡ []
      → signatures msgs ≡ signed
      → signatures (msgs ++ msg ∷ []) ≡ signed
  quiet-signatures msgs msg quiet s =
      signatures-append msgs msg
      ∙ ap (λ (l : List (OrderId × Text)). signatures msgs ++ l) quiet
      ∙ append-nil (signatures msgs)
      ∙ s

  pub send_ws-Steady :
      (msg : WrappedRequest F) (data' : Data F)
      → signatures (msg ∷ []) ≡ []
      → Steady data'
      → Steady (send_ws msg data')
  send_ws-Steady msg data' quiet (c, w, s) = (c, w, quiet-signatures data'.ws_sent msg quiet s)

  abbrev pub Keeps : Option (Data F) → Type 0
  Keeps outcome = Ensures Steady outcome

  if-Steady : (b : Bool) (x y : Data F) → Steady x → Steady y → Steady (if b then x else y)
  if-Steady true x y h k = h
  if-Steady false x y h k = k

  pub if-Keeps : (b : Bool) (x y : Option (Data F)) → Keeps x → Keeps y → Keeps (if b then x else y)
  if-Keeps true x y h k = h
  if-Keeps false x y h k = k

  pub cancel_order-Steady :
      (id : OrderId) (data' : Data F) → Steady data' → Steady (cancel_order id data')
  unfolding cancel_order send_request
  cancel_order-Steady id data' h =
      if-Steady data'.ws_connected _ _
        (send_ws-Steady (request (this_id data') (cancel id)) data' refl h) h

  pub cancel_orders-Steady :
      (ids : List OrderId) (data' : Data F) → Steady data' → Steady (cancel_orders ids data')
  unfolding cancel_orders
  cancel_orders-Steady [] data' h = h
  cancel_orders-Steady (id ∷ ids) data' h =
      cancel_orders-Steady ids (cancel_order id data') (cancel_order-Steady id data' h)

  pub finish_login-Keeps :
      (answer : Answer F) (data' : Data F) → Steady data' → Keeps (finish_login answer data')
  unfolding finish_login
  finish_login-Keeps (ok (login_resp orders)) data' h = cancel_orders-Steady orders data' h
  finish_login-Keeps (ok (submit_resp x)) data' h = tt
  finish_login-Keeps (ok pset_maker_resp) data' h = tt
  finish_login-Keeps (ok sign_resp) data' h = tt
  finish_login-Keeps (ok other_resp) data' h = tt
  finish_login-Keeps (err e) data' h = h

  pub finish_sign-Keeps :
      (id : OrderId) (answer : Answer F) (data' : Data F)
      → Steady data'
      → Keeps (finish_sign id answer data')
  unfolding finish_sign
  finish_sign-Keeps id (ok (login_resp orders)) data' h = tt
  finish_sign-Keeps id (ok (submit_resp x)) data' h = tt
  finish_sign-Keeps id (ok pset_maker_resp) data' h = tt
  finish_sign-Keeps id (ok sign_resp) data' h = h
  finish_sign-Keeps id (ok other_resp) data' h = tt
  finish_sign-Keeps id (err e) data' h = cancel_order-Steady id data' h

  pub finish_pset_maker-Keeps :
      (id : OrderId) (details : Details F) (unique_key : Option Text) (sender : Sender)
      (answer : Answer F) (data' : Data F)
      → Steady data'
      → Keeps (finish_pset_maker id details unique_key sender answer data')
  unfolding finish_pset_maker
  finish_pset_maker-Keeps id details none sender (ok pset_maker_resp) data' h = h
  finish_pset_maker-Keeps id details (some key) sender (ok pset_maker_resp) data' h =
      if-Keeps (key_is_free key data') _ _ h (cancel_order-Steady id _ h)
  finish_pset_maker-Keeps id details none sender (ok (login_resp orders)) data' h = tt
  finish_pset_maker-Keeps id details none sender (ok (submit_resp x)) data' h = tt
  finish_pset_maker-Keeps id details none sender (ok sign_resp) data' h = tt
  finish_pset_maker-Keeps id details none sender (ok other_resp) data' h = tt
  finish_pset_maker-Keeps id details (some key) sender (ok (login_resp orders)) data' h = tt
  finish_pset_maker-Keeps id details (some key) sender (ok (submit_resp x)) data' h = tt
  finish_pset_maker-Keeps id details (some key) sender (ok sign_resp) data' h = tt
  finish_pset_maker-Keeps id details (some key) sender (ok other_resp) data' h = tt
  finish_pset_maker-Keeps id details none sender (err e) data' h = cancel_order-Steady id data' h
  finish_pset_maker-Keeps id details (some key) sender (err e) data' h =
      cancel_order-Steady id data' h

  pub make_async_request-Keeps :
      (respond : Callback F → Answer F → Step F) (req : Request F) (callback : Callback F)
      (data' : Data F)
      → signature req ≡ []
      → Steady data'
      → Keeps (respond callback (err not_connected) data')
      → Keeps (make_async_request respond req callback data')
  unfolding make_async_request
  make_async_request-Keeps respond req callback data' quiet h k =
      if-Keeps data'.ws_connected _ _
        (send_ws-Steady (request (this_id data') req) data'
          (ap (λ (l : List (OrderId × Text)). l ++ []) quiet) h)
        k
