-- ===== src/Headless/Outage.antt =====
-- The loss of the server: every caller that waits gets its answer.
use sideswapclient.Prelude.{
  ◌>>=◌, ◌+◌, ◌≡◌, refl, ◌∙◌, ap, Bool, true, false, Option, none, some, List, [], ◌∷◌, arith,
  if◌then◌else◌,
}
use sideswapclient.Prelude.Key.{nat_key, Text}
use sideswapclient.Prelude.Map.{values}
use sideswapclient.Headless.Types.{
  OrderId, Sender, request_id_key, Details, NewOrder, err, Reply, Callback, on_login, on_sign,
  on_pset_maker, on_submit, Data, ServerError, ws, disconnected,
}
use sideswapclient.Headless.Requests.{
  reply, cancel_order, send_request, request_ws_connect, finish_login, finish_sign,
  finish_pset_maker, server_disconnected,
}
use sideswapclient.Headless.Submit.{Outside, finish_submit, run_callback}
use sideswapclient.Headless.Worker.{run_all, process_ws, step}
use sideswapclient.Headless.Ledger.{one, waits, waiting, answers, due, answers-append}

-- What a cancellation leaves as it is.
if-kept {ℓ κ} :
    {A : Type ℓ} {B : Type κ} (f : A → B) (b : Bool) (x y : A) (v : B)
    → f x ≡ v
    → f y ≡ v
    → f (if b then x else y) ≡ v
if-kept f true x y v e k = e
if-kept f false x y v e k = k

-- On an error a callback does not panic, and its sender has the answer at once.
abbrev Errs : {F : Type 0} → Callback F → Data F → Option (Data F) → Type 0
Errs callback data' outcome =
    (later : Data _) × (outcome ≡ some later)
    × (later.async_requests ≡ data'.async_requests)
    × (later.ws_connected ≡ data'.ws_connected)
    × ((s : Sender) → answers s later.replies ≡ waits s callback + answers s data'.replies)

module _ {F : Type 0} where
  cancel_order-Errs :
      (id : OrderId) (data' : Data F) → Errs (on_sign id) data' (some (cancel_order id data'))
  unfolding cancel_order send_request
  cancel_order-Errs id data' = (
    _,
    refl,
    if-kept {A = Data F} (λ later. later.async_requests) data'.ws_connected _ _ _ refl refl,
    if-kept {A = Data F} (λ later. later.ws_connected) data'.ws_connected _ _ _ refl refl,
    λ s.
        if-kept {A = Data F} (λ later. answers s later.replies) data'.ws_connected _ _ _
          (omega arith) (omega arith),
  )

  refused-Errs :
      (id : OrderId) (details : Details F) (order : NewOrder F) (sender : Sender) (answer : Reply F)
      (data' : Data F)
      → Errs
          (on_pset_maker id details order sender)
          data'
          (some (reply sender answer (cancel_order id data')))
  refused-Errs id details order sender answer data' =
      let (later, e, requests, connected, replies) = cancel_order-Errs id data' in
      let same : cancel_order id data' ≡ later = ground (arith, e) in
      (
        _,
        refl,
        ap (λ z. z.async_requests) same ∙ requests,
        ap (λ z. z.ws_connected) same ∙ connected,
        λ s.
            answers-append s (cancel_order id data').replies sender answer
            ∙ ap (λ n. one s sender + n)
                (ap (λ z. answers s z.replies) same ∙ replies s ∙ omega arith),
      )

  finish_pset_maker-Errs :
      (id : OrderId) (details : Details F) (order : NewOrder F) (sender : Sender) (e : ServerError)
      (unique_key : Option Text) (data' : Data F)
      → Errs
          (on_pset_maker id details order sender)
          data'
          (finish_pset_maker id details unique_key sender (err e) data')
  unfolding finish_pset_maker
  finish_pset_maker-Errs id details order sender e none data' =
      refused-Errs id details order sender _ data'
  finish_pset_maker-Errs id details order sender e (some key) data' =
      refused-Errs id details order sender _ data'

module _ {F : Type 0} (outside : Outside F) where
  run_callback-Errs :
      (callback : Callback F) (e : ServerError) (data' : Data F)
      → Errs callback data' (run_callback outside callback (err e) data')
  unfolding run_callback finish_login finish_sign finish_submit
  run_callback-Errs on_login e data' = (data', refl, refl, refl, λ t. omega arith)
  run_callback-Errs (on_sign id) e data' = cancel_order-Errs id data'
  run_callback-Errs (on_pset_maker id details order sender) e data' =
      finish_pset_maker-Errs id details order sender e order.unique_key data'
  run_callback-Errs (on_submit order sender) e data' =
      (_, refl, refl, refl, λ t. answers-append t data'.replies sender _)

  pub run_all-err :
      (callbacks : List (Callback F)) (e : ServerError) (data' : Data F)
      → (later : Data F) × (run_all outside callbacks (err e) data' ≡ some later)
        × (later.async_requests ≡ data'.async_requests)
        × (later.ws_connected ≡ data'.ws_connected)
        × ((s : Sender) → answers s later.replies ≡ waiting s callbacks + answers s data'.replies)
  unfolding run_all
  run_all-err [] e data' = (data', refl, refl, refl, λ s. omega arith)
  run_all-err (callback ∷ callbacks) e data' =
      let (next, f, requests, connected, replies) = run_callback-Errs callback e data' in
      let (later, g, requests', connected', replies') = run_all-err callbacks e next in
      (
        later,
        ap (λ z. z >>= run_all outside callbacks (err e)) f ∙ g,
        requests' ∙ requests,
        connected' ∙ connected,
        λ s. omega (arith, replies s, replies' s),
      )

  -- When the connection is lost, the worker does not panic whatever requests are open: no request
  -- stays open, and the answers that each caller has are then all that were sent before or were to
  -- come.
  pub step-disconnected :
      (data' : Data F)
      → (later : Data F) × (step outside (ws disconnected) data' ≡ some later)
        × (later.async_requests ≡ [])
        × (later.ws_connected ≡ false)
        × ((s : Sender) → answers s later.replies ≡ due s data')
  unfolding step process_ws request_ws_connect
  step-disconnected data' =
      let down = record data' { ws_connected = false; async_requests = [] } in
      let (later, e, requests, connected, replies) =
        run_all-err (values data'.async_requests) server_disconnected down in
      (_, ap (λ z. z >>= λ w. some (request_ws_connect w)) e, requests, connected, replies)
