-- ===== src/Headless/Guarded.antt =====
-- What the worker sends to the server and to the wallet, in view of what it was given.
use sideswapclient.Prelude.{
  ℕ, ◌≡◌, refl, sym, subst, inl, inr, none, List, [], ◌∷◌, ◌++◌, Ensures, Ensures-imp, All,
}
use sideswapclient.Prelude.Key.{Text}
use sideswapclient.Wallet.{Gdk}
use sideswapclient.Headless.Types.{
  OrderId, AssetId, SignNotification, WalletResp, swap_inputs, signed_pset, pset_sign_failed,
  ApiReq, WsResp, connected, disconnected, response, notification, order_created, order_removed,
  complete, sign_order, other_notification, api_server, wallet, ws, Data,
}
use sideswapclient.Headless.Requests.{cancel_order}
use sideswapclient.Headless.Submit.{Outside}
use sideswapclient.Headless.Worker.{
  one_less, process_wallet, process_ws, process_notification, step,
}
use sideswapclient.Headless.Quiet.{Steady, signatures, sign_asked, cancel_order-Steady}
use sideswapclient.Headless.Steady.{Signs, sign-Signs, process_api-Keeps, process_ws-Keeps}
use sideswapclient.Headless.Signing.{IsSigned}
use sideswapclient.Headless.System.{System, Event, server_message, wallet_sign}

-- `IsGdk` holds of the answers of GDK in a run, and `IsAsked` of the requests to sign.
module _ {F : Type 0} (policy_asset : AssetId) (IsGdk : Gdk → Type 0)
    (IsAsked : SignNotification F → Type 0) where
  abbrev pub Brings : Event F → Type 0
  Brings (server_message outside (notification (sign_order msg))) = IsAsked msg
  Brings (wallet_sign around) = IsGdk around.gdk
  Brings _ = Unit

  -- A request of the server for this order led GDK to this PSET, which passed the checks.
  abbrev pub IsApproved : OrderId → Text → Type 0
  IsApproved id signed =
      (gdk : Gdk) × IsGdk gdk
      × ((sign : SignNotification F) × IsAsked sign
          × (sign.order_id ≡ id)
          × IsSigned policy_asset gdk sign signed)

  abbrev pub Approves : WalletResp → Type 0
  Approves (swap_inputs inputs) = Unit
  Approves (signed_pset id signed) = IsApproved id signed
  Approves (pset_sign_failed id) = Unit

  abbrev pub AllApproved : List (OrderId × Text) → Type 0
  AllApproved [] = Unit
  AllApproved ((id, signed) ∷ rest) = IsApproved id signed × AllApproved rest

  AllApproved-append :
      (xs ys : List (OrderId × Text)) → AllApproved xs → AllApproved ys → AllApproved (xs ++ ys)
  AllApproved-append [] ys a b = b
  AllApproved-append ((id, signed) ∷ xs) ys (p, a) b = (p, AllApproved-append xs ys a b)

  pub record Guarded (system : System F) : Type 0 where
    pub handed_over : system.worker.wallet_sent ≡ []
    pub answered : system.thread.responses ≡ []
    pub asked : All IsAsked system.to_wallet
    pub approved : All Approves system.to_worker
    pub sent : AllApproved (signatures system.worker.ws_sent)

  -- After a message of the worker.
  abbrev pub Guards : Data F → Type 0
  Guards later = All IsAsked later.wallet_sent × AllApproved (signatures later.ws_sent)

  module _ (outside : Outside F) (data' : Data F) (empty : data'.wallet_sent ≡ [])
      (a : AllApproved (signatures data'.ws_sent)) where
    Steady-Guards :
        (count : ℕ) (later : Data F)
        → Steady count [] (signatures data'.ws_sent) later
        → Guards later
    Steady-Guards count later (c, w, s) =
        (subst (All IsAsked) (sym w) tt, subst AllApproved (sym s) a)

    pub api-Guards : (req : ApiReq F) → Ensures Guards (step outside (api_server req) data')
    unfolding step
    api-Guards req =
        Ensures-imp (Steady data'.sign_request_count [] (signatures data'.ws_sent)) Guards _
          (process_api-Keeps data'.sign_request_count [] (signatures data'.ws_sent) outside req
            data' (refl, empty, refl))
          (Steady-Guards data'.sign_request_count)

    ws_quiet-Guards :
        (msg : WsResp F) → sign_asked msg ≡ none → Ensures Guards (step outside (ws msg) data')
    unfolding step
    ws_quiet-Guards msg n =
        Ensures-imp (Steady data'.sign_request_count [] (signatures data'.ws_sent)) Guards
          (process_ws outside msg data')
          (process_ws-Keeps data'.sign_request_count [] (signatures data'.ws_sent) outside msg data'
            n (refl, empty, refl))
          (Steady-Guards data'.sign_request_count)

    pub ws-Guards :
        (msg : WsResp F)
        → Brings (server_message outside msg)
        → Ensures Guards (step outside (ws msg) data')
    ws-Guards connected b = ws_quiet-Guards connected refl
    ws-Guards disconnected b = ws_quiet-Guards disconnected refl
    ws-Guards (response id answer) b = ws_quiet-Guards (response id answer) refl
    ws-Guards (notification (order_created id)) b =
        ws_quiet-Guards (notification (order_created id)) refl
    ws-Guards (notification (order_removed id)) b =
        ws_quiet-Guards (notification (order_removed id)) refl
    ws-Guards (notification (complete id txid)) b =
        ws_quiet-Guards (notification (complete id txid)) refl
    ws-Guards (notification (sign_order msg)) b =
        unfold step process_ws process_notification in (rw empty (b, tt), a)
    ws-Guards (notification other_notification) b =
        ws_quiet-Guards (notification other_notification) refl

    pub wallet-Guards :
        (resp : WalletResp) → Approves resp → Ensures Guards (step outside (wallet resp) data')
    unfolding step process_wallet
    wallet-Guards (swap_inputs inputs) p = (rw empty tt, a)
    wallet-Guards (pset_sign_failed id) p =
        Steady-Guards (one_less outside data').sign_request_count
          (cancel_order id (one_less outside data'))
          (cancel_order-Steady (one_less outside data').sign_request_count []
            (signatures data'.ws_sent) id (one_less outside data') (refl, empty, refl))
    wallet-Guards (signed_pset id signed) p =
        Ensures-imp
          (Signs (one_less outside data').sign_request_count [] (signatures data'.ws_sent) outside
            id signed)
          Guards (process_wallet outside (signed_pset id signed) data')
          (sign-Signs (one_less outside data').sign_request_count [] (signatures data'.ws_sent)
            outside id signed (one_less outside data') (refl, empty, refl))
          by_case
      where
        by_case :
            (later : Data F)
            → Signs
                (one_less outside data').sign_request_count
                []
                (signatures data'.ws_sent)
                outside
                id
                signed
                later
            → Guards later
        by_case later (c, w, inl s) = (subst (All IsAsked) (sym w) tt, subst AllApproved (sym s) a)
        by_case later (c, w, inr s) = (
          subst (All IsAsked) (sym w) tt,
          subst AllApproved (sym s)
              (AllApproved-append (signatures data'.ws_sent) ((id, signed) ∷ []) a (p, tt)),
        )
