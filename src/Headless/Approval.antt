-- ===== src/Headless/Approval.antt =====
-- No signed PSET leaves for the server that the wallet has not checked and signed on a request of
-- the server.
use sideswapclient.Prelude.{
  ℕ, ◌≡◌, refl, sym, subst, inl, inr, Bool, List, [], ◌∷◌, Ensures, Ensures-bind, Ensures-imp, All,
  All-append,
}
use sideswapclient.Prelude.Key.{Text}
use sideswapclient.Wallet.{Gdk}
use sideswapclient.Headless.Types.{
  AssetId, SignNotification, WalletResp, swap_inputs, signed_pset, pset_sign_failed, Req,
  api_server, wallet, ws,
}
use sideswapclient.Headless.Requests.{request_ws_connect}
use sideswapclient.Headless.Submit.{Outside}
use sideswapclient.Headless.Worker.{step, start}
use sideswapclient.Headless.Wallet.{
  Around, Thread, WalletReq, notif, sign_pset, timer, handle, sign_outcome, sign_result,
  update_inputs, round,
}
use sideswapclient.Headless.Quiet.{signatures}
use sideswapclient.Headless.Signing.{
  IsAnswer, AtMostInputs, Adds, update_inputs-Adds, sign_outcome-IsAnswer,
}
use sideswapclient.Headless.System.{
  System, Event, api_message, server_message, wallet_message, wallet_notif, wallet_timer,
  wallet_sign, work, serve, work_next, serve_next, happen, run_system, start_system,
}
use sideswapclient.Headless.Guarded.{
  Brings, Approves, AllApproved, Guarded, Guards, api-Guards, ws-Guards, wallet-Guards,
}

-- `IsGdk` holds of the answers of GDK in a run, and `IsAsked` of the requests to sign.
module _ {F : Type 0} (policy_asset : AssetId) (IsGdk : Gdk → Type 0)
    (IsAsked : SignNotification F → Type 0) where
  -- After a request to the wallet.
  AtMostInputs-Approves :
      (rest : List WalletResp) → AtMostInputs rest → All (Approves policy_asset IsGdk IsAsked) rest
  AtMostInputs-Approves [] h = tt
  AtMostInputs-Approves (swap_inputs inputs ∷ []) h = (tt, tt)
  AtMostInputs-Approves (swap_inputs inputs ∷ resp ∷ rest) h = absurd h
  AtMostInputs-Approves (signed_pset id signed ∷ rest) h = absurd h
  AtMostInputs-Approves (pset_sign_failed id ∷ rest) h = absurd h

  -- The request was made by the server, and GDK answers as it does in the run.
  abbrev Serves : Around → WalletReq F → Type 0
  Serves around notif = Unit
  Serves around (sign_pset sign) = IsAsked sign × IsGdk around.gdk
  Serves around timer = Unit

  outcome-Approves :
      (around : Around) (sign : SignNotification F) (resp : WalletResp)
      → IsAsked sign
      → IsGdk around.gdk
      → IsAnswer policy_asset around sign resp
      → (Approves policy_asset IsGdk IsAsked) resp
  outcome-Approves around sign resp a g (inl e) =
      subst (Approves policy_asset IsGdk IsAsked) (sym e) tt
  outcome-Approves around sign resp a g (inr (signed, e, checked)) =
      subst (Approves policy_asset IsGdk IsAsked) (sym e) (around.gdk, g, (sign, a, refl, checked))

  handle-Approves :
      (around : Around) (req : WalletReq F) (thread : Thread)
      → thread.responses ≡ []
      → Serves around req
      → All
          (Approves policy_asset IsGdk IsAsked)
          (handle policy_asset around.gdk req thread).responses
  handle-Approves around notif thread e s = rw e tt
  handle-Approves around timer thread e s = rw e tt
  handle-Approves around (sign_pset sign) thread e (a, g) = rw e (
    outcome-Approves around sign
        (sign_outcome sign.order_id (sign_result policy_asset around.gdk sign)) a g
        (sign_outcome-IsAnswer policy_asset around sign),
    tt,
  )

  round-Approves :
      (around : Around) (req : WalletReq F) (thread : Thread)
      → thread.responses ≡ []
      → Serves around req
      → Ensures
          (λ later. All (Approves policy_asset IsGdk IsAsked) later.responses)
          (round policy_asset around req thread)
  unfolding round
  round-Approves around req thread e s =
      let next : Thread = handle policy_asset around.gdk req thread in
      Ensures-imp (Adds next) (λ later. All (Approves policy_asset IsGdk IsAsked) later.responses)
        (update_inputs around next) (update_inputs-Adds around next)
        λ later added. subst (All (Approves policy_asset IsGdk IsAsked)) (sym added.1) (
          All-append (Approves policy_asset IsGdk IsAsked) next.responses added.0
            (handle-Approves around req thread e s) (AtMostInputs-Approves added.0 added.2))

  serve-Guarded :
      (around : Around) (req : WalletReq F) (system : System F)
      → Serves around req
      → (Guarded policy_asset IsGdk IsAsked) system
      → Ensures (Guarded policy_asset IsGdk IsAsked) (serve policy_asset around req system)
  serve-Guarded around req system s g =
      Ensures-bind (λ (later : Thread). All (Approves policy_asset IsGdk IsAsked) later.responses)
        (Guarded policy_asset IsGdk IsAsked) (round policy_asset around req system.thread) _
        (round-Approves around req system.thread g.answered s)
        λ later approved. record {
          handed_over = g.handed_over;
          answered = refl;
          asked = g.asked;
          approved =
              All-append (Approves policy_asset IsGdk IsAsked) system.to_worker later.responses
                g.approved approved;
          sent = g.sent;
        }

  work-Guarded :
      (outside : Outside F) (req : Req F) (system : System F)
      → (Guarded policy_asset IsGdk IsAsked) system
      → Ensures (Guards policy_asset IsGdk IsAsked) (step outside req system.worker)
      → Ensures (Guarded policy_asset IsGdk IsAsked) (work policy_asset outside req system)
  work-Guarded outside req system g h =
      Ensures-bind (Guards policy_asset IsGdk IsAsked) (Guarded policy_asset IsGdk IsAsked)
        (step outside req system.worker) _ h
        λ later k. record {
          handed_over = refl;
          answered = g.answered;
          asked = All-append IsAsked system.to_wallet later.wallet_sent g.asked k.0;
          approved = g.approved;
          sent = k.1;
        }

  work_next-Guarded :
      (outside : Outside F) (responses : List WalletResp) (system : System F)
      → All (Approves policy_asset IsGdk IsAsked) responses
      → (Guarded policy_asset IsGdk IsAsked) system
      → Ensures
          (Guarded policy_asset IsGdk IsAsked)
          (work_next policy_asset outside responses system)
  work_next-Guarded outside [] system a g = g
  work_next-Guarded outside (resp ∷ rest) system (p, a) g =
      work-Guarded outside (wallet resp) (record system { to_worker = rest })
        (record {
          handed_over = g.handed_over;
          answered = g.answered;
          asked = g.asked;
          approved = a;
          sent = g.sent;
        })
        ((wallet-Guards policy_asset IsGdk IsAsked) outside system.worker g.handed_over g.sent resp
          p)

  serve_next-Guarded :
      (around : Around) (requests : List (SignNotification F)) (system : System F)
      → All IsAsked requests
      → IsGdk around.gdk
      → (Guarded policy_asset IsGdk IsAsked) system
      → Ensures
          (Guarded policy_asset IsGdk IsAsked)
          (serve_next policy_asset around requests system)
  serve_next-Guarded around [] system a k g = g
  serve_next-Guarded around (sign ∷ rest) system (p, a) k g =
      serve-Guarded around (sign_pset sign) (record system { to_wallet = rest }) (p, k)
        (record {
          handed_over = g.handed_over;
          answered = g.answered;
          asked = a;
          approved = g.approved;
          sent = g.sent;
        })

  happen-Guarded :
      (event : Event F) (system : System F)
      → (Brings policy_asset IsGdk IsAsked) event
      → (Guarded policy_asset IsGdk IsAsked) system
      → Ensures (Guarded policy_asset IsGdk IsAsked) (happen policy_asset event system)
  unfolding happen
  happen-Guarded (api_message outside req) system b g =
      work-Guarded outside (api_server req) system g
        ((api-Guards policy_asset IsGdk IsAsked) outside system.worker g.handed_over g.sent req)
  happen-Guarded (server_message outside msg) system b g =
      work-Guarded outside (ws msg) system g
        ((ws-Guards policy_asset IsGdk IsAsked) outside system.worker g.handed_over g.sent msg b)
  happen-Guarded (wallet_message outside) system b g =
      work_next-Guarded outside system.to_worker system g.approved g
  happen-Guarded (wallet_notif around) system b g = serve-Guarded around notif system tt g
  happen-Guarded (wallet_timer around) system b g = serve-Guarded around timer system tt g
  happen-Guarded (wallet_sign around) system b g =
      serve_next-Guarded around system.to_wallet system g.asked b g

  run_from-Guarded :
      (events : List (Event F)) (system : System F)
      → All (Brings policy_asset IsGdk IsAsked) events
      → (Guarded policy_asset IsGdk IsAsked) system
      → Ensures (Guarded policy_asset IsGdk IsAsked) (run_system policy_asset events system)
  unfolding run_system
  run_from-Guarded [] system a g = g
  run_from-Guarded (event ∷ events) system (b, a) g =
      Ensures-bind (Guarded policy_asset IsGdk IsAsked) (Guarded policy_asset IsGdk IsAsked)
        (happen policy_asset event system) (run_system policy_asset events)
        (happen-Guarded event system b g) λ later k. run_from-Guarded events later a k

  -- The headless server from its start, with any events in any order, where the exchange's requests to sign
  -- satisfy `IsAsked` and what GDK answers satisfies `IsGdk`: if no thread panics, each signed PSET
  -- that the worker has sent to the exchange was made for a request of the exchange to sign for this
  -- order, and passed the wallet's checks that it changes the balance by what the order comes to.
  pub run_system-AllApproved :
      (events : List (Event F)) (now : ℕ) (host : Text) (port : ℕ) (use_tls : Bool) (session_id : ℕ)
      → All (Brings policy_asset IsGdk IsAsked) events
      → Ensures
          (λ system. (AllApproved policy_asset IsGdk IsAsked) (signatures system.worker.ws_sent))
          (run_system policy_asset events
            (start_system now host port use_tls policy_asset session_id))
  unfolding start request_ws_connect
  run_system-AllApproved events now host port use_tls session_id a =
      Ensures-imp (Guarded policy_asset IsGdk IsAsked)
        (λ (system : System F).
          (AllApproved policy_asset IsGdk IsAsked) (signatures system.worker.ws_sent))
        (run_system policy_asset events
          (start_system {F = F} now host port use_tls policy_asset session_id))
        (run_from-Guarded events
          (start_system {F = F} now host port use_tls policy_asset session_id) a
          (record { handed_over = refl; answered = refl; asked = tt; approved = tt; sent = tt }))
        λ system g. g.sent
