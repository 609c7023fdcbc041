-- ===== src/Headless/Counting.antt =====
-- The worker's count of sign requests is right: none is lost or counted twice on its way.
use sideswapclient.Prelude.{
  ℕ, suc, ◌+◌, ◌-◌, ◌≤◌, ◌<◌, ◌≡◌, refl, ap, subst, ◌∙◌, Bool, false, ◌&&◌, Option, none, some,
  List, [], ◌∷◌, ◌++◌, ltb, ◌>>=◌, length, length-append, Ensures, Ensures-bind, Ensures-if, arith,
}
use sideswapclient.Prelude.Key.{Text}
use sideswapclient.Headless.Types.{
  AssetId, SignNotification, WalletResp, swap_inputs, Req, api_server, wallet, ws,
}
use sideswapclient.Headless.Requests.{request_ws_connect}
use sideswapclient.Headless.Submit.{Outside}
use sideswapclient.Headless.Worker.{usize_modulus, step, start}
use sideswapclient.Headless.Wallet.{
  Around, Thread, WalletReq, notif, sign_pset, timer, handle, sign_outcome, sign_result,
  update_inputs, round, ten_seconds,
}
use sideswapclient.Headless.System.{
  System, Event, api_message, server_message, wallet_message, wallet_notif, wallet_timer,
  wallet_sign, work, serve, work_next, serve_next, happen, run_system, start_system,
}
use sideswapclient.Headless.Moves.{
  outcomes, outcomes-append, asked, asked_at_most, Moves, process_api-Moves, process_ws-Moves,
  process_wallet-Moves,
}

outcomes-sign_outcome : (id : ℕ) (o : Option Text) → outcomes (sign_outcome id o ∷ []) ≡ 1
outcomes-sign_outcome id none = refl
outcomes-sign_outcome id (some pset) = refl

-- New inputs are no outcome of a sign request.
update_inputs-outcomes :
    (around : Around) (thread : Thread)
    → Ensures
        (λ later. outcomes later.responses ≡ outcomes thread.responses)
        (update_inputs around thread)
unfolding update_inputs
update_inputs-outcomes around thread =
    Ensures-if Same
      (thread.utxo_update_needed && ltb ten_seconds (around.now - thread.utxo_update_timestamp)) _ _
      (λ h. by_calls around.receive_address around.change_address around.utxos) (λ h. refl)
  where
    Same : Thread → Type 0
    Same later = outcomes later.responses ≡ outcomes thread.responses

    by_calls :
        (r c : Option Text) (u : Option _)
        → Ensures Same (
            r >>= λ recv_address. c >>= λ change_address. u >>= λ utxos. some (record {
              utxo_update_timestamp = around.now_after;
              utxo_update_needed = false;
              responses =
                  thread.responses
                  ++ swap_inputs (record {
                    recv_address = recv_address;
                    change_address = change_address;
                    utxos = utxos;
                  })
                    ∷ [];
            }))
    by_calls none c u = tt
    by_calls (some r) none u = tt
    by_calls (some r) (some c) none = tt
    by_calls (some r) (some c) (some u) =
        omega (arith, outcomes-append thread.responses (swap_inputs _ ∷ []))

-- The sign requests in a request to the wallet.
abbrev signs : {F : Type 0} → WalletReq F → ℕ
signs notif = 0
signs (sign_pset msg) = 1
signs timer = 0

module _ {F : Type 0} (policy_asset : AssetId) where
  handle-outcomes :
      (around : Around) (req : WalletReq F) (thread : Thread)
      → thread.responses ≡ []
      → outcomes (handle policy_asset around.gdk req thread).responses ≡ signs req
  handle-outcomes around notif thread e = rw e refl
  handle-outcomes around (sign_pset msg) thread e =
      rw e (outcomes-sign_outcome msg.order_id (sign_result policy_asset around.gdk msg))
  handle-outcomes around timer thread e = rw e refl

  round-outcomes :
      (around : Around) (req : WalletReq F) (thread : Thread)
      → thread.responses ≡ []
      → Ensures
          (λ later. outcomes later.responses ≡ signs req)
          (round policy_asset around req thread)
  unfolding round
  round-outcomes around req thread e =
      subst
        (λ (n : ℕ).
          Ensures (λ later. outcomes later.responses ≡ n)
            (update_inputs around (handle policy_asset around.gdk req thread)))
        (handle-outcomes around req thread e)
        (update_inputs-outcomes around (handle policy_asset around.gdk req thread))

  -- The channel to the wallet is empty but for what stands in the queue, and so is the other. The
  -- count is the number of sign requests that the wallet has not yet taken and of their outcomes that
  -- the worker has not yet taken; these are at most `n`.
  pub record Counted (n : ℕ) (system : System F) : Type 0 where
    pub handed_over : system.worker.wallet_sent ≡ []
    pub answered : system.thread.responses ≡ []
    pub count :
        system.worker.sign_request_count ≡ length system.to_wallet + outcomes system.to_worker
    pub bound : length system.to_wallet + outcomes system.to_worker ≤ n

  serve-Counted :
      (around : Around) (req : WalletReq F) (n : ℕ) (system : System F)
      → system.worker.wallet_sent ≡ []
      → system.thread.responses ≡ []
      → system.worker.sign_request_count
        ≡ signs req + (length system.to_wallet + outcomes system.to_worker)
      → signs req + (length system.to_wallet + outcomes system.to_worker) ≤ n
      → Ensures (Counted n) (serve policy_asset around req system)
  serve-Counted around req n system h a c b =
      Ensures-bind (λ (later : Thread). outcomes later.responses ≡ signs req) (Counted n)
        (round policy_asset around req system.thread) _ (round-outcomes around req system.thread a)
        λ later same. record {
          handed_over = h;
          answered = refl;
          count = omega (arith, outcomes-append system.to_worker later.responses);
          bound = omega (arith, outcomes-append system.to_worker later.responses);
        }

module _ {F : Type 0} (policy_asset : AssetId) where
  work-Counted :
      (outside : Outside F) (req : Req F) (n more count : ℕ) (system : System F)
      → system.thread.responses ≡ []
      → Ensures (Moves more count) (step outside req system.worker)
      → count ≡ length system.to_wallet + more + outcomes system.to_worker
      → count ≤ n
      → Ensures (Counted policy_asset n) (work policy_asset outside req system)
  work-Counted outside req n more count system a m c b =
      Ensures-bind (Moves more count) (Counted policy_asset n) (step outside req system.worker) _ m
        λ later moved. record {
          handed_over = refl;
          answered = a;
          count = omega (arith, length-append system.to_wallet later.wallet_sent, moved.0, moved.1);
          bound = omega (arith, length-append system.to_wallet later.wallet_sent, moved.1);
        }

  Counted-later :
      (n : ℕ) (system : System F)
      → Counted policy_asset n system
      → Counted policy_asset (suc n) system
  Counted-later n system c = record {
    handed_over = c.handed_over;
    answered = c.answered;
    count = c.count;
    bound = omega (arith, c.bound);
  }

  module _ (n : ℕ) (system : System F) (c : Counted policy_asset n system)
      (few : suc n < usize_modulus) where
    work_next-Counted :
        (outside : Outside F) (responses : List WalletResp)
        → system.to_worker ≡ responses
        → Ensures (Counted policy_asset (suc n)) (work_next policy_asset outside responses system)
    work_next-Counted outside [] e = Counted-later n system c
    work_next-Counted outside (resp ∷ rest) e =
        let all : outcomes system.to_worker ≡ outcomes (resp ∷ []) + outcomes rest =
          ap outcomes e ∙ outcomes-append (resp ∷ []) rest in
        work-Counted outside (wallet resp) (suc n) 0
          (system.worker.sign_request_count - outcomes (resp ∷ []))
          (record system { to_worker = rest }) c.answered
          (process_wallet-Moves outside system.worker c.handed_over resp (omega (arith, c.count))
            (omega (arith, c.count, c.bound)))
          (omega (arith, c.count)) (omega (arith, c.count, c.bound))

    serve_next-Counted :
        (around : Around) (requests : List (SignNotification F))
        → system.to_wallet ≡ requests
        → Ensures (Counted policy_asset (suc n)) (serve_next policy_asset around requests system)
    serve_next-Counted around [] e = Counted-later n system c
    serve_next-Counted around (msg ∷ rest) e =
        let all : length system.to_wallet ≡ suc (length rest) =
          ap (λ (l : List (SignNotification F)). length l) e in
        serve-Counted policy_asset around (sign_pset msg) (suc n)
          (record system { to_wallet = rest }) c.handed_over c.answered (omega (arith, c.count))
          (omega (arith, c.bound))

    happen-Counted :
        (event : Event F)
        → Ensures (Counted policy_asset (suc n)) (happen policy_asset event system)
    unfolding happen
    happen-Counted (api_message outside req) =
        work-Counted outside (api_server req) (suc n) 0 system.worker.sign_request_count system
          c.answered (process_api-Moves outside system.worker c.handed_over req)
          (omega (arith, c.count)) (omega (arith, c.count, c.bound))
    happen-Counted (server_message outside msg) =
        let one_at_most : asked msg ≤ 1 = asked_at_most msg in
        work-Counted outside (ws msg) (suc n) (asked msg)
          (system.worker.sign_request_count + asked msg) system c.answered
          (process_ws-Moves outside system.worker c.handed_over msg
            (omega (arith, c.count, c.bound)))
          (omega (arith, c.count)) (omega (arith, c.count, c.bound))
    happen-Counted (wallet_message outside) = work_next-Counted outside system.to_worker refl
    happen-Counted (wallet_notif around) =
        serve-Counted policy_asset around notif (suc n) system c.handed_over c.answered
          (omega (arith, c.count)) (omega (arith, c.bound))
    happen-Counted (wallet_timer around) =
        serve-Counted policy_asset around timer (suc n) system c.handed_over c.answered
          (omega (arith, c.count)) (omega (arith, c.bound))
    happen-Counted (wallet_sign around) = serve_next-Counted around system.to_wallet refl

  run_from-Counted :
      (events : List (Event F)) (n : ℕ) (system : System F)
      → n + length events < usize_modulus
      → Counted policy_asset n system
      → Ensures (Counted policy_asset (n + length events)) (run_system policy_asset events system)
  unfolding run_system
  run_from-Counted [] n system h c =
      let same : n ≡ n + 0 = omega arith in subst (λ (m : ℕ). Counted policy_asset m system) same c
  run_from-Counted (event ∷ events) n system h c =
      Ensures-bind (Counted policy_asset (suc n)) (Counted policy_asset (n + suc (length events)))
        (happen policy_asset event system) (run_system policy_asset events)
        (happen-Counted n system c (omega arith) event)
        λ later k.
          let same : suc n + length events ≡ n + suc (length events) = omega arith in
          subst (λ (m : ℕ). Ensures (Counted policy_asset m) (run_system policy_asset events later))
            same (run_from-Counted events (suc n) later (omega arith) k)

-- The server from its start, with any events in any order, fewer than 2^64: if no thread panics,
-- the worker's count of sign requests is the number of the sign requests on their way to the wallet
-- and of their outcomes on their way back, so it never goes below zero, where it would wrap, and is
-- zero when none is on its way.
pub run_system-Counted :
    {F : Type 0} (policy_asset : AssetId) (events : List (Event F)) (now : ℕ) (host : Text)
    (port : ℕ) (use_tls : Bool) (session_id : ℕ)
    → length events < usize_modulus
    → Ensures (Counted policy_asset (length events)) (
        run_system policy_asset events (start_system now host port use_tls policy_asset session_id))
unfolding start request_ws_connect
run_system-Counted {F} policy_asset events now host port use_tls session_id h =
    let same : 0 + length events ≡ length events = omega arith in
    subst
      (λ (m : ℕ). Ensures (Counted policy_asset m) (
        run_system policy_asset events
          (start_system {F = F} now host port use_tls policy_asset session_id)))
      same
      (run_from-Counted policy_asset events 0
        (start_system {F = F} now host port use_tls policy_asset session_id) (omega arith)
        (record { handed_over = refl; answered = refl; count = refl; bound = omega arith }))
