-- ===== src/Ws/Delays.antt =====
-- How long the websocket client waits before it connects again.
use mathlib.Core.List.{append-nil, append_assoc}
use sideswapclient.Prelude.{
  ℕ, zero, suc, ◌+◌, ◌-◌, ◌≡◌, refl, sym, ap, ◌∙◌, Bool, true, false, Option, none, some, List, [],
  ◌∷◌, ◌++◌, ltb, if◌then◌else◌, Ensures, Ensures-if, Ensures-bind, Ensures-imp, Ensures-some,
}
use sideswapclient.Ws.Auto.{
  Frame, text, ping, pong, other_frame, Phase, connecting, online, terminated, Client, stream_end,
  failure, message, Event, submit, drop, connect_failed, connect, server_msg, client_result, tick,
  hand, disconnect, parsed, on_frame, on_server_msg, on_client_result, on_tick, ping_period,
  pong_timeout, step, run, initial, delay,
}

-- The wait after a connection failed, when as many failed before it without one that was opened.
abbrev pub wait_of : ℕ → ℕ
wait_of zero = 0
wait_of (suc zero) = 1
wait_of (suc (suc zero)) = 3
wait_of (suc (suc (suc zero))) = 6
wait_of (suc (suc (suc (suc zero)))) = 9
wait_of (suc (suc (suc (suc (suc n))))) = 12

delay-wait_of : (n : ℕ) → delay n ≡ wait_of n
unfolding delay
delay-wait_of zero = refl
delay-wait_of (suc zero) = refl
delay-wait_of (suc (suc zero)) = refl
delay-wait_of (suc (suc (suc zero))) = refl
delay-wait_of (suc (suc (suc (suc zero)))) = refl
delay-wait_of (suc (suc (suc (suc (suc n))))) = refl

-- One wait for each connection that failed, by the number that failed since the start or since the
-- last that was opened.
abbrev pub waits_of : {Text Req : Type 0} → ℕ → List (Event Text Req) → List ℕ
waits_of n [] = []
waits_of n (connect_failed ∷ events) = wait_of n ∷ waits_of (n + 1) events
waits_of n (connect now ∷ events) = waits_of 0 events
waits_of n (submit req ∷ events) = waits_of n events
waits_of n (drop ∷ events) = waits_of n events
waits_of n (server_msg now msg ∷ events) = waits_of n events
waits_of n (client_result ∷ events) = waits_of n events
waits_of n (tick now ∷ events) = waits_of n events

abbrev failures : Phase → ℕ
failures (connecting n) = n
failures (online last) = 0
failures terminated = 0

module _ {Text Req Resp : Type 0} (parse : Text → Option Resp) (print : Req → Text) where
  abbrev State : Type 0
  State = Client Text Req Resp

  -- The waits of the rest of a run follow those so far.
  abbrev Waits : List ℕ → List (Event Text Req) → State → Type 0
  Waits waits events state = state.waits ++ waits_of (failures state.phase) events ≡ waits

  module _ (events : List (Event Text Req)) where
    if-Waits :
        (waits : List ℕ) (b : Bool) (x y : State)
        → Waits waits events x
        → Waits waits events y
        → Waits waits events (if b then x else y)
    if-Waits waits true x y h k = h
    if-Waits waits false x y h k = k

    on_frame-Waits :
        (frame : Frame Text) (state : State) (waits : List ℕ)
        → Waits waits events state
        → Waits waits events (on_frame parse print frame state)
    unfolding on_frame
    on_frame-Waits (text content) state waits p = parsed-Waits (parse content)
      where
        parsed-Waits : (result : Option Resp) → Waits waits events (parsed parse print result state)
        parsed-Waits none = p
        parsed-Waits (some msg) = p
    on_frame-Waits (ping n) state waits p = p
    on_frame-Waits (pong n) state waits p = p
    on_frame-Waits other_frame state waits p = p

    on_client_result-Waits :
        (last : ℕ) (queue : List Req) (state : State)
        → state.phase ≡ online last
        → Ensures
            (Waits (state.waits ++ waits_of 0 events) events)
            (on_client_result parse print queue state)
    unfolding on_client_result
    on_client_result-Waits last [] state e =
        Ensures-if (Waits (state.waits ++ waits_of 0 events) events) state.closed _ none (λ _. refl)
          (λ _. tt)
    on_client_result-Waits last (req ∷ rest) state e =
        ap (λ phase. state.waits ++ waits_of (failures phase) events) e

    step-Waits :
        (event : Event Text Req) (phase : Phase) (state : State)
        → state.phase ≡ phase
        → Ensures
            (Waits (state.waits ++ waits_of (failures phase) (event ∷ events)) events)
            (step parse print event phase state)
    unfolding step on_server_msg on_tick
    step-Waits (submit req) phase state e =
        Ensures-if (Waits (state.waits ++ waits_of (failures phase) events) events) state.closed
          none _ (λ _. tt) (λ _. ap (λ p. state.waits ++ waits_of (failures p) events) e)
    step-Waits drop phase state e = ap (λ p. state.waits ++ waits_of (failures p) events) e
    step-Waits connect_failed (connecting n) state e =
        append_assoc state.waits (delay n ∷ []) (waits_of (n + 1) events)
        ∙ ap (λ wait. state.waits ++ wait ∷ waits_of (n + 1) events) (delay-wait_of n)
    step-Waits connect_failed (online last) state e = tt
    step-Waits connect_failed terminated state e = tt
    step-Waits (connect now) (connecting n) state e = refl
    step-Waits (connect now) (online last) state e = tt
    step-Waits (connect now) terminated state e = tt
    step-Waits (server_msg now msg) (connecting n) state e = tt
    step-Waits (server_msg now stream_end) (online last) state e = tt
    step-Waits (server_msg now failure) (online last) state e = refl
    step-Waits (server_msg now (message frame)) (online last) state e =
        on_frame-Waits frame (record state { phase = online now })
          (state.waits ++ waits_of 0 events) refl
    step-Waits (server_msg now msg) terminated state e = tt
    step-Waits client_result (connecting n) state e = tt
    step-Waits client_result (online last) state e = on_client_result-Waits last state.queue state e
    step-Waits client_result terminated state e = tt
    step-Waits (tick now) (connecting n) state e = tt
    step-Waits (tick now) (online last) state e =
        let waits = state.waits ++ waits_of 0 events in
        let same : Waits waits events state =
          ap (λ p. state.waits ++ waits_of (failures p) events) e in
        if-Waits waits (ltb pong_timeout (now - last)) (disconnect parse print state)
          (if ltb ping_period (now - last) then hand parse print (ping 0) state else state) refl
          (if-Waits waits (ltb ping_period (now - last)) (hand parse print (ping 0) state) state
            same same)
    step-Waits (tick now) terminated state e = tt

  run-Waits :
      (events : List (Event Text Req)) (state : State)
      → Ensures
          (λ later. later.waits ≡ state.waits ++ waits_of (failures state.phase) events)
          (run parse print events state)
  unfolding run
  run-Waits [] state = sym (append-nil state.waits)
  run-Waits (event ∷ events) state =
      let waits = state.waits ++ waits_of (failures state.phase) (event ∷ events) in
      Ensures-bind (Waits waits events) (λ (later : State). later.waits ≡ waits)
        (step parse print event state.phase state) _
        (step-Waits events event state.phase state refl)
        λ next g.
          Ensures-imp _ _ (run parse print events next) (run-Waits events next) λ later e. e ∙ g

  -- After a run from the start without a panic, the delays are one for each connection that failed,
  -- in order: 0, 1, 3, 6 and 9 seconds, and 12 from the sixth on, counted from the start and from
  -- 0 again after each connection that was opened.
  pub run-waits :
      (events : List (Event Text Req)) (state : State)
      → run parse print events (initial parse print) ≡ some state
      → state.waits ≡ waits_of 0 events
  run-waits events state h =
      Ensures-some (λ (later : State). later.waits ≡ waits_of 0 events) _
        (run-Waits events (initial parse print)) h
