-- ===== src/Ws/Protocol.antt =====
-- What the other side of the websocket client sees: a protocol of connections.
use sideswapclient.Prelude.{
  ℕ, ◌-◌, ◌≡◌, Bool, true, false, Option, none, some, List, [], ◌∷◌, ◌++◌, ltb, if◌then◌else◌,
  Ensures, Ensures-bind, Ensures-if, Ensures-some,
}
use sideswapclient.Ws.Auto.{
  Frame, text, ping, pong, other_frame, WrappedResponse, connected, disconnected, response, Phase,
  connecting, online, terminated, Client, stream_end, failure, message, Event, submit, drop,
  connect_failed, connect, server_msg, client_result, tick, hand, disconnect, parsed, on_frame,
  on_server_msg, on_client_result, on_tick, ping_period, pong_timeout, step, run, initial,
}

-- The messages that may have been sent, and whether a connection is open after them: answers come
-- only while one is, and it is opened and lost by turns.
pub data Protocol {Resp : Type 0} : Bool → List (WrappedResponse Resp) → Type 0 where
  idle : Protocol false []
  opened :
      {sent : List (WrappedResponse Resp)}
      → Protocol false sent
      → Protocol true (sent ++ connected ∷ [])
  answered :
      {sent : List (WrappedResponse Resp)} (msg : Resp)
      → Protocol true sent
      → Protocol true (sent ++ response msg ∷ [])
  lost :
      {sent : List (WrappedResponse Resp)}
      → Protocol true sent
      → Protocol false (sent ++ disconnected ∷ [])

abbrev pub is_online : Phase → Bool
is_online (connecting n) = false
is_online (online last) = true
is_online terminated = true

module _ {Text Req Resp : Type 0} (parse : Text → Option Resp) (print : Req → Text) where
  abbrev State : Type 0
  State = Client Text Req Resp

  pub run-keeps :
      (P : State → Type 0)
      → ((event : Event Text Req) (state : State)
          → P state
          → Ensures P (step parse print event state.phase state))
      → (events : List (Event Text Req)) (state : State) → P state
      → Ensures P (run parse print events state)
  unfolding run
  run-keeps P keeps [] state h = h
  run-keeps P keeps (event ∷ events) state h =
      Ensures-bind P P (step parse print event state.phase state) _ (keeps event state h)
        λ next g. run-keeps P keeps events next g

  abbrev Follows : State → Type 0
  Follows state = Protocol (is_online state.phase) state.responses

  if-Follows : (b : Bool) (x y : State) → Follows x → Follows y → Follows (if b then x else y)
  if-Follows true x y h k = h
  if-Follows false x y h k = k

  on_frame-Follows :
      (frame : Frame Text) (state : State) (now : ℕ)
      → Protocol true state.responses
      → Follows (on_frame parse print frame (record state { phase = online now }))
  unfolding on_frame
  on_frame-Follows (text content) state now p = parsed-Follows (parse content)
    where
      parsed-Follows :
          (result : Option Resp)
          → Follows (parsed parse print result (record state { phase = online now }))
      parsed-Follows none = p
      parsed-Follows (some msg) = answered msg p
  on_frame-Follows (ping n) state now p = p
  on_frame-Follows (pong n) state now p = p
  on_frame-Follows other_frame state now p = p

  -- The phase of the state, which is told apart, is known to be open or not.
  step-Follows :
      (event : Event Text Req) (phase : Phase) (state : State)
      → Protocol (is_online phase) state.responses
      → Follows state
      → Ensures Follows (step parse print event phase state)
  unfolding step on_server_msg on_client_result on_tick
  step-Follows (submit req) phase state p g =
      Ensures-if Follows state.closed none _ (λ _. tt) (λ _. g)
  step-Follows drop phase state p g = g
  step-Follows connect_failed (connecting n) state p g = p
  step-Follows connect_failed (online last) state p g = tt
  step-Follows connect_failed terminated state p g = tt
  step-Follows (connect now) (connecting n) state p g = opened p
  step-Follows (connect now) (online last) state p g = tt
  step-Follows (connect now) terminated state p g = tt
  step-Follows (server_msg now msg) (connecting n) state p g = tt
  step-Follows (server_msg now stream_end) (online last) state p g = tt
  step-Follows (server_msg now failure) (online last) state p g = lost p
  step-Follows (server_msg now (message frame)) (online last) state p g =
      on_frame-Follows frame state now p
  step-Follows (server_msg now msg) terminated state p g = tt
  step-Follows client_result (connecting n) state p g = tt
  step-Follows client_result (online last) state p g = client_result-Follows state.queue
    where
      client_result-Follows :
          (queue : List Req) → Ensures Follows (on_client_result parse print queue state)
      client_result-Follows [] = Ensures-if Follows state.closed _ none (λ _. p) (λ _. tt)
      client_result-Follows (req ∷ rest) = g
  step-Follows client_result terminated state p g = tt
  step-Follows (tick now) (connecting n) state p g = tt
  step-Follows (tick now) (online last) state p g =
      if-Follows (ltb pong_timeout (now - last)) (disconnect parse print state)
        (if ltb ping_period (now - last) then hand parse print (ping 0) state else state) (lost p)
        (if-Follows (ltb ping_period (now - last)) (hand parse print (ping 0) state) state g g)
  step-Follows (tick now) terminated state p g = tt

  -- Whatever happens from the start without a panic, what the client reports follows the
  -- protocol, and its last message tells whether a connection is open, or was when the client
  -- returned: a first connection comes before all else, answers only come while a connection
  -- is open, and between two connections there is one disconnection.
  pub run-Protocol :
      (events : List (Event Text Req)) (state : State)
      → run parse print events (initial parse print) ≡ some state
      → Protocol (is_online state.phase) state.responses
  run-Protocol events state h =
      Ensures-some Follows _
        (run-keeps Follows (λ event before p. step-Follows event before.phase before p p) events
          (initial parse print) idle)
        h
