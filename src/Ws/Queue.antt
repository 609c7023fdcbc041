-- ===== src/Ws/Queue.antt =====
-- The requests leave the websocket client in the order in which they came, each once.
use mathlib.Core.List.{append-nil, append_assoc}
use sideswapclient.Prelude.{
  ◌-◌, ◌≡◌, refl, sym, ap, ◌∙◌, Bool, true, false, Option, none, some, List, [], ◌∷◌, ◌++◌, map,
  ltb, if◌then◌else◌, Ensures, Ensures-bind, Ensures-if, Ensures-some,
}
use sideswapclient.Ws.Auto.{
  Frame, text, ping, pong, other_frame, Phase, connecting, online, terminated, Client, stream_end,
  failure, message, Event, submit, drop, connect_failed, connect, server_msg, client_result, tick,
  parsed, on_frame, on_server_msg, on_client_result, on_tick, ping_period, pong_timeout, step, run,
  initial,
}

module _ {Text : Type 0} where
  abbrev text_of : Frame Text → List Text
  text_of (text content) = content ∷ []
  text_of (ping n) = []
  text_of (pong n) = []
  text_of other_frame = []

  -- The texts that were handed to the connections.
  abbrev pub texts : List (Frame Text) → List Text
  texts [] = []
  texts (frame ∷ frames) = text_of frame ++ texts frames

  texts-append :
      (frames : List (Frame Text)) (frame : Frame Text)
      → texts (frames ++ frame ∷ []) ≡ texts frames ++ text_of frame
  texts-append [] frame = append-nil (text_of frame)
  texts-append (x ∷ frames) frame =
      ap (λ z. text_of x ++ z) (texts-append frames frame)
      ∙ sym (append_assoc (text_of x) (texts frames) (text_of frame))

  quiet_frame :
      (frames : List (Frame Text)) (frame : Frame Text)
      → text_of frame ≡ []
      → texts (frames ++ frame ∷ []) ≡ texts frames
  quiet_frame frames frame h =
      texts-append frames frame ∙ ap (λ z. texts frames ++ z) h ∙ append-nil (texts frames)

-- The requests that were put in the channel.
abbrev submitted_of : {Text Req : Type 0} → Event Text Req → List Req
submitted_of (submit req) = req ∷ []
submitted_of drop = []
submitted_of connect_failed = []
submitted_of (connect now) = []
submitted_of (server_msg now msg) = []
submitted_of client_result = []
submitted_of (tick now) = []

abbrev pub submitted : {Text Req : Type 0} → List (Event Text Req) → List Req
submitted [] = []
submitted (event ∷ events) = submitted_of event ++ submitted events

module _ {Text Req Resp : Type 0} (parse : Text → Option Resp) (print : Req → Text) where
  abbrev State : Type 0
  State = Client Text Req Resp

  -- What was handed over, then what waits.
  abbrev pub texts_then_queue : State → List Text
  texts_then_queue state = texts state.frames ++ map print state.queue

  map-append : (xs ys : List Req) → map print (xs ++ ys) ≡ map print xs ++ map print ys
  map-append [] ys = refl
  map-append (x ∷ xs) ys = ap (λ z. print x ∷ z) (map-append xs ys)

  abbrev Keeps : State → State → Type 0
  Keeps state later = texts_then_queue later ≡ texts_then_queue state

  on_frame-Keeps :
      (frame : Frame Text) (state : State) → Keeps state (on_frame parse print frame state)
  unfolding on_frame
  on_frame-Keeps (text content) state = parsed-Keeps (parse content)
    where
      parsed-Keeps : (result : Option Resp) → Keeps state (parsed parse print result state)
      parsed-Keeps none = refl
      parsed-Keeps (some msg) = refl
  on_frame-Keeps (ping n) state =
      ap (λ z. z ++ map print state.queue) (quiet_frame state.frames (pong n) refl)
  on_frame-Keeps (pong n) state = refl
  on_frame-Keeps other_frame state = refl

  if-Keeps :
      (state : State) (b : Bool) (x y : State)
      → Keeps state x
      → Keeps state y
      → Keeps state (if b then x else y)
  if-Keeps state true x y h k = h
  if-Keeps state false x y h k = k

  on_client_result-Keeps :
      (queue : List Req) (state : State)
      → state.queue ≡ queue
      → Ensures (Keeps state) (on_client_result parse print queue state)
  unfolding on_client_result
  on_client_result-Keeps [] state e =
      Ensures-if (Keeps state) state.closed _ none (λ _. refl) (λ _. tt)
  on_client_result-Keeps (req ∷ rest) state e =
      ap (λ z. z ++ map print rest) (texts-append state.frames (text (print req)))
      ∙ append_assoc (texts state.frames) (print req ∷ []) (map print rest)
      ∙ ap (λ z. texts state.frames ++ map print z) (sym e)

  abbrev Takes : Event Text Req → State → State → Type 0
  Takes event state later =
      texts_then_queue later ≡ texts_then_queue state ++ map print (submitted_of event)

  same :
      (state : State) (o : Option State)
      → Ensures (Keeps state) o
      → Ensures (λ later. texts_then_queue later ≡ texts_then_queue state ++ []) o
  same state none h = tt
  same state (some later) h = h ∙ sym (append-nil (texts_then_queue state))

  step-Takes :
      (event : Event Text Req) (phase : Phase) (state : State)
      → Ensures (Takes event state) (step parse print event phase state)
  unfolding step on_server_msg on_tick
  step-Takes (submit req) phase state =
      Ensures-if (Takes (submit req) state) state.closed none _ (λ _. tt)
        λ _.
          ap (λ z. texts state.frames ++ z) (map-append state.queue (req ∷ []))
          ∙ sym (append_assoc (texts state.frames) (map print state.queue) (print req ∷ []))
  step-Takes drop phase state = sym (append-nil (texts_then_queue state))
  step-Takes connect_failed (connecting n) state = sym (append-nil (texts_then_queue state))
  step-Takes connect_failed (online last) state = tt
  step-Takes connect_failed terminated state = tt
  step-Takes (connect now) (connecting n) state = sym (append-nil (texts_then_queue state))
  step-Takes (connect now) (online last) state = tt
  step-Takes (connect now) terminated state = tt
  step-Takes (server_msg now msg) (connecting n) state = tt
  step-Takes (server_msg now stream_end) (online last) state = tt
  step-Takes (server_msg now failure) (online last) state =
      sym (append-nil (texts_then_queue state))
  step-Takes (server_msg now (message frame)) (online last) state =
      on_frame-Keeps frame (record state { phase = online now })
      ∙ sym (append-nil (texts_then_queue state))
  step-Takes (server_msg now msg) terminated state = tt
  step-Takes client_result (connecting n) state = tt
  step-Takes client_result (online last) state =
      same state (on_client_result parse print state.queue state)
        (on_client_result-Keeps state.queue state refl)
  step-Takes client_result terminated state = tt
  step-Takes (tick now) (connecting n) state = tt
  step-Takes (tick now) (online last) state =
      if-Keeps state (ltb pong_timeout (now - last)) _ _ refl (
        if-Keeps state (ltb ping_period (now - last)) _ _
          (ap (λ z. z ++ map print state.queue) (quiet_frame state.frames (ping 0) refl)) refl)
      ∙ sym (append-nil (texts_then_queue state))
  step-Takes (tick now) terminated state = tt

  run-Takes :
      (events : List (Event Text Req)) (state : State)
      → Ensures
          (λ (later : State).
            texts_then_queue later ≡ texts_then_queue state ++ map print (submitted events))
          (run parse print events state)
  unfolding run
  run-Takes [] state = sym (append-nil (texts_then_queue state))
  run-Takes (event ∷ events) state =
      Ensures-bind (Takes event state) _ (step parse print event state.phase state) _
        (step-Takes event state.phase state)
        λ (next : State) h. after next (run parse print events next) h (run-Takes events next)
    where
      after :
          (next : State) (o : Option State)
          → Takes event state next
          → Ensures
              (λ (later : State).
                texts_then_queue later ≡ texts_then_queue next ++ map print (submitted events))
              o
          → Ensures
              (λ (later : State).
                texts_then_queue later
                ≡ texts_then_queue state ++ map print (submitted_of event ++ submitted events))
              o
      after next none h k = tt
      after next (some later) h k =
          k
          ∙ ap (λ z. z ++ map print (submitted events)) h
          ∙ append_assoc (texts_then_queue state) (map print (submitted_of event))
              (map print (submitted events))
          ∙ ap (λ z. texts_then_queue state ++ z)
              (sym (map-append (submitted_of event) (submitted events)))

  -- Whatever happens from the start without a panic, over all connections together, the texts
  -- handed to them and then those of the requests that still wait are the texts of the
  -- requests that were put in the channel, in their order and each once.
  pub run-submitted :
      (events : List (Event Text Req)) (state : State)
      → run parse print events (initial parse print) ≡ some state
      → texts state.frames ++ map print state.queue ≡ map print (submitted events)
  run-submitted events state h =
      Ensures-some (λ (later : State). texts_then_queue later ≡ map print (submitted events)) _
        (run-Takes events (initial parse print)) h
