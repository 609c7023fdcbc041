-- ===== src/Ws/Auto.antt =====
-- `run` of ws/auto.rs: connecting with delays, and the loop on an open connection.
use sideswapclient.Prelude.{
  ℕ, zero, suc, ◌+◌, ◌-◌, Bool, true, false, Option, none, some, List, [], ◌∷◌, ◌++◌, ltb,
  if◌then◌else◌, ◌>>=◌,
}

-- `RECONNECT_WAIT_PERIODS`, `RECONNECT_WAIT_MAX_PERIOD`, `PING_PERIOD` and `PONG_TIMEOUT`, in seconds.
abbrev reconnect_wait_periods : List ℕ
reconnect_wait_periods = 0 ∷ 1 ∷ 3 ∷ 6 ∷ 9 ∷ []

abbrev reconnect_wait_max_period : ℕ
reconnect_wait_max_period = 12

abbrev pub ping_period : ℕ
ping_period = 30

abbrev pub pong_timeout : ℕ
pong_timeout = 90

-- `get(..).unwrap_or(..)`
abbrev get_or : List ℕ → ℕ → ℕ → ℕ
get_or [] index other = other
get_or (x ∷ xs) zero other = x
get_or (x ∷ xs) (suc index) other = get_or xs index other

-- The delay after a connection failed, `reconnect_count` times before.
unfoldable pub delay : ℕ → ℕ
delay reconnect_count = get_or reconnect_wait_periods reconnect_count reconnect_wait_max_period

-- `tungstenite::Message`, as far as it is told apart.
pub data Frame (Text : Type 0) : Type 0 where
  text : Text → Frame Text
  ping pong : ℕ → Frame Text
  other_frame : Frame Text

pub data WrappedResponse (Resp : Type 0) : Type 0 where
  connected disconnected : WrappedResponse Resp
  response : Resp → WrappedResponse Resp

-- Where `run` is: connecting, with `reconnect_count`; on an open connection, with
-- `last_recv_timestamp`; or after its return.
pub data Phase : Type 0 where
  connecting online : ℕ → Phase
  terminated : Phase

-- `queue` are the requests in the channel, `closed` says that the other side dropped it.
-- `responses` is what was sent on `resp_tx`, `frames` what was handed to the open connections, and
-- `waits` the delays, each in order.
pub record Client (Text Req Resp : Type 0) : Type 0 where
  pub phase : Phase
  pub queue : List Req
  pub closed : Bool
  pub responses : List (WrappedResponse Resp)
  pub frames : List (Frame Text)
  pub waits : List ℕ

-- What `ws_stream.next()` gives: the end of the stream, an error, a message.
pub data ServerMsg (Text : Type 0) : Type 0 where
  stream_end failure : ServerMsg Text
  message : Frame Text → ServerMsg Text

-- What happens: a request is put in the channel, the channel is dropped, a connection fails or is
-- opened at a time, a branch of `select!` is taken.
pub data Event (Text Req : Type 0) : Type 0 where
  submit : Req → Event Text Req
  drop connect_failed : Event Text Req
  connect : ℕ → Event Text Req
  server_msg : ℕ → ServerMsg Text → Event Text Req
  client_result : Event Text Req
  tick : ℕ → Event Text Req

-- `serde_json` reads and prints the messages.
module _ {Text Req Resp : Type 0} (parse : Text → Option Resp) (print : Req → Text) where
  abbrev pub State : Type 0
  State = Client Text Req Resp

  abbrev pub respond : WrappedResponse Resp → State → State
  respond msg state = record state { responses = state.responses ++ msg ∷ [] }

  abbrev pub hand : Frame Text → State → State
  hand frame state = record state { frames = state.frames ++ frame ∷ [] }

  -- After `break`.
  abbrev pub disconnect : State → State
  disconnect state = respond disconnected (record state { phase = connecting 0 })

  abbrev pub parsed : Option Resp → State → State
  parsed none state = state
  parsed (some msg) state = respond (response msg) state

  -- The match on the message.
  unfoldable pub on_frame : Frame Text → State → State
  on_frame (text content) state = parsed (parse content) state
  on_frame (ping data_) state = hand (pong data_) state
  on_frame (pong data_) state = state
  on_frame other_frame state = state

  -- `unwrap` panics at the end of the stream (`none`).
  unfoldable pub on_server_msg : ℕ → ServerMsg Text → State → Option State
  unfolding on_frame
  on_server_msg now stream_end state = none
  on_server_msg now failure state = some (disconnect state)
  on_server_msg now (message frame) state =
      some (on_frame frame (record state { phase = online now }))

  -- The channel gives a request, or its end; `none` while there is neither.
  unfoldable pub on_client_result : List Req → State → Option State
  on_client_result [] state =
      if state.closed then some (record state { phase = terminated }) else none
  on_client_result (req ∷ rest) state =
      some (hand (text (print req)) (record state { queue = rest }))

  unfoldable pub on_tick : ℕ → ℕ → State → State
  on_tick last_recv_timestamp now state =
      if ltb pong_timeout (now - last_recv_timestamp)
      then disconnect state
      else if ltb ping_period (now - last_recv_timestamp)
      then hand (ping 0) state
      else state

  -- One event; `none` for a panic, and where the code does not wait for the event.
  unfoldable pub step : Event Text Req → Phase → State → Option State
  unfolding on_server_msg on_client_result on_tick delay
  step (submit req) phase state =
      if state.closed then none else some (record state { queue = state.queue ++ req ∷ [] })
  step drop phase state = some (record state { closed = true })
  step connect_failed (connecting reconnect_count) state = some (record state {
    phase = connecting (reconnect_count + 1);
    waits = state.waits ++ delay reconnect_count ∷ [];
  })
  step (connect now) (connecting reconnect_count) state =
      some (respond connected (record state { phase = online now }))
  step (server_msg now msg) (online last) state = on_server_msg now msg state
  step client_result (online last) state = on_client_result state.queue state
  step (tick now) (online last) state = some (on_tick last now state)
  step _ _ state = none

  unfoldable pub run : List (Event Text Req) → State → Option State
  unfolding step
  run [] state = some state
  run (event ∷ events) state = step event state.phase state >>= run events

  -- Before the first connection.
  abbrev pub initial : State
  initial = record {
    phase = connecting 0;
    queue = [];
    closed = false;
    responses = [];
    frames = [];
    waits = [];
  }
