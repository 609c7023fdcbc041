-- ===== src/Ws/Silence.antt =====
-- A connection on which nothing comes any more.
use sideswapclient.Prelude.{
  ℕ, ◌+◌, ◌-◌, ◌*◌, ◌≤◌, ◌<◌, ◌≡◌, refl, ap, ◌∙◌, Bool, true, false, Option, some, List, [], ◌∷◌,
  ◌++◌, ltb, if◌then◌else◌, ◌>>=◌, arith,
}
use sideswapclient.Ws.Auto.{
  ping, disconnected, connecting, online, Client, Event, tick, on_tick, step, run, hand, disconnect,
  ping_period, pong_timeout,
}

-- The ticks of the interval, from a time on.
abbrev pub ticks : {Text Req : Type 0} → ℕ → List (Event Text Req)
ticks first =
    tick first
    ∷ tick (first + ping_period)
    ∷ tick (first + 2 * ping_period)
    ∷ tick (first + 3 * ping_period)
    ∷ []

if-yes {ℓ} : {A : Type ℓ} (b : Bool) (x y : A) → b ≡ true → (if b then x else y) ≡ x
if-yes b x y h = rw h refl

if-no {ℓ} : {A : Type ℓ} (b : Bool) (x y : A) → b ≡ false → (if b then x else y) ≡ y
if-no b x y h = rw h refl

module _ {Text Req Resp : Type 0} (parse : Text → Option Resp) (print : Req → Text) where
  abbrev State : Type 0
  State = Client Text Req Resp

  run-tick :
      (last now : ℕ) (events : List (Event Text Req)) (state next : State)
      → state.phase ≡ online last
      → on_tick parse print last now state ≡ next
      → run parse print (tick now ∷ events) state ≡ run parse print events next
  unfolding run step
  run-tick last now events state next h k =
      ap (λ phase. step parse print (tick now) phase state >>= run parse print events) h
      ∙ ap (run parse print events) k

  on_tick-quiet :
      (last now : ℕ) (state : State)
      → now ≤ last + ping_period
      → on_tick parse print last now state ≡ state
  unfolding on_tick
  on_tick-quiet last now state h =
      if-no (ltb pong_timeout (now - last)) _ _ (ground arith)
      ∙ if-no (ltb ping_period (now - last)) _ _ (ground arith)

  on_tick-ping :
      (last now : ℕ) (state : State)
      → last + ping_period < now
      → now ≤ last + pong_timeout
      → on_tick parse print last now state ≡ hand parse print (ping 0) state
  unfolding on_tick
  on_tick-ping last now state h k =
      if-no (ltb pong_timeout (now - last)) _ _ (ground arith)
      ∙ if-yes (ltb ping_period (now - last)) _ _ (ground arith)

  on_tick-lost :
      (last now : ℕ) (state : State)
      → last + pong_timeout < now
      → on_tick parse print last now state ≡ disconnect parse print state
  unfolding on_tick
  on_tick-lost last now state h = if-yes (ltb pong_timeout (now - last)) _ _ (ground arith)

  -- If nothing comes on an open connection, then of four ticks, the first of them later than
  -- the last message by at most a period, the second and the third send a ping and the fourth
  -- takes the connection for lost: `Disconnected` is reported, and the client connects again
  -- with no delay.
  pub run-ticks :
      (last first : ℕ) (state : State)
      → state.phase ≡ online last
      → last < first
      → first ≤ last + ping_period
      → run parse print (ticks first) state
        ≡ some (record state {
          phase = connecting 0;
          responses = state.responses ++ disconnected ∷ [];
          frames = (state.frames ++ ping 0 ∷ []) ++ ping 0 ∷ [];
        })
  unfolding run
  run-ticks last first state h low high =
      let once = hand parse print (ping 0) state in
      let twice = hand parse print (ping 0) once in
      run-tick last first
        (tick (first + ping_period)
          ∷ tick (first + 2 * ping_period)
          ∷ tick (first + 3 * ping_period)
          ∷ [])
        state state h (on_tick-quiet last first state high)
      ∙ run-tick last (first + ping_period)
          (tick (first + 2 * ping_period) ∷ tick (first + 3 * ping_period) ∷ []) state once h
          (on_tick-ping last (first + ping_period) state (omega arith) (omega arith))
      ∙ run-tick last (first + 2 * ping_period) (tick (first + 3 * ping_period) ∷ []) once twice h
          (on_tick-ping last (first + 2 * ping_period) once (omega arith) (omega arith))
      ∙ run-tick last (first + 3 * ping_period) [] twice (disconnect parse print twice) h
          (on_tick-lost last (first + 3 * ping_period) twice (omega arith))
