-- ===== src/Ws/Tests.antt =====
-- A run over two connections, and the theorems there.
use sideswapclient.Prelude.{
  ℕ, ◌+◌, ◌≡◌, refl, true, false, Option, none, some, List, [], ◌∷◌, ◌++◌, map, ◌==◌, if◌then◌else◌,
  arith,
}
use sideswapclient.Ws.Auto.{
  text, ping, connected, disconnected, response, connecting, online, terminated, Client, failure,
  message, Event, submit, drop, connect_failed, connect, server_msg, client_result, run, initial,
}
use sideswapclient.Ws.Protocol.{Protocol, run-Protocol}
use sideswapclient.Ws.Silence.{ticks, run-ticks}
use sideswapclient.Ws.Queue.{texts, submitted, run-submitted}
use sideswapclient.Ws.Delays.{waits_of, run-waits}

-- Texts and messages are numbers; 0 is not read.
abbrev parse : ℕ → Option ℕ
parse content = if content == 0 then none else some content

abbrev print : ℕ → ℕ
print req = req + 100

abbrev events : List (Event ℕ ℕ)
events =
    submit 5
    ∷ connect_failed
    ∷ connect_failed
    ∷ connect 10
    ∷ client_result
    ∷ server_msg 12 (message (text 7))
    ∷ submit 6
    ∷ server_msg 13 (message (text 0))
    ∷ server_msg 20 failure
    ∷ connect_failed
    ∷ connect 21
    ∷ []

abbrev last : Client ℕ ℕ ℕ
last = record {
  phase = online 21;
  queue = 6 ∷ [];
  closed = false;
  responses = connected ∷ response 7 ∷ disconnected ∷ connected ∷ [];
  frames = text 105 ∷ [];
  waits = 0 ∷ 1 ∷ 0 ∷ [];
}

events_lem : run parse print events (initial parse print) ≡ some last
unfolding run
events_lem = refl

-- The channel is dropped: the request that waits is still sent.
drop_lem :
    run parse print (drop ∷ client_result ∷ client_result ∷ []) last
    ≡ some (record last {
      phase = terminated;
      queue = [];
      closed = true;
      frames = text 105 ∷ text 106 ∷ [];
    })
unfolding run
drop_lem = refl

run-Protocol_example : Protocol true last.responses
run-Protocol_example = run-Protocol parse print events last events_lem

run-submitted_example : texts last.frames ++ map print last.queue ≡ map print (submitted events)
run-submitted_example = run-submitted parse print events last events_lem

run-waits_example : last.waits ≡ waits_of 0 events
run-waits_example = run-waits parse print events last events_lem

run-ticks_example :
    run parse print (ticks 40) last
    ≡ some (record last {
      phase = connecting 0;
      responses = last.responses ++ disconnected ∷ [];
      frames = (last.frames ++ ping 0 ∷ []) ++ ping 0 ∷ [];
    })
run-ticks_example = run-ticks parse print 21 40 last refl (omega arith) (omega arith)
