-- ===== src/Jade/Requests.antt =====
-- What the requests of a run come to: ids, answers and what still waits.
use sideswapclient.Prelude.{
  ℕ, suc, ◌+◌, ◌≤◌, ◌<◌, true, Option, none, some, [], ◌∷◌, ◌++◌, ◌≡◌, refl, Ensures, Ensures-imp,
  length, length-append, arith,
}
use sideswapclient.Prelude.Key.{Text, nat_key}
use sideswapclient.Prelude.Map.{get}
use sideswapclient.Prelude.Decimal.{parse_i32}
use sideswapclient.Jade.{Bytes}
use sideswapclient.Jade.Cbor.{Cbor}
use sideswapclient.Jade.Messages.{
  Answer, fatal_error, PendingRequest, I32, Params, State, WorkerReq, req, quit, from_port,
  port_fatal_error,
}
use sideswapclient.Jade.Port.{
  Codec, Outside, callback, next_id, send_request, handle_answer, id_or_zero, settle,
  handle_decoded, handle_port_msg,
}
use sideswapclient.Jade.Worker.{handle_req, start, step, worker}
use sideswapclient.Jade.Keys.{get-append_last}
use sideswapclient.Jade.Settle.{Settled, IsPinAnswer, handle_answer-Settled}
use sideswapclient.Jade.Fresh.{
  HasIds, HasIds_later, most_messages, next_id_lem, handle_req-Sends, without, Messages, total,
  worker-keeps,
}
use sideswapclient.Jade.Work.{
  appended_pending, Balanced, Settled-Balanced, Sends-Balanced, task_score, Balanced-later,
}

module _ {N F : Type 0} (codec : Codec N F) where
  module _ (outside : Outside) (n k : ℕ) (state : State F) (few : n < most_messages)
      (balanced : Balanced n k state) where
    settle-Balanced :
        (id : I32) (kind : Option PendingRequest) (bytes : Bytes)
        → get id state.pending_requests ≡ kind
        → Ensures (Balanced (suc n) k) (settle codec outside id kind bytes state)
    settle-Balanced id none bytes known =
        (HasIds_later n state balanced.0, balanced.1, omega (arith, balanced.2))
    settle-Balanced id (some kind) bytes known =
        Ensures-imp
          (Settled (IsPinAnswer codec outside bytes) outside.is_open kind (without id state))
          (Balanced (suc n) k) (handle_answer codec outside kind bytes (without id state))
          (handle_answer-Settled codec outside kind bytes (without id state))
          λ after.
            Settled-Balanced n k few (IsPinAnswer codec outside bytes) outside.is_open id kind state
              after known balanced

    fatal-Balanced : Balanced (suc n) k (callback fatal_error state)
    fatal-Balanced =
        let one_more : length (state.answers ++ fatal_error ∷ []) ≡ length state.answers + 1 =
          length-append state.answers (fatal_error ∷ []) in
        (HasIds_later n state balanced.0, omega (arith, balanced.1), omega (arith, balanced.2))

    handle_decoded-Balanced :
        (answer : Option (Answer (Cbor F))) (bytes : Bytes)
        → Ensures (Balanced (suc n) k) (handle_decoded codec outside answer bytes state)
    handle_decoded-Balanced none bytes = fatal-Balanced
    handle_decoded-Balanced (some v) bytes =
        settle-Balanced (id_or_zero (parse_i32 v.id)) _ bytes refl

    step-Balanced :
        (msg : WorkerReq F)
        → Ensures (Balanced (suc n) (k + task_score msg)) (step codec msg outside state)
    unfolding step handle_port_msg
    step-Balanced (req req') =
        Sends-Balanced n k outside.is_open req' state (handle_req outside.is_open req' state) few
          balanced (handle_req-Sends outside.is_open req' state)
    step-Balanced quit =
        (HasIds_later n state balanced.0, omega (arith, balanced.1), omega (arith, balanced.2))
    step-Balanced (from_port bytes) =
        let same : k + 0 ≡ k = omega arith in
        rw same (handle_decoded-Balanced (codec.decode_any bytes) bytes)
    step-Balanced port_fatal_error = let same : k + 0 ≡ k = omega arith in rw same fatal-Balanced

  -- The worker, from its start, with any requests and any messages of the device, at most
  -- 2147458647 of them: if no handler panics, the ids of the messages sent to the device ascend, from
  -- 25001, as do those of the requests that wait for an answer, so no request takes the place of
  -- another; the requests for another thing than the status, before the first `Quit`, are at most as
  -- many as the answers, fatal errors among them, and those of them that still wait; and the answers
  -- with the waiting requests are at most as many as the messages.
  pub worker-Balanced :
      (msgs : Messages codec)
      → length msgs ≤ most_messages
      → Ensures (Balanced (length msgs) (total codec task_score msgs)) (worker codec msgs start)
  worker-Balanced msgs few =
      Ensures-imp (Balanced (0 + length msgs) (0 + total codec task_score msgs))
        (Balanced (length msgs) (total codec task_score msgs)) (worker codec msgs start)
        (worker-keeps codec Balanced task_score
          (λ msg outside n k state h b. step-Balanced outside n k state h b msg)
          (λ n m k l state le same b. Balanced-later n m k l state le same b) msgs 0 0 start
          (omega arith) ((omega arith, omega arith, omega arith), omega arith, omega arith))
        λ state.
          Balanced-later (0 + length msgs) (length msgs) (0 + total codec task_score msgs)
            (total codec task_score msgs) state (omega arith) (omega arith)

  module _ (outside : Outside) (n : ℕ) (state : State F) (few : n < most_messages)
      (inv : HasIds n state) (method : Text) (args : Params F) (kind : PendingRequest) where
    abbrev asked : State F
    asked = send_request true method args kind state

    known : get (next_id state) asked.pending_requests ≡ some kind
    unfolding send_request
    known = rw (appended_pending n state few inv true method args kind) (
        get-append_last 25000 state.pending_requests state.last_request_id (next_id state) kind
          inv.0 (omega (arith, next_id_lem n state few inv)))
