-- ===== src/Jade/Fresh.antt =====
-- Each request to the device has an id of its own.
use sideswapclient.Prelude.{
  ℕ, suc, ◌+◌, ◌≤◌, ◌<◌, Bool, false, Option, none, some, List, [], ◌∷◌, ◌++◌, ◌≡◌, refl, sym,
  subst, ◌⊎◌, inl, inr, Ensures, Ensures-bind, Ensures-imp, Bool-cases, if◌then◌else◌, length,
  arith,
}
use sideswapclient.Prelude.Key.{Text, nat_key}
use sideswapclient.Prelude.Map.{remove}
use sideswapclient.Prelude.Decimal.{parse_i32, parse_i32-i32_to_string}
use sideswapclient.Jade.{Bytes}
use sideswapclient.Jade.Cbor.{Cbor}
use sideswapclient.Jade.Messages.{
  Answer, PendingRequest, I32, Req, Params, Message, State, WorkerReq, req, quit, from_port,
  port_fatal_error,
}
use sideswapclient.Jade.Port.{
  Codec, Outside, next_id, send_request, handle_answer, settle, handle_decoded, handle_port_msg,
}
use sideswapclient.Jade.Worker.{
  is_empty, without_status, ask_status, is_status, is_quit, handle_req, step, worker,
}
use sideswapclient.Jade.Keys.{
  Keys, Keys-widen, insert_last, Keys-append, Keys-remove, Keys-without_status,
}
use sideswapclient.Jade.Settle.{Settled, IsPinAnswer, handle_answer-Settled}

-- The largest number of messages for which the ids stay below 2^31.
abbrev pub most_messages : ℕ
most_messages = 2_147_458_647

-- The ids of the messages are texts of numbers that ascend, above `low` and up to `high`.
abbrev pub Ascending : {F : Type 0} → ℕ → List (Message F) → ℕ → Type 0
Ascending low [] high = low ≤ high
Ascending low (m ∷ rest) high =
    (id : ℕ) × (parse_i32 m.id ≡ some id) × (low < id) × Ascending id rest high

module _ {F : Type 0} where
  Ascending-append :
      (low : ℕ) (ms : List (Message F)) (high id : ℕ) (m : Message F)
      → parse_i32 m.id ≡ some id
      → high < id
      → Ascending low ms high
      → Ascending low (ms ++ m ∷ []) id
  Ascending-append low [] high id m e h a = (id, e, omega arith, omega arith)
  Ascending-append low (first ∷ ms) high id m e h (j, f, l, a) =
      (j, f, l, Ascending-append j ms high id m e h a)

  Ascending-widen :
      (low : ℕ) (ms : List (Message F)) (high high' : ℕ)
      → high ≤ high'
      → Ascending low ms high
      → Ascending low ms high'
  Ascending-widen low [] high high' h a = omega arith
  Ascending-widen low (m ∷ ms) high high' h (j, e, l, a) =
      (j, e, l, Ascending-widen j ms high high' h a)

  -- After at most `n` messages: the pending requests have ids that ascend, from 25001 to the last
  -- id, and so have the messages that were sent to the device.
  abbrev pub HasIds : ℕ → State F → Type 0
  HasIds n state =
      Keys 25000 state.pending_requests state.last_request_id
      × Ascending 25000 state.sent state.last_request_id
      × (state.last_request_id ≤ 25000 + n)

  pub HasIds_later : (n : ℕ) (state : State F) → HasIds n state → HasIds (suc n) state
  HasIds_later n state (keys, ids, bound) = (keys, ids, omega arith)

  module _ (n : ℕ) (state : State F) (few : n < most_messages) (inv : HasIds n state) where
    pub next_id_lem : next_id state ≡ state.last_request_id + 1
    next_id_lem = let bound : state.last_request_id ≤ 25000 + n = inv.2 in omega arith

    pub send_request-HasIds :
        (is_open : Bool) (method : Text) (args : Params F) (kind : PendingRequest)
        → HasIds (suc n) (send_request is_open method args kind state)
    unfolding send_request
    send_request-HasIds is_open method args kind =
        let bound : state.last_request_id ≤ 25000 + n = inv.2 in
        let above : state.last_request_id < next_id state = omega arith in
        let small : next_id state ≤ 25000 + suc n = omega arith in
        elim (Bool-cases is_open) [
          | inl e ↦ rw e (
            rw
                (insert_last 25000 state.pending_requests state.last_request_id (next_id state) kind
                  inv.0 above)
                (Keys-append 25000 state.pending_requests state.last_request_id (next_id state) kind
                  inv.0 above),
            Ascending-append 25000 state.sent state.last_request_id (next_id state) _
                (parse_i32-i32_to_string (next_id state) (omega arith)) above inv.1,
            small,
          )
          | inr e ↦ rw e (
            Keys-widen 25000 state.pending_requests state.last_request_id (next_id state)
                (omega arith) inv.0,
            Ascending-widen 25000 state.sent state.last_request_id (next_id state) (omega arith)
                inv.1,
            small,
          )
        ]

    ask_status-HasIds : (is_open : Bool) → HasIds (suc n) (ask_status is_open state)
    ask_status-HasIds is_open = elim (Bool-cases (is_empty state.pending_requests)) [
      | inl e ↦ rw e (send_request-HasIds is_open _ _ PendingRequest.read_status)
      | inr e ↦ rw e (HasIds_later n state inv)
    ]

    Settled-HasIds :
        (Why : Text → Cbor F → Type 0) (is_open : Bool) (kind : PendingRequest) (after : State F)
        → Settled Why is_open kind state after
        → HasIds (suc n) after
    Settled-HasIds Why is_open kind after (inl (answer, fits, e)) =
        subst (HasIds (suc n)) (sym e) (HasIds_later n state inv)
    Settled-HasIds Why is_open kind after (inr (e, (method, pin, why, f))) =
        subst (HasIds (suc n)) (sym f) (send_request-HasIds is_open method _ _)

  -- The kind that a request waits under.
  abbrev pub kind_of : Req F → PendingRequest
  kind_of Req.read_status = PendingRequest.read_status
  kind_of (Req.auth_user v) = PendingRequest.http_request
  kind_of (Req.resolve_xpub v) = PendingRequest.get_xpub
  kind_of Req.get_master_blinding_key = PendingRequest.get_master_blinding_key
  kind_of (Req.sign_message v) = PendingRequest.sign_message
  kind_of (Req.get_signature v) = PendingRequest.get_signature
  kind_of (Req.get_shared_nonce v) = PendingRequest.get_shared_nonce
  kind_of (Req.get_blinding_key v) = PendingRequest.get_blinding_key
  kind_of (Req.get_blinding_factor v) = PendingRequest.get_blinding_factor
  kind_of (Req.get_commitments v) = PendingRequest.get_commitments
  kind_of (Req.sign_tx v) = PendingRequest.sign_tx
  kind_of (Req.tx_input v) = PendingRequest.tx_input

  abbrev pub retained : State F → State F
  retained state = record state { pending_requests = without_status state.pending_requests }

  -- A request for the status, or a request that is sent under its kind.
  abbrev pub Sends : Bool → Req F → State F → State F → Type 0
  Sends is_open req' before after =
      ((kind_of req' ≡ PendingRequest.read_status) × (after ≡ ask_status is_open (retained before)))
      ⊎ ((is_status (kind_of req') ≡ false)
          × ((method : Text) × (args : Params F) × (after
                ≡ send_request is_open method args (kind_of req') before)))

  pub handle_req-Sends :
      (is_open : Bool) (req' : Req F) (state : State F)
      → Sends is_open req' state (handle_req is_open req' state)
  unfolding handle_req
  handle_req-Sends is_open Req.read_status state = inl (refl, refl)
  handle_req-Sends is_open (Req.auth_user v) state = inr (refl, (_, _, refl))
  handle_req-Sends is_open (Req.resolve_xpub v) state = inr (refl, (_, _, refl))
  handle_req-Sends is_open Req.get_master_blinding_key state = inr (refl, (_, _, refl))
  handle_req-Sends is_open (Req.sign_message v) state = inr (refl, (_, _, refl))
  handle_req-Sends is_open (Req.get_signature v) state = inr (refl, (_, _, refl))
  handle_req-Sends is_open (Req.get_shared_nonce v) state = inr (refl, (_, _, refl))
  handle_req-Sends is_open (Req.get_blinding_key v) state = inr (refl, (_, _, refl))
  handle_req-Sends is_open (Req.get_blinding_factor v) state = inr (refl, (_, _, refl))
  handle_req-Sends is_open (Req.get_commitments v) state = inr (refl, (_, _, refl))
  handle_req-Sends is_open (Req.sign_tx v) state = inr (refl, (_, _, refl))
  handle_req-Sends is_open (Req.tx_input (some v)) state = inr (refl, (_, _, refl))
  handle_req-Sends is_open (Req.tx_input none) state = inr (refl, (_, _, refl))

  pub handle_req-HasIds :
      (is_open : Bool) (req' : Req F) (n : ℕ) (state : State F)
      → n < most_messages
      → HasIds n state
      → HasIds (suc n) (handle_req is_open req' state)
  handle_req-HasIds is_open req' n state h inv = by_case (handle_req-Sends is_open req' state)
    where
      by_case :
          Sends is_open req' state (handle_req is_open req' state)
          → HasIds (suc n) (handle_req is_open req' state)
      by_case (inl (e, f)) = subst (HasIds (suc n)) (sym f) (
          ask_status-HasIds n (retained state) h
            (
              Keys-without_status 25000 state.pending_requests state.last_request_id inv.0,
              inv.1,
              inv.2,
            )
            is_open)
      by_case (inr (e, (method, args, f))) =
          subst (HasIds (suc n)) (sym f)
            (send_request-HasIds n state h inv is_open method args (kind_of req'))

  -- The state in which an answer to `id` is handled.
  abbrev pub without : I32 → State F → State F
  without id state = record state { pending_requests = remove id state.pending_requests }

  abbrev pub without-HasIds :
      (n : ℕ) (id : I32) (state : State F) → HasIds n state → HasIds n (without id state)
  without-HasIds n id state (keys, ids, bound) =
      (Keys-remove 25000 state.pending_requests state.last_request_id id keys, ids, bound)

module _ {N F : Type 0} (codec : Codec N F) where
  module _ (outside : Outside) (n : ℕ) (state : State F) (few : n < most_messages)
      (inv : HasIds n state) where
    settle-HasIds :
        (id : I32) (kind : Option PendingRequest) (bytes : Bytes)
        → Ensures (HasIds (suc n)) (settle codec outside id kind bytes state)
    settle-HasIds id none bytes = HasIds_later n state inv
    settle-HasIds id (some kind) bytes =
        Ensures-imp
          (Settled (IsPinAnswer codec outside bytes) outside.is_open kind (without id state))
          (HasIds (suc n)) (handle_answer codec outside kind bytes (without id state))
          (handle_answer-Settled codec outside kind bytes (without id state))
          (Settled-HasIds n (without id state) few (without-HasIds n id state inv)
            (IsPinAnswer codec outside bytes) outside.is_open kind)

    handle_decoded-HasIds :
        (answer : Option (Answer (Cbor F))) (bytes : Bytes)
        → Ensures (HasIds (suc n)) (handle_decoded codec outside answer bytes state)
    handle_decoded-HasIds none bytes = HasIds_later n state inv
    handle_decoded-HasIds (some v) bytes = settle-HasIds _ _ bytes

    pub step-HasIds : (msg : WorkerReq F) → Ensures (HasIds (suc n)) (step codec msg outside state)
    unfolding step handle_port_msg
    step-HasIds (req req') = handle_req-HasIds outside.is_open req' n state few inv
    step-HasIds quit = HasIds_later n state inv
    step-HasIds (from_port bytes) = handle_decoded-HasIds (codec.decode_any bytes) bytes
    step-HasIds port_fatal_error = HasIds_later n state inv

  abbrev pub Messages : Type 0
  Messages = List (WorkerReq F × Outside)

  abbrev pub total : (WorkerReq F → ℕ) → Messages → ℕ
  total score [] = 0
  total score ((msg, outside) ∷ rest) = if is_quit msg then 0 else score msg + total score rest

  -- A rule for runs: what each message keeps, with the number of messages and their score, holds at
  -- the end, if more messages do not harm it.
  module _ (P : ℕ → ℕ → State F → Type 0) (score : WorkerReq F → ℕ) where
    pub worker-keeps :
        ((msg : WorkerReq F) (outside : Outside) (n k : ℕ) (state : State F)
          → n < most_messages
          → P n k state
          → Ensures (P (suc n) (k + score msg)) (step codec msg outside state))
        → ((n m k l : ℕ) (state : State F) → n ≤ m → k ≡ l → P n k state → P m l state)
        → (msgs : Messages) (n k : ℕ) (state : State F) → n + length msgs ≤ most_messages
        → P n k state
        → Ensures (P (n + length msgs) (k + total score msgs)) (worker codec msgs state)
    unfolding worker
    worker-keeps keep later [] n k state h p =
        later n (n + 0) k (k + 0) state (omega arith) (omega arith) p
    worker-keeps keep later ((msg, outside) ∷ rest) n k state h p =
        elim (Bool-cases (is_quit msg)) [
          | inl e ↦
              rw e (later n (n + suc (length rest)) k (k + 0) state (omega arith) (omega arith) p)
          | inr e ↦ rw e (
              Ensures-bind (P (suc n) (k + score msg))
                (P (n + suc (length rest)) (k + (score msg + total score rest)))
                (step codec msg outside state) (worker codec rest)
                (keep msg outside n k state (omega arith) p)
                λ next q.
                  Ensures-imp (P (suc n + length rest) (k + score msg + total score rest))
                    (P (n + suc (length rest)) (k + (score msg + total score rest)))
                    (worker codec rest next)
                    (worker-keeps keep later rest (suc n) (k + score msg) next (omega arith) q)
                    λ end r. later _ _ _ _ end (omega arith) (omega arith) r)
        ]
