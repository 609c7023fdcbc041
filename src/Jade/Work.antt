-- ===== src/Jade/Work.antt =====
-- The answers and the waiting requests, counted.
use sideswapclient.Prelude.{
  ℕ, suc, ◌+◌, ◌≤◌, ◌<◌, Bool, false, some, List, [], ◌∷◌, ◌++◌, ◌≡◌, refl, sym, subst, inl, inr,
  Bool-cases, if◌then◌else◌, length, length-append, arith,
}
use sideswapclient.Prelude.Key.{Text, nat_key, codes, text_eq}
use sideswapclient.Prelude.Map.{get, remove, insert, length-remove_known}
use sideswapclient.Jade.Cbor.{Cbor}
use sideswapclient.Jade.Messages.{
  fatal_error, PendingRequest, I32, Req, Params, State, WorkerReq, req, quit, from_port,
  port_fatal_error, pin_answer,
}
use sideswapclient.Jade.Port.{next_id, next_step, send_request}
use sideswapclient.Jade.Worker.{is_status, is_empty, without_status, ask_status}
use sideswapclient.Jade.Keys.{
  Keys-without_status, insert_last, tasks, tasks-append, tasks-remove, tasks-without_status,
}
use sideswapclient.Jade.Settle.{Settled}
use sideswapclient.Jade.Fresh.{
  HasIds, HasIds_later, most_messages, next_id_lem, kind_of, retained, Sends, without,
  without-HasIds, send_request-HasIds,
}

pub length-without_status : (m : List (I32 × PendingRequest)) → length (without_status m) ≤ length m
unfolding without_status
length-without_status [] = omega arith
length-without_status ((id, kind) ∷ m) = ground (arith, length-without_status m)

pub is_status-next_step : (method : Text) → is_status (next_step method) ≡ false
is_status-next_step method = elim (Bool-cases (text_eq method (codes "handshake_complete"))) [
  | inl e ↦ rw e refl
  | inr e ↦ rw e refl
]

pub wrong_status :
    (kind : PendingRequest) → kind ≡ PendingRequest.read_status → is_status kind ≡ false → ⊥
wrong_status kind e f = cc

module _ {F : Type 0} where
  -- The answers with the requests that wait, those for the status left out or counted.
  abbrev pub work : State F → ℕ
  work state = length state.answers + tasks state.pending_requests

  abbrev pub load : State F → ℕ
  load state = length state.answers + length state.pending_requests

  module _ (n : ℕ) (state : State F) (few : n < most_messages) (inv : HasIds n state)
      (is_open : Bool) (method : Text) (args : Params F) (kind : PendingRequest) where
    pub appended_pending :
        insert (next_id state) kind state.pending_requests
        ≡ state.pending_requests ++ (next_id state, kind) ∷ []
    appended_pending =
        insert_last 25000 state.pending_requests state.last_request_id (next_id state) kind inv.0
          (omega (arith, next_id_lem n state few inv))

    pub load-send_request : load (send_request is_open method args kind state) ≡ load state + 1
    unfolding send_request
    load-send_request = elim (Bool-cases is_open) [
      | inl e ↦ rw e (
          rw (appended_pending)
            (omega (arith, length-append state.pending_requests ((next_id state, kind) ∷ []))))
      | inr e ↦ rw e (omega (arith, length-append state.answers (fatal_error ∷ [])))
    ]

    pub work-send_request :
        work state + (if is_status kind then 0 else 1)
        ≤ work (send_request is_open method args kind state)
    unfolding send_request tasks
    work-send_request = elim (Bool-cases is_open) [
      | inl e ↦ rw e (
          rw (appended_pending)
            (omega (arith, tasks-append state.pending_requests ((next_id state, kind) ∷ []))))
      | inr e ↦ rw e (ground (arith, length-append state.answers (fatal_error ∷ [])))
    ]

  -- After `n` messages, `k` of them requests for another thing than the status: each of these has
  -- an answer or still waits, and there is at most one answer or waiting request for each message.
  abbrev pub Balanced : ℕ → ℕ → State F → Type 0
  Balanced n k state =
      HasIds n state
      × (k ≤ length state.answers + tasks state.pending_requests)
      × (length state.answers + length state.pending_requests ≤ n)

  module _ (n k : ℕ) (few : n < most_messages) where
    pub send_request-Balanced :
        (is_open : Bool) (method : Text) (args : Params F) (kind : PendingRequest) (state : State F)
        → HasIds n state
        → k ≤ work state + (if is_status kind then 0 else 1)
        → load state ≤ n
        → Balanced (suc n) k (send_request is_open method args kind state)
    send_request-Balanced is_open method args kind state inv most least = (
      send_request-HasIds n state few inv is_open method args kind,
      omega (arith, work-send_request n state few inv is_open method args kind),
      omega (arith, load-send_request n state few inv is_open method args kind),
    )

    pub ask_status-Balanced :
        (is_open : Bool) (state : State F)
        → HasIds n state
        → k ≤ work state
        → load state ≤ n
        → Balanced (suc n) k (ask_status is_open state)
    ask_status-Balanced is_open state inv most least =
        elim (Bool-cases (is_empty state.pending_requests)) [
          | inl e ↦ rw e (
              send_request-Balanced is_open _ _ PendingRequest.read_status state inv (omega arith)
                least)
          | inr e ↦ rw e (HasIds_later n state inv, most, omega arith)
        ]

    pub Settled-Balanced :
        (Why : Text → Cbor F → Type 0) (is_open : Bool) (id : I32) (kind : PendingRequest)
        (before after : State F)
        → get id before.pending_requests ≡ some kind
        → Balanced n k before
        → Settled Why is_open kind (without id before) after
        → Balanced (suc n) k after
    Settled-Balanced Why is_open id kind before after known (inv, most, least)
          (inl (answer, fits, e)) =
        subst (Balanced (suc n) k) (sym e) (
          HasIds_later n (without id before) (without-HasIds n id before inv),
          omega (
            arith,
            tasks-remove id before.pending_requests,
            length-append before.answers (answer ∷ []),
          ),
          omega (
            arith,
            length-remove_known id before.pending_requests known,
            length-append before.answers (answer ∷ []),
          ),
        )
    Settled-Balanced Why is_open id kind before after known (inv, most, least)
          (inr (e, (method, pin, why, f))) =
        let task : is_status (next_step method) ≡ false = is_status-next_step method in
        let fewer : length (remove id before.pending_requests) + 1
            ≤ length before.pending_requests =
          length-remove_known id before.pending_requests known in
        subst (Balanced (suc n) k) (sym f) (
          send_request-Balanced is_open method (pin_answer pin) (next_step method)
            (without id before) (without-HasIds n id before inv)
            (rw task (omega (arith, tasks-remove id before.pending_requests))) (omega arith))

  pub Sends-Balanced :
      (n k : ℕ) (is_open : Bool) (req' : Req F) (before after : State F)
      → n < most_messages
      → Balanced n k before
      → Sends is_open req' before after
      → Balanced (suc n) (k + (if is_status (kind_of req') then 0 else 1)) after
  Sends-Balanced n k is_open req' before after few (inv, most, least) (inl (e, f)) =
      subst (Balanced (suc n) (k + _)) (sym f) (
        ask_status-Balanced n (k + (if is_status (kind_of req') then 0 else 1)) few is_open
          (retained before)
          (
            Keys-without_status 25000 before.pending_requests before.last_request_id inv.0,
            inv.1,
            inv.2,
          )
          (rw e (omega (arith, tasks-without_status before.pending_requests)))
          (omega (arith, length-without_status before.pending_requests)))
  Sends-Balanced n k is_open req' before after few (inv, most, least) (inr (e, (method, args, f))) =
      subst (Balanced (suc n) (k + _)) (sym f) (
        send_request-Balanced n (k + (if is_status (kind_of req') then 0 else 1)) few is_open method
          args (kind_of req') before inv (omega arith) least)

  -- Requests for another thing than the status.
  abbrev pub task_score : WorkerReq F → ℕ
  task_score (req req') = if is_status (kind_of req') then 0 else 1
  task_score quit = 0
  task_score (from_port bytes) = 0
  task_score port_fatal_error = 0

  pub Balanced-later :
      (n m k l : ℕ) (state : State F) → n ≤ m → k ≡ l → Balanced n k state → Balanced m l state
  Balanced-later n m k l state le same ((keys, ids, bound), most, least) =
      ((keys, ids, omega arith), omega arith, omega arith)
