-- ===== src/Balancing/Spending.antt =====
-- How often a transfer moves funds out of the wallet or the exchange.
use sideswapclient.Prelude.{
  ℕ, ◌+◌, ◌≤◌, ◌≡◌, refl, Bool, Option, none, some, List, [], ◌∷◌, ◌++◌, arith, Option-cases, inl,
  inr, ap,
}
use sideswapclient.Prelude.Float.{Float}
use sideswapclient.Prelude.Int64.{I64}
use sideswapclient.Balancing.Types.{
  TransferState, send_usdt_new, send_usdt_wait_confirm, recv_usdt_new, recv_usdt_wait_withdraw_id,
  recv_usdt_wait_confirm, send_btc_new, send_btc_wait_lbtc_balance, send_btc_wait_confirm,
  recv_btc_new, recv_btc_wait_lbtc_balance, recv_btc_wait_withdraw_id, recv_btc_wait_confirm,
  complete, failed, Transfer, Storage, Args, Action, send_asset, send_bitcoin, withdraw, exchange,
  notify, save, Outcome,
}
use sideswapclient.Balancing.Process.{
  View, Movements, Movement, CliRequest, process_balancing, process_withdraw, process_transfer,
  process_movements, start, on_state, on_movements, on_withdraw_id,
}
use sideswapclient.Balancing.Runs.{
  World, Event, timer, withdraw_result, transfer_result, movements_result, cli, phase, with_seen,
  step, run,
}

-- The actions that send funds to an address: an RPC send or a withdrawal.
abbrev spends_one : {F : Type 0} → Action F → ℕ
spends_one (send_asset address amount asset) = 1
spends_one (send_bitcoin address amount) = 1
spends_one (withdraw msg) = 1
spends_one (exchange msg) = 0
spends_one (notify url note) = 0
spends_one (save path storage) = 0

abbrev pub spends : {F : Type 0} → List (Action F) → ℕ
spends [] = 0
spends (action ∷ actions) = spends_one action + spends actions

-- The sends that a transfer has still to make.
abbrev pub budget : Option TransferState → ℕ
budget (some send_usdt_new) = 1
budget (some recv_usdt_new) = 1
budget (some send_btc_new) = 1
budget (some recv_btc_new) = 1
budget (some recv_btc_wait_lbtc_balance) = 1
budget _ = 0

-- The transfers that the events of a run ask for.
abbrev pub starts : {F : Type 0} → List (Event F) → ℕ
starts [] = 0
starts (cli req now ∷ events) = 1 + starts events
starts (_ ∷ events) = starts events

spends-append : {F : Type 0} (xs ys : List (Action F)) → spends (xs ++ ys) ≡ spends xs + spends ys
spends-append [] ys = omega arith
spends-append (x ∷ xs) ys = omega (arith, spends-append xs ys)

module _ (float : Float) where
  open float use {F64}

  abbrev Within : Storage → Outcome F64 → Type 0
  Within storage outcome =
      (storage' : Storage) (actions : List (Action F64))
      → outcome ≡ some (storage', actions)
      → spends actions + budget (phase storage') ≤ budget (phase storage)

  spends-on_state :
      (state : TransferState) (transfer : Transfer) (view : View F64) (storage' : Storage)
      (actions : List (Action F64))
      → transfer.state ≡ state
      → on_state float state transfer view ≡ some (storage', actions)
      → spends actions + budget (phase storage') ≤ budget (some state)
  unfolding on_state
  spends-on_state send_usdt_new transfer view storage' actions e h = ground arith
  spends-on_state send_usdt_wait_confirm transfer view storage' actions e h = ground arith
  spends-on_state recv_usdt_new transfer view storage' actions e h = ground arith
  spends-on_state recv_usdt_wait_withdraw_id transfer view storage' actions e h = ground arith
  spends-on_state recv_usdt_wait_confirm transfer view storage' actions e h = ground arith
  spends-on_state send_btc_new transfer view storage' actions e h = ground arith
  spends-on_state send_btc_wait_lbtc_balance transfer view storage' actions e h = ground arith
  spends-on_state send_btc_wait_confirm transfer view storage' actions e h = ground arith
  spends-on_state recv_btc_new transfer view storage' actions e h = ground arith
  spends-on_state recv_btc_wait_lbtc_balance transfer view storage' actions e h = ground arith
  spends-on_state recv_btc_wait_withdraw_id transfer view storage' actions e h = ground arith
  spends-on_state recv_btc_wait_confirm transfer view storage' actions e h = ground arith
  spends-on_state complete transfer view storage' actions e h = ground arith
  spends-on_state failed transfer view storage' actions e h = ground arith

  spends-process_balancing :
      (storage : Storage) (view : View F64) → Within storage (process_balancing float storage view)
  unfolding process_balancing
  spends-process_balancing storage view storage' actions h = elim (Option-cases storage.balancing) [
    | inl e ↦ ground (arith, e)
    | inr (transfer, e) ↦
        ground (arith, spends-on_state transfer.state transfer view storage' actions refl)
  ]

  spends-on_withdraw_id :
      (state : TransferState) (transfer : Transfer) (id : I64) (args : Args) (now : ℕ)
      (storage' : Storage) (actions : List (Action F64))
      → on_withdraw_id float state transfer id args now ≡ some (storage', actions)
      → (spends actions ≡ 0) × (budget (phase storage') ≡ 0)
  unfolding on_withdraw_id
  spends-on_withdraw_id recv_usdt_wait_withdraw_id transfer id args now storage' actions h =
      ground arith
  spends-on_withdraw_id recv_btc_wait_withdraw_id transfer id args now storage' actions h =
      ground arith
  spends-on_withdraw_id _ transfer id args now storage' actions h = ground arith

  spends-process_withdraw :
      (storage : Storage) (id : I64) (args : Args) (now : ℕ)
      → Within storage (process_withdraw float storage id args now)
  unfolding process_withdraw
  spends-process_withdraw storage id args now storage' actions h =
      elim (Option-cases storage.balancing) [
        | inl e ↦ ground (arith, e)
        | inr (transfer, e) ↦
            ground
              (arith, spends-on_withdraw_id transfer.state transfer id args now storage' actions)
      ]

  spends-process_transfer :
      (storage : Storage) (success : Bool) (args : Args) (now : ℕ)
      → Within storage (process_transfer float storage success args now)
  unfolding process_transfer
  spends-process_transfer storage success args now storage' actions h = ground arith

  spends-on_movements :
      (state : TransferState) (transfer : Transfer) (movements : List Movement) (args : Args)
      (now : ℕ) (storage' : Storage) (actions : List (Action F64))
      → transfer.state ≡ state
      → on_movements float state transfer movements args now ≡ some (storage', actions)
      → spends actions + budget (phase storage') ≤ budget (some state)
  unfolding on_movements
  spends-on_movements send_usdt_wait_confirm transfer movements args now storage' actions e h =
      ground arith
  spends-on_movements recv_usdt_wait_confirm transfer movements args now storage' actions e h =
      ground arith
  spends-on_movements recv_btc_wait_confirm transfer movements args now storage' actions e h =
      ground arith
  spends-on_movements _ transfer movements args now storage' actions e h = ground arith

  spends-process_movements :
      (same : Movements → Movements → Bool) (storage : Storage) (msg : Movements) (args : Args)
      (seen : Option Movements) (now : ℕ)
      → Within storage (process_movements float same storage msg args seen now).0
  unfolding process_movements
  spends-process_movements same storage msg args seen now storage' actions h =
      elim (Option-cases storage.balancing) [
        | inl e ↦ ground (arith, e)
        | inr (transfer, e) ↦ ground (
          arith,
          spends-on_movements transfer.state transfer msg.movements args now storage' actions refl,
        )
      ]

  spends-start :
      (storage : Storage) (req : CliRequest F64) (args : Args) (seen : Option Movements) (now : ℕ)
      (storage' : Storage) (actions : List (Action F64))
      → (start float storage req args seen now).1 ≡ some (storage', actions)
      → spends actions + budget (phase storage') ≤ budget (phase storage) + 1
  unfolding start
  spends-start storage req args seen now storage' actions h = ground arith

pub with_seen-eq :
    {F : Type 0} (seen : Option Movements) (outcome : Outcome F) {world : World}
    {actions : List (Action F)}
    → with_seen seen outcome ≡ some (world, actions)
    → outcome ≡ some (world.storage, actions)
with_seen-eq seen none h = cc
with_seen-eq seen (some (storage, acts)) h = ground arith

module _ (float : Float) (same : Movements → Movements → Bool) (args : Args) where
  open float use {F64}

  spends-step :
      (world world' : World) (event : Event F64) (actions : List (Action F64))
      → step float same args world event ≡ some (world', actions)
      → spends actions + budget (phase world'.storage)
        ≤ budget (phase world.storage) + starts (event ∷ [])
  unfolding step
  spends-step world world' (timer view) actions h = omega (
    arith,
    spends-process_balancing float world.storage (record view { args = args }) world'.storage
        actions (with_seen-eq _ _ h),
  )
  spends-step world world' (withdraw_result id now) actions h = omega (
    arith,
    spends-process_withdraw float world.storage id args now world'.storage actions
        (with_seen-eq _ _ h),
  )
  spends-step world world' (transfer_result success now) actions h = omega (
    arith,
    spends-process_transfer float world.storage success args now world'.storage actions
        (with_seen-eq _ _ h),
  )
  spends-step world world' (movements_result msg now) actions h = omega (
    arith,
    spends-process_movements float same world.storage msg args world.seen now world'.storage actions
        (with_seen-eq _ _ h),
  )
  spends-step world world' (cli req now) actions h = omega (
    arith,
    spends-start float world.storage req args world.seen now world'.storage actions
        (with_seen-eq _ _ h),
  )

  run-next :
      (world : World) (event : Event F64) (events : List (Event F64)) (last : World)
      (actions : List (Action F64))
      → run float same args world (event ∷ events) ≡ some (last, actions)
      → (world' : World) × (first : List (Action F64)) × (later : List (Action F64)) × (step float
            same args world event
          ≡ some (world', first))
        × (run float same args world' events ≡ some (last, later))
        × (actions ≡ first ++ later)
  unfolding run
  run-next world event events last actions h =
      elim (Option-cases (step float same args world event)) [
        | inl e ↦ ground (arith, e)
        | inr ((world', first), e) ↦ elim (Option-cases (run float same args world' events)) [
          | inl k ↦ ground (arith, e, k)
          | inr ((end, later), k) ↦
              (world', first, later, e, ground (arith, e, k), ground (arith, e, k))
        ]
      ]

  starts-cons :
      (event : Event F64) (events : List (Event F64))
      → starts (event ∷ events) ≡ starts (event ∷ []) + starts events
  starts-cons (cli req now) events = omega arith
  starts-cons (timer view) events = omega arith
  starts-cons (withdraw_result id now) events = omega arith
  starts-cons (transfer_result success now) events = omega arith
  starts-cons (movements_result msg now) events = omega arith

  -- In any run of messages that does not panic, the sends of funds (RPC sends and withdrawals),
  -- with those that the active transfer has still to make, are no more than the transfers asked for
  -- and what the transfer active at the start had still to make: no transfer pays twice.
  pub spends-run :
      (world last : World) (events : List (Event F64)) (actions : List (Action F64))
      → run float same args world events ≡ some (last, actions)
      → spends actions + budget (phase last.storage) ≤ budget (phase world.storage) + starts events
  unfolding run
  spends-run world last [] actions h = ground arith
  spends-run world last (event ∷ events) actions h =
      let (world', first, later, e, k, split) = run-next world event events last actions h in
      omega (
        arith,
        spends-step world world' event first e,
        spends-run world' last events later k,
        spends-append first later,
        starts-cons event events,
        ap spends split,
      )
