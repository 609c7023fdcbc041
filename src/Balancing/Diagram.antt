-- ===== src/Balancing/Diagram.antt =====
-- The phases of a transfer, and the edges that the handlers take between them.
use sideswapclient.Prelude.{ℕ, ◌≡◌, refl, Bool, Option, none, some, List, arith, ◌⊎◌}
use sideswapclient.Prelude.Float.{Float}
use sideswapclient.Prelude.Int64.{I64}
use sideswapclient.Balancing.Types.{
  TransferState, send_usdt_new, send_usdt_wait_confirm, recv_usdt_new, recv_usdt_wait_withdraw_id,
  recv_usdt_wait_confirm, send_btc_new, send_btc_wait_lbtc_balance, send_btc_wait_confirm,
  recv_btc_new, recv_btc_wait_lbtc_balance, recv_btc_wait_withdraw_id, recv_btc_wait_confirm,
  complete, failed, Transfer, Storage, Args, Action,
}
use sideswapclient.Balancing.Process.{
  View, Movements, Movement, CliRequest, process_balancing, process_withdraw, process_transfer,
  process_movements, start, on_state, on_movements, on_withdraw_id,
}
use sideswapclient.Balancing.Spending.{with_seen-eq}
use sideswapclient.Balancing.Runs.{
  World, Event, timer, withdraw_result, transfer_result, movements_result, cli, phase, step,
}

-- The state that follows when a step succeeds; after `complete` the storage is idle.
abbrev pub next : TransferState → Option TransferState
next send_usdt_new = some send_usdt_wait_confirm
next send_usdt_wait_confirm = some complete
next recv_usdt_new = some recv_usdt_wait_withdraw_id
next recv_usdt_wait_withdraw_id = some recv_usdt_wait_confirm
next recv_usdt_wait_confirm = some complete
next send_btc_new = some send_btc_wait_lbtc_balance
next send_btc_wait_lbtc_balance = some send_btc_wait_confirm
next send_btc_wait_confirm = some complete
next recv_btc_new = some recv_btc_wait_lbtc_balance
next recv_btc_wait_lbtc_balance = some recv_btc_wait_withdraw_id
next recv_btc_wait_withdraw_id = some recv_btc_wait_confirm
next recv_btc_wait_confirm = some complete
next complete = none
next failed = some failed

-- A phase (`none` is the idle storage) and one that may follow it: the same, the first of a
-- transfer if idle, and otherwise the next or the failed one.
abbrev pub Follows : Option TransferState → Option TransferState → Type 0
Follows none q =
    (q ≡ none)
    ⊎ (q ≡ some send_usdt_new)
    ⊎ (q ≡ some recv_usdt_new)
    ⊎ (q ≡ some send_btc_new)
    ⊎ (q ≡ some recv_btc_new)
Follows (some s) q = (q ≡ some s) ⊎ (q ≡ next s) ⊎ (q ≡ some failed)

module _ (float : Float) where
  open float use {F64}

  on_state-Follows :
      (state : TransferState) (transfer : Transfer) (view : View F64) (storage' : Storage)
      (actions : List (Action F64))
      → transfer.state ≡ state
      → on_state float state transfer view ≡ some (storage', actions)
      → Follows (some state) (phase storage')
  unfolding on_state
  on_state-Follows send_usdt_new transfer view storage' actions e h = ground arith
  on_state-Follows send_usdt_wait_confirm transfer view storage' actions e h = ground arith
  on_state-Follows recv_usdt_new transfer view storage' actions e h = ground arith
  on_state-Follows recv_usdt_wait_withdraw_id transfer view storage' actions e h = ground arith
  on_state-Follows recv_usdt_wait_confirm transfer view storage' actions e h = ground arith
  on_state-Follows send_btc_new transfer view storage' actions e h = ground arith
  on_state-Follows send_btc_wait_lbtc_balance transfer view storage' actions e h = ground arith
  on_state-Follows send_btc_wait_confirm transfer view storage' actions e h = ground arith
  on_state-Follows recv_btc_new transfer view storage' actions e h = ground arith
  on_state-Follows recv_btc_wait_lbtc_balance transfer view storage' actions e h = ground arith
  on_state-Follows recv_btc_wait_withdraw_id transfer view storage' actions e h = ground arith
  on_state-Follows recv_btc_wait_confirm transfer view storage' actions e h = ground arith
  on_state-Follows complete transfer view storage' actions e h = ground arith
  on_state-Follows failed transfer view storage' actions e h = ground arith

  on_withdraw_id-Follows :
      (state : TransferState) (transfer : Transfer) (id : I64) (args : Args) (now : ℕ)
      (storage' : Storage) (actions : List (Action F64))
      → on_withdraw_id float state transfer id args now ≡ some (storage', actions)
      → Follows (some state) (phase storage')
  unfolding on_withdraw_id
  on_withdraw_id-Follows recv_usdt_wait_withdraw_id transfer id args now storage' actions h =
      ground arith
  on_withdraw_id-Follows recv_btc_wait_withdraw_id transfer id args now storage' actions h =
      ground arith
  on_withdraw_id-Follows _ transfer id args now storage' actions h = ground arith

  on_movements-Follows :
      (state : TransferState) (transfer : Transfer) (movements : List Movement) (args : Args)
      (now : ℕ) (storage' : Storage) (actions : List (Action F64))
      → transfer.state ≡ state
      → on_movements float state transfer movements args now ≡ some (storage', actions)
      → Follows (some state) (phase storage')
  unfolding on_movements
  on_movements-Follows send_usdt_wait_confirm transfer movements args now storage' actions e h =
      ground arith
  on_movements-Follows recv_usdt_wait_confirm transfer movements args now storage' actions e h =
      ground arith
  on_movements-Follows recv_btc_wait_confirm transfer movements args now storage' actions e h =
      ground arith
  on_movements-Follows _ transfer movements args now storage' actions e h = ground arith

module _ (float : Float) where
  open float use {F64}

  abbrev at : Option Transfer → Storage
  at active = record { balancing = active }

  process_balancing-Follows :
      (active : Option Transfer) (view : View F64) (storage' : Storage)
      (actions : List (Action F64))
      → process_balancing float (at active) view ≡ some (storage', actions)
      → Follows (phase (at active)) (phase storage')
  unfolding process_balancing
  process_balancing-Follows none view storage' actions h = ground arith
  process_balancing-Follows (some transfer) view storage' actions h =
      on_state-Follows float transfer.state transfer view storage' actions refl h

  process_withdraw-Follows :
      (active : Option Transfer) (id : I64) (args : Args) (now : ℕ) (storage' : Storage)
      (actions : List (Action F64))
      → process_withdraw float (at active) id args now ≡ some (storage', actions)
      → Follows (phase (at active)) (phase storage')
  unfolding process_withdraw
  process_withdraw-Follows none id args now storage' actions h = ground arith
  process_withdraw-Follows (some transfer) id args now storage' actions h =
      on_withdraw_id-Follows float transfer.state transfer id args now storage' actions h

  process_transfer-Follows :
      (active : Option Transfer) (success : Bool) (args : Args) (now : ℕ) (storage' : Storage)
      (actions : List (Action F64))
      → process_transfer float (at active) success args now ≡ some (storage', actions)
      → Follows (phase (at active)) (phase storage')
  unfolding process_transfer
  process_transfer-Follows none success args now storage' actions h = ground arith
  process_transfer-Follows (some transfer) success args now storage' actions h = ground arith

  process_movements-Follows :
      (same : Movements → Movements → Bool) (active : Option Transfer) (msg : Movements)
      (args : Args) (seen : Option Movements) (now : ℕ) (storage' : Storage)
      (actions : List (Action F64))
      → (process_movements float same (at active) msg args seen now).0 ≡ some (storage', actions)
      → Follows (phase (at active)) (phase storage')
  unfolding process_movements
  process_movements-Follows same none msg args seen now storage' actions h = ground arith
  process_movements-Follows same (some transfer) msg args seen now storage' actions h = ground (
    arith,
    on_movements-Follows float transfer.state transfer msg.movements args now storage' actions refl,
  )

  start-Follows :
      (active : Option Transfer) (req : CliRequest F64) (args : Args) (seen : Option Movements)
      (now : ℕ) (storage' : Storage) (actions : List (Action F64))
      → (start float (at active) req args seen now).1 ≡ some (storage', actions)
      → Follows (phase (at active)) (phase storage')
  unfolding start
  start-Follows none req args seen now storage' actions h = ground arith
  start-Follows (some transfer) req args seen now storage' actions h = ground arith

module _ (float : Float) (same : Movements → Movements → Bool) (args : Args) where
  open float use {F64}

  -- A message that does not panic leaves the transfer in its phase, moves it to the next one, fails
  -- it, or, where none is active, starts one in the first state of its kind.
  pub step-Follows :
      (world world' : World) (event : Event F64) (actions : List (Action F64))
      → step float same args world event ≡ some (world', actions)
      → Follows (phase world.storage) (phase world'.storage)
  unfolding step
  step-Follows world world' (timer view) actions h =
      process_balancing-Follows float world.storage.balancing (record view { args = args })
        world'.storage actions (with_seen-eq _ _ h)
  step-Follows world world' (withdraw_result id now) actions h =
      process_withdraw-Follows float world.storage.balancing id args now world'.storage actions
        (with_seen-eq _ _ h)
  step-Follows world world' (transfer_result success now) actions h =
      process_transfer-Follows float world.storage.balancing success args now world'.storage actions
        (with_seen-eq _ _ h)
  step-Follows world world' (movements_result msg now) actions h =
      process_movements-Follows float same world.storage.balancing msg args world.seen now
        world'.storage actions (with_seen-eq _ _ h)
  step-Follows world world' (cli req now) actions h =
      start-Follows float world.storage.balancing req args world.seen now world'.storage actions
        (with_seen-eq _ _ h)
