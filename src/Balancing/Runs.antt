-- ===== src/Balancing/Runs.antt =====
-- The messages of the main loop that touch the transfer, as events, and runs of them. A run stops
-- at a panic (`none`).
use sideswapclient.Prelude.{ℕ, Bool, Option, none, some, List, [], ◌∷◌, ◌++◌}
use sideswapclient.Prelude.Float.{Float}
use sideswapclient.Prelude.Int64.{I64}
use sideswapclient.Balancing.Types.{TransferState, Storage, Args, Action, Outcome}
use sideswapclient.Balancing.Process.{
  View, Movements, CliRequest, process_balancing, process_withdraw, process_transfer,
  process_movements, start,
}

-- The storage, and the variable `movements` of the main loop.
pub record World : Type 0 where
  pub storage : Storage
  pub seen : Option Movements

pub data Event (F : Type 0) : Type 0 where
  timer : View F → Event F
  withdraw_result : I64 → ℕ → Event F
  transfer_result : Bool → ℕ → Event F
  movements_result : Movements → ℕ → Event F
  cli : CliRequest F → ℕ → Event F

abbrev pub phase : Storage → Option TransferState
phase storage = elim storage.balancing [ none ↦ none | some transfer ↦ some transfer.state ]

abbrev pub Result : Type 0 → Type 0
Result F = Option (World × List (Action F))

abbrev pub with_seen : {F : Type 0} → Option Movements → Outcome F → Result F
with_seen seen none = none
with_seen seen (some (storage, actions)) = some (record { storage = storage; seen = seen }, actions)

module _ (float : Float) (same : Movements → Movements → Bool) (args : Args) where
  open float use {F64}

  unfoldable pub step : World → Event F64 → Result F64
  step world (timer view) =
      with_seen world.seen (process_balancing float world.storage (record view { args = args }))
  step world (withdraw_result id now) =
      with_seen world.seen (process_withdraw float world.storage id args now)
  step world (transfer_result success now) =
      with_seen world.seen (process_transfer float world.storage success args now)
  step world (movements_result msg now) =
      let (outcome, seen) = process_movements float same world.storage msg args world.seen now in
      with_seen seen outcome
  step world (cli req now) =
      let (_, outcome, seen) = start float world.storage req args world.seen now in
      with_seen seen outcome

  -- The effects of a whole run, oldest first.
  unfoldable pub run : World → List (Event F64) → Result F64
  run world [] = some (world, [])
  run world (event ∷ events) = elim (step world event) [
    | none ↦ none
    | some (world', actions) ↦ elim (run world' events) [
      | none ↦ none
      | some (last, later) ↦ some (last, actions ++ later)
    ]
  ]
