-- ===== src/Balancing/Safety.antt =====
-- The storage on disk, and what each state needs of the transfer.
use sideswapclient.Prelude.{
  ℕ, ◌≡◌, ◌≢◌, refl, Bool, true, false, not, if◌then◌else◌, Option, none, some, List, [], ◌∷◌,
  arith,
}
use sideswapclient.Prelude.Float.{Float}
use sideswapclient.Prelude.Int64.{I64}
use sideswapclient.Ticker.{lbtc, usdt, ticker_name}
use text.Mathlib.Text.{◌==◌ as str_eq}
use sideswapclient.Balancing.Types.{
  TransferState, send_usdt_new, send_usdt_wait_confirm, recv_usdt_new, recv_usdt_wait_withdraw_id,
  recv_usdt_wait_confirm, send_btc_new, send_btc_wait_lbtc_balance, send_btc_wait_confirm,
  recv_btc_new, recv_btc_wait_lbtc_balance, recv_btc_wait_withdraw_id, recv_btc_wait_confirm,
  complete, failed, Transfer, Storage, Args, Action, save, Outcome,
}
use sideswapclient.Balancing.Process.{
  Asset, View, Movements, Movement, CliRequest, process_balancing, process_withdraw,
  process_transfer, process_movements, start, on_state, on_movements, on_withdraw_id, find, idle,
  seen_before, zero_f64, or_zero,
}
use sideswapclient.Balancing.Runs.{
  World, Event, timer, withdraw_result, transfer_result, movements_result, cli, with_seen, step,
}

-- The storage at the path after the actions, each save replacing it.
abbrev pub saved : {F : Type 0} → Storage → List (Action F) → Storage
saved disk [] = disk
saved disk (save path storage ∷ actions) = saved storage actions
saved disk (action ∷ actions) = saved disk actions

-- What the handlers rely on in a state: the txid or the withdrawal's id that they wait for, and no
-- id yet where one is to come.
abbrev pub Sound : TransferState → Transfer → Type 0
Sound send_usdt_wait_confirm transfer = transfer.txid ≢ none
Sound recv_usdt_new transfer = transfer.withdraw_id ≡ none
Sound recv_usdt_wait_withdraw_id transfer = transfer.withdraw_id ≡ none
Sound recv_usdt_wait_confirm transfer = transfer.withdraw_id ≢ none
Sound recv_btc_new transfer = transfer.withdraw_id ≡ none
Sound recv_btc_wait_lbtc_balance transfer = transfer.withdraw_id ≡ none
Sound recv_btc_wait_withdraw_id transfer = transfer.withdraw_id ≡ none
Sound recv_btc_wait_confirm transfer = transfer.withdraw_id ≢ none
Sound _ transfer = Unit {0}

abbrev pub IsSound : Option Transfer → Type 0
IsSound none = Unit {0}
IsSound (some transfer) = Sound transfer.state transfer

-- `expect("must be known")`: the asset list has USDt.
abbrev pub KnowsUsdt : List Asset → Type 0
KnowsUsdt assets = find (λ asset. str_eq asset.ticker (ticker_name usdt)) assets ≢ none

module _ (float : Float) where
  open float use {F64}

  saved-on_state :
      (state : TransferState) (transfer : Transfer) (view : View F64) (storage' : Storage)
      (actions : List (Action F64))
      → on_state float state transfer view ≡ some (storage', actions)
      → saved (record { balancing = some transfer }) actions ≡ storage'
  unfolding on_state
  saved-on_state send_usdt_new transfer view storage' actions h = ground arith
  saved-on_state send_usdt_wait_confirm transfer view storage' actions h = ground arith
  saved-on_state recv_usdt_new transfer view storage' actions h = ground arith
  saved-on_state recv_usdt_wait_withdraw_id transfer view storage' actions h = ground arith
  saved-on_state recv_usdt_wait_confirm transfer view storage' actions h = ground arith
  saved-on_state send_btc_new transfer view storage' actions h = ground arith
  saved-on_state send_btc_wait_lbtc_balance transfer view storage' actions h = ground arith
  saved-on_state send_btc_wait_confirm transfer view storage' actions h = ground arith
  saved-on_state recv_btc_new transfer view storage' actions h = ground arith
  saved-on_state recv_btc_wait_lbtc_balance transfer view storage' actions h = ground arith
  saved-on_state recv_btc_wait_withdraw_id transfer view storage' actions h = ground arith
  saved-on_state recv_btc_wait_confirm transfer view storage' actions h = ground arith
  saved-on_state complete transfer view storage' actions h = ground arith
  saved-on_state failed transfer view storage' actions h = ground arith

  -- The wallet's balances are those of listed assets: where there is L-BTC, the list was loaded, and it
  -- has USDt.
  abbrev pub IsListed : View F64 → Type 0
  IsListed view =
      float.lt (zero_f64 float) (or_zero float (view.wallet_balances_confirmed lbtc)) ≡ true
      → KnowsUsdt view.assets

  on_state_total :
      (state : TransferState) (transfer : Transfer) (view : View F64)
      → IsListed view
      → on_state float state transfer view ≢ none
  unfolding on_state
  on_state_total send_usdt_new transfer view k = λ h. ground arith
  on_state_total send_usdt_wait_confirm transfer view k = λ h. ground arith
  on_state_total recv_usdt_new transfer view k = λ h. ground arith
  on_state_total recv_usdt_wait_withdraw_id transfer view k = λ h. ground arith
  on_state_total recv_usdt_wait_confirm transfer view k = λ h. ground arith
  on_state_total send_btc_new transfer view k = λ h. ground arith
  on_state_total send_btc_wait_lbtc_balance transfer view k = λ h. ground arith
  on_state_total send_btc_wait_confirm transfer view k = λ h. ground arith
  on_state_total recv_btc_new transfer view k = λ h. ground arith
  on_state_total recv_btc_wait_lbtc_balance transfer view k = λ h. ground arith
  on_state_total recv_btc_wait_withdraw_id transfer view k = λ h. ground arith
  on_state_total recv_btc_wait_confirm transfer view k = λ h. ground arith
  on_state_total complete transfer view k = λ h. ground arith
  on_state_total failed transfer view k = λ h. ground arith

  -- What the outcome of a handler that does not panic satisfies.
  abbrev Then : (Option Transfer → Type 0) → Outcome F64 → Type 0
  Then P none = Unit {0}
  Then P (some (storage, actions)) = P storage.balancing

  on_state-IsSound :
      (state : TransferState) (transfer : Transfer) (view : View F64)
      → transfer.state ≡ state
      → Sound state transfer
      → Then IsSound (on_state float state transfer view)
  unfolding on_state
  on_state-IsSound send_usdt_new transfer view e s = ground arith
  on_state-IsSound send_usdt_wait_confirm transfer view e s = ground arith
  on_state-IsSound recv_usdt_new transfer view e s = ground arith
  on_state-IsSound recv_usdt_wait_withdraw_id transfer view e s = ground arith
  on_state-IsSound recv_usdt_wait_confirm transfer view e s = ground arith
  on_state-IsSound send_btc_new transfer view e s = ground arith
  on_state-IsSound send_btc_wait_lbtc_balance transfer view e s = ground arith
  on_state-IsSound send_btc_wait_confirm transfer view e s = ground arith
  on_state-IsSound recv_btc_new transfer view e s = ground arith
  on_state-IsSound recv_btc_wait_lbtc_balance transfer view e s = ground arith
  on_state-IsSound recv_btc_wait_withdraw_id transfer view e s = ground arith
  on_state-IsSound recv_btc_wait_confirm transfer view e s = ground arith
  on_state-IsSound complete transfer view e s = ground arith
  on_state-IsSound failed transfer view e s = ground arith

  saved-on_withdraw_id :
      (state : TransferState) (transfer : Transfer) (id : I64) (args : Args) (now : ℕ)
      (storage' : Storage) (actions : List (Action F64))
      → on_withdraw_id float state transfer id args now ≡ some (storage', actions)
      → saved (record { balancing = some transfer }) actions ≡ storage'
  unfolding on_withdraw_id
  saved-on_withdraw_id recv_usdt_wait_withdraw_id transfer id args now storage' actions h =
      ground arith
  saved-on_withdraw_id recv_btc_wait_withdraw_id transfer id args now storage' actions h =
      ground arith
  saved-on_withdraw_id _ transfer id args now storage' actions h = ground arith

  on_withdraw_id_total :
      (state : TransferState) (transfer : Transfer) (id : I64) (args : Args) (now : ℕ)
      → on_withdraw_id float state transfer id args now ≢ none
  unfolding on_withdraw_id
  on_withdraw_id_total recv_usdt_wait_withdraw_id transfer id args now = λ h. ground arith
  on_withdraw_id_total recv_btc_wait_withdraw_id transfer id args now = λ h. ground arith
  on_withdraw_id_total _ transfer id args now = λ h. ground arith

  on_withdraw_id-IsSound :
      (state : TransferState) (transfer : Transfer) (id : I64) (args : Args) (now : ℕ)
      → Then IsSound (on_withdraw_id float state transfer id args now)
  unfolding on_withdraw_id
  on_withdraw_id-IsSound recv_usdt_wait_withdraw_id transfer id args now = ground arith
  on_withdraw_id-IsSound recv_btc_wait_withdraw_id transfer id args now = ground arith
  on_withdraw_id-IsSound _ transfer id args now = ground arith

  saved-on_movements :
      (state : TransferState) (transfer : Transfer) (movements : List Movement) (args : Args)
      (now : ℕ) (storage' : Storage) (actions : List (Action F64))
      → on_movements float state transfer movements args now ≡ some (storage', actions)
      → saved (record { balancing = some transfer }) actions ≡ storage'
  unfolding on_movements
  saved-on_movements send_usdt_wait_confirm transfer movements args now storage' actions h =
      ground arith
  saved-on_movements recv_usdt_wait_confirm transfer movements args now storage' actions h =
      ground arith
  saved-on_movements recv_btc_wait_confirm transfer movements args now storage' actions h =
      ground arith
  saved-on_movements _ transfer movements args now storage' actions h = ground arith

  on_movements_total :
      (state : TransferState) (transfer : Transfer) (movements : List Movement) (args : Args)
      (now : ℕ)
      → Sound state transfer
      → on_movements float state transfer movements args now ≢ none
  unfolding on_movements
  on_movements_total send_usdt_wait_confirm transfer movements args now s = λ h. ground arith
  on_movements_total recv_usdt_wait_confirm transfer movements args now s = λ h. ground arith
  on_movements_total recv_btc_wait_confirm transfer movements args now s = λ h. ground arith
  on_movements_total _ transfer movements args now s = λ h. ground arith

  on_movements-IsSound :
      (state : TransferState) (transfer : Transfer) (movements : List Movement) (args : Args)
      (now : ℕ)
      → transfer.state ≡ state
      → Sound state transfer
      → Then IsSound (on_movements float state transfer movements args now)
  unfolding on_movements
  on_movements-IsSound send_usdt_wait_confirm transfer movements args now e s = ground arith
  on_movements-IsSound recv_usdt_wait_confirm transfer movements args now e s = ground arith
  on_movements-IsSound recv_btc_wait_confirm transfer movements args now e s = ground arith
  on_movements-IsSound _ transfer movements args now e s = ground arith

  -- An outcome that is no panic, keeps the storage sound and has it on disk.
  abbrev pub Good : Storage → Outcome F64 → Type 0
  Good storage outcome =
      (outcome ≢ none)
      × Then IsSound outcome
      × ((storage' : Storage) (actions : List (Action F64))
          → outcome ≡ some (storage', actions)
          → saved storage actions ≡ storage')

  abbrev at : Option Transfer → Storage
  at active = record { balancing = active }

  idle-Good : (active : Option Transfer) → IsSound active → Good (at active) (idle (at active))
  idle-Good active s = (λ h. cc, s, λ storage' actions h. ground arith)

  process_balancing-Good :
      (active : Option Transfer) (view : View F64)
      → IsListed view
      → IsSound active
      → Good (at active) (process_balancing float (at active) view)
  unfolding process_balancing
  process_balancing-Good none view k s = (λ h. cc, tt, λ storage' actions h. ground arith)
  process_balancing-Good (some transfer) view k s = (
    on_state_total transfer.state transfer view k,
    on_state-IsSound transfer.state transfer view refl s,
    saved-on_state transfer.state transfer view,
  )

  process_withdraw-Good :
      (active : Option Transfer) (id : I64) (args : Args) (now : ℕ)
      → Good (at active) (process_withdraw float (at active) id args now)
  unfolding process_withdraw
  process_withdraw-Good none id args now = (λ h. cc, tt, λ storage' actions h. ground arith)
  process_withdraw-Good (some transfer) id args now = (
    on_withdraw_id_total transfer.state transfer id args now,
    on_withdraw_id-IsSound transfer.state transfer id args now,
    saved-on_withdraw_id transfer.state transfer id args now,
  )

  process_transfer-Good :
      (active : Option Transfer) (success : Bool) (args : Args) (now : ℕ)
      → IsSound active
      → Good (at active) (process_transfer float (at active) success args now)
  unfolding process_transfer
  process_transfer-Good none success args now s = (λ h. cc, tt, λ storage' actions h. ground arith)
  process_transfer-Good (some transfer) true args now s =
      (λ h. cc, s, λ storage' actions h. ground arith)
  process_transfer-Good (some transfer) false args now s =
      (λ h. cc, tt, λ storage' actions h. ground arith)

  process_movements-Good :
      (same : Movements → Movements → Bool) (active : Option Transfer) (msg : Movements)
      (args : Args) (seen : Option Movements) (now : ℕ)
      → IsSound active
      → Good (at active) (process_movements float same (at active) msg args seen now).0
  unfolding process_movements
  process_movements-Good same active msg args seen now s =
      pick msg.success (seen_before same msg seen)
    where
      acts :
          (active : Option Transfer)
          → IsSound active
          → Good (at active) (elim (at active).balancing [
            | none ↦ idle (at active)
            | some transfer ↦ on_movements float transfer.state transfer msg.movements args now
          ])
      acts none s = idle-Good none s
      acts (some transfer) s = (
        on_movements_total transfer.state transfer msg.movements args now s,
        on_movements-IsSound transfer.state transfer msg.movements args now refl s,
        saved-on_movements transfer.state transfer msg.movements args now,
      )

      pick :
          (success before : Bool)
          → Good
              (at active)
              (if◌then◌else◌ {A = Outcome F64 × Option Movements}
                (not success)
                (idle (at active), seen)
                (if◌then◌else◌ {A = Outcome F64 × Option Movements}
                  (not before)
                  (idle (at active), some msg)
                  (
                    elim (at active).balancing [
                      | none ↦ idle (at active)
                      | some transfer ↦
                          on_movements float transfer.state transfer msg.movements args now
                    ],
                    seen,
                  ))).0
      pick false before = idle-Good active s
      pick true false = idle-Good active s
      pick true true = acts active s

  start-Good :
      (active : Option Transfer) (req : CliRequest F64) (args : Args) (seen : Option Movements)
      (now : ℕ)
      → IsSound active
      → Good (at active) (start float (at active) req args seen now).1
  unfolding start
  start-Good none req args seen now s = (λ h. cc, ground arith, λ storage' actions h. ground arith)
  start-Good (some transfer) req args seen now s = (λ h. cc, s, λ storage' actions h. ground arith)

module _ (float : Float) (same : Movements → Movements → Bool) (args : Args) where
  open float use {F64}

  -- A timer event comes with an asset list that has USDt, if the wallet has L-BTC.
  abbrev pub IsPossible : Event F64 → Type 0
  IsPossible (timer view) = IsListed float view
  IsPossible _ = Unit {0}

  abbrev pub Continues : World → Event F64 → Type 0
  Continues world event =
      (world' : World) × (actions : List (Action F64)) × (step float same args world event
        ≡ some (world', actions))
      × IsSound world'.storage.balancing
      × (saved world.storage actions ≡ world'.storage)

  from_Good :
      (storage : Storage) (seen : Option Movements) (outcome : Outcome F64)
      → Good float storage outcome
      → (world' : World) × (actions : List (Action F64)) × (with_seen seen outcome
          ≡ some (world', actions))
        × IsSound world'.storage.balancing
        × (saved storage actions ≡ world'.storage)
  from_Good storage seen none (total, sound, disk) = absurd (total refl)
  from_Good storage seen (some (storage', actions)) (total, sound, disk) =
      (record { storage = storage'; seen = seen }, actions, refl, sound, disk storage' actions refl)

  -- From a sound transfer no message panics, if a timer finds USDt in the list of assets whenever the
  -- wallet has confirmed L-BTC: the transfer stays sound, and the storage on disk after the message is
  -- the storage in memory, if it was before.
  pub step-Continues :
      (world : World) (event : Event F64)
      → IsSound world.storage.balancing
      → IsPossible event
      → Continues world event
  unfolding step
  step-Continues world (timer view) s p =
      from_Good world.storage world.seen _
        (process_balancing-Good float world.storage.balancing (record view { args = args }) p s)
  step-Continues world (withdraw_result id now) s p =
      from_Good world.storage world.seen _
        (process_withdraw-Good float world.storage.balancing id args now)
  step-Continues world (transfer_result success now) s p =
      from_Good world.storage world.seen _
        (process_transfer-Good float world.storage.balancing success args now s)
  step-Continues world (movements_result msg now) s p =
      from_Good world.storage _ _
        (process_movements-Good float same world.storage.balancing msg args world.seen now s)
  step-Continues world (cli req now) s p =
      from_Good world.storage _ _
        (start-Good float world.storage.balancing req args world.seen now s)
