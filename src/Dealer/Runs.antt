-- ===== src/Dealer/Runs.antt =====
-- What holds of the dealer after any messages.
use sideswapclient.Prelude.{
  ℕ, ◌+◌, ◌≤◌, ◌≡◌, true, false, Option, none, some, List, [], ◌∷◌, length, arith, Ensures,
  Ensures-bind, Ensures-if, Ensures-some, Ensures-all,
}
use sideswapclient.Prelude.Float.{Float}
use sideswapclient.Prelude.Map.{Map, insert}
use sideswapclient.Ticker.{DealerTicker}
use sideswapclient.Dealer.Types.{
  OrderId, UnspentItem, OwnOrder, OwnOrderKey, own_key, Params, Msg, to, timer, connected,
  disconnected, notification, reload_utxo,
}
use sideswapclient.Dealer.Psets.{Outside}
use sideswapclient.Dealer.State.{State, is_taken}
use sideswapclient.Dealer.Reload.{process_reload}
use sideswapclient.Dealer.Worker.{step, run, own_keys, initial, start, params_checks}
use sideswapclient.Dealer.Trades.{signs, takes, swaps}
use sideswapclient.Dealer.OwnOrders.{AllWithin}
use sideswapclient.Dealer.Safety.{IsSafe, Fine, Fine-refl, Fine-trans, process_timer-Fine}
use sideswapclient.Dealer.Messages.{
  process_disconnected-IsSafe, process_to-Fine, process_connected-Fine, process_notification-Fine,
}

module _ {F : Type 0} (params : Params F) where
  insert-AllWithin :
      (key : OwnOrderKey) (owns : Map OwnOrderKey (Option (OwnOrder F)))
      → AllWithin params owns
      → AllWithin params (insert key none owns)
  unfolding insert
  insert-AllWithin key [] a = (tt, tt)
  insert-AllWithin key ((other, own) ∷ owns) a = ground (arith, a, insert-AllWithin key owns)

  Fine-after :
      (state next : State F) (o : Option (State F))
      → Fine params state next
      → Ensures (Fine params next) o
      → Ensures (Fine params state) o
  Fine-after state next none f g = tt
  Fine-after state next (some later) f g = Fine-trans params state next later f g

module _ {F : Type 0} where
  -- The message is not that the connection to the server was lost.
  abbrev pub IsOnline : Msg F → Type 0
  IsOnline disconnected = ⊥
  IsOnline (to msg) = Unit
  IsOnline timer = Unit
  IsOnline connected = Unit
  IsOnline (notification msg) = Unit
  IsOnline reload_utxo = Unit

  abbrev pub AllOnline : List (Outside F × Msg F) → Type 0
  AllOnline [] = Unit
  AllOnline (message ∷ messages) = IsOnline message.1 × AllOnline messages

module _ (float : Float) (params : Params (float.F64)) where
  open float use {F64}

  own_keys-AllWithin :
      (tickers : List DealerTicker) → AllWithin params (own_keys float params tickers)
  unfolding own_keys
  own_keys-AllWithin [] = tt
  own_keys-AllWithin (ticker ∷ tickers) =
      insert-AllWithin params (record { ticker = ticker; send_bitcoins = false }) _
        (insert-AllWithin params (record { ticker = ticker; send_bitcoins = true }) _
          (own_keys-AllWithin tickers))

  process_reload-Fine :
      (outside : Outside F64) (state : State F64)
      → Ensures (Fine params state) (process_reload float outside state)
  unfolding process_reload
  process_reload-Fine outside state =
      Ensures-bind (λ (_ : List UnspentItem). Unit {0}) (Fine params state) outside.list_unspent _
        (Ensures-all _ _ λ _. tt) λ (items : List UnspentItem) _. Fine-refl params state

  step-Fine :
      (outside : Outside F64) (msg : Msg F64) (state : State F64)
      → IsOnline msg
      → AllWithin params state.own_orders
      → Ensures (Fine params state) (step float outside params msg state)
  unfolding step
  step-Fine outside (to msg) state o w = process_to-Fine params msg outside.now state
  step-Fine outside timer state o w = process_timer-Fine float outside params state w
  step-Fine outside connected state o w = process_connected-Fine float outside params state
  step-Fine outside disconnected state o w = absurd o
  step-Fine outside (notification msg) state o w =
      process_notification-Fine float outside params msg state
  step-Fine outside reload_utxo state o w = process_reload-Fine outside state

  safe :
      (state : State F64) (o : Option (State F64))
      → Ensures (Fine params state) o
      → Ensures (IsSafe params state) o
  safe state none f = tt
  safe state (some later) f = f.0

  step-IsSafe :
      (outside : Outside F64) (msg : Msg F64) (state : State F64)
      → AllWithin params state.own_orders
      → Ensures (IsSafe params state) (step float outside params msg state)
  unfolding step
  step-IsSafe outside (to msg) state w = (process_to-Fine params msg outside.now state).0
  step-IsSafe outside timer state w = safe state _ (process_timer-Fine float outside params state w)
  step-IsSafe outside connected state w =
      safe state _ (process_connected-Fine float outside params state)
  step-IsSafe outside disconnected state w = process_disconnected-IsSafe params state
  step-IsSafe outside (notification msg) state w =
      safe state _ (process_notification-Fine float outside params msg state)
  step-IsSafe outside reload_utxo state w = safe state _ (process_reload-Fine outside state)

  -- The own orders are within the limits, and what was reported or waits was signed.
  abbrev Holds : State F64 → Type 0
  Holds state =
      AllWithin params state.own_orders
      × (swaps state.reported + length state.pending_signs ≤ signs state.sent)

  start-Holds : (now : ℕ) → Ensures Holds (start float params now)
  unfolding start initial
  start-Holds now =
      Ensures-if Holds (params_checks float params) (some (initial float params now)) none
        (λ _. (own_keys-AllWithin params.tickers, omega arith)) (λ _. tt)

  run-Holds :
      (messages : List (Outside F64 × Msg F64)) (state : State F64)
      → Holds state
      → Ensures Holds (run float params messages state)
  unfolding run
  run-Holds [] state h = h
  run-Holds ((outside, msg) ∷ messages) state h =
      Ensures-bind (IsSafe params state) Holds (step float outside params msg state) _
        (step-IsSafe outside msg state h.0)
        λ (next : State F64) (w, le). run-Holds messages next (w h.0, omega (arith, le, h.1))

  run-Fine :
      (messages : List (Outside F64 × Msg F64)) (state : State F64)
      → AllOnline messages
      → AllWithin params state.own_orders
      → Ensures (Fine params state) (run float params messages state)
  unfolding run
  run-Fine [] state o w = Fine-refl params state
  run-Fine ((outside, msg) ∷ messages) state o w =
      Ensures-bind (Fine params state) (Fine params state) (step float outside params msg state) _
        (step-Fine outside msg state o.0 w)
        λ (next : State F64) f.
          Fine-after params state next (run float params messages next) f
            (run-Fine messages next o.1 (f.0.0 w))

  -- When the dealer starts and handles any messages without a panic, each of its own orders
  -- has a bitcoin amount that is not less than `bitcoin_amount_min` and not more than
  -- `bitcoin_amount_submit`, whatever the server, the wallet and the prices do.
  pub run-AllWithin :
      (messages : List (Outside F64 × Msg F64)) (now : ℕ) (state later : State F64)
      → start float params now ≡ some state
      → run float params messages state ≡ some later
      → AllWithin params later.own_orders
  run-AllWithin messages now state later s r =
      (Ensures-some Holds _ (run-Holds messages state (Ensures-some Holds _ (start-Holds now) s))
        r).0

  -- When the dealer starts and handles any messages without a panic, the swaps that it has
  -- reported and the orders that wait for completion are together no more than the signatures
  -- that it has sent.
  pub run-reported :
      (messages : List (Outside F64 × Msg F64)) (now : ℕ) (state later : State F64)
      → start float params now ≡ some state
      → run float params messages state ≡ some later
      → swaps later.reported + length later.pending_signs ≤ signs later.sent
  run-reported messages now state later s r =
      (Ensures-some Holds _ (run-Holds messages state (Ensures-some Holds _ (start-Holds now) s))
        r).1

  -- While the connection is not lost, an order that was taken stays taken and no inputs are
  -- sent for it again, whatever messages are handled without a panic, if the dealer's own
  -- orders are within the limits at first.
  pub run-TakesOnce :
      (messages : List (Outside F64 × Msg F64)) (state later : State F64) (id : OrderId)
      → AllOnline messages
      → AllWithin params state.own_orders
      → is_taken id state.taken_orders ≡ true
      → run float params messages state ≡ some later
      → (is_taken id later.taken_orders ≡ true) × (takes id later.sent ≡ takes id state.sent)
  run-TakesOnce messages state later id o w h r =
      (Ensures-some (Fine params state) _ (run-Fine messages state o w) r).1 id h
