-- ===== src/Dealer/Trades.antt =====
-- How many requests of a kind were sent: signatures, and inputs for an order of another dealer.
use sideswapclient.Prelude.{ℕ, ◌+◌, ◌≡◌, refl, ◌∙◌, List, [], ◌∷◌, ◌++◌, if◌then◌else◌, ◌==◌, arith}
use sideswapclient.Dealer.Types.{
  OrderId, Request, assets, login, subscribe, submit, pset_maker, pset_taker, sign, edit, cancel,
  From, swap, wallet_balance_updated,
}

module _ {F : Type 0} where
  abbrev one_sign : Request F → ℕ
  one_sign (sign id pset side) = 1
  one_sign assets = 0
  one_sign login = 0
  one_sign (subscribe asset) = 0
  one_sign (submit asset amount price) = 0
  one_sign (pset_maker request) = 0
  one_sign (pset_taker request) = 0
  one_sign (edit id price) = 0
  one_sign (cancel id) = 0

  abbrev one_take : OrderId → Request F → ℕ
  one_take id (pset_taker request) = if request.order_id == id then 1 else 0
  one_take id (sign order pset side) = 0
  one_take id assets = 0
  one_take id login = 0
  one_take id (subscribe asset) = 0
  one_take id (submit asset amount price) = 0
  one_take id (pset_maker request) = 0
  one_take id (edit order price) = 0
  one_take id (cancel order) = 0

  -- The signatures sent.
  abbrev pub signs : List (Request F) → ℕ
  signs [] = 0
  signs (request ∷ requests) = one_sign request + signs requests

  -- The inputs sent for an order.
  abbrev pub takes : OrderId → List (Request F) → ℕ
  takes id [] = 0
  takes id (request ∷ requests) = one_take id request + takes id requests

  pub signs-append :
      (requests : List (Request F)) (request : Request F)
      → signs (requests ++ request ∷ []) ≡ signs requests + one_sign request
  signs-append [] request = omega arith
  signs-append (x ∷ xs) request = omega (arith, signs-append xs request)

  pub takes-append :
      (id : OrderId) (requests : List (Request F)) (request : Request F)
      → takes id (requests ++ request ∷ []) ≡ takes id requests + one_take id request
  takes-append id [] request = omega arith
  takes-append id (x ∷ xs) request = omega (arith, takes-append id xs request)

  -- The later requests are no signatures and no inputs for orders of others.
  abbrev pub SameTrades : List (Request F) → List (Request F) → Type 0
  SameTrades sent later =
      (signs later ≡ signs sent) × ((id : OrderId) → takes id later ≡ takes id sent)

  pub SameTrades-refl : (sent : List (Request F)) → SameTrades sent sent
  SameTrades-refl sent = (refl, λ id. refl)

  pub SameTrades-trans :
      (a b c : List (Request F)) → SameTrades a b → SameTrades b c → SameTrades a c
  SameTrades-trans a b c h k = (k.0 ∙ h.0, λ id. k.1 id ∙ h.1 id)

  -- A request that is neither.
  pub append-SameTrades :
      (sent : List (Request F)) (request : Request F)
      → one_sign request ≡ 0
      → ((id : OrderId) → one_take id request ≡ 0)
      → SameTrades sent (sent ++ request ∷ [])
  append-SameTrades sent request h k = (
    omega (arith, signs-append sent request, h),
    λ id. omega (arith, takes-append id sent request, k id),
  )

  abbrev one_swap : From F → ℕ
  one_swap (swap x) = 1
  one_swap wallet_balance_updated = 0

  -- The swaps reported.
  abbrev pub swaps : List (From F) → ℕ
  swaps [] = 0
  swaps (msg ∷ msgs) = one_swap msg + swaps msgs

  pub swaps-append :
      (msgs : List (From F)) (msg : From F) → swaps (msgs ++ msg ∷ []) ≡ swaps msgs + one_swap msg
  swaps-append [] msg = omega arith
  swaps-append (x ∷ xs) msg = omega (arith, swaps-append xs msg)
