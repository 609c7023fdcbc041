-- ===== src/Headless/Exclusive.antt =====
-- No callback makes two orders hold the same input: what `process_submit_inputs` chooses was free.
use sideswapclient.Prelude.{
  ◌>>=◌, ◌≡◌, Bool, true, false, Option, none, some, List, [], ◌∷◌, map, arith, All, All-perm, Perm,
  Bool-cases, Option-cases, inl, inr, if◌then◌else◌,
}
use sideswapclient.Prelude.Int64
use sideswapclient.Prelude.Int64.{I64}
use sideswapclient.Prelude.Key.{nat_key, Text}
use sideswapclient.Prelude.Map.{Map, insert, values}
use sideswapclient.Utxo.{select_utxo_values}
use sideswapclient.Utxo.Values.{select_utxo_values-All}
use sideswapclient.Headless.Types.{
  OrderId, Sender, request_id_key, OutPoint, OrderState, active, failed, UnspentOutput, PsetInput,
  SwapInputs, Details, SubmitResponse, NewOrder, Request, login_resp, submit_resp, pset_maker_resp,
  sign_resp, other_resp, Answer, ok, err, Callback, on_login, on_sign, on_pset_maker, on_submit,
  Data,
}
use sideswapclient.Headless.Requests.{
  Step, cancel_order, cancel_orders, send_request, make_async_request, finish_login, finish_sign,
  finish_pset_maker, key_is_free, not_connected,
}
use sideswapclient.Headless.Submit.{
  Outside, outpoint_eq, contains, reserved_of, outpoint, unreserved, input_outpoint,
  convert_to_swap_utxo, weighted, candidates, send_asset_amount, total_satoshi, refuse_inputs,
  submit_inputs, submit_from, process_submit_inputs, finish_submit, run_callback, run_pset_maker,
}
use sideswapclient.Headless.Reserved.{
  IsDisjoint, IsDisjoint-Shrinks, insert-Shrinks, insert-IsDisjoint, Holds-reserved,
}

-- `shuffle` rearranges.
abbrev pub Shuffles : {F : Type 0} → Outside F → Type 0
Shuffles outside = (inputs : List UnspentOutput) → Perm (outside.shuffle inputs) inputs

abbrev IsFree : List OutPoint → OutPoint → Type 0
IsFree reserved o = contains o reserved ≡ false

unreserved-IsFree :
    (reserved : List OutPoint) (inputs : List UnspentOutput)
    → All (λ input. IsFree reserved (outpoint input)) (unreserved reserved inputs)
unfolding unreserved
unreserved-IsFree reserved [] = tt
unreserved-IsFree reserved (input ∷ inputs) =
    elim (Bool-cases (contains (outpoint input) reserved)) [
      | inl e ↦ rw e (unreserved-IsFree reserved inputs)
      | inr e ↦ rw e (e, unreserved-IsFree reserved inputs)
    ]

outpoint_eq→eq : (a b : OutPoint) → outpoint_eq a b ≡ true → a ≡ b
outpoint_eq→eq a b h = ground arith

-- A free input is none of the reserved ones.
free-reserved :
    (reserved chosen : List OutPoint) (o : OutPoint)
    → All (IsFree reserved) chosen
    → contains o chosen ≡ true
    → contains o reserved ≡ true
    → ⊥
free-reserved reserved [] o a h k = cc
free-reserved reserved (x ∷ chosen) o a h k = elim (Bool-cases (outpoint_eq x o)) [
  | inl e ↦ ground (arith, a.0, outpoint_eq→eq x o e)
  | inr e ↦ free-reserved reserved chosen o a.1 (rw e at h) k
]

All-map {ℓ κ μ} :
    {A : Type ℓ} {B : Type κ} (f : A → B) (P : B → Type μ) (xs : List A)
    → All (λ x. P (f x)) xs
    → All P (map f xs)
All-map f P [] a = tt
All-map f P (x ∷ xs) a = (a.0, All-map f P xs a.1)

pub insert_failed-IsDisjoint :
    (id : OrderId) (orders : Map OrderId OrderState)
    → IsDisjoint orders
    → IsDisjoint (insert id failed orders)
insert_failed-IsDisjoint id orders d =
    IsDisjoint-Shrinks orders _ (insert-Shrinks id failed orders λ o h. cc) d

module _ {F : Type 0} where
  -- If there is no panic, no two orders hold the same input afterwards.
  abbrev pub Safe : Option (Data F) → Type 0
  Safe none = Unit
  Safe (some later) = IsDisjoint later.orders

  pub bind-Safe :
      (outcome : Option (Data F)) (f : Step F)
      → Safe outcome
      → ((later : Data F) → IsDisjoint later.orders → Safe (f later))
      → Safe (outcome >>= f)
  bind-Safe none f a g = tt
  bind-Safe (some later) f a g = g later a

  pub if-Safe : (b : Bool) (x y : Option (Data F)) → Safe x → Safe y → Safe (if b then x else y)
  if-Safe true x y f g = f
  if-Safe false x y f g = g

  pub cancel_order-IsDisjoint :
      (id : OrderId) (data' : Data F)
      → IsDisjoint data'.orders
      → IsDisjoint (cancel_order id data').orders
  unfolding cancel_order send_request
  cancel_order-IsDisjoint id data' d = elim (Bool-cases data'.ws_connected) [
    | inl e ↦ rw e (insert_failed-IsDisjoint id data'.orders d)
    | inr e ↦ rw e (insert_failed-IsDisjoint id data'.orders d)
  ]

  cancel_orders-IsDisjoint :
      (ids : List OrderId) (data' : Data F)
      → IsDisjoint data'.orders
      → IsDisjoint (cancel_orders ids data').orders
  unfolding cancel_orders
  cancel_orders-IsDisjoint [] data' d = d
  cancel_orders-IsDisjoint (id ∷ ids) data' d =
      cancel_orders-IsDisjoint ids (cancel_order id data') (cancel_order-IsDisjoint id data' d)

  pub make_async_request-Safe :
      (respond : Callback F → Answer F → Step F) (req : Request F) (callback : Callback F)
      (data' : Data F)
      → IsDisjoint data'.orders
      → Safe (respond callback (err not_connected) data')
      → Safe (make_async_request respond req callback data')
  unfolding make_async_request
  make_async_request-Safe respond req callback data' d s = if-Safe data'.ws_connected _ _ d s

  finish_login-Safe :
      (answer : Answer F) (data' : Data F)
      → IsDisjoint data'.orders
      → Safe (finish_login answer data')
  unfolding finish_login
  finish_login-Safe (ok (login_resp orders)) data' d = cancel_orders-IsDisjoint orders data' d
  finish_login-Safe (ok (submit_resp x)) data' d = tt
  finish_login-Safe (ok pset_maker_resp) data' d = tt
  finish_login-Safe (ok sign_resp) data' d = tt
  finish_login-Safe (ok other_resp) data' d = tt
  finish_login-Safe (err e) data' d = d

  finish_sign-Safe :
      (id : OrderId) (answer : Answer F) (data' : Data F)
      → IsDisjoint data'.orders
      → Safe (finish_sign id answer data')
  unfolding finish_sign
  finish_sign-Safe id (ok (login_resp orders)) data' d = tt
  finish_sign-Safe id (ok (submit_resp x)) data' d = tt
  finish_sign-Safe id (ok pset_maker_resp) data' d = tt
  finish_sign-Safe id (ok sign_resp) data' d = d
  finish_sign-Safe id (ok other_resp) data' d = tt
  finish_sign-Safe id (err e) data' d = cancel_order-IsDisjoint id data' d

  finish_pset_maker-Safe :
      (id : OrderId) (details : Details F) (unique_key : Option Text) (sender : Sender)
      (answer : Answer F) (data' : Data F)
      → IsDisjoint data'.orders
      → Safe (finish_pset_maker id details unique_key sender answer data')
  unfolding finish_pset_maker
  finish_pset_maker-Safe id details none sender (ok pset_maker_resp) data' d = d
  finish_pset_maker-Safe id details (some key) sender (ok pset_maker_resp) data' d =
      elim (Bool-cases (key_is_free key data')) [
        | inl e ↦ rw e d
        | inr e ↦ rw e (cancel_order-IsDisjoint id _ d)
      ]
  finish_pset_maker-Safe id details none sender (ok (login_resp orders)) data' d = tt
  finish_pset_maker-Safe id details none sender (ok (submit_resp x)) data' d = tt
  finish_pset_maker-Safe id details none sender (ok sign_resp) data' d = tt
  finish_pset_maker-Safe id details none sender (ok other_resp) data' d = tt
  finish_pset_maker-Safe id details (some key) sender (ok (login_resp orders)) data' d = tt
  finish_pset_maker-Safe id details (some key) sender (ok (submit_resp x)) data' d = tt
  finish_pset_maker-Safe id details (some key) sender (ok sign_resp) data' d = tt
  finish_pset_maker-Safe id details (some key) sender (ok other_resp) data' d = tt
  finish_pset_maker-Safe id details none sender (err e) data' d = cancel_order-IsDisjoint id data' d
  finish_pset_maker-Safe id details (some key) sender (err e) data' d =
      cancel_order-IsDisjoint id data' d

module _ {F : Type 0} (outside : Outside F) (shuffles : Shuffles outside) where
  candidates-IsFree :
      (data' : Data F) (inputs : SwapInputs) (details : Details F)
      → All
          (λ input. IsFree (reserved_of (values data'.orders)) (outpoint input))
          (candidates outside data' inputs details)
  candidates-IsFree data' inputs details =
      let reserved = reserved_of (values data'.orders) in
      All-perm (λ input. contains (outpoint input) reserved) false _ _ (shuffles _)
        (unreserved-IsFree reserved _)

  chosen-IsFree :
      (reserved : List OutPoint) (inputs : List UnspentOutput) (amount : I64)
      {chosen : List PsetInput}
      → All (λ input. IsFree reserved (outpoint input)) inputs
      → select_utxo_values (weighted outside inputs) amount ≡ some chosen
      → All (IsFree reserved) (map (input_outpoint outside) chosen)
  unfolding convert_to_swap_utxo
  chosen-IsFree reserved inputs amount {chosen} a h =
      All-map (input_outpoint outside) (IsFree reserved) chosen (
        select_utxo_values-All (λ w. IsFree reserved (input_outpoint outside w.1))
          (λ input. IsFree reserved (input_outpoint outside input)) (weighted outside inputs) amount
          (λ w p. p)
          (All-map (λ input. (input.satoshi, convert_to_swap_utxo outside input))
            (λ w. IsFree reserved (input_outpoint outside w.1)) inputs a)
          h)

  submit_inputs-Safe :
      (resp : SubmitResponse F) (order : NewOrder F) (sender : Sender) (inputs : SwapInputs)
      (chosen : List PsetInput) (data' : Data F)
      → IsDisjoint data'.orders
      → All (IsFree (reserved_of (values data'.orders))) (map (input_outpoint outside) chosen)
      → Safe (submit_inputs outside resp order sender inputs chosen data')
  unfolding submit_inputs run_pset_maker make_async_request
  submit_inputs-Safe resp order sender inputs chosen data' d a =
      let now : IsDisjoint
          (insert resp.order_id (active (map (input_outpoint outside) chosen)) data'.orders) =
        insert-IsDisjoint resp.order_id _ data'.orders
          (λ j o h k. free-reserved _ _ o a h (Holds-reserved data'.orders j o k)) d in
      let new = record data' {
        orders = insert resp.order_id (active (map (input_outpoint outside) chosen)) data'.orders;
      } in
      if-Safe {F = F} data'.ws_connected _ _ now (
        finish_pset_maker-Safe {F = F} resp.order_id resp.details order.unique_key sender
          (err not_connected) new now)

  choose-Safe :
      (resp : SubmitResponse F) (order : NewOrder F) (sender : Sender) (inputs : SwapInputs)
      (data' : Data F) (usable : List UnspentOutput) (amount : I64)
      → IsDisjoint data'.orders
      → All (λ input. IsFree (reserved_of (values data'.orders)) (outpoint input)) usable
      → Safe (
          select_utxo_values (weighted outside usable) amount >>= λ chosen.
          submit_inputs outside resp order sender inputs chosen data')
  choose-Safe resp order sender inputs data' usable amount d a =
      elim (Option-cases (select_utxo_values (weighted outside usable) amount)) [
        | inl e ↦ rw e tt
        | inr (chosen, e) ↦ rw e (
            submit_inputs-Safe resp order sender inputs chosen data' d
              (chosen-IsFree _ usable amount a e))
      ]

  submit_from-Safe :
      (resp : SubmitResponse F) (order : NewOrder F) (sender : Sender) (inputs : Option SwapInputs)
      (data' : Data F)
      → IsDisjoint data'.orders
      → Safe (submit_from outside resp order sender inputs data')
  unfolding submit_from
  submit_from-Safe resp order sender none data' d =
      cancel_order-IsDisjoint {F = F} resp.order_id data' d
  submit_from-Safe resp order sender (some inputs) data' d =
      let usable = candidates outside data' inputs resp.details in
      let amount = (send_asset_amount outside data' resp.details).1 in
      if-Safe {F = F} (Int64.lt (total_satoshi usable) amount)
        (some (refuse_inputs outside resp.order_id sender data')) _
        (cancel_order-IsDisjoint {F = F} resp.order_id data' d)
        (choose-Safe resp order sender inputs data' usable amount d
          (candidates-IsFree data' inputs resp.details))

  finish_submit-Safe :
      (order : NewOrder F) (sender : Sender) (answer : Answer F) (data' : Data F)
      → IsDisjoint data'.orders
      → Safe (finish_submit outside order sender answer data')
  unfolding finish_submit process_submit_inputs
  finish_submit-Safe order sender (ok (submit_resp resp)) data' d =
      submit_from-Safe resp order sender data'.inputs data' d
  finish_submit-Safe order sender (ok (login_resp x)) data' d = tt
  finish_submit-Safe order sender (ok pset_maker_resp) data' d = tt
  finish_submit-Safe order sender (ok sign_resp) data' d = tt
  finish_submit-Safe order sender (ok other_resp) data' d = tt
  finish_submit-Safe order sender (err e) data' d = d

  pub run_callback-Safe :
      (callback : Callback F) (answer : Answer F) (data' : Data F)
      → IsDisjoint data'.orders
      → Safe (run_callback outside callback answer data')
  unfolding run_callback
  run_callback-Safe on_login answer data' d = finish_login-Safe {F = F} answer data' d
  run_callback-Safe (on_sign id) answer data' d = finish_sign-Safe {F = F} id answer data' d
  run_callback-Safe (on_pset_maker id details order sender) answer data' d =
      finish_pset_maker-Safe {F = F} id details order.unique_key sender answer data' d
  run_callback-Safe (on_submit order sender) answer data' d =
      finish_submit-Safe order sender answer data' d
