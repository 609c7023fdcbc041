-- ===== src/Headless/Reserved.antt =====
-- No input is held by two orders at a time.
use sideswapclient.Prelude.{
  ◌≡◌, subst, true, false, Option, none, some, List, [], ◌∷◌, ◌++◌, arith, Bool-cases, inl, inr,
  ◌⊎◌, ◌==◌, ==_iff,
}
use sideswapclient.Prelude.Key.{nat_key}
use sideswapclient.Prelude.Map.{Map, get, insert, remove, values, get-insert, get-remove_ne}
use sideswapclient.Headless.Types.{OrderId, OutPoint, OrderState}
use sideswapclient.Headless.Submit.{inputs_of, contains, reserved_of}

-- The inputs that an order holds: of an order that is active or done.
abbrev pub held : Option OrderState → List OutPoint
held none = []
held (some order) = inputs_of order

abbrev pub Holds : Map OrderId OrderState → OrderId → OutPoint → Type 0
Holds orders id o = contains o (held (get id orders)) ≡ true

-- Two orders hold no input in common.
abbrev pub IsDisjoint : Map OrderId OrderState → Type 0
IsDisjoint orders =
    (a b : OrderId) (o : OutPoint) → (a == b) ≡ false → Holds orders a o → Holds orders b o → ⊥

-- Every input of `later` is held by the same order in `orders`.
abbrev pub Shrinks : Map OrderId OrderState → Map OrderId OrderState → Type 0
Shrinks orders later = (id : OrderId) (o : OutPoint) → Holds later id o → Holds orders id o

pub Shrinks-trans : (a b c : Map OrderId OrderState) → Shrinks a b → Shrinks b c → Shrinks a c
Shrinks-trans a b c f g id o h = f id o (g id o h)

pub IsDisjoint-Shrinks :
    (orders later : Map OrderId OrderState)
    → Shrinks orders later
    → IsDisjoint orders
    → IsDisjoint later
IsDisjoint-Shrinks orders later f d a b o ne h k = d a b o ne (f a o h) (f b o k)

insert-cases :
    (id : OrderId) (order : OrderState) (orders : Map OrderId OrderState) (j : OrderId)
    (o : OutPoint)
    → Holds (insert id order orders) j o
    → (((id == j) ≡ true) × (contains o (inputs_of order) ≡ true))
      ⊎ (((id == j) ≡ false) × Holds orders j o)
insert-cases id order orders j o h = elim (Bool-cases (id == j)) [
  | inl e ↦ inl (e, rw (get-insert id j order orders, e) at h)
  | inr e ↦ inr (e, rw (get-insert id j order orders, e) at h)
]

-- An order is replaced by one that holds none of the inputs, or the same.
pub insert-Shrinks :
    (id : OrderId) (order : OrderState) (orders : Map OrderId OrderState)
    → ((o : OutPoint) → contains o (inputs_of order) ≡ true → Holds orders id o)
    → Shrinks orders (insert id order orders)
insert-Shrinks id order orders f j o h = elim (insert-cases id order orders j o h) [
  | inl (e, x) ↦ subst (λ z. Holds orders z o) ((==_iff id j).0 e) (f o x)
  | inr (e, x) ↦ x
]

-- An order that holds inputs which no order held.
pub insert-IsDisjoint :
    (id : OrderId) (order : OrderState) (orders : Map OrderId OrderState)
    → ((j : OrderId) (o : OutPoint) → contains o (inputs_of order) ≡ true → Holds orders j o → ⊥)
    → IsDisjoint orders
    → IsDisjoint (insert id order orders)
insert-IsDisjoint id order orders f d a b o ne h k = elim (insert-cases id order orders a o h) [
  | inl (e, x) ↦ elim (insert-cases id order orders b o k) [
    | inl (g, y) ↦ ground (arith, e, g, ne)
    | inr (g, y) ↦ f b o x y
  ]
  | inr (e, x) ↦ elim (insert-cases id order orders b o k) [
    | inl (g, y) ↦ f a o y x
    | inr (g, y) ↦ d a b o ne x y
  ]
]

-- What an order holds is in the set `reserved`.
contains-left :
    (o : OutPoint) (xs ys : List OutPoint) → contains o xs ≡ true → contains o (xs ++ ys) ≡ true
contains-left o [] ys h = cc
contains-left o (x ∷ xs) ys h = ground (arith, contains-left o xs ys)

contains-right :
    (o : OutPoint) (xs ys : List OutPoint) → contains o ys ≡ true → contains o (xs ++ ys) ≡ true
contains-right o [] ys h = h
contains-right o (x ∷ xs) ys h = ground (arith, contains-right o xs ys)

pub Holds-reserved :
    (orders : Map OrderId OrderState) (id : OrderId) (o : OutPoint)
    → Holds orders id o
    → contains o (reserved_of (values orders)) ≡ true
unfolding get
Holds-reserved [] id o h = cc
Holds-reserved ((j, order) ∷ orders) id o h = elim (Bool-cases (j == id)) [
  | inl e ↦ contains-left o (inputs_of order) _ (rw e at h)
  | inr e ↦ contains-right o (inputs_of order) _ (Holds-reserved orders id o (rw e at h))
]

-- `remove`, then `insert` of an order on the same inputs.
pub replace-Shrinks :
    (id : OrderId) (order : OrderState) (orders : Map OrderId OrderState)
    → ((o : OutPoint) → contains o (inputs_of order) ≡ true → Holds orders id o)
    → Shrinks orders (insert id order (remove id orders))
replace-Shrinks id order orders f j o h = elim (insert-cases id order (remove id orders) j o h) [
  | inl (e, x) ↦ subst (λ z. Holds orders z o) ((==_iff id j).0 e) (f o x)
  | inr (e, x) ↦ subst (λ z. contains o (held z) ≡ true) (get-remove_ne id j orders e) x
]
