-- ===== src/Utxo/Selection.antt =====
-- What `select_utxo` returns, on amounts whose sum is below 2^63.
use mathlib.Core.List.{reverse, reverse_perm, perm_append_singleton, append_assoc}
use mathlib.Core.List.Perm
use sideswapclient.Prelude.{
  ℕ, zero, suc, ◌+◌, ◌-◌, ◌≤◌, ◌<◌, ◌≡◌, refl, ◌∙◌, ap, Bool, true, false, Option, none, some, List,
  [], ◌∷◌, ◌++◌, Perm, length, length-perm, sum, sum-perm, sum-append, arith, All, All-imp,
  All-le-sum, Bool-cases, inl, inr, ltb, lt→ltb, subst,
}
use sideswapclient.Prelude.Int64
use sideswapclient.Prelude.Int64.{I64}
use sideswapclient.Utxo.{farther, select_loop, trim_loop, select_utxo}
use sideswapclient.Utxo.Vec.{sort_by, sort_by-perm, pop, pop-cons, pop-append}
use sideswapclient.Utxo.Order.{Descending, sorted-Descending}
use sideswapclient.Utxo.Trim.{trim_loop_lem}

pop-perm :
    (xs : List I64) {last : I64} {init : List I64}
    → pop xs ≡ some (last, init)
    → Perm (last ∷ init) xs
pop-perm xs {last} {init} h = rw (pop-append xs h) (Perm.symm (perm_append_singleton last init))

-- On a list that is not empty a round finds an input.
pop-total :
    (xs : List I64)
    → 0 < length xs
    → (last : I64) × (init : List I64) × (pop xs ≡ some (last, init))
pop-total [] h = absurd (omega arith)
pop-total (x ∷ xs) h = pop-cons x xs

pop-sorted :
    (below : I64 → I64 → Bool) (xs : List I64)
    → 0 < length xs
    → (last : I64) × (init : List I64) × (pop (sort_by below xs) ≡ some (last, init))
      × Perm (last ∷ init) xs
pop-sorted below xs h =
    let p = sort_by-perm below xs in
    let (last, init, e) = pop-total (sort_by below xs) (omega (arith, length-perm p)) in
    (last, init, e, Perm.trans (pop-perm _ e) p)

select_loop-stop :
    (fuel : ℕ) (inputs : List I64) (remain : I64) (result : List I64)
    → Int64.lt 0 remain ≡ false
    → select_loop fuel inputs remain result ≡ some result
unfolding select_loop
select_loop-stop zero inputs remain result h = rw (h, select_loop)
select_loop-stop (suc fuel) inputs remain result h = rw (h, select_loop)

select_loop-next :
    (fuel : ℕ) (inputs : List I64) (remain : I64) (result : List I64) (x : I64) (rest : List I64)
    → Int64.lt 0 remain ≡ true
    → pop (sort_by (farther remain) inputs) ≡ some (x, rest)
    → select_loop (suc fuel) inputs remain result
      ≡ select_loop fuel rest (Int64.sub remain x) (result ++ x ∷ [])
unfolding select_loop
select_loop-next fuel inputs remain result x rest h e = rw (h, select_loop, e)

sum-pos_length : (xs : List I64) → 0 < sum xs → 0 < length xs
sum-pos_length [] h = h
sum-pos_length (x ∷ xs) h = omega arith

-- The loop returns, with enough added to the result, and with a part of the inputs left.
abbrev Finds : List I64 → I64 → List I64 → Option (List I64) → Type 0
Finds inputs remain result outcome =
    (r : List I64) × (left : List I64) × (outcome ≡ some r)
    × Perm (r ++ left) (result ++ inputs)
    × (sum result + remain ≤ sum r)

regroup :
    (result rest inputs : List I64) (x : I64)
    → Perm (x ∷ rest) inputs
    → Perm ((result ++ x ∷ []) ++ rest) (result ++ inputs)
regroup result rest inputs x p = rw append_assoc (Perm.append_left result p)

select_round :
    (fuel : ℕ) (inputs : List I64) (remain : I64) (result : List I64) (x : I64) (rest : List I64)
    → pop (sort_by (farther remain) inputs) ≡ some (x, rest)
    → Perm (x ∷ rest) inputs
    → 0 < remain
    → remain ≤ sum inputs
    → sum inputs < Int64.half
    → ((later : I64)
        → later ≤ sum rest
        → Finds rest later (result ++ x ∷ []) (select_loop fuel rest later (result ++ x ∷ [])))
    → Finds inputs remain result (select_loop (suc fuel) inputs remain result)
select_round fuel inputs remain result x rest e p h c b ih = elim (Bool-cases (ltb x remain)) [
  | inl more ↦
      let below : x < remain = ground arith in
      let lower : Int64.sub remain x ≡ remain - x =
        Int64.sub-nonneg remain x (omega arith) (omega arith) in
      let (r, left, found, perm, enough) = ih (remain - x) (omega (arith, below, total)) in
      (
        r,
        left,
        round ∙ ap (λ w. select_loop fuel rest w (result ++ x ∷ [])) lower ∙ found,
        Perm.trans perm onto,
        omega (arith, grown, enough, below),
      )
  | inr done ↦
      let stop : Int64.lt 0 (Int64.sub remain x) ≡ false =
        Int64.sub-not-pos remain x (ground arith) (omega (arith, total)) ∙ done in
      (
        result ++ x ∷ [],
        rest,
        round ∙ select_loop-stop fuel rest _ _ stop,
        onto,
        ground (arith, grown),
      )
]
  where
    total : x + sum rest ≡ sum inputs
    total = sum-perm p

    positive : Int64.lt 0 remain ≡ true
    positive = ground arith

    round :
        select_loop (suc fuel) inputs remain result
        ≡ select_loop fuel rest (Int64.sub remain x) (result ++ x ∷ [])
    round = select_loop-next fuel inputs remain result x rest positive e

    onto : Perm ((result ++ x ∷ []) ++ rest) (result ++ inputs)
    onto = regroup result rest inputs x p

    grown : sum (result ++ x ∷ []) ≡ sum result + x
    grown = omega (arith, sum-append result (x ∷ []))

select_loop_lem :
    (fuel : ℕ) (inputs : List I64) (remain : I64) (result : List I64)
    → length inputs ≤ fuel
    → remain ≤ sum inputs
    → sum inputs < Int64.half
    → Finds inputs remain result (select_loop fuel inputs remain result)
select_loop_lem fuel inputs zero result f c b =
    (result, inputs, select_loop-stop fuel inputs 0 result refl, Perm.refl _, omega arith)
select_loop_lem zero [] (suc n) result f c b = absurd (omega arith)
select_loop_lem zero (x ∷ xs) (suc n) result f c b = absurd (omega arith)
select_loop_lem (suc fuel) inputs (suc n) result f c b =
    let (x, rest, e, p) =
      pop-sorted (farther (suc n)) inputs (sum-pos_length inputs (omega arith)) in
    select_round fuel inputs (suc n) result x rest e p (omega arith) c b λ later k.
      select_loop_lem fuel rest later (result ++ x ∷ []) (omega (arith, length-perm p)) k
        (omega (arith, sum-perm p))

-- `select_utxo` returns inputs that cover the amount; none of them can be spared, in that without
-- it the others add up to the amount at most.
abbrev pub Selects : List I64 → I64 → List I64 → Type 0
Selects inputs amount r =
    (left : List I64) × Perm (r ++ left) inputs × (amount ≤ sum r) × All (λ x. sum r ≤ amount + x) r

select_utxo-chain :
    (inputs : List I64) (amount : I64) (chosen : List I64) {outcome : Option (List I64)}
    → Int64.lt 0 amount ≡ true
    → select_loop (length inputs) inputs amount [] ≡ some chosen
    → trim_loop
        (length (reverse (sort_by Int64.lt chosen)))
        (reverse (sort_by Int64.lt chosen))
        amount
      ≡ outcome
    → select_utxo inputs amount ≡ outcome
unfolding select_utxo
select_utxo-chain inputs amount chosen h e k = rw (h, select_utxo, e) k

select_trimmed :
    (inputs : List I64) (amount : I64)
    → 0 < amount
    → sum inputs < Int64.half
    → (chosen left : List I64) → select_loop (length inputs) inputs amount [] ≡ some chosen
    → Perm (chosen ++ left) inputs
    → amount ≤ sum chosen
    → (r : List I64) × (select_utxo inputs amount ≡ some r) × Selects inputs amount r
select_trimmed inputs amount h b chosen left e p c =
    let (r, dropped, found, perm, enough, spare) =
      trim_loop_lem (length sorted) sorted amount (omega arith) h (omega (arith, same))
        (omega (arith, same, total)) descending in
    (
      r,
      select_utxo-chain inputs amount chosen positive e found,
      (
        dropped ++ left,
        Perm.trans
            (subst (λ z. Perm z (sorted ++ left)) (append_assoc r dropped left)
              (Perm.append_right left perm))
            onto,
        enough,
        spare,
      ),
    )
  where
    sorted : List I64
    sorted = reverse (sort_by Int64.lt chosen)

    order : Perm sorted chosen
    order = Perm.trans (reverse_perm (sort_by Int64.lt chosen)) (sort_by-perm Int64.lt chosen)

    same : sum sorted ≡ sum chosen
    same = sum-perm order

    onto : Perm (sorted ++ left) inputs
    onto = Perm.trans (Perm.append_right left order) p

    total : sum chosen ≤ sum inputs
    total = omega (arith, sum-perm p, sum-append chosen left)

    positive : Int64.lt 0 amount ≡ true
    positive = Int64.lt-nonneg 0 amount (omega arith) (omega (arith, total)) ∙ lt→ltb 0 amount h

    descending : Descending sorted
    descending =
        sorted-Descending chosen
          (All-imp (λ x k. omega arith) chosen (All-le-sum (sum inputs) chosen total))

-- For an amount above 0 that the inputs cover, with a sum of inputs below 2^63, `select_utxo` does
-- not panic. Its result is a part of the inputs, covers the amount, and holds no input whose removal
-- would leave more than the amount.
pub select_utxo-Selects :
    (inputs : List I64) (amount : I64)
    → 0 < amount
    → amount ≤ sum inputs
    → sum inputs < Int64.half
    → (r : List I64) × (select_utxo inputs amount ≡ some r) × Selects inputs amount r
select_utxo-Selects inputs amount h c b =
    let (chosen, left, e, p, enough) =
      select_loop_lem (length inputs) inputs amount [] (omega arith) c b in
    select_trimmed inputs amount h b chosen left e p (omega arith)

select_short :
    (fuel : ℕ) (inputs : List I64) (remain : I64) (result : List I64) (x : I64) (rest : List I64)
    → pop (sort_by (farther remain) inputs) ≡ some (x, rest)
    → x + sum rest ≡ sum inputs
    → sum inputs < remain
    → remain < Int64.half
    → ((later : I64)
        → sum rest < later
        → later < Int64.half
        → select_loop fuel rest later (result ++ x ∷ []) ≡ none)
    → select_loop (suc fuel) inputs remain result ≡ none
select_short fuel inputs remain result x rest e total h b ih =
    select_loop-next fuel inputs remain result x rest (ground arith) e
    ∙ ap (λ w. select_loop fuel rest w (result ++ x ∷ []))
        (Int64.sub-nonneg remain x (omega arith) b)
    ∙ ih (remain - x) (omega arith) (omega arith)

-- Too small a wallet: while less is left in the inputs than remains, the loop runs into `expect`.
select_loop-shortage :
    (fuel : ℕ) (inputs : List I64) (remain : I64) (result : List I64)
    → sum inputs < remain
    → remain < Int64.half
    → select_loop fuel inputs remain result ≡ none
unfolding select_loop pop sort_by
select_loop-shortage zero inputs remain result h b = ground arith
select_loop-shortage (suc fuel) [] remain result h b = ground arith
select_loop-shortage (suc fuel) (x ∷ xs) remain result h b =
    let (y, rest, e, p) = pop-sorted (farther remain) (x ∷ xs) (omega arith) in
    select_short fuel (x ∷ xs) remain result y rest e (sum-perm p) h b
      λ later k l. select_loop-shortage fuel rest later (result ++ y ∷ []) k l

-- For an amount above 0 and below 2^63 that the inputs do not cover, `select_utxo` panics.
pub select_utxo-shortage :
    (inputs : List I64) (amount : I64)
    → sum inputs < amount
    → amount < Int64.half
    → select_utxo inputs amount ≡ none
unfolding select_utxo
select_utxo-shortage inputs amount h b =
    let positive : Int64.lt 0 amount ≡ true = ground arith in
    rw (positive, select_utxo, select_loop-shortage (length inputs) inputs amount [] h b)
