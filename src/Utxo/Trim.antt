-- ===== src/Utxo/Trim.antt =====
-- The second loop of `select_utxo`, on a descending list.
use mathlib.Core.List.{append-nil, append_assoc}
use mathlib.Core.List.Perm
use sideswapclient.Prelude.{
  ℕ, zero, suc, ◌+◌, ◌≤◌, ◌<◌, ◌≡◌, refl, sym, ◌∙◌, ap, true, false, Option, some, List, [], ◌∷◌,
  ◌++◌, Perm, length, length-append, sum, sum-append, arith, All, All-append, All-imp, Bool-cases,
  inl, inr, ltb, subst,
}
use sideswapclient.Prelude.Int64
use sideswapclient.Prelude.Int64.{I64}
use sideswapclient.Utxo.{sum_i64, trim_loop}
use sideswapclient.Utxo.Vec.{pop, pop-cons, pop-append}
use sideswapclient.Utxo.Order.{Descending, Descending-last}

pub sum_i64-sum : (xs : List I64) → sum xs < Int64.half → sum_i64 xs ≡ sum xs
sum_i64-sum [] h = refl
sum_i64-sum (x ∷ xs) h =
    ap (Int64.add x) (sum_i64-sum xs (omega arith)) ∙ Int64.add-nonneg x (sum xs) h

-- Enough is kept, and no element can be spared: without it the rest is at most the amount.
abbrev pub Trimmed : List I64 → I64 → Option (List I64) → Type 0
Trimmed result amount outcome =
    (r : List I64) × (dropped : List I64) × (outcome ≡ some r)
    × Perm (r ++ dropped) result
    × (amount ≤ sum r)
    × All (λ x. sum r ≤ amount + x) r

trim_loop-next :
    (fuel : ℕ) (result : List I64) (amount last : I64) (init : List I64)
    → pop result ≡ some (last, init)
    → Int64.lt amount (Int64.sub (sum_i64 result) last) ≡ true
    → trim_loop (suc fuel) result amount ≡ trim_loop fuel init amount
unfolding trim_loop
trim_loop-next fuel result amount last init e h = rw (e, trim_loop, h)

trim_loop-stop :
    (fuel : ℕ) (result : List I64) (amount last : I64) (init : List I64)
    → pop result ≡ some (last, init)
    → Int64.lt amount (Int64.sub (sum_i64 result) last) ≡ false
    → trim_loop (suc fuel) result amount ≡ some result
unfolding trim_loop
trim_loop-stop fuel result amount last init e h = rw (e, trim_loop, h)

trim_round :
    (fuel : ℕ) (amount last : I64) (init : List I64)
    → pop (init ++ last ∷ []) ≡ some (last, init)
    → 0 < amount
    → amount ≤ sum init + last
    → sum init + last < Int64.half
    → Descending (init ++ last ∷ [])
    → (amount ≤ sum init → Trimmed init amount (trim_loop fuel init amount))
    → Trimmed (init ++ last ∷ []) amount (trim_loop (suc fuel) (init ++ last ∷ []) amount)
trim_round fuel amount last init e h c b d ih = elim (Bool-cases (ltb amount (sum init))) [
  | inl more ↦
      let (r, dropped, found, perm, enough, spare) = ih (ground arith) in
      (
        r,
        dropped ++ last ∷ [],
        trim_loop-next fuel _ amount last init e (test ∙ more) ∙ found,
        rw (← append_assoc r dropped (last ∷ [])) (Perm.append_right (last ∷ []) perm),
        enough,
        spare,
      )
  | inr done ↦ (
    init ++ last ∷ [],
    [],
    trim_loop-stop fuel _ amount last init e (test ∙ done),
    rw append-nil (Perm.refl _),
    omega (arith, total),
    tight (ground arith) _
        (All-append _ init (last ∷ []) (Descending-last init last d).1 (omega arith, tt)),
  )
]
  where
    total : sum (init ++ last ∷ []) ≡ sum init + last
    total = omega (arith, sum-append init (last ∷ []))

    test : Int64.lt amount (Int64.sub (sum_i64 (init ++ last ∷ [])) last) ≡ ltb amount (sum init)
    test =
        ap (λ w. Int64.lt amount (Int64.sub w last)) (sum_i64-sum _ (omega (arith, total)) ∙ total)
        ∙ ap (Int64.lt amount)
            (Int64.sub-nonneg (sum init + last) last (omega arith) b ∙ omega arith)
        ∙ Int64.lt-nonneg amount (sum init) (omega arith) (omega arith)

    tight :
        sum init ≤ amount
        → (xs : List I64) → All (λ x. last ≤ x) xs
        → All (λ x. sum (init ++ last ∷ []) ≤ amount + x) xs
    tight k xs a = All-imp (λ x l. omega (arith, total)) xs a

trim_split :
    (fuel : ℕ) (result : List I64) (amount last : I64) (init : List I64)
    → pop result ≡ some (last, init)
    → result ≡ init ++ last ∷ []
    → 0 < amount
    → amount ≤ sum result
    → sum result < Int64.half
    → Descending result
    → (amount ≤ sum init → Trimmed init amount (trim_loop fuel init amount))
    → Trimmed result amount (trim_loop (suc fuel) result amount)
trim_split fuel result amount last init e split h c b d ih =
    subst (λ z. Trimmed z amount (trim_loop (suc fuel) z amount)) (sym split)
      (trim_round fuel amount last init (subst (λ z. pop z ≡ some (last, init)) split e) h
        (omega (arith, total)) (omega (arith, total)) (subst Descending split d) ih)
  where
    total : sum result ≡ sum init + last
    total = omega (arith, ap sum split, sum-append init (last ∷ []))

-- With something left to drop the loop returns.
pub trim_loop_lem :
    (fuel : ℕ) (result : List I64) (amount : I64)
    → length result ≤ fuel
    → 0 < amount
    → amount ≤ sum result
    → sum result < Int64.half
    → Descending result
    → Trimmed result amount (trim_loop fuel result amount)
trim_loop_lem fuel [] amount f h c b d = absurd (omega arith)
trim_loop_lem zero (x ∷ xs) amount f h c b d = absurd (omega arith)
trim_loop_lem (suc fuel) (x ∷ xs) amount f h c b d =
    let (last, init, e) = pop-cons x xs in
    let split = pop-append (x ∷ xs) e in
    trim_split fuel (x ∷ xs) amount last init e split h c b d λ k.
      trim_loop_lem fuel init amount
        (omega (arith, ap length split, length-append init (last ∷ []))) h k
        (omega (arith, ap sum split, sum-append init (last ∷ [])))
        (Descending-last init last (subst Descending split d)).0
