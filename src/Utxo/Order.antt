-- ===== src/Utxo/Order.antt =====
-- Sorted lists: what `sort_unstable` followed by `reverse` gives on amounts below 2^63.
use mathlib.Core.List.{reverse, reverse-cons}
use sideswapclient.Prelude.{
  ℕ, ◌≤◌, ◌<◌, List, [], ◌∷◌, ◌++◌, arith, All, All-append, All-left, All-right, All-imp,
  Bool-cases, inl, inr,
}
use sideswapclient.Prelude.Int64
use sideswapclient.Utxo.Vec.{sort_by, insert_by}

abbrev Ascending : List ℕ → Type 0
Ascending [] = Unit
Ascending (x ∷ xs) = All (λ y. x ≤ y) xs × Ascending xs

abbrev pub Descending : List ℕ → Type 0
Descending [] = Unit
Descending (x ∷ xs) = All (λ y. y ≤ x) xs × Descending xs

abbrev IsSmall : List ℕ → Type 0
IsSmall = All (λ x. x < Int64.half)

insert_by-All :
    (P : ℕ → Type 0) (x : ℕ) (ys : List ℕ) → P x → All P ys → All P (insert_by Int64.lt x ys)
unfolding insert_by
insert_by-All P x [] p a = (p, tt)
insert_by-All P x (y ∷ ys) p a = elim (Bool-cases (Int64.lt y x)) [
  | inl e ↦ rw e (a.0, insert_by-All P x ys p a.1)
  | inr e ↦ rw e (p, a)
]

insert_by-Ascending :
    (x : ℕ) (ys : List ℕ)
    → x < Int64.half
    → IsSmall ys
    → Ascending ys
    → Ascending (insert_by Int64.lt x ys)
unfolding insert_by
insert_by-Ascending x [] h s a = (tt, tt)
insert_by-Ascending x (y ∷ ys) h s a = elim (Bool-cases (Int64.lt y x)) [
  | inl e ↦ rw e (
    insert_by-All (λ z. y ≤ z) x ys (ground (arith, Int64.lt-nonneg y x s.0 h)) a.0,
    insert_by-Ascending x ys h s.1 a.1,
  )
  | inr e ↦
      let le : x ≤ y = ground (arith, Int64.lt-nonneg y x s.0 h) in
      rw e ((le, All-imp (λ z k. omega arith) ys a.0), a)
]

sort_by-IsSmall : (xs : List ℕ) → IsSmall xs → IsSmall (sort_by Int64.lt xs)
unfolding sort_by
sort_by-IsSmall [] s = tt
sort_by-IsSmall (x ∷ xs) s = insert_by-All _ x (sort_by Int64.lt xs) s.0 (sort_by-IsSmall xs s.1)

sort_by-Ascending : (xs : List ℕ) → IsSmall xs → Ascending (sort_by Int64.lt xs)
unfolding sort_by
sort_by-Ascending [] s = tt
sort_by-Ascending (x ∷ xs) s =
    insert_by-Ascending x (sort_by Int64.lt xs) s.0 (sort_by-IsSmall xs s.1)
      (sort_by-Ascending xs s.1)

Descending-snoc :
    (xs : List ℕ) (x : ℕ) → Descending xs → All (λ y. x ≤ y) xs → Descending (xs ++ x ∷ [])
Descending-snoc [] x d a = (tt, tt)
Descending-snoc (y ∷ ys) x d a =
    (All-append _ ys (x ∷ []) d.0 (a.0, tt), Descending-snoc ys x d.1 a.1)

All-reverse : (P : ℕ → Type 0) (xs : List ℕ) → All P xs → All P (reverse xs)
All-reverse P [] a = a
All-reverse P (x ∷ xs) a =
    rw (reverse-cons x xs) (All-append _ (reverse xs) (x ∷ []) (All-reverse P xs a.1) (a.0, tt))

reverse-Descending : (xs : List ℕ) → Ascending xs → Descending (reverse xs)
reverse-Descending [] a = tt
reverse-Descending (x ∷ xs) a =
    rw (reverse-cons x xs)
      (Descending-snoc (reverse xs) x (reverse-Descending xs a.1) (All-reverse _ xs a.0))

pub sorted-Descending : (xs : List ℕ) → IsSmall xs → Descending (reverse (sort_by Int64.lt xs))
sorted-Descending xs s = reverse-Descending (sort_by Int64.lt xs) (sort_by-Ascending xs s)

-- The last element of a descending list is the least, and the others descend.
pub Descending-last :
    (xs : List ℕ) (x : ℕ) → Descending (xs ++ x ∷ []) → Descending xs × All (λ y. x ≤ y) xs
Descending-last [] x d = (tt, tt)
Descending-last (y ∷ ys) x d =
    let (rest, low) = Descending-last ys x d.1 in
    let (least, _) = All-right _ ys (x ∷ []) d.0 in
    ((All-left _ ys (x ∷ []) d.0, rest), (least, low))
