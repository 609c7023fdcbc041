-- ===== src/Utxo/Vec.antt =====
-- The methods of `Vec` and of slices that the selection calls, with their laws up to order.
use mathlib.Core.List.{perm_append_singleton}
use mathlib.Core.List.Perm
use sideswapclient.Prelude.{
  ℕ, zero, suc, ◌≡◌, refl, Bool, Option, none, some, List, [], ◌∷◌, ◌++◌, Perm, if◌then◌else◌,
  arith, sym, subst, true, Bool-cases, Option-cases, All, All-left, All-right, inl, inr,
}

module _ {ℓ} {A : Type ℓ} where
  -- Before the first element that is not below: so elements that compare equal keep their order.
  unfoldable pub insert_by : (A → A → Bool) → A → List A → List A
  insert_by below x [] = x ∷ []
  insert_by below x (y ∷ ys) = if below y x then y ∷ insert_by below x ys else x ∷ y ∷ ys

  -- `sort_by_key`, which is stable, and `sort_unstable` on values that are equal when they tie.
  unfoldable pub sort_by : (A → A → Bool) → List A → List A
  unfolding insert_by
  sort_by below [] = []
  sort_by below (x ∷ xs) = insert_by below x (sort_by below xs)

  -- The last element, and those before it.
  unfoldable pub pop : List A → Option (A × List A)
  pop [] = none
  pop (x ∷ []) = some (x, [])
  pop (x ∷ y ∷ ys) = elim (pop (y ∷ ys)) [ none ↦ none | some (last, init) ↦ some (last, x ∷ init) ]

  -- The index of the first element that passes the test.
  unfoldable pub position : (A → Bool) → List A → Option ℕ
  position test [] = none
  position test (x ∷ xs) =
      if test x then some 0 else elim (position test xs) [ none ↦ none | some i ↦ some (suc i) ]

  replace_at : ℕ → A → List A → List A
  replace_at i v [] = []
  replace_at zero v (x ∷ xs) = v ∷ xs
  replace_at (suc i) v (x ∷ xs) = x ∷ replace_at i v xs

  get_elem? : List A → ℕ → Option A
  get_elem? [] i = none
  get_elem? (x ∷ xs) zero = some x
  get_elem? (x ∷ xs) (suc i) = get_elem? xs i

  -- The element at the index, its place taken by the last one; `none` out of range (a panic).
  unfoldable pub swap_remove : List A → ℕ → Option (A × List A)
  unfolding pop replace_at get_elem?
  swap_remove xs i = elim (get_elem? xs i) [
    | none ↦ none
    | some x ↦ elim (pop xs) [ none ↦ none | some (last, init) ↦ some (x, replace_at i last init) ]
  ]

  insert_by-perm :
      (below : A → A → Bool) (x : A) (ys : List A) → Perm (insert_by below x ys) (x ∷ ys)
  unfolding insert_by
  insert_by-perm below x [] = Perm.refl _
  insert_by-perm below x (y ∷ ys) = elim (Bool-cases (below y x)) [
    | inl e ↦ rw e (Perm.trans (Perm.cons y (insert_by-perm below x ys)) (Perm.swap x y ys))
    | inr e ↦ rw e (Perm.refl _)
  ]

  pub sort_by-perm : (below : A → A → Bool) (xs : List A) → Perm (sort_by below xs) xs
  unfolding sort_by
  sort_by-perm below [] = Perm.refl _
  sort_by-perm below (x ∷ xs) =
      Perm.trans (insert_by-perm below x (sort_by below xs)) (Perm.cons x (sort_by-perm below xs))

  pub pop-cons :
      (x : A) (xs : List A) → (last : A) × (init : List A) × (pop (x ∷ xs) ≡ some (last, init))
  unfolding pop
  pop-cons x [] = (x, [], refl)
  pop-cons x (y ∷ ys) = let (last, init, e) = pop-cons y ys in (last, x ∷ init, rw e)

  pop-append_step :
      (x : A) (ys : List A) {l last : A} {i init : List A}
      → ys ≡ i ++ l ∷ []
      → ◌≡◌ {A = Option (A × List A)} (some (l, x ∷ i)) (some (last, init))
      → x ∷ ys ≡ init ++ last ∷ []
  pop-append_step x ys e h = ground arith

  pub pop-append :
      (xs : List A) {last : A} {init : List A} → pop xs ≡ some (last, init) → xs ≡ init ++ last ∷ []
  unfolding pop
  pop-append [] h = cc
  pop-append (x ∷ []) h = ground arith
  pop-append (x ∷ y ∷ ys) h =
      let (l, i, e) = pop-cons y ys in
      pop-append_step x (y ∷ ys) (pop-append (y ∷ ys) e) (rw (e, pop) at h)

  -- The element that a test finds, and that `swap_remove` takes out.
  abbrev Found : (A → Bool) → List A → Option ℕ → Type ℓ
  Found test xs none = Unit
  Found test xs (some i) = (y : A) × (get_elem? xs i ≡ some y) × (test y ≡ true)

  position-Found : (test : A → Bool) (xs : List A) → Found test xs (position test xs)
  unfolding position get_elem?
  position-Found test [] = tt
  position-Found test (x ∷ xs) = elim (Bool-cases (test x)) [
    | inl e ↦ rw (e, position) (x, refl, e)
    | inr e ↦ rw (e, position) (shift (position test xs) (position-Found test xs))
  ]
    where
      shift :
          (o : Option ℕ)
          → Found test xs o
          → Found test (x ∷ xs) (elim o [ none ↦ none | some i ↦ some (suc i) ])
      shift none f = tt
      shift (some i) f = f

  replace_at-perm :
      (i : ℕ) (last : A) (init : List A) {y : A}
      → get_elem? (init ++ last ∷ []) i ≡ some y
      → Perm (y ∷ replace_at i last init) (init ++ last ∷ [])
  unfolding replace_at get_elem?
  replace_at-perm zero last [] e = Perm.cons' (ground arith) (Perm.refl _)
  replace_at-perm (suc i) last [] e = cc
  replace_at-perm zero last (z ∷ zs) e =
      Perm.cons' (ground arith) (Perm.symm (perm_append_singleton last zs))
  replace_at-perm (suc i) last (z ∷ zs) {y} e =
      Perm.trans (Perm.swap z y (replace_at i last zs)) (Perm.cons z (replace_at-perm i last zs e))

  swap_remove-at :
      (xs : List A) (i : ℕ) {y last : A} {init : List A}
      → get_elem? xs i ≡ some y
      → pop xs ≡ some (last, init)
      → swap_remove xs i ≡ some (y, replace_at i last init)
  unfolding swap_remove
  swap_remove-at xs i e h = rw (e, swap_remove, h)

  -- Where the search succeeds, `swap_remove` takes out an element that passes the test.
  pub swap_remove-position :
      (test : A → Bool) (xs : List A) {i : ℕ}
      → position test xs ≡ some i
      → (y : A) × (rest : List A) × (swap_remove xs i ≡ some (y, rest))
        × (test y ≡ true)
        × Perm (y ∷ rest) xs
  unfolding get_elem? position
  swap_remove-position test [] h = cc
  swap_remove-position test (x ∷ xs) {i} h =
      let (y, e, p) = subst (Found test (x ∷ xs)) h (position-Found test (x ∷ xs)) in
      let (last, init, k) = pop-cons x xs in
      let split = pop-append (x ∷ xs) k in
      (
        y,
        replace_at i last init,
        swap_remove-at (x ∷ xs) i e k,
        p,
        subst (Perm (y ∷ replace_at i last init)) (sym split)
            (replace_at-perm i last init (subst (λ z. get_elem? z i ≡ some y) split e)),
      )

  -- What all elements satisfy, the popped one and those left satisfy.
  pop-All {κ} :
      (P : A → Type κ) (xs : List A) {last : A} {init : List A}
      → All P xs
      → pop xs ≡ some (last, init)
      → P last × All P init
  pop-All P xs {last} {init} a h =
      let split : All P (init ++ last ∷ []) = subst (All P) (pop-append xs h) a in
      ((All-right P init (last ∷ []) split).0, All-left P init (last ∷ []) split)

  replace_at-All {κ} :
      (P : A → Type κ) (i : ℕ) (v : A) (xs : List A) → P v → All P xs → All P (replace_at i v xs)
  unfolding replace_at
  replace_at-All P i v [] p a = tt
  replace_at-All P zero v (x ∷ xs) p a = (p, a.1)
  replace_at-All P (suc i) v (x ∷ xs) p a = (a.0, replace_at-All P i v xs p a.1)

  get_elem?-All {κ} :
      (P : A → Type κ) (xs : List A) (i : ℕ) {x : A} → All P xs → get_elem? xs i ≡ some x → P x
  unfolding get_elem?
  get_elem?-All P [] i a h = absurd (ground arith)
  get_elem?-All P (x ∷ xs) zero a h = subst P (ground arith) a.0
  get_elem?-All P (x ∷ xs) (suc i) a h = get_elem?-All P xs i a.1 h

  pub swap_remove-All {κ} :
      (P : A → Type κ) (xs : List A) (i : ℕ) {x : A} {rest : List A}
      → All P xs
      → swap_remove xs i ≡ some (x, rest)
      → P x × All P rest
  unfolding swap_remove
  swap_remove-All P xs i {x} {rest} a h = elim (Option-cases (get_elem? xs i)) [
    | inl e ↦ absurd (ground (arith, e))
    | inr (y, e) ↦ elim (Option-cases (pop xs)) [
      | inl k ↦ absurd (ground (arith, e, k))
      | inr ((last, init), k) ↦
          let same : y ≡ x = ground (arith, e, k) in
          let left : replace_at i last init ≡ rest = ground (arith, e, k) in
          let popped = pop-All P xs a k in
          (
            subst P same (get_elem?-All P xs i a e),
            subst (All P) left (replace_at-All P i last init popped.0 popped.1),
          )
    ]
  ]
