-- ===== src/Jade/Keys.antt =====
-- Maps whose keys ascend, as the ids of the pending requests do.
use sideswapclient.Prelude.{
  ℕ, ◌+◌, ◌≤◌, ◌<◌, false, some, [], ◌∷◌, ◌++◌, ◌≡◌, refl, ap, inl, inr, Bool-cases, ltb,
  ◌==◌ as nat_eq, if◌then◌else◌, length, arith,
}
use sideswapclient.Prelude.Key.{nat_key}
use sideswapclient.Prelude.Map.{Map, get, insert, remove}
use sideswapclient.Jade.Messages.{PendingRequest}
use sideswapclient.Jade.Worker.{is_status, without_status}

-- The keys ascend, above `low` and up to `high`.
abbrev pub Keys {ℓ} : {V : Type ℓ} → ℕ → Map ℕ V → ℕ → Type 0
Keys low [] high = low ≤ high
Keys low ((k, v) ∷ m) high = (low < k) × Keys k m high

module _ {ℓ} {V : Type ℓ} where
  pub Keys-widen :
      (low : ℕ) (m : Map ℕ V) (high high' : ℕ) → high ≤ high' → Keys low m high → Keys low m high'
  Keys-widen low [] high high' h k = omega arith
  Keys-widen low ((j, v) ∷ m) high high' h (l, k) = (l, Keys-widen j m high high' h k)

  pub Keys-lower :
      (low low' : ℕ) (m : Map ℕ V) (high : ℕ) → low' ≤ low → Keys low m high → Keys low' m high
  Keys-lower low low' [] high h k = omega arith
  Keys-lower low low' ((j, v) ∷ m) high h (l, k) = (omega arith, k)

  pub Keys-bounds : (low : ℕ) (m : Map ℕ V) (high : ℕ) → Keys low m high → low ≤ high
  Keys-bounds low [] high k = k
  Keys-bounds low ((j, v) ∷ m) high (l, k) = omega (arith, Keys-bounds j m high k)

  -- A key above all the others is added at the end.
  pub insert_last :
      (low : ℕ) (m : Map ℕ V) (high k : ℕ) (v : V)
      → Keys low m high
      → high < k
      → insert k v m ≡ m ++ (k, v) ∷ []
  unfolding insert
  insert_last low [] high k v a h = refl
  insert_last low ((j, w) ∷ m) high k v (l, a) h =
      let le : j ≤ high = Keys-bounds j m high a in
      let ne : nat_eq j k ≡ false = ground arith in
      let not_before : ltb k j ≡ false = ground arith in
      rw (ne, not_before) (ap (λ rest. (j, w) ∷ rest) (insert_last j m high k v a h))

  pub Keys-append :
      (low : ℕ) (m : Map ℕ V) (high k : ℕ) (v : V)
      → Keys low m high
      → high < k
      → Keys low (m ++ (k, v) ∷ []) k
  Keys-append low [] high k v a h = (omega arith, omega arith)
  Keys-append low ((j, w) ∷ m) high k v (l, a) h = (l, Keys-append j m high k v a h)

  pub Keys-remove :
      (low : ℕ) (m : Map ℕ V) (high k : ℕ) → Keys low m high → Keys low (remove k m) high
  unfolding remove
  Keys-remove low [] high k a = a
  Keys-remove low ((j, w) ∷ m) high k (l, a) = elim (Bool-cases (nat_eq j k)) [
    | inl e ↦ rw e (Keys-lower j low m high (omega arith) a)
    | inr e ↦ rw e (l, Keys-remove j m high k a)
  ]

  pub get-append_last :
      (low : ℕ) (m : Map ℕ V) (high k : ℕ) (v : V)
      → Keys low m high
      → high < k
      → get k (m ++ (k, v) ∷ []) ≡ some v
  unfolding get
  get-append_last low [] high k v a h = ground arith
  get-append_last low ((j, w) ∷ m) high k v (l, a) h =
      let le : j ≤ high = Keys-bounds j m high a in
      let ne : nat_eq j k ≡ false = ground arith in rw ne (get-append_last j m high k v a h)

  pub remove-append_last :
      (low : ℕ) (m : Map ℕ V) (high k : ℕ) (v : V)
      → Keys low m high
      → high < k
      → remove k (m ++ (k, v) ∷ []) ≡ m
  unfolding remove
  remove-append_last low [] high k v a h = ground arith
  remove-append_last low ((j, w) ∷ m) high k v (l, a) h =
      let le : j ≤ high = Keys-bounds j m high a in
      let ne : nat_eq j k ≡ false = ground arith in
      rw ne (ap (λ rest. (j, w) ∷ rest) (remove-append_last j m high k v a h))

pub Keys-without_status :
    (low : ℕ) (m : Map ℕ PendingRequest) (high : ℕ)
    → Keys low m high
    → Keys low (without_status m) high
unfolding without_status
Keys-without_status low [] high a = a
Keys-without_status low ((j, kind) ∷ m) high (l, a) = elim (Bool-cases (is_status kind)) [
  | inl e ↦
      rw e (Keys-lower j low (without_status m) high (omega arith) (Keys-without_status j m high a))
  | inr e ↦ rw e (l, Keys-without_status j m high a)
]

-- The pending requests that are not for the status.
unfoldable pub tasks : Map ℕ PendingRequest → ℕ
tasks [] = 0
tasks ((id, kind) ∷ m) = (if is_status kind then 0 else 1) + tasks m

pub tasks-append : (m n : Map ℕ PendingRequest) → tasks (m ++ n) ≡ tasks m + tasks n
unfolding tasks
tasks-append [] n = omega arith
tasks-append ((id, kind) ∷ m) n = omega (arith, tasks-append m n)

pub tasks-remove : (k : ℕ) (m : Map ℕ PendingRequest) → tasks m ≤ tasks (remove k m) + 1
unfolding tasks remove
tasks-remove k [] = omega arith
tasks-remove k ((id, kind) ∷ m) = ground (arith, tasks-remove k m)

pub tasks-without_status : (m : Map ℕ PendingRequest) → tasks (without_status m) ≡ tasks m
unfolding tasks without_status
tasks-without_status [] = refl
tasks-without_status ((id, kind) ∷ m) = ground (arith, tasks-without_status m)

pub tasks-le : (m : Map ℕ PendingRequest) → tasks m ≤ length m
unfolding tasks
tasks-le [] = omega arith
tasks-le ((id, kind) ∷ m) = ground (arith, tasks-le m)
