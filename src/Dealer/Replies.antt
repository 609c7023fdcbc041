-- ===== src/Dealer/Replies.antt =====
-- What holds of a result that is a value, through the checks before it.
use sideswapclient.Prelude.{◌≡◌, refl, subst, arith, Bool, true, false, Option, none, some}
use sideswapclient.Dealer.Types.{Reply, panic, err, ok}
use sideswapclient.Dealer.Prices.{ensure, assert, unwrap, ok_or, and_reply}

abbrev pub Oks {ℓ κ} : {A : Type ℓ} → (A → Type κ) → Reply A → Type κ
Oks P panic = Unit
Oks P err = Unit
Oks P (ok a) = P a

module _ {ℓ κ} {B : Type ℓ} (P : B → Type κ) where
  pub Oks-ok : (r : Reply B) {b : B} → Oks P r → r ≡ ok b → P b
  Oks-ok panic h e = cc
  Oks-ok err h e = cc
  Oks-ok (ok a) {b} h e = subst P (ground (arith, e)) h

  pub ensure-Oks :
      (test : Bool) (next : Reply B) → (test ≡ true → Oks P next) → Oks P (ensure test next)
  ensure-Oks true next h = h refl
  ensure-Oks false next h = tt

  pub assert-Oks :
      (test : Bool) (next : Reply B) → (test ≡ true → Oks P next) → Oks P (assert test next)
  assert-Oks true next h = h refl
  assert-Oks false next h = tt

module _ {ℓ κ μ} {A : Type μ} {B : Type ℓ} (P : B → Type κ) where
  pub unwrap-Oks :
      (o : Option A) (next : A → Reply B)
      → ((a : A) → o ≡ some a → Oks P (next a))
      → Oks P (unwrap o next)
  unwrap-Oks none next h = tt
  unwrap-Oks (some a) next h = h a refl

  pub ok_or-Oks :
      (o : Option A) (next : A → Reply B)
      → ((a : A) → o ≡ some a → Oks P (next a))
      → Oks P (ok_or o next)
  ok_or-Oks none next h = tt
  ok_or-Oks (some a) next h = h a refl

  pub and_reply-Oks :
      (r : Reply A) (next : A → Reply B)
      → ((a : A) → r ≡ ok a → Oks P (next a))
      → Oks P (and_reply r next)
  and_reply-Oks panic next h = tt
  and_reply-Oks err next h = tt
  and_reply-Oks (ok a) next h = h a refl
