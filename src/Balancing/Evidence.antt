-- ===== src/Balancing/Evidence.antt =====
-- What a transfer is completed on.
use Prim.Native.String.{String}
use mathlib.Core.List.{Mem, mem-cons_self, mem-cons_of_mem}
use sideswapclient.Prelude.{
  ◌≡◌, Bool, true, some, List, [], ◌∷◌, arith, Bool-cases, inl, inr, subst,
}
use sideswapclient.Prelude.Float.{Float}
use sideswapclient.Balancing.Types.{
  TransferState, send_usdt_wait_confirm, recv_usdt_wait_confirm, recv_btc_wait_confirm, Transfer,
}
use sideswapclient.Balancing.Process.{Movement, find, is_movement, is_withdrawal}

pub find-mem {ℓ} :
    {A : Type ℓ} (test : A → Bool) (xs : List A) {x : A}
    → find test xs ≡ some x
    → Mem x xs × (test x ≡ true)
unfolding find
find-mem test [] h = cc
find-mem test (y ∷ ys) {x} h = elim (Bool-cases (test y)) [
  | inl e ↦
      let same : y ≡ x = ground (arith, e) in
      (subst (λ z. Mem z (y ∷ ys)) same mem-cons_self, subst (λ z. test z ≡ true) same e)
  | inr e ↦ let (m, t) = find-mem test ys (ground (arith, e)) in (mem-cons_of_mem y m, t)
]

module _ (float : Float) where
  open float use {F64}

  -- The movement is the one that the transfer waits for, and is completed.
  abbrev pub Confirms : TransferState → Transfer → Movement → Type 0
  Confirms send_usdt_wait_confirm transfer item =
      (txid : String) × (transfer.txid ≡ some txid) × (is_movement float txid item ≡ true)
  Confirms recv_usdt_wait_confirm transfer item =
      is_withdrawal float transfer.withdraw_id item ≡ true
  Confirms recv_btc_wait_confirm transfer item =
      is_withdrawal float transfer.withdraw_id item ≡ true
  Confirms _ transfer item = ⊥

  abbrev pub Evidence : TransferState → Transfer → List Movement → Type 0
  Evidence state transfer movements =
      (item : Movement) × Mem item movements × Confirms state transfer item
