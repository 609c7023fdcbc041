-- ===== src/Headless/Signing.antt =====
-- What the wallet's thread signs.
use sideswapclient.Prelude.{
  Bool-cases, true, false, ◌≡◌, refl, sym, ◌∙◌, ◌⊎◌, inl, inr, ◌-◌, ltb, ◌&&◌, Option, none, some,
  List, [], ◌∷◌, ◌++◌, ◌>>=◌, Ensures, Ensures-imp, Ensures-if,
}
use mathlib.Core.List.{append-nil, append_assoc}
use sideswapclient.Prelude.Key.{Text}
use sideswapclient.Prelude.Int64
use sideswapclient.Wallet.{Amounts, Gdk}
use sideswapclient.Wallet.Checks.{IsChecked, verify_and_sign_pset-IsChecked}
use sideswapclient.Headless.Types.{
  Details, AssetId, SignNotification, WalletResp, swap_inputs, signed_pset, pset_sign_failed,
}
use sideswapclient.Headless.Wallet.{
  Around, Thread, sign_pset, amounts_of, or_no_nonces, handle, sign_outcome, sign_result,
  update_inputs, round, ten_seconds,
}

module _ {F : Type 0} where
  -- What an order comes to: where bitcoins are sent, the amount with the server's fee against the
  -- asset; otherwise the asset against the amount without the fee.
  abbrev pub IsOrder : AssetId → Details F → Amounts → Type 0
  IsOrder policy_asset details amounts =
      ((details.send_bitcoins ≡ true)
        × (amounts.send_asset ≡ policy_asset)
        × (amounts.send_amount ≡ Int64.add details.bitcoin_amount details.server_fee)
        × (amounts.recv_asset ≡ details.asset)
        × (amounts.recv_amount ≡ details.asset_amount))
      ⊎ ((details.send_bitcoins ≡ false)
          × (amounts.send_asset ≡ details.asset)
          × (amounts.send_amount ≡ details.asset_amount)
          × (amounts.recv_asset ≡ policy_asset)
          × (amounts.recv_amount ≡ Int64.sub details.bitcoin_amount details.server_fee))

  amounts_of-IsOrder :
      (policy_asset : AssetId) (details : Details F)
      → IsOrder policy_asset details (amounts_of policy_asset details)
  amounts_of-IsOrder policy_asset details = elim (Bool-cases details.send_bitcoins) [
    | inl e ↦ rw e (inl (refl, refl, refl, refl, refl))
    | inr e ↦ rw e (inr (refl, refl, refl, refl, refl))
  ]

  -- The PSET was signed by the checks of `verify_and_sign_pset` for what the order comes to.
  abbrev pub IsSigned : AssetId → Gdk → SignNotification F → Text → Type 0
  IsSigned policy_asset gdk sign signed =
      (amounts : Amounts) × IsOrder policy_asset sign.details amounts
      × IsChecked policy_asset gdk amounts sign.pset (or_no_nonces sign.nonces) signed

module _ {F : Type 0} (policy_asset : AssetId) (around : Around) (sign : SignNotification F) where
  -- The answer names the order. It is a failure, or a PSET that passed the checks of
  -- `verify_and_sign_pset` for the amounts of the order.
  abbrev pub IsAnswer : WalletResp → Type 0
  IsAnswer resp =
      (resp ≡ pset_sign_failed sign.order_id)
      ⊎ ((signed : Text) × (resp ≡ signed_pset sign.order_id signed)
          × IsSigned policy_asset around.gdk sign signed)

  pub sign_outcome-IsAnswer :
      IsAnswer (sign_outcome sign.order_id (sign_result policy_asset around.gdk sign))
  unfolding sign_result
  sign_outcome-IsAnswer = by_result (sign_result policy_asset around.gdk sign) refl
    where
      by_result :
          (o : Option Text)
          → sign_result policy_asset around.gdk sign ≡ o
          → IsAnswer (sign_outcome sign.order_id o)
      by_result none e = inl refl
      by_result (some signed) e = inr (
        signed,
        refl,
        (
          amounts_of policy_asset sign.details,
          amounts_of-IsOrder policy_asset sign.details,
          verify_and_sign_pset-IsChecked policy_asset around.gdk
              (amounts_of policy_asset sign.details) sign.pset (or_no_nonces sign.nonces) signed e,
        ),
      )

-- Nothing more, or new inputs.
abbrev pub AtMostInputs : List WalletResp → Type 0
AtMostInputs [] = Unit
AtMostInputs (swap_inputs inputs ∷ []) = Unit
AtMostInputs _ = ⊥

-- What the callback is given besides.
abbrev pub Adds : Thread → Thread → Type 0
Adds before after =
    (rest : List WalletResp) × (after.responses ≡ before.responses ++ rest) × AtMostInputs rest

pub update_inputs-Adds :
    (around : Around) (thread : Thread) → Ensures (Adds thread) (update_inputs around thread)
unfolding update_inputs
update_inputs-Adds around thread =
    Ensures-if (Adds thread)
      (thread.utxo_update_needed && ltb ten_seconds (around.now - thread.utxo_update_timestamp)) _ _
      (λ h. by_calls around.receive_address around.change_address around.utxos)
      (λ h. ([], sym (append-nil thread.responses), tt))
  where
    by_calls :
        (r c : Option Text) (u : Option _)
        → Ensures (Adds thread) (
            r >>= λ recv_address. c >>= λ change_address. u >>= λ utxos. some (record {
              utxo_update_timestamp = around.now_after;
              utxo_update_needed = false;
              responses =
                  thread.responses
                  ++ swap_inputs (record {
                    recv_address = recv_address;
                    change_address = change_address;
                    utxos = utxos;
                  })
                    ∷ [];
            }))
    by_calls none c u = tt
    by_calls (some r) none u = tt
    by_calls (some r) (some c) none = tt
    by_calls (some r) (some c) (some u) =
        (swap_inputs (record { recv_address = r; change_address = c; utxos = u }) ∷ [], refl, tt)

-- The wallet answers a request to sign exactly once, unless a call panics that looks up new inputs:
-- with a failure for the order, or with a PSET for the order. Such a PSET changes the wallet's
-- balance, as GDK computes it, in no asset but the two of the order, by the amount that the order
-- promises and by the amount that it takes; the server's fee is added to bitcoins that are sent and
-- subtracted from those that are received, and what GDK has for L-BTC that is sent, if it is not
-- nothing, is taken with GDK's fee added. The PSET is what GDK signed, or the one of the request if
-- nothing is sent. The callback is given nothing else but at most new inputs.
pub round-IsAnswer :
    {F : Type 0} (policy_asset : AssetId) (around : Around) (sign : SignNotification F)
    (thread : Thread)
    → Ensures
        (λ later.
          (answer : WalletResp) × (rest : List WalletResp) × (later.responses
            ≡ thread.responses ++ answer ∷ rest)
          × IsAnswer policy_asset around sign answer
          × AtMostInputs rest)
        (round policy_asset around (sign_pset sign) thread)
unfolding round
round-IsAnswer policy_asset around sign thread =
    let answer = sign_outcome sign.order_id (sign_result policy_asset around.gdk sign) in
    let next : Thread = handle policy_asset around.gdk (sign_pset sign) thread in
    Ensures-imp (Adds next) _ (update_inputs around next) (update_inputs-Adds around next)
      λ later (rest, e, h). (
        answer,
        rest,
        e ∙ append_assoc thread.responses (answer ∷ []) rest,
        sign_outcome-IsAnswer policy_asset around sign,
        h,
      )
