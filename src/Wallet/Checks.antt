-- ===== src/Wallet/Checks.antt =====
-- What a PSET that passes the checks does to the balance of the wallet.
use sideswapclient.Prelude.{
  ◌≡◌, ◌≢◌, ◌⊎◌, refl, inl, inr, true, none, some, some-of-bind, List, [], ◌∷◌, ◌==◌, Bool-cases,
  arith,
}
use sideswapclient.Prelude.Int64
use sideswapclient.Prelude.Int64.{I64}
use sideswapclient.Prelude.Key.{Text, nat_key}
use sideswapclient.Prelude.Map.{Map, get}
use sideswapclient.Headless.Types.{AssetId, UnspentOutput}
use sideswapclient.Wallet.{
  Amounts, PsetDetailsResult, Gdk, all_utxos, or_zero, only_known, sent_amount, is_expected,
  sign_checked, verify_and_sign_pset,
}

-- The change of the balance in an asset.
abbrev pub change : PsetDetailsResult → AssetId → I64
change details asset = or_zero (get asset details.satoshi)

get-only_known :
    (amounts : Amounts) (satoshi : Map AssetId I64) (asset : AssetId)
    → only_known amounts satoshi ≡ true
    → asset ≢ amounts.send_asset
    → asset ≢ amounts.recv_asset
    → get asset satoshi ≡ none
unfolding only_known get
get-only_known amounts [] asset h s r = refl
get-only_known amounts ((a, v) ∷ rest) asset h s r =
    ground (arith, get-only_known amounts rest asset)

-- The balance changes in no asset but the two, by what is received and by what is sent; to what GDK
-- has for L-BTC that is sent, if it is not nothing, the fee is added.
pub record Pays (policy_asset : AssetId) (amounts : Amounts) (details : PsetDetailsResult)
    : Type 0 where
  pub others :
      (asset : AssetId)
      → asset ≢ amounts.send_asset
      → asset ≢ amounts.recv_asset
      → change details asset ≡ 0
  pub received : change details amounts.recv_asset ≡ amounts.recv_amount
  pub sent :
      ((amounts.send_asset ≢ policy_asset)
        × (Int64.neg (change details amounts.send_asset) ≡ amounts.send_amount))
      ⊎ ((Int64.neg (change details amounts.send_asset) ≡ 0) × (amounts.send_amount ≡ 0))
      ⊎ ((amounts.send_asset ≡ policy_asset)
          × (Int64.neg (change details amounts.send_asset) ≢ 0)
          × (Int64.add (Int64.neg (change details amounts.send_asset)) (or_zero details.fee)
              ≡ amounts.send_amount))

is_expected-Pays :
    (policy_asset : AssetId) (amounts : Amounts) (details : PsetDetailsResult)
    → is_expected policy_asset amounts details ≡ true
    → Pays policy_asset amounts details
unfolding is_expected sent_amount
is_expected-Pays policy_asset amounts details h = record {
  others =
      λ asset s r. rw (get-only_known amounts details.satoshi asset (ground (arith, h)) s r) refl;
  received = ground (arith, h);
  sent = ground (arith, h);
}

-- A PSET that is signed was decoded by GDK and pays what it should; it is the signed PSET of GDK, or
-- the PSET as it was if nothing is sent.
abbrev pub IsChecked : AssetId → Gdk → Amounts → Text → List Text → Text → Type 0
IsChecked policy_asset gdk amounts pset nonces signed =
    (unspent_outputs : Map AssetId (List UnspentOutput)) × (details : PsetDetailsResult)
    × (gdk.unspent_outputs ≡ some unspent_outputs)
    × (gdk.psbt_get_details (all_utxos unspent_outputs) pset ≡ some details)
    × Pays policy_asset amounts details
    × (((amounts.send_amount ≡ 0) × (signed ≡ pset))
        ⊎ ((amounts.send_amount ≢ 0)
            × (gdk.psbt_sign (all_utxos unspent_outputs) pset nonces ≡ some signed)))

sign_checked-cases :
    (policy_asset : AssetId) (gdk : Gdk) (amounts : Amounts) (utxos : List UnspentOutput)
    (pset : Text) (nonces : List Text) (details : PsetDetailsResult) (signed : Text)
    → sign_checked policy_asset gdk amounts utxos pset nonces details ≡ some signed
    → Pays policy_asset amounts details
      × (((amounts.send_amount ≡ 0) × (signed ≡ pset))
          ⊎ ((amounts.send_amount ≢ 0) × (gdk.psbt_sign utxos pset nonces ≡ some signed)))
unfolding sign_checked
sign_checked-cases policy_asset gdk amounts utxos pset nonces details signed h =
    elim (Bool-cases (is_expected policy_asset amounts details)) [
      | inl e ↦ (
        is_expected-Pays policy_asset amounts details e,
        elim (Bool-cases (amounts.send_amount == 0)) [
          | inl z ↦ inl (ground (arith, z), ground (arith, h, e, z))
          | inr z ↦ inr (ground (arith, z), ground (arith, h, e, z))
        ],
      )
      | inr e ↦ absurd (ground (arith, h, e))
    ]

pub verify_and_sign_pset-IsChecked :
    (policy_asset : AssetId) (gdk : Gdk) (amounts : Amounts) (pset : Text) (nonces : List Text)
    (signed : Text)
    → verify_and_sign_pset policy_asset gdk amounts pset nonces ≡ some signed
    → IsChecked policy_asset gdk amounts pset nonces signed
unfolding verify_and_sign_pset
verify_and_sign_pset-IsChecked policy_asset gdk amounts pset nonces signed h =
    let (unspent_outputs, e, k) = some-of-bind gdk.unspent_outputs _ h in
    let utxos : List UnspentOutput = all_utxos unspent_outputs in
    let (details, f, l) =
      some-of-bind (gdk.psbt_get_details utxos pset)
        (sign_checked policy_asset gdk amounts utxos pset nonces) k in
    let (pays, result) =
      sign_checked-cases policy_asset gdk amounts utxos pset nonces details signed l in
    (unspent_outputs, details, e, f, pays, result)
