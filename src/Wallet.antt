-- ===== src/Wallet.antt =====
-- The check of a swap's PSET before the wallet signs it: rust/sideswap_client/src/gdk_ses_impl.rs,
-- `verify_and_sign_pset`, with `Amounts` of swaps.rs and the answers of GDK (gdk_json.rs).
pub mod Checks
use sideswapclient.Prelude.{
  ℕ, Bool, true, false, ◌&&◌, ◌||◌, not, Option, none, some, List, [], ◌∷◌, ◌++◌, ◌==◌,
  if◌then◌else◌, ◌>>=◌,
}
use sideswapclient.Prelude.Int64
use sideswapclient.Prelude.Int64.{I64}
use sideswapclient.Prelude.Key.{Text, nat_key}
use sideswapclient.Prelude.Map.{Map, get}
use sideswapclient.Headless.Types.{AssetId, UnspentOutput}

-- The amounts are `u64`.
pub record Amounts : Type 0 where
  pub send_asset : AssetId
  pub send_amount : ℕ
  pub recv_asset : AssetId
  pub recv_amount : ℕ

pub record PsetInputOutput : Type 0 where
  pub asset_id : AssetId
  pub satoshi : ℕ
  pub subaccount : Option ℕ

pub record PsetDetailsResult : Type 0 where
  pub satoshi : Map AssetId I64
  pub transaction_inputs : List PsetInputOutput
  pub transaction_outputs : List PsetInputOutput
  pub fee : Option I64

-- The answers of GDK during a call; an error is `none`. `details` and `sign` are given the wallet's
-- outputs and the PSET, and `sign` the nonces too.
pub record Gdk : Type 0 where
  pub unspent_outputs : Option (Map AssetId (List UnspentOutput))
  pub psbt_get_details : List UnspentOutput → Text → Option PsetDetailsResult
  pub psbt_sign : List UnspentOutput → Text → List Text → Option Text

-- The outputs of all assets.
abbrev pub all_utxos : Map AssetId (List UnspentOutput) → List UnspentOutput
all_utxos [] = []
all_utxos ((asset, list) ∷ rest) = list ++ all_utxos rest

-- `unwrap_or_default()` of an `i64`.
abbrev pub or_zero : Option I64 → I64
or_zero none = 0
or_zero (some v) = v

-- The two assets of the swap are the only ones in the map.
unfoldable pub only_known : Amounts → Map AssetId I64 → Bool
only_known amounts [] = true
only_known amounts ((asset, amount) ∷ rest) =
    (asset == amounts.send_asset || asset == amounts.recv_asset) && only_known amounts rest

-- What the PSET takes of the asset that is sent, for L-BTC with the fee added.
unfoldable pub sent_amount : AssetId → Amounts → PsetDetailsResult → I64
sent_amount policy_asset amounts details =
    let send_amount = Int64.neg (or_zero (get amounts.send_asset details.satoshi)) in
    if amounts.send_asset == policy_asset && not (send_amount == 0)
    then Int64.add send_amount (or_zero details.fee)
    else send_amount

-- The conditions of `ensure!`.
unfoldable pub is_expected : AssetId → Amounts → PsetDetailsResult → Bool
unfolding only_known sent_amount
is_expected policy_asset amounts details =
    only_known amounts details.satoshi
    && (sent_amount policy_asset amounts details == amounts.send_amount)
    && (or_zero (get amounts.recv_asset details.satoshi) == amounts.recv_amount)

-- Nothing is signed where nothing is sent.
unfoldable pub sign_checked :
    AssetId
    → Gdk
    → Amounts
    → List UnspentOutput
    → Text
    → List Text
    → PsetDetailsResult
    → Option Text
unfolding is_expected
sign_checked policy_asset gdk amounts utxos pset nonces details =
    if is_expected policy_asset amounts details
    then (if amounts.send_amount == 0 then some pset else gdk.psbt_sign utxos pset nonces)
    else none

unfoldable pub verify_and_sign_pset : AssetId → Gdk → Amounts → Text → List Text → Option Text
unfolding sign_checked
verify_and_sign_pset policy_asset gdk amounts pset nonces =
    gdk.unspent_outputs >>= λ unspent_outputs.
    gdk.psbt_get_details (all_utxos unspent_outputs) pset
    >>= sign_checked policy_asset gdk amounts (all_utxos unspent_outputs) pset nonces
