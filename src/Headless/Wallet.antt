-- ===== src/Headless/Wallet.antt =====
-- The wallet's thread: rust/sideswap_headless_server/src/wallet.rs, the loop of `run`.
use sideswapclient.Prelude.{
  ℕ, ◌-◌, ltb, Bool, true, false, ◌&&◌, Option, none, some, List, [], ◌∷◌, ◌++◌, if◌then◌else◌,
  ◌>>=◌,
}
use sideswapclient.Prelude.Int64
use sideswapclient.Prelude.Key.{Text}
use sideswapclient.Prelude.Map.{Map}
use sideswapclient.Wallet.{Amounts, Gdk, verify_and_sign_pset}
use sideswapclient.Headless.Types.{
  AssetId, UnspentOutput, Details, SignNotification, WalletResp, swap_inputs, signed_pset,
  pset_sign_failed,
}

-- Times are numbers of nanoseconds.
abbrev pub ten_seconds : ℕ
ten_seconds = 10_000_000_000

-- What is outside while a request is handled: GDK, the clock before and after, two new addresses and
-- the wallet's outputs at that time. An error of a call is `none`.
pub record Around : Type 0 where
  pub gdk : Gdk
  pub now : ℕ
  pub now_after : ℕ
  pub receive_address : Option Text
  pub change_address : Option Text
  pub utxos : Option (Map AssetId (List UnspentOutput))

-- The variables of the loop, with what the callback was given.
pub record Thread : Type 0 where
  pub utxo_update_timestamp : ℕ
  pub utxo_update_needed : Bool
  pub responses : List WalletResp

abbrev pub call_back : WalletResp → Thread → Thread
call_back resp thread = record thread { responses = thread.responses ++ resp ∷ [] }

-- `unwrap_or_default()` of the nonces.
abbrev pub or_no_nonces : Option (List Text) → List Text
or_no_nonces none = []
or_no_nonces (some nonces) = nonces

-- The outcome of `verify_and_sign_pset`.
abbrev pub sign_outcome : ℕ → Option Text → WalletResp
sign_outcome order_id none = pset_sign_failed order_id
sign_outcome order_id (some pset) = signed_pset order_id pset

pub data WalletReq (F : Type 0) : Type 0 where
  notif : WalletReq F
  sign_pset : SignNotification F → WalletReq F
  timer : WalletReq F

module _ {F : Type 0} where
  abbrev pub amounts_of : AssetId → Details F → Amounts
  amounts_of policy_asset details =
      if details.send_bitcoins
      then record {
        send_asset = policy_asset;
        send_amount = Int64.add details.bitcoin_amount details.server_fee;
        recv_asset = details.asset;
        recv_amount = details.asset_amount;
      }
      else record {
        send_asset = details.asset;
        send_amount = details.asset_amount;
        recv_asset = policy_asset;
        recv_amount = Int64.sub details.bitcoin_amount details.server_fee;
      }

  unfoldable pub sign_result : AssetId → Gdk → SignNotification F → Option Text
  unfolding verify_and_sign_pset
  sign_result policy_asset gdk sign =
      verify_and_sign_pset policy_asset gdk (amounts_of policy_asset sign.details) sign.pset
        (or_no_nonces sign.nonces)

  -- `match req`
  abbrev pub handle : AssetId → Gdk → WalletReq F → Thread → Thread
  handle policy_asset gdk notif thread = record thread { utxo_update_needed = true }
  handle policy_asset gdk (sign_pset sign) thread =
      call_back (sign_outcome sign.order_id (sign_result policy_asset gdk sign)) thread
  handle policy_asset gdk timer thread = thread

-- A thread that has not started: `Instant::now()` is the time of the start.
abbrev pub start_thread : ℕ → Thread
start_thread now = record { utxo_update_timestamp = now; utxo_update_needed = true; responses = [] }

-- New addresses and all outputs, at most once in ten seconds; an error of a call panics.
unfoldable pub update_inputs : Around → Thread → Option Thread
update_inputs around thread =
    if thread.utxo_update_needed && ltb ten_seconds (around.now - thread.utxo_update_timestamp)
    then (around.receive_address >>= λ recv_address. around.change_address >>= λ change_address.
        around.utxos >>= λ utxos. some (record {
          utxo_update_timestamp = around.now_after;
          utxo_update_needed = false;
          responses =
              thread.responses
              ++ swap_inputs (record {
                recv_address = recv_address;
                change_address = change_address;
                utxos = utxos;
              })
                ∷ [];
        }))
    else some thread

-- A round of the loop.
unfoldable pub round : {F : Type 0} → AssetId → Around → WalletReq F → Thread → Option Thread
unfolding update_inputs sign_result
round policy_asset around req thread =
    update_inputs around (handle policy_asset around.gdk req thread)
