-- ===== src/Balancing/Types.antt =====
-- storage.rs, and what the handlers of balancing.rs read and do. A handler returns the new storage
-- and its effects, oldest first; `none` stands for a panic.
use Prim.Native.String.{String}
use sideswapclient.Prelude.{ℕ, Bool, Option, none, some, List, [], ◌∷◌, ◌++◌}
use sideswapclient.Prelude.Int64.{I64}

pub data TransferState : Type 0 where
  send_usdt_new send_usdt_wait_confirm : TransferState
  recv_usdt_new recv_usdt_wait_withdraw_id recv_usdt_wait_confirm : TransferState
  send_btc_new send_btc_wait_lbtc_balance send_btc_wait_confirm : TransferState
  recv_btc_new recv_btc_wait_lbtc_balance recv_btc_wait_withdraw_id recv_btc_wait_confirm :
      TransferState
  complete failed : TransferState

-- Times are milliseconds.
pub record Transfer : Type 0 where
  pub withdraw_id : Option I64
  pub state : TransferState
  pub amount : I64
  pub created_at : ℕ
  pub updated_at : ℕ
  pub txid : Option String

pub record Storage : Type 0 where
  pub balancing : Option Transfer

-- The fields of `Args` that the handlers read. `mainnet` is `args.env.data().mainnet`.
pub record Args : Type 0 where
  pub bitfinex_key : String
  pub bitfinex_secret : String
  pub bitfinex_withdraw_address : String
  pub bitfinex_fund_address : String
  pub bitfinex_currency_btc : String
  pub bitfinex_currency_lbtc : String
  pub bitfinex_currency_usdt : String
  pub storage_path : String
  pub notifications_url : Option String
  pub mainnet : Bool

-- `proto::to::Withdraw` and `proto::to::Transfer`; `F` is the type of amounts.
pub record Withdraw (F : Type 0) : Type 0 where
  pub key : String
  pub secret : String
  pub wallet : String
  pub method : String
  pub amount : F
  pub address : String

pub record Exchange (F : Type 0) : Type 0 where
  pub key : String
  pub secret : String
  pub source : String
  pub target : String
  pub currency : String
  pub currency_to : String
  pub amount : F

pub data Note : Type 0 where
  balancing_failed balancing_complete start_balancing : Note

pub data Action (F : Type 0) : Type 0 where
  -- The RPC calls `sendtoaddress_asset` and `sendtoaddress_bitcoin`.
  send_asset : String → F → String → Action F
  send_bitcoin : String → F → Action F
  -- Messages to the exchange module.
  withdraw : Withdraw F → Action F
  exchange : Exchange F → Action F
  -- A slack message, and the storage written to its path.
  notify : String → Note → Action F
  save : String → Storage → Action F

abbrev pub Outcome : Type 0 → Type 0
Outcome F = Option (Storage × List (Action F))

-- What happened before the call that the outcome is of.
abbrev pub after : {F : Type 0} → List (Action F) → Outcome F → Outcome F
after earlier none = none
after earlier (some (storage, actions)) = some (storage, earlier ++ actions)

-- `send_notification` sends only where a URL is configured.
abbrev pub send_notification : {F : Type 0} → Note → Option String → List (Action F)
send_notification note none = []
send_notification note (some url) = notify url note ∷ []

pub note_of : {F : Type 0} → TransferState → Option String → List (Action F)
note_of failed url = send_notification balancing_failed url
note_of complete url = send_notification balancing_complete url
note_of _ url = []

-- `expect("balancing must be active")` panics on an idle storage.
unfoldable pub update_balancing_state :
    {F : Type 0} → Storage → Args → TransferState → ℕ → Outcome F
unfolding note_of
update_balancing_state storage args new_state now = elim storage.balancing [
  | none ↦ none
  | some transfer ↦
      let storage' : Storage = record {
        balancing = some (record transfer { updated_at = now; state = new_state });
      } in
      some
        (storage', note_of new_state args.notifications_url ++ save args.storage_path storage' ∷ [])
]
