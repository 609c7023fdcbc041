-- ===== src/Headless/Types.antt =====
-- The state of the worker, and the messages that it receives and sends. Ids of 32 bytes and texts
-- that are only compared stand as numbers or lists of bytes.
use sideswapclient.Prelude.{ℕ, Bool, true, false, Option, List, ◌≡◌, ◌↔◌, arith, ◌==◌ as nat_eq}
use sideswapclient.Prelude.Int64
use sideswapclient.Prelude.Int64.{I64}
use sideswapclient.Prelude.Key.{Key, Text, text_eq, text_before, text_eq_iff, nat_key}
use sideswapclient.Prelude.Map.{Map}

abbrev pub OrderId : Type 0
OrderId = ℕ

abbrev pub AssetId : Type 0
AssetId = ℕ

abbrev pub Txid : Type 0
Txid = ℕ

-- The sending half of a `oneshot` channel.
abbrev pub Sender : Type 0
Sender = ℕ

pub data RequestId : Type 0 where
  string : Text → RequestId
  int : I64 → RequestId

abbrev pub request_id_eq : RequestId → RequestId → Bool
request_id_eq (string a) (string b) = text_eq a b
request_id_eq (int a) (int b) = nat_eq a b
request_id_eq _ _ = false

pub request_id_eq_iff : (a b : RequestId) → (request_id_eq a b ≡ true) ↔ (a ≡ b)
request_id_eq_iff (string a) (string b) = ground (arith, text_eq_iff a b)
request_id_eq_iff (int a) (int b) = ground arith
request_id_eq_iff (string a) (int b) = (λ h. cc, λ h. cc)
request_id_eq_iff (int a) (string b) = (λ h. cc, λ h. cc)

-- The derived order: `String` before `Int`.
abbrev request_id_before : RequestId → RequestId → Bool
request_id_before (string a) (string b) = text_before a b
request_id_before (string a) (int b) = true
request_id_before (int a) (string b) = false
request_id_before (int a) (int b) = Int64.lt a b

instance abbrev pub request_id_key : Key RequestId
request_id_key = record {
  beq = request_id_eq;
  beq_iff = request_id_eq_iff;
  before = request_id_before;
}

pub record OutPoint : Type 0 where
  pub txid : Txid
  pub vout : ℕ

pub data OrderState : Type 0 where
  active : List OutPoint → OrderState
  succeed : List OutPoint → Txid → OrderState
  failed : OrderState

-- `gdk_json::UnspentOutput`, the fields that the worker reads.
pub record UnspentOutput : Type 0 where
  pub txhash : Txid
  pub vout : ℕ
  pub asset_id : AssetId
  pub satoshi : ℕ
  pub assetblinder : ℕ
  pub amountblinder : ℕ
  pub public_key : Option ℕ
  pub prevout_script : Text

-- `sideswap_api::PsetInput`
pub record PsetInput : Type 0 where
  pub txid : Txid
  pub vout : ℕ
  pub asset : AssetId
  pub asset_bf : ℕ
  pub value : ℕ
  pub value_bf : ℕ
  pub redeem_script : Option Text

pub record SwapInputs : Type 0 where
  pub recv_address : Text
  pub change_address : Text
  pub utxos : Map AssetId (List UnspentOutput)

pub data ErrorCode : Type 0 where
  server_error other_code : ErrorCode

pub record ServerError : Type 0 where
  pub code : ErrorCode
  pub message : Text

-- `api_server::Error`, and what is sent back through a channel.
pub data ApiError : Type 0 where
  server : Text → ApiError
  not_inputs duplicated_order too_many_request : ApiError

pub data Status : Type 0 where
  is_active expired is_succeed : Status

pub data WalletResp : Type 0 where
  swap_inputs : SwapInputs → WalletResp
  signed_pset : OrderId → Text → WalletResp
  pset_sign_failed : OrderId → WalletResp

-- `F` is the type of prices.
module _ (F : Type 0) where
  -- `sideswap_api::Details` and `SubmitResponse`
  pub record Details : Type 0 where
    pub asset : AssetId
    pub bitcoin_amount : I64
    pub asset_amount : I64
    pub price : F
    pub server_fee : I64
    pub send_bitcoins : Bool

  pub record SubmitResponse : Type 0 where
    pub order_id : OrderId
    pub details : Details

  -- `api_server::NewOrder`
  pub record NewOrder : Type 0 where
    pub asset_id : AssetId
    pub asset_amount : F
    pub price : F
    pub private : Option Bool
    pub ttl_seconds : Option ℕ
    pub unique_key : Option Text

  -- `api_server::OrderInfo`
  pub record OrderInfo : Type 0 where
    pub order_id : OrderId
    pub asset_id : AssetId
    pub bitcoin_amount : I64
    pub asset_amount : I64
    pub price : F
    pub private : Bool

  -- The fields of `PsetMakerRequest` and `PriceOrder` that are not always `None`.
  pub record PsetMakerRequest : Type 0 where
    pub order_id : OrderId
    pub price : F
    pub inputs : List PsetInput
    pub recv_addr : Text
    pub change_addr : Text
    pub private : Bool
    pub ttl_seconds : Option ℕ

  pub record PriceOrder : Type 0 where
    pub asset : AssetId
    pub asset_amount : Option F
    pub price : Option F

  pub data Request : Type 0 where
    login : Option ℕ → Request
    submit : PriceOrder → Request
    pset_maker : PsetMakerRequest → Request
    -- The order, the signed PSET; the side is `Maker`.
    sign : OrderId → Text → Request
    cancel : OrderId → Request

  pub data WrappedRequest : Type 0 where
    connect : Text → ℕ → Bool → WrappedRequest
    request : RequestId → Request → WrappedRequest

  -- The responses that a callback takes, and the others.
  pub data Response : Type 0 where
    login_resp : List OrderId → Response
    submit_resp : SubmitResponse → Response
    pset_maker_resp sign_resp other_resp : Response

  pub data Answer : Type 0 where
    ok : Response → Answer
    err : ServerError → Answer

  pub data Reply : Type 0 where
    order_info : OrderInfo → Reply
    order_error : ApiError → Reply
    order_status : Status → Option Txid → Reply

  -- The closures of `make_async_request`, with what they capture.
  pub data Callback : Type 0 where
    on_login : Callback
    on_sign : OrderId → Callback
    on_pset_maker : OrderId → Details → NewOrder → Sender → Callback
    on_submit : NewOrder → Sender → Callback

  pub record SignNotification : Type 0 where
    pub order_id : OrderId
    pub pset : Text
    pub details : Details
    pub nonces : Option (List Text)

  pub data Notification : Type 0 where
    order_created : OrderId → Notification
    order_removed : OrderId → Notification
    complete : OrderId → Option Txid → Notification
    sign_order : SignNotification → Notification
    other_notification : Notification

  pub data WsResp : Type 0 where
    connected disconnected : WsResp
    response : Option RequestId → Answer → WsResp
    notification : Notification → WsResp

  pub data ApiReq : Type 0 where
    new_order : NewOrder → Sender → ApiReq
    get_order_status : OrderId → Sender → ApiReq
    list_orders : Sender → ApiReq

  pub data Req : Type 0 where
    api_server : ApiReq → Req
    wallet : WalletResp → Req
    ws : WsResp → Req

  -- `Data`. What the channels carry away is kept in the order of sending: `ws_sent` to the server,
  -- `wallet_sent` to the wallet, `replies` to the callers. `next_request_id` is `GLOBAL_REQUEST_ID`.
  pub record Data : Type 0 where
    pub host : Text
    pub port : ℕ
    pub use_tls : Bool
    pub policy_asset : AssetId
    pub session_id : ℕ
    pub ws_connected : Bool
    pub async_requests : Map RequestId Callback
    pub ws_sent : List WrappedRequest
    pub wallet_sent : List SignNotification
    pub orders : Map OrderId OrderState
    pub inputs : Option SwapInputs
    pub unique_orders : Map Text OrderId
    pub sign_request_count : ℕ
    pub replies : List (Sender × Reply)
    pub next_request_id : I64
