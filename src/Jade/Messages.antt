-- ===== src/Jade/Messages.antt =====
-- The requests to the device, its answers and the state of the worker:
-- rust/sideswap_jade/src/lib.rs and models.rs. A text is the list of its bytes.
use sideswapclient.Prelude.{ℕ, Bool, Option, List}
use sideswapclient.Prelude.Key.{Text, codes}
use sideswapclient.Prelude.Map.{Map}
use sideswapclient.Jade.{Bytes}
use sideswapclient.Jade.Cbor.{Cbor}

pub data StatusNetwork : Type 0 where
  all main test : StatusNetwork

pub data DeviceState : Type 0 where
  ready temp unsaved locked uninit : DeviceState

pub data JadeNetwork : Type 0 where
  liquid testnet_liquid : JadeNetwork

unfoldable pub network_name : JadeNetwork → Text
network_name liquid = codes "liquid"
network_name testnet_liquid = codes "testnet-liquid"

pub data BlindingFactorType : Type 0 where
  asset value : BlindingFactorType

pub record ResolveXpubReq : Type 0 where
  pub network : JadeNetwork
  pub path : List ℕ

pub record SignMessageReq : Type 0 where
  pub path : List ℕ
  pub message : Text
  pub ae_host_commitment : Bytes

pub record GetSharedNonceReq : Type 0 where
  pub script : Bytes
  pub their_pubkey : Bytes

pub record GetBlindingFactorReq : Type 0 where
  pub hash_prevouts : Bytes
  pub output_index : ℕ
  pub factor_type : BlindingFactorType

pub record GetCommitmentsReq : Type 0 where
  pub asset_id : Bytes
  pub value : ℕ
  pub hash_prevouts : Bytes
  pub output_index : ℕ
  pub vbf : Option Bytes

pub record RespVersionInfo : Type 0 where
  pub jade_version : Text
  pub jade_state : DeviceState
  pub jade_networks : StatusNetwork
  pub jade_has_pin : Bool
  pub efusemac : Text

pub record RespGetCommitments : Type 0 where
  pub abf : Bytes
  pub vbf : Bytes
  pub asset_generator : Bytes
  pub value_commitment : Bytes
  pub asset_id : Bytes
  pub value : ℕ

pub record AdditionalInfoSummary : Type 0 where
  pub asset_id : Bytes
  pub satoshi : ℕ

pub data TxType : Type 0 where
  swap : TxType

pub record ReqSignTxAdditionalInfo : Type 0 where
  pub is_partial : Bool
  pub tx_type : TxType
  pub wallet_input_summary : List AdditionalInfoSummary
  pub wallet_output_summary : List AdditionalInfoSummary

pub record Prevout : Type 0 where
  pub txid : Text
  pub vout : ℕ

pub record TrustedCommitment : Type 0 where
  pub asset_id : Bytes
  pub value : ℕ
  pub asset_generator : Bytes
  pub value_commitment : Bytes
  pub blinding_key : Bytes
  pub abf : Bytes
  pub vbf : Bytes

pub data OutputVariant : Type 0 where
  p2pkh p2wpkh p2wpkh_p2sh multi_p2wsh multi_p2sh multi_p2wsh_p2sh : OutputVariant

pub record Output : Type 0 where
  pub variant : Option OutputVariant
  pub path : List ℕ
  pub recovery_xpub : Option Text
  pub is_change : Bool

pub record ReqTxInput : Type 0 where
  pub is_witness : Bool
  pub path : List ℕ
  pub script : Bytes
  pub sighash : Option ℕ
  pub value_commitment : Bytes
  pub ae_host_commitment : Bytes
  pub ae_host_entropy : Bytes
  pub value : ℕ
  pub abf : Bytes
  pub vbf : Bytes
  pub asset_id : Bytes
  pub asset_generator : Bytes

pub record DeviceError : Type 0 where
  pub code : ℕ
  pub message : Text

-- `models::Resp<T>`
pub record Answer (T : Type 0) : Type 0 where
  pub id : Text
  pub result : Option T
  pub error : Option DeviceError

pub data Resp : Type 0 where
  read_status : RespVersionInfo → Resp
  auth_user : Bool → Resp
  resolve_xpub : Text → Resp
  get_master_blinding_key : Bytes → Resp
  sign_message : Bytes → Resp
  get_signature : Option Bytes → Resp
  get_shared_nonce : Bytes → Resp
  get_blinding_key : Bytes → Resp
  get_blinding_factor : Bytes → Resp
  get_commitments : RespGetCommitments → Resp
  sign_tx : Bool → Resp
  tx_input : Bytes → Resp

-- The errors of `WorkerResp::Resp(Err(..))`; the text of the last two is only logged.
pub data Failure : Type 0 where
  request_failed : Text → Failure
  unexpected_response auth_request_failed : Failure

pub data WorkerResp : Type 0 where
  resp : Resp → WorkerResp
  failure : Failure → WorkerResp
  fatal_error : WorkerResp

pub data PendingRequest : Type 0 where
  read_status http_request auth_complete get_xpub get_master_blinding_key : PendingRequest
  sign_message get_signature get_shared_nonce get_blinding_key : PendingRequest
  get_blinding_factor get_commitments sign_tx tx_input : PendingRequest

-- An `i32`, as its pattern of 32 bits.
abbrev pub I32 : Type 0
I32 = ℕ

-- `F` is the type of floats.
module _ (F : Type 0) where
  pub record AssetInfo : Type 0 where
    pub asset_id : Text
    pub contract : Cbor F
    pub issuance_prevout : Prevout

  pub record ReqSignTx : Type 0 where
    pub network : Text
    pub use_ae_signatures : Bool
    pub txn : Bytes
    pub num_inputs : ℕ
    pub trusted_commitments : List (Option TrustedCommitment)
    pub change : List (Option Output)
    pub asset_info : List AssetInfo
    pub additional_info : Option ReqSignTxAdditionalInfo

  pub record RespHttpRequestParams : Type 0 where
    pub urls : List Text
    pub method : Text
    pub accept : Text
    pub payload : Cbor F

  pub record RespHttpReq : Type 0 where
    pub params : RespHttpRequestParams
    pub on_reply : Text

  pub record RespAuthUser : Type 0 where
    pub http_request : RespHttpReq

  pub data Req : Type 0 where
    read_status : Req
    auth_user : JadeNetwork → Req
    resolve_xpub : ResolveXpubReq → Req
    get_master_blinding_key : Req
    sign_message : SignMessageReq → Req
    get_signature : Option Bytes → Req
    get_shared_nonce : GetSharedNonceReq → Req
    get_blinding_key : Bytes → Req
    get_blinding_factor : GetBlindingFactorReq → Req
    get_commitments : GetCommitmentsReq → Req
    sign_tx : ReqSignTx → Req
    tx_input : Option ReqTxInput → Req

  -- The parameters of a message to the device: `ReqAuthUser` and the others.
  pub data Params : Type 0 where
    no_params : Params
    auth_user : Text → Params
    get_xpub : Text → List ℕ → Params
    sign_message : List ℕ → Text → Bytes → Params
    get_signature : Option Bytes → Params
    get_shared_nonce : Bytes → Bytes → Params
    get_blinding_key : Bytes → Params
    get_blinding_factor : Bytes → ℕ → Text → Params
    get_commitments : GetCommitmentsReq → Params
    sign_tx : ReqSignTx → Params
    tx_input : ReqTxInput → Params
    tx_input_empty : Params
    pin_answer : Cbor F → Params

  -- `models::Req<T>`
  pub record Message : Type 0 where
    pub id : Text
    pub method : Text
    pub params : Params

  -- `State`, with what was sent to the device and what the callback was given.
  pub record State : Type 0 where
    pub pending_requests : Map I32 PendingRequest
    pub last_request_id : I32
    pub sent : List Message
    pub answers : List WorkerResp

  pub data WorkerReq : Type 0 where
    req : Req → WorkerReq
    quit : WorkerReq
    from_port : Bytes → WorkerReq
    port_fatal_error : WorkerReq
