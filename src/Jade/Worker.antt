-- ===== src/Jade/Worker.antt =====
-- The worker's loop over requests and messages: rust/sideswap_jade/src/lib.rs, `worker`.
use sideswapclient.Prelude.{
  Bool, true, false, Option, none, some, List, [], ◌∷◌, if◌then◌else◌, ◌>>=◌,
}
use sideswapclient.Jade.{Bytes}
use sideswapclient.Prelude.Key.{Text, codes}
use sideswapclient.Prelude.Map.{Map}
use sideswapclient.Jade.Messages.{
  JadeNetwork, ResolveXpubReq, SignMessageReq, GetSharedNonceReq, GetBlindingFactorReq,
  GetCommitmentsReq, ReqSignTx, ReqTxInput, BlindingFactorType, network_name, fatal_error,
  PendingRequest, I32, Req, Params, State, WorkerReq, req, quit, from_port, port_fatal_error,
}
use sideswapclient.Jade.Port.{Codec, Outside, callback, send_request, handle_port_msg}

abbrev pub is_status : PendingRequest → Bool
is_status PendingRequest.read_status = true
is_status _ = false

-- `retain(|_, request| *request != PendingRequest::ReadStatus)`
unfoldable pub without_status : Map I32 PendingRequest → Map I32 PendingRequest
without_status [] = []
without_status ((id, kind) ∷ rest) =
    if is_status kind then without_status rest else (id, kind) ∷ without_status rest

abbrev pub is_empty : Map I32 PendingRequest → Bool
is_empty [] = true
is_empty (entry ∷ rest) = false

abbrev pub factor_name : BlindingFactorType → Text
factor_name BlindingFactorType.asset = codes "ASSET"
factor_name BlindingFactorType.value = codes "VALUE"

module _ {F : Type 0} (is_open : Bool) where
  -- No status is asked for while other requests wait.
  abbrev pub ask_status : State F → State F
  ask_status state =
      if is_empty state.pending_requests
      then send_request is_open (codes "get_version_info") Params.no_params
          PendingRequest.read_status state
      else state

  -- The other requests.
  abbrev pub ask_auth_user : JadeNetwork → State F → State F
  ask_auth_user network state =
      send_request is_open (codes "auth_user") (Params.auth_user (network_name network))
        PendingRequest.http_request state

  abbrev pub ask_resolve_xpub : ResolveXpubReq → State F → State F
  ask_resolve_xpub req' state =
      send_request is_open (codes "get_xpub")
        (Params.get_xpub (network_name req'.network) req'.path) PendingRequest.get_xpub state

  abbrev pub ask_get_master_blinding_key : State F → State F
  ask_get_master_blinding_key state =
      send_request is_open (codes "get_master_blinding_key") Params.no_params
        PendingRequest.get_master_blinding_key state

  abbrev pub ask_sign_message : SignMessageReq → State F → State F
  ask_sign_message req' state =
      send_request is_open (codes "sign_message")
        (Params.sign_message req'.path req'.message req'.ae_host_commitment)
        PendingRequest.sign_message state

  abbrev pub ask_get_signature : Option Bytes → State F → State F
  ask_get_signature ae_host_entropy state =
      send_request is_open (codes "get_signature") (Params.get_signature ae_host_entropy)
        PendingRequest.get_signature state

  abbrev pub ask_get_shared_nonce : GetSharedNonceReq → State F → State F
  ask_get_shared_nonce req' state =
      send_request is_open (codes "get_shared_nonce")
        (Params.get_shared_nonce req'.script req'.their_pubkey) PendingRequest.get_shared_nonce
        state

  abbrev pub ask_get_blinding_key : Bytes → State F → State F
  ask_get_blinding_key script state =
      send_request is_open (codes "get_blinding_key") (Params.get_blinding_key script)
        PendingRequest.get_blinding_key state

  abbrev pub ask_get_blinding_factor : GetBlindingFactorReq → State F → State F
  ask_get_blinding_factor req' state =
      send_request is_open (codes "get_blinding_factor")
        (Params.get_blinding_factor req'.hash_prevouts req'.output_index
          (factor_name req'.factor_type))
        PendingRequest.get_blinding_factor state

  abbrev pub ask_get_commitments : GetCommitmentsReq → State F → State F
  ask_get_commitments req' state =
      send_request is_open (codes "get_commitments") (Params.get_commitments req')
        PendingRequest.get_commitments state

  abbrev pub ask_sign_tx : ReqSignTx F → State F → State F
  ask_sign_tx msg state =
      send_request is_open (codes "sign_liquid_tx") (Params.sign_tx msg) PendingRequest.sign_tx
        state

  abbrev pub ask_tx_input : ReqTxInput → State F → State F
  ask_tx_input msg state =
      send_request is_open (codes "tx_input") (Params.tx_input msg) PendingRequest.tx_input state

  abbrev pub ask_tx_input_empty : State F → State F
  ask_tx_input_empty state =
      send_request is_open (codes "tx_input") Params.tx_input_empty PendingRequest.tx_input state

  unfoldable pub handle_req : Req F → State F → State F
  unfolding send_request without_status network_name
  handle_req Req.read_status state =
      ask_status (record state { pending_requests = without_status state.pending_requests })
  handle_req (Req.auth_user network) state = ask_auth_user network state
  handle_req (Req.resolve_xpub req') state = ask_resolve_xpub req' state
  handle_req Req.get_master_blinding_key state = ask_get_master_blinding_key state
  handle_req (Req.sign_message req') state = ask_sign_message req' state
  handle_req (Req.get_signature ae_host_entropy) state = ask_get_signature ae_host_entropy state
  handle_req (Req.get_shared_nonce req') state = ask_get_shared_nonce req' state
  handle_req (Req.get_blinding_key script) state = ask_get_blinding_key script state
  handle_req (Req.get_blinding_factor req') state = ask_get_blinding_factor req' state
  handle_req (Req.get_commitments req') state = ask_get_commitments req' state
  handle_req (Req.sign_tx msg) state = ask_sign_tx msg state
  handle_req (Req.tx_input (some msg)) state = ask_tx_input msg state
  handle_req (Req.tx_input none) state = ask_tx_input_empty state

-- The state before the first message.
abbrev pub start : {F : Type 0} → State F
start = record { pending_requests = []; last_request_id = 25000; sent = []; answers = [] }

abbrev pub is_quit : {F : Type 0} → WorkerReq F → Bool
is_quit quit = true
is_quit _ = false

module _ {N F : Type 0} (codec : Codec N F) where
  unfoldable pub step : WorkerReq F → Outside → State F → Option (State F)
  unfolding handle_req handle_port_msg
  step (req req') outside state = some (handle_req outside.is_open req' state)
  step quit outside state = some state
  step (from_port bytes) outside state = handle_port_msg codec outside bytes state
  step port_fatal_error outside state = some (callback fatal_error state)

  -- `for msg in receiver`, up to `Quit`.
  unfoldable pub worker : List (WorkerReq F × Outside) → State F → Option (State F)
  unfolding step
  worker [] state = some state
  worker ((msg, outside) ∷ rest) state =
      if is_quit msg then some state else (step msg outside state >>= worker rest)
