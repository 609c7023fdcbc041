-- ===== src/Jade/Port.antt =====
-- What the worker does with a message from the device: rust/sideswap_jade/src/lib.rs,
-- `handle_http_request` and `handle_port_msg`. A panic is `none`.
use sideswapclient.Prelude.{
  ◌+◌, ◌%◌, Bool, Option, none, some, List, [], ◌∷◌, ◌++◌, if◌then◌else◌, ◌>>=◌ as bind,
}
use sideswapclient.Prelude.Key.{Text, codes, text_eq, nat_key}
use sideswapclient.Prelude.Map.{get, insert, remove}
use sideswapclient.Prelude.Decimal.{i32_modulus, i32_to_string, parse_i32}
use sideswapclient.Jade.{Bytes}
use sideswapclient.Jade.Cbor.{
  Cbor, Json, Numbers, Outcome, ok, err, panic, ◌>>=◌, ok_or_err, json_to_cbor, cbor_to_json,
}
use sideswapclient.Jade.Messages.{
  RespVersionInfo, RespGetCommitments, DeviceError, Answer, Resp, request_failed,
  unexpected_response, auth_request_failed, WorkerResp, resp, failure, fatal_error, PendingRequest,
  I32, RespAuthUser, Params, pin_answer, State,
}

-- `N` is the type of JSON numbers, and `F` that of floats.
module _ (N F : Type 0) where
  -- Decoding from CBOR by type, base64, and the text of JSON.
  pub record Codec : Type 0 where
    pub decode_any : Bytes → Option (Answer (Cbor F))
    pub decode_version : Bytes → Option (Answer RespVersionInfo)
    pub decode_auth_user : Bytes → Option (Answer (RespAuthUser F))
    pub decode_bool : Bytes → Option (Answer Bool)
    pub decode_text : Bytes → Option (Answer Text)
    pub decode_vec : Bytes → Option (Answer Bytes)
    pub decode_byte_buf : Bytes → Option (Answer Bytes)
    pub decode_commitments : Bytes → Option (Answer RespGetCommitments)
    pub base64_decode : Text → Option Bytes
    pub json_to_string : Json N F → Option Text
    pub json_from_str : Text → Option (Json N F)
    pub numbers : Numbers N F

-- What happens outside while a message is handled: whether the serial port's thread still takes
-- what is sent, and the body of the HTTP response to a URL and a body, if there is one.
pub record Outside : Type 0 where
  pub is_open : Bool
  pub post : Text → Text → Option Text

abbrev pub first_url : List Text → Option Text
first_url [] = none
first_url (url ∷ urls) = some url

-- Whether the next answer ends the unlocking.
abbrev pub next_step : Text → PendingRequest
next_step on_reply =
    if text_eq on_reply (codes "handshake_complete")
    then PendingRequest.auth_complete
    else PendingRequest.http_request

-- `jade_resp.id.parse::<i32>().ok().unwrap_or_default()`
abbrev pub id_or_zero : Option I32 → I32
id_or_zero none = 0
id_or_zero (some id) = id

module _ {F : Type 0} where
  -- `callback(..)`
  abbrev pub callback : WorkerResp → State F → State F
  callback answer state = record state { answers = state.answers ++ answer ∷ [] }

  abbrev pub next_id : State F → I32
  next_id state = (state.last_request_id + 1) % i32_modulus

  -- A request with the next id: sent and noted, or a fatal error.
  unfoldable pub send_request : Bool → Text → Params F → PendingRequest → State F → State F
  unfolding i32_to_string
  send_request is_open method params kind state =
      if is_open
      then record {
        pending_requests = insert (next_id state) kind state.pending_requests;
        last_request_id = next_id state;
        sent =
            state.sent
            ++ record { id = i32_to_string (next_id state); method = method; params = params } ∷ [];
        answers = state.answers;
      }
      else callback fatal_error (record state { last_request_id = next_id state })

  -- `match (v.error, v.result)`, where a result goes to `f`.
  abbrev pub conclude :
      {T : Type 0}
      → Option DeviceError
      → Option T
      → (T → State F → Option (State F))
      → State F
      → Option (State F)
  conclude (some e) result f state = some (callback (failure (request_failed e.message)) state)
  conclude none (some v) f state = f v state
  conclude none none f state = some (callback (failure unexpected_response) state)

  abbrev pub respond_with :
      {T : Type 0}
      → (T → State F → Option (State F))
      → Option (Answer T)
      → State F
      → Option (State F)
  respond_with f none state = some (callback fatal_error state)
  respond_with f (some v) state = conclude v.error v.result f state

  abbrev pub respond : {T : Type 0} → (T → Resp) → Option (Answer T) → State F → Option (State F)
  respond wrap = respond_with (λ v state. some (callback (resp (wrap v)) state))

  -- A signature is base64 text, bytes or null.
  abbrev pub signature : (Text → Option Bytes) → Cbor F → State F → Option (State F)
  signature base64_decode (Cbor.text v) state =
      bind (base64_decode v) λ bytes. some (callback (resp (Resp.get_signature (some bytes))) state)
  signature base64_decode (Cbor.bytes v) state =
      some (callback (resp (Resp.get_signature (some v))) state)
  signature base64_decode Cbor.null state = some (callback (resp (Resp.get_signature none)) state)
  signature base64_decode _ state = some (callback (failure unexpected_response) state)

module _ {N F : Type 0} (codec : Codec N F) (outside : Outside) where
  unfoldable pub handle_http_request : RespAuthUser F → Outcome (Cbor F)
  unfolding cbor_to_json json_to_cbor
  handle_http_request details = ok_or_err (first_url details.http_request.params.urls) >>= λ url.
      cbor_to_json codec.numbers details.http_request.params.payload >>= λ json.
      ok_or_err (codec.json_to_string json) >>= λ body.
      ok_or_err (outside.post url body) >>= λ answer.
      ok_or_err (codec.json_from_str answer) >>= json_to_cbor codec.numbers

  -- The next message to the device, with the PIN server's answer.
  abbrev pub send_pin : Text → Outcome (Cbor F) → State F → Option (State F)
  send_pin on_reply (ok pin) state =
      some (send_request outside.is_open on_reply (pin_answer pin) (next_step on_reply) state)
  send_pin on_reply err state = some (callback (failure auth_request_failed) state)
  send_pin on_reply panic state = none

  abbrev pub continue_auth : RespAuthUser F → State F → Option (State F)
  continue_auth v = send_pin v.http_request.on_reply (handle_http_request v)

  -- The answer to each kind of request.
  abbrev pub on_read_status : Bytes → State F → Option (State F)
  on_read_status bytes = respond Resp.read_status (codec.decode_version bytes)

  abbrev pub on_http_request : Bytes → State F → Option (State F)
  on_http_request bytes = respond_with continue_auth (codec.decode_auth_user bytes)

  abbrev pub on_auth_complete : Bytes → State F → Option (State F)
  on_auth_complete bytes = respond Resp.auth_user (codec.decode_bool bytes)

  abbrev pub on_get_xpub : Bytes → State F → Option (State F)
  on_get_xpub bytes = respond Resp.resolve_xpub (codec.decode_text bytes)

  abbrev pub on_get_master_blinding_key : Bytes → State F → Option (State F)
  on_get_master_blinding_key bytes = respond Resp.get_master_blinding_key (codec.decode_vec bytes)

  abbrev pub on_sign_message : Bytes → State F → Option (State F)
  on_sign_message bytes = respond Resp.sign_message (codec.decode_byte_buf bytes)

  abbrev pub on_get_signature : Bytes → State F → Option (State F)
  on_get_signature bytes = respond_with (signature codec.base64_decode) (codec.decode_any bytes)

  abbrev pub on_get_shared_nonce : Bytes → State F → Option (State F)
  on_get_shared_nonce bytes = respond Resp.get_shared_nonce (codec.decode_byte_buf bytes)

  abbrev pub on_get_blinding_key : Bytes → State F → Option (State F)
  on_get_blinding_key bytes = respond Resp.get_blinding_key (codec.decode_byte_buf bytes)

  abbrev pub on_get_blinding_factor : Bytes → State F → Option (State F)
  on_get_blinding_factor bytes = respond Resp.get_blinding_factor (codec.decode_byte_buf bytes)

  abbrev pub on_get_commitments : Bytes → State F → Option (State F)
  on_get_commitments bytes = respond Resp.get_commitments (codec.decode_commitments bytes)

  abbrev pub on_sign_tx : Bytes → State F → Option (State F)
  on_sign_tx bytes = respond Resp.sign_tx (codec.decode_bool bytes)

  abbrev pub on_tx_input : Bytes → State F → Option (State F)
  on_tx_input bytes = respond Resp.tx_input (codec.decode_byte_buf bytes)

  -- `match pending_request`
  unfoldable pub handle_answer : PendingRequest → Bytes → State F → Option (State F)
  unfolding send_request handle_http_request
  handle_answer PendingRequest.read_status bytes = on_read_status bytes
  handle_answer PendingRequest.http_request bytes = on_http_request bytes
  handle_answer PendingRequest.auth_complete bytes = on_auth_complete bytes
  handle_answer PendingRequest.get_xpub bytes = on_get_xpub bytes
  handle_answer PendingRequest.get_master_blinding_key bytes = on_get_master_blinding_key bytes
  handle_answer PendingRequest.sign_message bytes = on_sign_message bytes
  handle_answer PendingRequest.get_signature bytes = on_get_signature bytes
  handle_answer PendingRequest.get_shared_nonce bytes = on_get_shared_nonce bytes
  handle_answer PendingRequest.get_blinding_key bytes = on_get_blinding_key bytes
  handle_answer PendingRequest.get_blinding_factor bytes = on_get_blinding_factor bytes
  handle_answer PendingRequest.get_commitments bytes = on_get_commitments bytes
  handle_answer PendingRequest.sign_tx bytes = on_sign_tx bytes
  handle_answer PendingRequest.tx_input bytes = on_tx_input bytes

  -- What `pending_requests.remove(&request_id)` returns.
  abbrev pub settle : I32 → Option PendingRequest → Bytes → State F → Option (State F)
  settle request_id none bytes state = some state
  settle request_id (some kind) bytes state =
      handle_answer kind bytes
        (record state { pending_requests = remove request_id state.pending_requests })

  abbrev pub handle_decoded : Option (Answer (Cbor F)) → Bytes → State F → Option (State F)
  handle_decoded none bytes state = some (callback fatal_error state)
  handle_decoded (some v) bytes state =
      let request_id = id_or_zero (parse_i32 v.id) in
      settle request_id (get request_id state.pending_requests) bytes state

  unfoldable pub handle_port_msg : Bytes → State F → Option (State F)
  unfolding handle_answer
  handle_port_msg bytes state = handle_decoded (codec.decode_any bytes) bytes state
