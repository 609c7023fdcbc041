-- ===== src/Jade/Settle.antt =====
-- What an answer of the device does to the worker's state, for all kinds of requests at once.
use sideswapclient.Prelude.{Bool, Option, none, some, ◌≡◌, refl, ◌⊎◌, inl, inr, Ensures}
use sideswapclient.Prelude.Key.{Text}
use sideswapclient.Jade.{Bytes}
use sideswapclient.Jade.Cbor.{
  Cbor, Json, Outcome, ok, err, panic, ok_or_err, ok-of-bind, cbor_to_json, json_to_cbor,
}
use sideswapclient.Jade.Messages.{
  DeviceError, Answer, Resp, WorkerResp, resp, failure, fatal_error, PendingRequest, RespAuthUser,
  pin_answer, State,
}
use sideswapclient.Jade.Port.{
  first_url, Codec, Outside, callback, send_request, next_step, conclude, respond_with, respond,
  signature, handle_http_request, send_pin, continue_auth, handle_answer,
}

-- The kind of request that a result answers.
abbrev pub answered : Resp → PendingRequest
answered (Resp.read_status v) = PendingRequest.read_status
answered (Resp.auth_user v) = PendingRequest.auth_complete
answered (Resp.resolve_xpub v) = PendingRequest.get_xpub
answered (Resp.get_master_blinding_key v) = PendingRequest.get_master_blinding_key
answered (Resp.sign_message v) = PendingRequest.sign_message
answered (Resp.get_signature v) = PendingRequest.get_signature
answered (Resp.get_shared_nonce v) = PendingRequest.get_shared_nonce
answered (Resp.get_blinding_key v) = PendingRequest.get_blinding_key
answered (Resp.get_blinding_factor v) = PendingRequest.get_blinding_factor
answered (Resp.get_commitments v) = PendingRequest.get_commitments
answered (Resp.sign_tx v) = PendingRequest.sign_tx
answered (Resp.tx_input v) = PendingRequest.tx_input

-- A result is of the kind that was asked for.
abbrev pub Fits : PendingRequest → WorkerResp → Type 0
Fits kind (resp v) = answered v ≡ kind
Fits kind (failure e) = Unit
Fits kind fatal_error = Unit

some-of-ok {ℓ} : {A : Type ℓ} (o : Option A) {a : A} → ok_or_err o ≡ ok a → o ≡ some a
some-of-ok none h = cc
some-of-ok (some b) h = cc

module _ {F : Type 0} where
  -- The callback gets one answer, which fits, and nothing else changes.
  abbrev pub Concludes : PendingRequest → State F → State F → Type 0
  Concludes kind before after =
      (answer : WorkerResp) × Fits kind answer × (after ≡ callback answer before)

  -- The unlocking goes on with a message whose method and contents are as `Why` says.
  abbrev pub Proceeds :
      (Text → Cbor F → Type 0) → Bool → PendingRequest → State F → State F → Type 0
  Proceeds Why is_open kind before after =
      (kind ≡ PendingRequest.http_request)
      × ((method : Text) × (pin : Cbor F) × Why method pin
          × (after ≡ send_request is_open method (pin_answer pin) (next_step method) before))

  abbrev pub Settled : (Text → Cbor F → Type 0) → Bool → PendingRequest → State F → State F → Type 0
  Settled Why is_open kind before after =
      Concludes kind before after ⊎ Proceeds Why is_open kind before after

  module _ (Why : Text → Cbor F → Type 0) (is_open : Bool) (kind : PendingRequest) where
    respond_with-Settled :
        {T : Type 0} (f : T → State F → Option (State F)) (answer : Option (Answer T))
        (state : State F)
        → ((a : Answer T) (v : T)
            → answer ≡ some a
            → a.error ≡ none
            → a.result ≡ some v
            → Ensures (Settled Why is_open kind state) (f v state))
        → Ensures (Settled Why is_open kind state) (respond_with f answer state)
    respond_with-Settled f none state h = inl (fatal_error, tt, refl)
    respond_with-Settled f (some a) state h = by_parts a.error a.result refl refl
      where
        by_parts :
            (error : Option DeviceError) (result : Option _)
            → a.error ≡ error
            → a.result ≡ result
            → Ensures (Settled Why is_open kind state) (conclude error result f state)
        by_parts (some e) result p q = inl (failure _, tt, refl)
        by_parts none (some v) p q = h a v refl p q
        by_parts none none p q = inl (failure _, tt, refl)

    respond-Settled :
        {T : Type 0} (wrap : T → Resp) (answer : Option (Answer T)) (state : State F)
        → ((v : T) → answered (wrap v) ≡ kind)
        → Ensures (Settled Why is_open kind state) (respond wrap answer state)
    respond-Settled wrap answer state fits =
        respond_with-Settled _ answer state λ a v e p q. inl (resp (wrap v), fits v, refl)

  signature-Settled :
      (Why : Text → Cbor F → Type 0) (is_open : Bool) (base64_decode : Text → Option Bytes)
      (v : Cbor F) (state : State F)
      → Ensures
          (Settled Why is_open PendingRequest.get_signature state)
          (signature base64_decode v state)
  signature-Settled Why is_open base64_decode (Cbor.text v) state = decoded (base64_decode v)
    where
      decoded :
          (bytes : Option Bytes)
          → Ensures
              (Settled Why is_open PendingRequest.get_signature state)
              (signature (λ t. bytes) (Cbor.text v) state)
      decoded none = tt
      decoded (some bytes) = inl (resp (Resp.get_signature (some bytes)), refl, refl)
  signature-Settled Why is_open base64_decode (Cbor.bytes v) state =
      inl (resp (Resp.get_signature (some v)), refl, refl)
  signature-Settled Why is_open base64_decode Cbor.null state =
      inl (resp (Resp.get_signature none), refl, refl)
  signature-Settled Why is_open base64_decode (Cbor.integer v) state = inl (failure _, tt, refl)
  signature-Settled Why is_open base64_decode (Cbor.float v) state = inl (failure _, tt, refl)
  signature-Settled Why is_open base64_decode (Cbor.boolean v) state = inl (failure _, tt, refl)
  signature-Settled Why is_open base64_decode (Cbor.tag n v) state = inl (failure _, tt, refl)
  signature-Settled Why is_open base64_decode (Cbor.array v) state = inl (failure _, tt, refl)
  signature-Settled Why is_open base64_decode (Cbor.map v) state = inl (failure _, tt, refl)

module _ {N F : Type 0} (codec : Codec N F) (outside : Outside) where
  -- The device's message has the method and a request to the PIN server, whose payload is posted as
  -- JSON to the first URL; what is sent is the server's answer.
  pub record IsPinAnswer (bytes : Bytes) (method : Text) (pin : Cbor F) : Type 0 where
    pub answer : Answer (RespAuthUser F)
    pub details : RespAuthUser F
    pub url : Text
    pub question : Json N F
    pub body : Text
    pub body' : Text
    pub reply : Json N F
    pub decoded : codec.decode_auth_user bytes ≡ some answer
    pub no_error : answer.error ≡ none
    pub has_result : answer.result ≡ some details
    pub same_method : method ≡ details.http_request.on_reply
    pub first : first_url details.http_request.params.urls ≡ some url
    pub payload : cbor_to_json codec.numbers details.http_request.params.payload ≡ ok question
    pub printed : codec.json_to_string question ≡ some body
    pub posted : outside.post url body ≡ some body'
    pub parsed : codec.json_from_str body' ≡ some reply
    pub converted : json_to_cbor codec.numbers reply ≡ ok pin

  handle_http_request-IsPinAnswer :
      (bytes : Bytes) (a : Answer (RespAuthUser F)) (v : RespAuthUser F) {pin : Cbor F}
      → codec.decode_auth_user bytes ≡ some a
      → a.error ≡ none
      → a.result ≡ some v
      → handle_http_request codec outside v ≡ ok pin
      → IsPinAnswer bytes v.http_request.on_reply pin
  unfolding handle_http_request
  handle_http_request-IsPinAnswer bytes a v e p q h =
      let params = v.http_request.params in
      let (url, first, h1) = ok-of-bind (ok_or_err (first_url params.urls)) _ h in
      let (question, payload, h2) = ok-of-bind (cbor_to_json codec.numbers params.payload) _ h1 in
      let (body, printed, h3) = ok-of-bind (ok_or_err (codec.json_to_string question)) _ h2 in
      let (body', posted, h4) = ok-of-bind (ok_or_err (outside.post url body)) _ h3 in
      let (reply, parsed, converted) = ok-of-bind (ok_or_err (codec.json_from_str body')) _ h4 in
      record {
        answer = a;
        details = v;
        url = url;
        question = question;
        body = body;
        body' = body';
        reply = reply;
        decoded = e;
        no_error = p;
        has_result = q;
        same_method = refl;
        first = some-of-ok _ first;
        payload = payload;
        printed = some-of-ok _ printed;
        posted = some-of-ok _ posted;
        parsed = some-of-ok _ parsed;
        converted = converted;
      }

  send_pin-Settled :
      (bytes : Bytes) (a : Answer (RespAuthUser F)) (v : RespAuthUser F) (pin : Outcome (Cbor F))
      (state : State F)
      → codec.decode_auth_user bytes ≡ some a
      → a.error ≡ none
      → a.result ≡ some v
      → handle_http_request codec outside v ≡ pin
      → Ensures
          (Settled (IsPinAnswer bytes) outside.is_open PendingRequest.http_request state)
          (send_pin codec outside v.http_request.on_reply pin state)
  send_pin-Settled bytes a v (ok pin) state e p q h = inr (
    refl,
    (v.http_request.on_reply, pin, handle_http_request-IsPinAnswer bytes a v e p q h, refl),
  )
  send_pin-Settled bytes a v err state e p q h = inl (failure _, tt, refl)
  send_pin-Settled bytes a v panic state e p q h = tt

  pub handle_answer-Settled :
      (kind : PendingRequest) (bytes : Bytes) (state : State F)
      → Ensures
          (Settled (IsPinAnswer bytes) outside.is_open kind state)
          (handle_answer codec outside kind bytes state)
  unfolding handle_answer
  handle_answer-Settled PendingRequest.read_status bytes state =
      respond-Settled _ _ _ Resp.read_status (codec.decode_version bytes) state λ v. refl
  handle_answer-Settled PendingRequest.http_request bytes state =
      respond_with-Settled _ _ _ (continue_auth codec outside) (codec.decode_auth_user bytes) state
        λ a v e p q.
          send_pin-Settled bytes a v (handle_http_request codec outside v) state e p q refl
  handle_answer-Settled PendingRequest.auth_complete bytes state =
      respond-Settled _ _ _ Resp.auth_user (codec.decode_bool bytes) state λ v. refl
  handle_answer-Settled PendingRequest.get_xpub bytes state =
      respond-Settled _ _ _ Resp.resolve_xpub (codec.decode_text bytes) state λ v. refl
  handle_answer-Settled PendingRequest.get_master_blinding_key bytes state =
      respond-Settled _ _ _ Resp.get_master_blinding_key (codec.decode_vec bytes) state λ v. refl
  handle_answer-Settled PendingRequest.sign_message bytes state =
      respond-Settled _ _ _ Resp.sign_message (codec.decode_byte_buf bytes) state λ v. refl
  handle_answer-Settled PendingRequest.get_signature bytes state =
      respond_with-Settled _ _ _ (signature codec.base64_decode) (codec.decode_any bytes) state
        λ a v e p q. signature-Settled _ outside.is_open codec.base64_decode v state
  handle_answer-Settled PendingRequest.get_shared_nonce bytes state =
      respond-Settled _ _ _ Resp.get_shared_nonce (codec.decode_byte_buf bytes) state λ v. refl
  handle_answer-Settled PendingRequest.get_blinding_key bytes state =
      respond-Settled _ _ _ Resp.get_blinding_key (codec.decode_byte_buf bytes) state λ v. refl
  handle_answer-Settled PendingRequest.get_blinding_factor bytes state =
      respond-Settled _ _ _ Resp.get_blinding_factor (codec.decode_byte_buf bytes) state λ v. refl
  handle_answer-Settled PendingRequest.get_commitments bytes state =
      respond-Settled _ _ _ Resp.get_commitments (codec.decode_commitments bytes) state λ v. refl
  handle_answer-Settled PendingRequest.sign_tx bytes state =
      respond-Settled _ _ _ Resp.sign_tx (codec.decode_bool bytes) state λ v. refl
  handle_answer-Settled PendingRequest.tx_input bytes state =
      respond-Settled _ _ _ Resp.tx_input (codec.decode_byte_buf bytes) state λ v. refl
