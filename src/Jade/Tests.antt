-- ===== src/Jade/Tests.antt =====
-- A message that comes in two pieces, requests and their answers, and a converted value.
use sideswapclient.Prelude.{
  ℕ, ◌≡◌, ◌≤◌, refl, sym, true, none, some, Ensures, List, [], ◌∷◌, ◌++◌, length, map, arith,
}
use sideswapclient.Jade.{Bytes, Buf, empty, size}
use sideswapclient.Jade.Stream.{
  Call, append, read, reset, remove, run, appended, IsInside, run-Keeps,
}
use sideswapclient.Prelude.Key.{codes}
use sideswapclient.Prelude.Decimal.{i32_to_string, parse_i32}
use sideswapclient.Prelude.Map.{get, insert}
use sideswapclient.Jade.Cbor.{
  Cbor, CborItems, CborFields, Json, JsonItems, JsonFields, Numbers, ok, insert_field, json_to_cbor,
  cbor_to_json,
}
use sideswapclient.Jade.RoundTrip.{cbor_to_json-json_to_cbor}
use sideswapclient.Jade.Messages.{liquid, Answer, Req, Message, State, req, quit, from_port}
use sideswapclient.Jade.Port.{Codec, Outside, handle_port_msg}
use sideswapclient.Jade.Worker.{start, worker, handle_req}
use sideswapclient.Jade.Fresh.{total, Messages}
use sideswapclient.Jade.Work.{Balanced, task_score}
use sideswapclient.Jade.Requests.{worker-Balanced}
use sideswapclient.Jade.Serial.{Decoder, decoded, invalid, read, read_messages, receive}
use sideswapclient.Jade.Messaging.{receive-split, read_messages-ends}

abbrev calls : List Call
calls = append (1 ∷ 2 ∷ []) ∷ read 3 ∷ reset ∷ append (3 ∷ 4 ∷ []) ∷ read 3 ∷ remove ∷ []

run-Keeps_example :
    (out : Bytes) × (later : Buf) × (run calls empty ≡ some (out, later))
    × IsInside later
    × (out ++ later.data_read ≡ empty.data_read ++ appended calls)
run-Keeps_example = run-Keeps calls empty (omega arith)

-- Floats and JSON numbers, which all are floats here.
abbrev numbers : Numbers ℕ ℕ
numbers = record {
  is_f64 = λ n. true;
  as_f64 = λ n. some n;
  from_f64 = λ v. some v;
  int_as_f64 = λ n. n;
}

-- The keys are out of their order, and one is there twice.
abbrev value : Cbor ℕ
value = Cbor.map (
    CborFields.field (Cbor.text (codes "b")) (Cbor.integer 5) (
      CborFields.field (Cbor.text (codes "a"))
        (Cbor.array (CborItems.item Cbor.null CborItems.done))
        (CborFields.field (Cbor.text (codes "b")) (Cbor.float 7) CborFields.end)))

abbrev json : Json ℕ ℕ
json = Json.object (
    JsonFields.field (codes "a") (Json.array (JsonItems.item Json.null JsonItems.done))
      (JsonFields.field (codes "b") (Json.number 7) JsonFields.end))

value-json : cbor_to_json numbers value ≡ ok json
unfolding cbor_to_json insert_field
value-json = refl

cbor_to_json-json_to_cbor_example :
    (back : Cbor ℕ) × (json_to_cbor numbers json ≡ ok back) × (cbor_to_json numbers back ≡ ok json)
cbor_to_json-json_to_cbor_example =
    cbor_to_json-json_to_cbor numbers (λ v n h. (refl, sym h)) value json value-json

-- A message is its id.
abbrev codec : Codec ℕ ℕ
codec = record {
  decode_any =
      λ bytes. some (record { id = bytes; result = some (Cbor.text (codes "xpub")); error = none });
  decode_version = λ bytes. none;
  decode_auth_user = λ bytes. none;
  decode_bool = λ bytes. some (record { id = bytes; result = some true; error = none });
  decode_text = λ bytes. some (record { id = bytes; result = some (codes "xpub"); error = none });
  decode_vec = λ bytes. none;
  decode_byte_buf = λ bytes. none;
  decode_commitments = λ bytes. none;
  base64_decode = λ text. some text;
  json_to_string = λ v. none;
  json_from_str = λ text. none;
  numbers = numbers;
}

abbrev outside : Outside
outside = record { is_open = true; post = λ url body. none }

abbrev get_xpub : Req ℕ
get_xpub = Req.resolve_xpub (record { network = liquid; path = 1 ∷ 2 ∷ [] })

abbrev msgs : Messages codec
msgs =
    (req Req.read_status, outside)
    ∷ (req get_xpub, outside)
    ∷ (from_port (codes "25002"), outside)
    ∷ (quit, outside)
    ∷ []

worker-Balanced_example :
    Ensures (Balanced (length msgs) (total codec task_score msgs)) (worker codec msgs start)
worker-Balanced_example = worker-Balanced codec msgs (omega arith)

abbrev first_answer : Answer (Cbor ℕ)
first_answer = record { id = codes "25001"; result = some (Cbor.text (codes "xpub")); error = none }

-- The device asks for a post to the PIN server, which answers with a text.
abbrev pin_codec : Codec ℕ ℕ
pin_codec = record codec {
  decode_auth_user = λ bytes. some (record {
    id = bytes;
    result = some (record {
      http_request = record {
        params = record {
          urls = codes "https://pin" ∷ [];
          method = codes "POST";
          accept = codes "json";
          payload = value;
        };
        on_reply = codes "handshake_init";
      };
    });
    error = none;
  });
  json_to_string = λ v. some (codes "body");
  json_from_str = λ text. some (Json.string text);
}

abbrev pin_outside : Outside
pin_outside = record { is_open = true; post = λ url body. some (codes "pin") }

abbrev unlock : Req ℕ
unlock = Req.auth_user liquid

-- The answer of the PIN server is sent to the device.
unlock-sent :
    Ensures
      (λ (later : State ℕ).
        map (λ (message : Message ℕ). message.method) later.sent
        ≡ codes "auth_user" ∷ codes "handshake_init" ∷ [])
      (handle_port_msg pin_codec pin_outside (codes "25001") (handle_req true unlock start))
unfolding i32_to_string handle_port_msg handle_req get insert parse_i32
unlock-sent = refl

-- A byte with the length, and as many bytes.
abbrev tail_of : List ℕ → Decoder ℕ
tail_of [] = invalid
tail_of (n ∷ ns) = read n λ bytes. decoded (Cbor.bytes bytes)

abbrev decoder : Decoder ℕ
decoder = read 1 tail_of

receive-split_example :
    (messages : List Bytes) × (later : Buf) × (later' : Buf) × (receive decoder
        ((2 ∷ 7 ∷ []) ∷ (8 ∷ 1 ∷ []) ∷ [])
        empty
      ≡ some (messages, later))
    × (receive decoder ((2 ∷ []) ∷ (7 ∷ 8 ∷ 1 ∷ []) ∷ []) empty ≡ some (messages, later'))
    × (later.data_read ≡ later'.data_read)
receive-split_example =
    receive-split decoder ((2 ∷ 7 ∷ []) ∷ (8 ∷ 1 ∷ []) ∷ []) ((2 ∷ []) ∷ (7 ∷ 8 ∷ 1 ∷ []) ∷ [])
      (omega arith) refl

abbrev two_messages : Buf
two_messages = record { data_read = 1 ∷ 5 ∷ 2 ∷ 7 ∷ 8 ∷ 3 ∷ []; pos = 4 }

read_messages-ends_example :
    (messages : List Bytes) × (later : Buf) × (last : Buf) × (read_messages 7 decoder two_messages
      ≡ some (messages, later))
    × (read_messages 7 decoder later ≡ some ([], last))
    × (last.data_read ≡ later.data_read)
    × (size later ≤ size two_messages)
read_messages-ends_example = read_messages-ends decoder two_messages 7 (omega arith) (omega arith)
