-- ===== src/Jade/Serial.antt =====
-- The reading half of the serial port's thread: rust/sideswap_jade/src/serial.rs. The bytes of each
-- read are put into the buffer, from which all messages that are complete are taken.
use sideswapclient.Prelude.{
  ℕ, zero, suc, ◌<◌, Bool, false, Option, none, some, List, [], ◌∷◌, ◌++◌, ◌==◌ as nat_eq, ◌||◌,
  if◌then◌else◌, ◌>>=◌,
}
use sideswapclient.Prelude.Key.{codes, text_eq}
use sideswapclient.Jade.{Bytes, Buf, read_exact, reset_pos, remove_read, append_data, size}
use sideswapclient.Jade.Cbor.{Cbor, CborFields}

-- The CBOR reader sees the buffer through `read_exact` alone: what it does is decided by the bytes
-- that it has been given.
pub data Decoder (F : Type 0) : Type 0 where
  decoded : Cbor F → Decoder F
  invalid : Decoder F
  read : ℕ → (Bytes → Decoder F) → Decoder F

-- A message starts with a byte of its own.
abbrev pub NeedsByte : {F : Type 0} → Decoder F → Type 0
NeedsByte (decoded v) = ⊥
NeedsByte invalid = Unit
NeedsByte (read count next) = 0 < count

module _ {F : Type 0} where
  -- `key.as_text() == Some("log")` for one of the keys.
  unfoldable pub any_log : CborFields F → Bool
  any_log CborFields.end = false
  any_log (CborFields.field (Cbor.text t) v rest) = text_eq t (codes "log") || any_log rest
  any_log (CborFields.field _ v rest) = any_log rest

  unfoldable pub is_log_message : Cbor F → Bool
  unfolding any_log
  is_log_message (Cbor.map fields) = any_log fields
  is_log_message _ = false

  -- The next bytes, or an error where they are not there.
  abbrev pub read_then :
      Option (Bytes × Buf) → Buf → (Bytes → Buf → Option (Cbor F) × Buf) → Option (Cbor F) × Buf
  read_then none buf go_on = (none, buf)
  read_then (some (bytes, later)) buf go_on = go_on bytes later

  -- `from_reader`: a value or an error, and the buffer with the position moved.
  unfoldable pub from_reader : Decoder F → Buf → Option (Cbor F) × Buf
  unfolding read_exact
  from_reader (decoded v) buf = (some v, buf)
  from_reader invalid buf = (none, buf)
  from_reader (read count next) buf =
      read_then (read_exact count buf) buf λ bytes later. from_reader (next bytes) later

  -- What the callback is given for a message.
  abbrev pub pass_on : Cbor F → Bytes → List Bytes
  pass_on v message = if is_log_message v then [] else message ∷ []

  -- A round of the inner loop, after the decoding; `rest` is the next round.
  abbrev pub round :
      (Buf → Option (List Bytes × Buf)) → Option (Cbor F) × Buf → Option (List Bytes × Buf)
  round rest (none, buf) = some ([], buf)
  round rest (some v, buf) = remove_read buf >>= λ removed.
      if nat_eq (size removed.1) 0
      then some (pass_on v removed.0, removed.1)
      else (rest removed.1 >>= λ later. some (pass_on v removed.0 ++ later.0, later.1))

  -- The inner loop, with fuel: `none` if it runs out, or at a panic.
  unfoldable pub read_messages : ℕ → Decoder F → Buf → Option (List Bytes × Buf)
  unfolding from_reader remove_read is_log_message
  read_messages zero decoder buf = none
  read_messages (suc fuel) decoder buf =
      round (read_messages fuel decoder) (from_reader decoder (reset_pos buf))

  -- The bytes of one read.
  unfoldable pub on_read : Decoder F → Bytes → Buf → Option (List Bytes × Buf)
  unfolding read_messages
  on_read decoder bytes buf =
      read_messages (suc (size (append_data bytes buf))) decoder (append_data bytes buf)

  -- The messages of a sequence of reads, and the buffer afterwards.
  unfoldable pub receive : Decoder F → List Bytes → Buf → Option (List Bytes × Buf)
  unfolding on_read
  receive decoder [] buf = some ([], buf)
  receive decoder (bytes ∷ reads) buf = on_read decoder bytes buf >>= λ first.
      receive decoder reads first.1 >>= λ later. some (first.0 ++ later.0, later.1)
