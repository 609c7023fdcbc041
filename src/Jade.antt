-- ===== src/Jade.antt =====
-- The buffer between the serial port and the CBOR reader: rust/sideswap_jade/src/reader.rs.
mod Cbor
mod Messages
mod Port
mod Worker
pub mod Serial
mod Decoding
mod Parsing
mod Messaging
mod Work
mod Requests
mod Fresh
mod Keys
mod Settle
mod Fields
mod RoundTrip
pub mod Stream
mod Tests
use sideswapclient.Prelude.{
  ℕ, zero, suc, ◌+◌, Option, none, some, List, [], ◌∷◌, ◌++◌, length, leb, if◌then◌else◌,
}

abbrev pub Bytes : Type 0
Bytes = List ℕ

pub record Buf : Type 0 where
  pub data_read : Bytes
  pub pos : ℕ

unfoldable pub take : ℕ → Bytes → Bytes
take zero xs = []
take (suc n) [] = []
take (suc n) (x ∷ xs) = x ∷ take n xs

unfoldable pub drop : ℕ → Bytes → Bytes
drop zero xs = xs
drop (suc n) [] = []
drop (suc n) (x ∷ xs) = drop n xs

-- An error, with the buffer unchanged, where not enough bytes are there.
unfoldable pub read_exact : ℕ → Buf → Option (Bytes × Buf)
unfolding take drop
read_exact count buf =
    if leb (buf.pos + count) (length buf.data_read)
    then some (take count (drop buf.pos buf.data_read), record buf { pos = buf.pos + count })
    else none

abbrev pub reset_pos : Buf → Buf
reset_pos buf = record buf { pos = 0 }

-- `drain(0..pos)`, which panics (`none`) past the end.
unfoldable pub remove_read : Buf → Option (Bytes × Buf)
unfolding take drop
remove_read buf =
    if leb buf.pos (length buf.data_read)
    then some
        (take buf.pos buf.data_read, record { data_read = drop buf.pos buf.data_read; pos = 0 })
    else none

abbrev pub append_data : Bytes → Buf → Buf
append_data data' buf = record buf { data_read = buf.data_read ++ data' }

abbrev pub size : Buf → ℕ
size buf = length buf.data_read

-- `Buf::default()`
abbrev pub empty : Buf
empty = record { data_read = []; pos = 0 }
