-- ===== src/Jade/Messaging.antt =====
-- The messages that the serial port's thread passes on do not depend on how the bytes come.
use mathlib.Core.List.{append-nil, append_assoc}
use sideswapclient.Prelude.{
  ℕ, zero, suc, ◌+◌, ◌≤◌, ◌<◌, true, Option, none, some, List, [], ◌∷◌, ◌++◌, ◌≡◌, refl, sym, ap,
  subst, ◌∙◌, inl, inr, ◌==◌ as nat_eq, leb, Bool-cases, Option-cases, length, length-append, arith,
}
use sideswapclient.Jade.{Bytes, Buf, take, drop, reset_pos, remove_read, append_data, size, empty}
use sideswapclient.Jade.Cbor.{Cbor}
use sideswapclient.Jade.Serial.{
  Decoder, NeedsByte, from_reader, pass_on, round, read_messages, on_read, receive,
}
use sideswapclient.Jade.Decoding.{Follows, decode, from_reader-Follows}
use sideswapclient.Jade.Parsing.{
  decode-none, parse, parse-append, parse-nil, parse_left, parse_stops, parse_waits, shorter,
}

-- The bytes of all reads.
abbrev pub joined : List Bytes → Bytes
joined [] = []
joined (bytes ∷ reads) = bytes ++ joined reads

module _ {F : Type 0} where
  module _ (decoder : Decoder F) where
    module _ (needs : NeedsByte decoder) where
      -- The loop on the buffer takes the messages that parsing takes.
      abbrev Reads : List Bytes × Bytes → Option (List Bytes × Buf) → Type 0
      Reads (messages, left) result =
          (later : Buf) × (result ≡ some (messages, later)) × (later.data_read ≡ left)

      round-Reads :
          (fuel : ℕ) (bytes : Bytes) (rest : Buf → Option (List Bytes × Buf)) (v : Cbor F) (n : ℕ)
          → n ≤ length bytes
          → ((buf : Buf)
              → buf.data_read ≡ drop n bytes
              → Reads (parse decoder fuel (drop n bytes)) (rest buf))
          → Reads
              (
                pass_on v (take n bytes) ++ (parse decoder fuel (drop n bytes)).0,
                (parse decoder fuel (drop n bytes)).1,
              )
              (round rest (some v, record { data_read = bytes; pos = n }))
      unfolding remove_read
      round-Reads fuel bytes rest v n inside ih =
          let fits : leb n (length bytes) ≡ true = ground arith in
          let last : Buf = record { data_read = drop n bytes; pos = 0 } in
          let (later, e, f) = ih last refl in
          rw fits (elim (Bool-cases (nat_eq (length (drop n bytes)) 0)) [
            | inl z ↦
                let empty_rest : length (drop n bytes) ≡ 0 = ground (arith, z) in
                rw z (
                  last,
                  rw (parse-nil decoder needs fuel (drop n bytes) empty_rest) (
                      ap (λ (ms : List Bytes). some (ms, last))
                        (sym (append-nil (pass_on v (take n bytes))))),
                  rw (parse-nil decoder needs fuel (drop n bytes) empty_rest) refl,
                )
            | inr z ↦ rw z (later, rw e refl, f)
          ])

      from_reader-start :
          (buf : Buf)
          → Follows
              (decode decoder buf.data_read)
              (reset_pos buf)
              (from_reader decoder (reset_pos buf))
      unfolding drop
      from_reader-start buf = from_reader-Follows decoder (reset_pos buf) (omega arith)

      from_reader-none :
          (buf : Buf)
          → decode decoder buf.data_read ≡ none
          → (later : Buf) × (from_reader decoder (reset_pos buf) ≡ (none, later))
            × (later.data_read ≡ buf.data_read)
      from_reader-none buf e =
          let read_so : Option (Cbor F) × Buf = from_reader decoder (reset_pos buf) in
          let (f, g) =
            subst (λ (o : Option (Cbor F × ℕ)). Follows o (reset_pos buf) read_so) e
              (from_reader-start buf) in
          (read_so.1, ap (λ (o : Option (Cbor F)). (o, read_so.1)) f, g)

      from_reader-some :
          (buf : Buf) (v : Cbor F) (n : ℕ)
          → decode decoder buf.data_read ≡ some (v, n)
          → from_reader decoder (reset_pos buf)
            ≡ (some v, record { data_read = buf.data_read; pos = n })
      from_reader-some buf v n e =
          let read_so : Option (Cbor F) × Buf = from_reader decoder (reset_pos buf) in
          let (f, g, inside) =
            subst (λ (o : Option (Cbor F × ℕ)). Follows o (reset_pos buf) read_so) e
              (from_reader-start buf) in
          let zero_n : 0 + n ≡ n = omega arith in
          ap (λ (o : Option (Cbor F)). (o, read_so.1)) f
          ∙ ap (λ (later : Buf). (some v, later))
              (g ∙ ap (λ (p : ℕ). record buf { pos = p }) zero_n)

      read_messages-Reads :
          (fuel : ℕ) (buf : Buf)
          → size buf < fuel
          → Reads (parse decoder fuel buf.data_read) (read_messages fuel decoder buf)
      unfolding parse read_messages
      read_messages-Reads zero buf h = absurd (omega arith)
      read_messages-Reads (suc fuel) buf h = elim (Option-cases (decode decoder buf.data_read)) [
        | inl e ↦ let (later, f, same) = from_reader-none buf e in rw e (later, rw f refl, same)
        | inr ((v, n), e) ↦
            let (less, pos, inside) = shorter decoder needs buf.data_read v n e in
            rw e (
              rw (from_reader-some buf v n e) (
                round-Reads fuel buf.data_read (read_messages fuel decoder) v n inside λ rest same.
                  subst
                    (λ (bytes : Bytes).
                      Reads (parse decoder fuel bytes) (read_messages fuel decoder rest))
                    same
                    (read_messages-Reads fuel rest
                      (subst (λ (bytes : Bytes). length bytes < fuel) (sym same) (omega arith)))))
      ]

      on_read-Reads :
          (bytes : Bytes) (buf : Buf)
          → Reads
              (parse decoder (suc (length (buf.data_read ++ bytes))) (buf.data_read ++ bytes))
              (on_read decoder bytes buf)
      unfolding on_read
      on_read-Reads bytes buf =
          read_messages-Reads (suc (length (buf.data_read ++ bytes))) (append_data bytes buf)
            (omega arith)

      -- A buffer in which no message is complete.
      abbrev Waits : Buf → Type 0
      Waits buf = decode decoder buf.data_read ≡ none

      receive-Reads :
          (fuel : ℕ) (reads : List Bytes) (buf : Buf)
          → length (buf.data_read ++ joined reads) ≤ fuel
          → Waits buf
          → Reads (parse decoder fuel (buf.data_read ++ joined reads)) (receive decoder reads buf)
      unfolding receive
      receive-Reads fuel [] buf h waits =
          rw (append-nil buf.data_read)
            (rw (parse_waits decoder needs fuel buf.data_read waits) (buf, refl, refl))
      receive-Reads fuel (bytes ∷ reads) buf h waits =
          let all : Bytes = buf.data_read ++ bytes in
          let first : List Bytes × Bytes = parse decoder (suc (length all)) all in
          let (next, e, f) = on_read-Reads bytes buf in
          let stops : Waits next =
            subst (λ (left : Bytes). decode decoder left ≡ none) (sym f)
              (parse_stops decoder needs (suc (length all)) all (omega arith)) in
          let whole : all ++ joined reads ≡ buf.data_read ++ (bytes ++ joined reads) =
            append_assoc buf.data_read bytes (joined reads) in
          let fits : length (all ++ joined reads) ≤ fuel =
            omega (arith, ap (λ (b : Bytes). length b) whole) in
          let bound : length (next.data_read ++ joined reads) ≤ fuel = omega (
            arith,
            ap (λ (b : Bytes). length b) f,
            parse_left decoder needs (suc (length all)) all,
            length-append next.data_read (joined reads),
            length-append all (joined reads),
          ) in
          let (last, g, k) =
            subst
              (λ (left : Bytes).
                Reads (parse decoder fuel (left ++ joined reads)) (receive decoder reads next))
              f (receive-Reads fuel reads next bound stops) in
          subst (λ (b : Bytes). Reads (parse decoder fuel b) (receive decoder (bytes ∷ reads) buf))
            whole
            (subst (λ (r : List Bytes × Bytes). Reads r (receive decoder (bytes ∷ reads) buf))
              (sym (
                parse-append decoder needs (suc (length all)) fuel all (joined reads) (omega arith)
                  fits))
              (last, rw e (rw g refl), k))

      -- Whatever the reads are, the loop ends, and no panic occurs.
      receive-start :
          (reads : List Bytes)
          → Reads
              (parse decoder (length (joined reads)) (joined reads))
              (receive decoder reads empty)
      receive-start reads =
          receive-Reads (length (joined reads)) reads empty (omega arith)
            (decode-none decoder needs [] refl)

  -- Two sequences of reads that come to the same bytes: from an empty buffer, the thread passes on
  -- the same messages, and keeps the same bytes back, for any decoder that reads a byte before it
  -- gives a value; in both cases its loop ends, and without a panic.
  pub receive-split :
      (decoder : Decoder F) (reads reads' : List Bytes)
      → NeedsByte decoder
      → joined reads ≡ joined reads'
      → (messages : List Bytes) × (later : Buf) × (later' : Buf) × (receive decoder reads empty
          ≡ some (messages, later))
        × (receive decoder reads' empty ≡ some (messages, later'))
        × (later.data_read ≡ later'.data_read)
  receive-split decoder reads reads' needs same =
      let (later, e, f) = receive-start decoder needs reads in
      let (later', g, k) =
        subst
          (λ (b : Bytes).
            Reads decoder needs (parse decoder (length b) b) (receive decoder reads' empty))
          (sym same) (receive-start decoder needs reads') in
      ((parse decoder (length (joined reads)) (joined reads)).0, later, later', e, g, f ∙ sym k)

  -- The loop after a read takes at most one round more than there are bytes in the buffer, for any
  -- decoder that reads a byte before it gives a value: with more fuel than bytes it ends without a
  -- panic and leaves no more bytes than before, and then no further message in the buffer is
  -- complete, so another run of the loop passes on nothing and leaves the bytes as they are.
  pub read_messages-ends :
      (decoder : Decoder F) (buf : Buf) (fuel : ℕ)
      → NeedsByte decoder
      → size buf < fuel
      → (messages : List Bytes) × (later : Buf) × (last : Buf) × (read_messages fuel decoder buf
          ≡ some (messages, later))
        × (read_messages fuel decoder later ≡ some ([], last))
        × (last.data_read ≡ later.data_read)
        × (size later ≤ size buf)
  read_messages-ends decoder buf fuel needs h =
      let (later, e, f) = read_messages-Reads decoder needs fuel buf h in
      let smaller : size later ≤ size buf =
        omega
          (arith, ap (λ (b : Bytes). length b) f, parse_left decoder needs fuel buf.data_read) in
      let stops : decode decoder later.data_read ≡ none =
        subst (λ (left : Bytes). decode decoder left ≡ none) (sym f)
          (parse_stops decoder needs fuel buf.data_read (omega arith)) in
      let (last, g, k) =
        subst (λ (r : List Bytes × Bytes). Reads decoder needs r (read_messages fuel decoder later))
          (parse_waits decoder needs fuel later.data_read stops)
          (read_messages-Reads decoder needs fuel later (omega arith)) in
      ((parse decoder fuel buf.data_read).0, later, last, e, g, k, smaller)
