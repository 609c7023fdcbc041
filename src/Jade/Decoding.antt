-- ===== src/Jade/Decoding.antt =====
-- What a decoder does with bytes, and with the buffer.
use sideswapclient.Prelude.{
  ℕ, zero, suc, ◌+◌, ◌≤◌, ◌<◌, true, false, Option, none, some, [], ◌∷◌, ◌++◌, ◌≡◌, refl, sym, ap,
  subst, ◌∙◌, inl, inr, leb, Bool-cases, if◌then◌else◌, length, length-append, arith,
}
use sideswapclient.Jade.{Bytes, Buf, take, drop, read_exact}
use sideswapclient.Jade.Cbor.{Cbor}
use sideswapclient.Jade.Serial.{Decoder, decoded, invalid, read, NeedsByte, from_reader}

pub length-drop_lt : (n : ℕ) (xs : Bytes) → n ≤ length xs → length (drop n xs) + n ≡ length xs
unfolding drop
length-drop_lt zero xs h = omega arith
length-drop_lt (suc n) [] h = absurd (omega arith)
length-drop_lt (suc n) (x ∷ xs) h = omega (arith, length-drop_lt n xs (omega arith))

pub drop-nil : (n : ℕ) → drop n [] ≡ []
unfolding drop
drop-nil zero = refl
drop-nil (suc n) = refl

pub drop-drop : (n m : ℕ) (xs : Bytes) → drop m (drop n xs) ≡ drop (n + m) xs
unfolding drop
drop-drop zero m xs = let same : 0 + m ≡ m = omega arith in rw same refl
drop-drop (suc n) m [] = let same : suc n + m ≡ suc (n + m) = omega arith in rw same (drop-nil m)
drop-drop (suc n) m (x ∷ xs) =
    let same : suc n + m ≡ suc (n + m) = omega arith in rw same (drop-drop n m xs)

pub take-append : (n : ℕ) (xs ys : Bytes) → n ≤ length xs → take n (xs ++ ys) ≡ take n xs
unfolding take
take-append zero xs ys h = refl
take-append (suc n) [] ys h = absurd (omega arith)
take-append (suc n) (x ∷ xs) ys h = ap (λ t. x ∷ t) (take-append n xs ys (omega arith))

pub drop-append : (n : ℕ) (xs ys : Bytes) → n ≤ length xs → drop n (xs ++ ys) ≡ drop n xs ++ ys
unfolding drop
drop-append zero xs ys h = refl
drop-append (suc n) [] ys h = absurd (omega arith)
drop-append (suc n) (x ∷ xs) ys h = drop-append n xs ys (omega arith)

module _ {F : Type 0} where
  -- The decoder on bytes alone: the value, and how many bytes it takes.
  abbrev pub more : ℕ → Option (Cbor F × ℕ) → Option (Cbor F × ℕ)
  more n none = none
  more n (some (v, m)) = some (v, n + m)

  unfoldable pub decode : Decoder F → Bytes → Option (Cbor F × ℕ)
  decode (decoded v) bytes = some (v, 0)
  decode invalid bytes = none
  decode (read count next) bytes =
      if leb count (length bytes)
      then more count (decode (next (take count bytes)) (drop count bytes))
      else none

  -- What the reader leaves, by the decoding of the bytes after its position.
  abbrev pub Follows : Option (Cbor F × ℕ) → Buf → Option (Cbor F) × Buf → Type 0
  Follows none buf (v, later) = (v ≡ none) × (later.data_read ≡ buf.data_read)
  Follows (some (w, n)) buf (v, later) =
      (v ≡ some w)
      × (later ≡ record buf { pos = buf.pos + n })
      × (buf.pos + n ≤ length buf.data_read)

  pub Follows-more :
      (o : Option (Cbor F × ℕ)) (count : ℕ) (buf : Buf) (r : Option (Cbor F) × Buf)
      → Follows o (record buf { pos = buf.pos + count }) r
      → Follows (more count o) buf r
  Follows-more none count buf r f = f
  Follows-more (some (w, n)) count buf (v, later) (e, f, h) =
      let same : buf.pos + count + n ≡ buf.pos + (count + n) = omega arith in
      (e, f ∙ ap (λ p. record buf { pos = p }) same, omega arith)

  pub from_reader-Follows :
      (decoder : Decoder F) (buf : Buf)
      → buf.pos ≤ length buf.data_read
      → Follows (decode decoder (drop buf.pos buf.data_read)) buf (from_reader decoder buf)
  unfolding decode from_reader read_exact
  from_reader-Follows (decoded v) buf h =
      let same : buf.pos ≡ buf.pos + 0 = omega arith in
      (refl, ap (λ p. record buf { pos = p }) same, omega arith)
  from_reader-Follows invalid buf h = (refl, refl)
  from_reader-Follows (read count next) buf h =
      let left : length (drop buf.pos buf.data_read) + buf.pos ≡ length buf.data_read =
        length-drop_lt buf.pos buf.data_read h in
      elim (Bool-cases (leb count (length (drop buf.pos buf.data_read)))) [
        | inl e ↦
            let enough : leb (buf.pos + count) (length buf.data_read) ≡ true =
              ground (arith, left, e) in
            let later : Buf = record buf { pos = buf.pos + count } in
            rw (e, enough)
              (Follows-more _ count buf _ (
                subst
                  (λ (rest : Bytes).
                    Follows (decode (next (take count (drop buf.pos buf.data_read))) rest) later
                      (from_reader (next (take count (drop buf.pos buf.data_read))) later))
                  (sym (drop-drop buf.pos count buf.data_read))
                  (from_reader-Follows (next (take count (drop buf.pos buf.data_read))) later
                    (ground (arith, enough)))))
        | inr e ↦
            let short : leb (buf.pos + count) (length buf.data_read) ≡ false =
              ground (arith, left, e) in
            rw (e, short) (refl, refl)
      ]

  pub some-of-more :
      (count : ℕ) (o : Option (Cbor F × ℕ)) (v : Cbor F) (n : ℕ)
      → more count o ≡ some (v, n)
      → (m : ℕ) × (o ≡ some (v, m)) × (count + m ≡ n)
  some-of-more count none v n h = cc
  some-of-more count (some (w, m)) v n h =
      (m, ap (λ z. some (z, m)) (ground (arith, h)), ground (arith, h))

  -- A value that is decoded stays the same when more bytes follow.
  pub decode-append :
      (decoder : Decoder F) (bytes more' : Bytes) (v : Cbor F) (n : ℕ)
      → decode decoder bytes ≡ some (v, n)
      → (decode decoder (bytes ++ more') ≡ some (v, n)) × (n ≤ length bytes)
  unfolding decode
  decode-append (decoded w) bytes more' v n h = (h, ground (arith, h))
  decode-append invalid bytes more' v n h = cc
  decode-append (read count next) bytes more' v n h = elim (Bool-cases (leb count (length bytes))) [
    | inl e ↦
        let enough : leb count (length (bytes ++ more')) ≡ true =
          ground (arith, e, length-append bytes more') in
        let h' : more count (decode (next (take count bytes)) (drop count bytes)) ≡ some (v, n) =
          rw e at h in
        let (m, f, sum) =
          some-of-more count (decode (next (take count bytes)) (drop count bytes)) v n h' in
        let (later, inside) =
          decode-append (next (take count bytes)) (drop count bytes) more' v m f in
        let fits : count ≤ length bytes = ground (arith, e) in
        (
          rw enough (
              rw (take-append count bytes more' fits)
                (rw (drop-append count bytes more' fits) (rw later (ap (λ k. some (v, k)) sum)))),
          omega (arith, length-drop_lt count bytes fits),
        )
    | inr e ↦ absurd (ground (arith, h, e))
  ]

  pub decode_pos :
      (decoder : Decoder F) (bytes : Bytes) (v : Cbor F) (n : ℕ)
      → NeedsByte decoder
      → decode decoder bytes ≡ some (v, n)
      → 0 < n
  unfolding decode
  decode_pos (decoded w) bytes v n needs h = absurd needs
  decode_pos invalid bytes v n needs h = cc
  decode_pos (read count next) bytes v n needs h = elim (Bool-cases (leb count (length bytes))) [
    | inl e ↦
        let h' : more count (decode (next (take count bytes)) (drop count bytes)) ≡ some (v, n) =
          rw e at h in
        let (m, f, sum) =
          some-of-more count (decode (next (take count bytes)) (drop count bytes)) v n h' in
        omega arith
    | inr e ↦ absurd (ground (arith, h, e))
  ]
