-- ===== src/Jade/Parsing.antt =====
-- Parsing the bytes that were received: all messages that are complete, and what is left.
use mathlib.Core.List.{append_assoc}
use sideswapclient.Prelude.{
  ℕ, zero, suc, ◌≤◌, ◌<◌, Option, none, some, List, [], ◌++◌, ◌≡◌, refl, sym, ap, ◌∙◌, inl, inr,
  Option-cases, length, length-append, arith,
}
use sideswapclient.Jade.{Bytes, take, drop}
use sideswapclient.Jade.Cbor.{Cbor}
use sideswapclient.Jade.Serial.{Decoder, NeedsByte, pass_on}
use sideswapclient.Jade.Decoding.{
  decode, decode-append, decode_pos, drop-append, length-drop_lt, take-append,
}

module _ {F : Type 0} where
  module _ (decoder : Decoder F) where
    -- Messages are taken as long as one is complete; then the bytes that are left.
    abbrev pub next_message :
        Option (Cbor F × ℕ) → Bytes → (Bytes → List Bytes × Bytes) → List Bytes × Bytes
    next_message none bytes rest = ([], bytes)
    next_message (some (v, n)) bytes rest =
        (pass_on v (take n bytes) ++ (rest (drop n bytes)).0, (rest (drop n bytes)).1)

    unfoldable pub parse : ℕ → Bytes → List Bytes × Bytes
    unfolding decode
    parse zero bytes = ([], bytes)
    parse (suc fuel) bytes = next_message (decode decoder bytes) bytes (parse fuel)

    module _ (needs : NeedsByte decoder) where
      pub decode-none : (bytes : Bytes) → length bytes ≡ 0 → decode decoder bytes ≡ none
      decode-none bytes e = elim (Option-cases (decode decoder bytes)) [
        | inl h ↦ h
        | inr ((v, n), h) ↦ absurd (
            omega (
              arith,
              decode_pos decoder bytes v n needs h,
              (decode-append decoder bytes [] v n h).1,
            ))
      ]

      pub shorter :
          (bytes : Bytes) (v : Cbor F) (n : ℕ)
          → decode decoder bytes ≡ some (v, n)
          → (length (drop n bytes) < length bytes) × (0 < n) × (n ≤ length bytes)
      shorter bytes v n h =
          let inside : n ≤ length bytes = (decode-append decoder bytes [] v n h).1 in
          (
            omega (arith, length-drop_lt n bytes inside, decode_pos decoder bytes v n needs h),
            decode_pos decoder bytes v n needs h,
            inside,
          )

      -- More fuel than bytes changes nothing.
      pub parse-fuel :
          (fuel fuel' : ℕ) (bytes : Bytes)
          → length bytes ≤ fuel
          → length bytes ≤ fuel'
          → parse fuel bytes ≡ parse fuel' bytes
      unfolding parse
      parse-fuel zero zero bytes h k = refl
      parse-fuel zero (suc fuel') bytes h k = rw (decode-none bytes (omega arith)) refl
      parse-fuel (suc fuel) zero bytes h k = rw (decode-none bytes (omega arith)) refl
      parse-fuel (suc fuel) (suc fuel') bytes h k = elim (Option-cases (decode decoder bytes)) [
        | inl e ↦ rw e refl
        | inr ((v, n), e) ↦
            let (less, pos, inside) = shorter bytes v n e in
            rw e (
              ap (λ (r : List Bytes × Bytes). (pass_on v (take n bytes) ++ r.0, r.1))
                (parse-fuel fuel fuel' (drop n bytes) (omega arith) (omega arith)))
      ]

      pub parse_left : (fuel : ℕ) (bytes : Bytes) → length (parse fuel bytes).1 ≤ length bytes
      unfolding parse
      parse_left zero bytes = omega arith
      parse_left (suc fuel) bytes = elim (Option-cases (decode decoder bytes)) [
        | inl e ↦ rw e (omega arith)
        | inr ((v, n), e) ↦
            rw e (omega (arith, parse_left fuel (drop n bytes), (shorter bytes v n e).0))
      ]

      -- Bytes that come later are parsed after what was left.
      pub parse-append :
          (fuel fuel' : ℕ) (bytes later : Bytes)
          → length bytes ≤ fuel
          → length (bytes ++ later) ≤ fuel'
          → parse fuel' (bytes ++ later) ≡ (
            (parse fuel bytes).0 ++ (parse fuel' ((parse fuel bytes).1 ++ later)).0,
            (parse fuel' ((parse fuel bytes).1 ++ later)).1,
          )
      unfolding parse
      parse-append zero fuel' bytes later h k = refl
      parse-append (suc fuel) zero bytes later h k =
          rw (decode-none bytes (omega (arith, length-append bytes later))) refl
      parse-append (suc fuel) (suc fuel') bytes later h k =
          elim (Option-cases (decode decoder bytes)) [
            | inl e ↦ rw e refl
            | inr ((v, n), e) ↦
                let (less, pos, inside) = shorter bytes v n e in
                let left : Bytes = (parse fuel (drop n bytes)).1 in
                let bound : length (left ++ later) ≤ fuel' = omega (
                  arith,
                  length-append left later,
                  length-append bytes later,
                  parse_left fuel (drop n bytes),
                ) in
                rw (e, (decode-append decoder bytes later v n e).0)
                  (rw (take-append n bytes later inside, drop-append n bytes later inside)
                    (ap (λ (r : List Bytes × Bytes). (pass_on v (take n bytes) ++ r.0, r.1))
                        (parse-append fuel fuel' (drop n bytes) later (omega arith) (
                          omega
                            (arith, length-append (drop n bytes) later, length-append bytes later)))
                      ∙ ap
                          (λ (r : List Bytes × Bytes). (
                            pass_on v (take n bytes) ++ ((parse fuel (drop n bytes)).0 ++ r.0),
                            r.1,
                          ))
                          (parse-fuel fuel' (suc fuel') (left ++ later) bound (omega arith))
                      ∙ ap (λ (ms : List Bytes). (ms, (parse (suc fuel') (left ++ later)).1))
                          (sym (
                            append_assoc (pass_on v (take n bytes)) (parse fuel (drop n bytes)).0
                              (parse (suc fuel') (left ++ later)).0))))
          ]

      pub parse-nil : (fuel : ℕ) (bytes : Bytes) → length bytes ≡ 0 → parse fuel bytes ≡ ([], bytes)
      unfolding parse
      parse-nil zero bytes h = refl
      parse-nil (suc fuel) bytes h = rw (decode-none bytes h) refl

      pub parse_stops :
          (fuel : ℕ) (bytes : Bytes)
          → length bytes ≤ fuel
          → decode decoder (parse fuel bytes).1 ≡ none
      unfolding parse
      parse_stops zero bytes h = decode-none bytes (omega arith)
      parse_stops (suc fuel) bytes h = elim (Option-cases (decode decoder bytes)) [
        | inl e ↦ rw e e
        | inr ((v, n), e) ↦
            rw e (parse_stops fuel (drop n bytes) (omega (arith, (shorter bytes v n e).0)))
      ]

      pub parse_waits :
          (fuel : ℕ) (bytes : Bytes) → decode decoder bytes ≡ none → parse fuel bytes ≡ ([], bytes)
      unfolding parse
      parse_waits zero bytes e = refl
      parse_waits (suc fuel) bytes e = rw e refl
