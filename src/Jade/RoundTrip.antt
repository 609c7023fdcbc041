-- ===== src/Jade/RoundTrip.antt =====
-- JSON that came from the device as CBOR goes back to it as CBOR without a loss.
use sideswapclient.Prelude.{
  Option, none, some, ◌≡◌, refl, sym, ap, subst, ◌∙◌, inl, inr, Bool-cases,
}
use sideswapclient.Prelude.Key.{Text, text_eq, text_before, text_eq_iff}
use sideswapclient.Jade.Cbor.{
  Json, JsonItems, JsonFields, Cbor, CborItems, CborFields, Numbers, ok, ◌>>=◌, ok-of-bind,
  key_text, insert_field, json_to_cbor, items_to_cbor, fields_to_cbor, cbor_to_json, items_to_json,
  fields_to_json, ok_or_err,
}
use sideswapclient.Jade.Fields.{
  text_before_total, FromFloat, ok_injective, After, AllBefore, join, After-trans, AllBefore-trans,
  After-insert_field, insert_field_last, AllBefore-join, join-join,
}

module _ {N F : Type 0} (numbers : Numbers N F) (law : FromFloat numbers) where
  -- The numbers were made from floats, and the keys of each object are in their order.
  abbrev mutual
    IsPlain : Json N F → Type 0
    IsPlain Json.null = Unit
    IsPlain (Json.boolean v) = Unit
    IsPlain (Json.string v) = Unit
    IsPlain (Json.number n) = (v : F) × (numbers.from_f64 v ≡ some n)
    IsPlain (Json.array items) = AllPlain items
    IsPlain (Json.object fields) = FieldsPlain fields

    AllPlain : JsonItems N F → Type 0
    AllPlain JsonItems.done = Unit
    AllPlain (JsonItems.item v rest) = IsPlain v × AllPlain rest

    FieldsPlain : JsonFields N F → Type 0
    FieldsPlain JsonFields.end = Unit
    FieldsPlain (JsonFields.field k v rest) = IsPlain v × After k rest × FieldsPlain rest

  insert_field-FieldsPlain :
      (k : Text) (v : Json N F) (m : JsonFields N F)
      → IsPlain v
      → FieldsPlain m
      → FieldsPlain (insert_field k v m)
  unfolding insert_field
  insert_field-FieldsPlain k v JsonFields.end p q = (p, tt, tt)
  insert_field-FieldsPlain k v (JsonFields.field j w m) p (pw, after, pm) =
      elim (Bool-cases (text_eq j k)) [
        | inl e ↦ rw e (p, subst (λ (z : Text). After z m) ((text_eq_iff j k).0 e) after, pm)
        | inr e ↦ elim (Bool-cases (text_before k j)) [
          | inl l ↦ rw (e, l) (p, (l, After-trans k j m l after), (pw, after, pm))
          | inr l ↦
              rw (e, l)
                (
                  pw,
                  After-insert_field j k v m (text_before_total j k e l) after,
                  insert_field-FieldsPlain k v m p pm,
                )
        ]
      ]

  -- A number that the conversion makes.
  number-IsPlain :
      (v : F) {j : Json N F}
      → (ok_or_err (numbers.from_f64 v) >>= λ n. ok (Json.number n)) ≡ ok j
      → IsPlain j
  number-IsPlain v h = number_case (numbers.from_f64 v) (λ n e. (v, e)) h
    where
      number_case :
          (o : Option N) {j : Json N F}
          → ((n : N) → o ≡ some n → IsPlain (Json.number n))
          → (ok_or_err o >>= λ n. ok (Json.number n)) ≡ ok j
          → IsPlain j
      number_case none f h = cc
      number_case (some n) f h = subst IsPlain (ok_injective h) (f n refl)

  mutual
    unfolding cbor_to_json

    cbor_to_json-IsPlain : (c : Cbor F) (j : Json N F) → cbor_to_json numbers c ≡ ok j → IsPlain j
    cbor_to_json-IsPlain (Cbor.integer v) j h = number-IsPlain (numbers.int_as_f64 v) h
    cbor_to_json-IsPlain (Cbor.float v) j h = number-IsPlain v h
    cbor_to_json-IsPlain (Cbor.text v) j h = subst IsPlain (ok_injective h) tt
    cbor_to_json-IsPlain (Cbor.boolean v) j h = subst IsPlain (ok_injective h) tt
    cbor_to_json-IsPlain Cbor.null j h = subst IsPlain (ok_injective h) tt
    cbor_to_json-IsPlain (Cbor.bytes v) j h = cc
    cbor_to_json-IsPlain (Cbor.tag n v) j h = cc
    cbor_to_json-IsPlain (Cbor.array v) j h =
        let (items, e, k) =
          ok-of-bind (items_to_json numbers v) (λ items. ok (Json.array items)) h in
        subst IsPlain (ok_injective k) (items_to_json-AllPlain v items e)
    cbor_to_json-IsPlain (Cbor.map v) j h =
        let (fields, e, k) =
          ok-of-bind (fields_to_json numbers v JsonFields.end) (λ fields. ok (Json.object fields))
            h in
        subst IsPlain (ok_injective k) (fields_to_json-FieldsPlain v JsonFields.end fields tt e)

    items_to_json-AllPlain :
        (c : CborItems F) (j : JsonItems N F) → items_to_json numbers c ≡ ok j → AllPlain j
    items_to_json-AllPlain CborItems.done j h = subst AllPlain (ok_injective h) tt
    items_to_json-AllPlain (CborItems.item v rest) j h =
        let (first, e, k) =
          ok-of-bind (cbor_to_json numbers v)
            (λ first. items_to_json numbers rest >>= λ items. ok (JsonItems.item first items)) h in
        let (items, f, l) =
          ok-of-bind (items_to_json numbers rest) (λ items. ok (JsonItems.item first items)) k in
        subst AllPlain (ok_injective l)
          (cbor_to_json-IsPlain v first e, items_to_json-AllPlain rest items f)

    fields_to_json-FieldsPlain :
        (c : CborFields F) (collected j : JsonFields N F)
        → FieldsPlain collected
        → fields_to_json numbers c collected ≡ ok j
        → FieldsPlain j
    fields_to_json-FieldsPlain CborFields.end collected j p h = subst FieldsPlain (ok_injective h) p
    fields_to_json-FieldsPlain (CborFields.field key v rest) collected j p h =
        let (first, e, k) =
          ok-of-bind (cbor_to_json numbers v)
            (λ first. fields_to_json numbers rest (insert_field (key_text key) first collected))
            h in
        fields_to_json-FieldsPlain rest (insert_field (key_text key) first collected) j
          (insert_field-FieldsPlain (key_text key) first collected (cbor_to_json-IsPlain v first e)
            p)
          k

  abbrev Below : JsonFields N F → JsonFields N F → Type 0
  Below l JsonFields.end = Unit
  Below l (JsonFields.field k v m) = AllBefore l k

  Below-next :
      (l : JsonFields N F) (k : Text) (v : Json N F) (m : JsonFields N F)
      → AllBefore l k
      → After k m
      → Below (join l (JsonFields.field k v JsonFields.end)) m
  Below-next l k v JsonFields.end a b = tt
  Below-next l k v (JsonFields.field j w m) a (h, b) =
      AllBefore-join l k j v (AllBefore-trans l k j a h) h

  join-end : (l : JsonFields N F) → join l JsonFields.end ≡ l
  join-end JsonFields.end = refl
  join-end (JsonFields.field j w m) = ap (λ later. JsonFields.field j w later) (join-end m)

  Below-end : (m : JsonFields N F) → Below JsonFields.end m
  Below-end JsonFields.end = tt
  Below-end (JsonFields.field k v m) = tt

  mutual
    unfolding json_to_cbor cbor_to_json

    there_and_back :
        (j : Json N F)
        → IsPlain j
        → (c : Cbor F) × (json_to_cbor numbers j ≡ ok c) × (cbor_to_json numbers c ≡ ok j)
    there_and_back Json.null p = (Cbor.null, refl, refl)
    there_and_back (Json.boolean v) p = (Cbor.boolean v, refl, refl)
    there_and_back (Json.string v) p = (Cbor.text v, refl, refl)
    there_and_back (Json.number n) (v, e) =
        (Cbor.float v, rw (law v n e).0 (rw (law v n e).1 refl), rw e refl)
    there_and_back (Json.array items) p =
        let (c, e, f) = items_there_and_back items p in (Cbor.array c, rw e refl, rw f refl)
    there_and_back (Json.object fields) p =
        let (c, e, f) = fields_there_and_back fields p in
        (Cbor.map c, rw e refl, rw (f JsonFields.end (Below-end fields)) refl)

    items_there_and_back :
        (j : JsonItems N F)
        → AllPlain j
        → (c : CborItems F) × (items_to_cbor numbers j ≡ ok c) × (items_to_json numbers c ≡ ok j)
    items_there_and_back JsonItems.done p = (CborItems.done, refl, refl)
    items_there_and_back (JsonItems.item v rest) (p, q) =
        let (c, e, f) = there_and_back v p in
        let (later, g, h) = items_there_and_back rest q in
        (CborItems.item c later, rw (e, g) refl, rw (f, h) refl)

    fields_there_and_back :
        (j : JsonFields N F)
        → FieldsPlain j
        → (c : CborFields F) × (fields_to_cbor numbers j ≡ ok c)
          × ((l : JsonFields N F) → Below l j → fields_to_json numbers c l ≡ ok (join l j))
    fields_there_and_back JsonFields.end p = (CborFields.end, refl, λ l b. ap ok (sym (join-end l)))
    fields_there_and_back (JsonFields.field k v rest) (p, after, q) =
        let (c, e, f) = there_and_back v p in
        let (later, g, h) = fields_there_and_back rest q in
        (
          CborFields.field (Cbor.text k) c later,
          rw (e, g) refl,
          λ l b.
              rw (f, insert_field_last k v l b)
                (h (join l (JsonFields.field k v JsonFields.end)) (Below-next l k v rest b after)
                  ∙ ap ok (join-join l k v rest)),
        )

  -- JSON that was made from CBOR is converted back to CBOR without an error or a panic, and that
  -- CBOR again to the same JSON, whatever the CBOR was at the start (keys that are not texts, keys
  -- out of order or repeated, integers), if what `from_f64` returns is a float of the value given.
  pub cbor_to_json-json_to_cbor :
      (c : Cbor F) (j : Json N F)
      → cbor_to_json numbers c ≡ ok j
      → (back : Cbor F) × (json_to_cbor numbers j ≡ ok back) × (cbor_to_json numbers back ≡ ok j)
  cbor_to_json-json_to_cbor c j h = there_and_back j (cbor_to_json-IsPlain c j h)
