-- ===== src/Jade/Cbor.antt =====
-- The conversions between JSON and CBOR of the PIN server's messages:
-- rust/sideswap_jade/src/lib.rs, `json_to_cbor` and `cbor_to_json`.
use sideswapclient.Prelude.{ℕ, Bool, Option, none, some, List, [], if◌then◌else◌, ◌≡◌, refl}
use sideswapclient.Prelude.Key.{Text, text_eq, text_before}

-- `Result`, with a panic as a third case.
pub data Outcome {ℓ} (A : Type ℓ) : Type ℓ where
  ok : A → Outcome A
  err : Outcome A
  panic : Outcome A

infixl 5 ◌>>=◌
abbrev pub ◌>>=◌ {ℓ κ} : {A : Type ℓ} {B : Type κ} → Outcome A → (A → Outcome B) → Outcome B
ok a >>= f = f a
err >>= f = err
panic >>= f = panic

-- `ok_or_else`, and `unwrap`.
abbrev pub ok_or_err {ℓ} : {A : Type ℓ} → Option A → Outcome A
ok_or_err none = err
ok_or_err (some a) = ok a

abbrev pub unwrap {ℓ} : {A : Type ℓ} → Option A → Outcome A
unwrap none = panic
unwrap (some a) = ok a

pub ok-of-bind {ℓ κ} :
    {A : Type ℓ} {B : Type κ} (o : Outcome A) (f : A → Outcome B) {b : B}
    → (o >>= f) ≡ ok b
    → (a : A) × (o ≡ ok a) × (f a ≡ ok b)
ok-of-bind (ok a) f h = (a, refl, h)
ok-of-bind err f h = cc
ok-of-bind panic f h = cc

-- `N` is the type of `serde_json::Number`, and `F` is the type of floats.
module _ (N F : Type 0) where
  mutual
    pub data Json : Type 0 where
      null : Json
      boolean : Bool → Json
      string : Text → Json
      number : N → Json
      array : JsonItems → Json
      object : JsonFields → Json

    pub data JsonItems : Type 0 where
      done : JsonItems
      item : Json → JsonItems → JsonItems

    -- `serde_json::Map`, a `BTreeMap`: the entries in the order of the keys.
    pub data JsonFields : Type 0 where
      end : JsonFields
      field : Text → Json → JsonFields → JsonFields

module _ (F : Type 0) where
  mutual
    -- An integer is its pattern of 128 bits.
    pub data Cbor : Type 0 where
      integer : ℕ → Cbor
      bytes : List ℕ → Cbor
      float : F → Cbor
      text : Text → Cbor
      boolean : Bool → Cbor
      null : Cbor
      tag : ℕ → Cbor → Cbor
      array : CborItems → Cbor
      map : CborFields → Cbor

    pub data CborItems : Type 0 where
      done : CborItems
      item : Cbor → CborItems → CborItems

    pub data CborFields : Type 0 where
      end : CborFields
      field : Cbor → Cbor → CborFields → CborFields

-- What the conversions call: `is_f64`, `as_f64` and `from_f64` of `Number`, and `as f64`.
pub record Numbers (N F : Type 0) : Type 0 where
  pub is_f64 : N → Bool
  pub as_f64 : N → Option F
  pub from_f64 : F → Option N
  pub int_as_f64 : ℕ → F

-- `key.as_text().unwrap_or_default()`
abbrev pub key_text : {F : Type 0} → Cbor F → Text
key_text (Cbor.text t) = t
key_text _ = []

module _ {N F : Type 0} where
  -- `BTreeMap::insert`
  unfoldable pub insert_field : Text → Json N F → JsonFields N F → JsonFields N F
  insert_field k v JsonFields.end = JsonFields.field k v JsonFields.end
  insert_field k v (JsonFields.field j w m) =
      let later = JsonFields.field j w (insert_field k v m) in
      if text_eq j k
      then JsonFields.field k v m
      else if text_before k j
      then JsonFields.field k v (JsonFields.field j w m)
      else later

module _ {N F : Type 0} (numbers : Numbers N F) where
  unfoldable mutual
    pub json_to_cbor : Json N F → Outcome (Cbor F)
    json_to_cbor Json.null = ok Cbor.null
    json_to_cbor (Json.boolean v) = ok (Cbor.boolean v)
    json_to_cbor (Json.string v) = ok (Cbor.text v)
    json_to_cbor (Json.number v) =
        if numbers.is_f64 v then (unwrap (numbers.as_f64 v) >>= λ f. ok (Cbor.float f)) else err
    json_to_cbor (Json.array v) = items_to_cbor v >>= λ items. ok (Cbor.array items)
    json_to_cbor (Json.object v) = fields_to_cbor v >>= λ fields. ok (Cbor.map fields)

    pub items_to_cbor : JsonItems N F → Outcome (CborItems F)
    items_to_cbor JsonItems.done = ok CborItems.done
    items_to_cbor (JsonItems.item v rest) =
        json_to_cbor v >>= λ c. items_to_cbor rest >>= λ items. ok (CborItems.item c items)

    pub fields_to_cbor : JsonFields N F → Outcome (CborFields F)
    fields_to_cbor JsonFields.end = ok CborFields.end
    fields_to_cbor (JsonFields.field k v rest) = json_to_cbor v >>= λ c.
        fields_to_cbor rest >>= λ fields. ok (CborFields.field (Cbor.text k) c fields)

  -- The fields are collected into the map in their order.
  unfoldable mutual
    pub cbor_to_json : Cbor F → Outcome (Json N F)
    cbor_to_json (Cbor.integer v) =
        ok_or_err (numbers.from_f64 (numbers.int_as_f64 v)) >>= λ n. ok (Json.number n)
    cbor_to_json (Cbor.float v) = ok_or_err (numbers.from_f64 v) >>= λ n. ok (Json.number n)
    cbor_to_json (Cbor.text v) = ok (Json.string v)
    cbor_to_json (Cbor.boolean v) = ok (Json.boolean v)
    cbor_to_json Cbor.null = ok Json.null
    cbor_to_json (Cbor.array v) = items_to_json v >>= λ items. ok (Json.array items)
    cbor_to_json (Cbor.map v) =
        fields_to_json v JsonFields.end >>= λ fields. ok (Json.object fields)
    cbor_to_json (Cbor.bytes v) = err
    cbor_to_json (Cbor.tag n v) = err

    pub items_to_json : CborItems F → Outcome (JsonItems N F)
    items_to_json CborItems.done = ok JsonItems.done
    items_to_json (CborItems.item v rest) =
        cbor_to_json v >>= λ j. items_to_json rest >>= λ items. ok (JsonItems.item j items)

    pub fields_to_json : CborFields F → JsonFields N F → Outcome (JsonFields N F)
    fields_to_json CborFields.end collected = ok collected
    fields_to_json (CborFields.field key v rest) collected =
        cbor_to_json v >>= λ j. fields_to_json rest (insert_field (key_text key) j collected)
