-- ===== src/Jade/Fields.antt =====
-- Objects whose keys are in their order.
use sideswapclient.Prelude.{true, false, some, [], ◌∷◌, ◌≡◌, refl, ap, inl, inr, Bool-cases, arith}
use sideswapclient.Prelude.Key.{Text, text_eq, text_before}
use sideswapclient.Jade.Cbor.{Json, JsonFields, Numbers, ok, insert_field}

-- The order of the keys.
pub text_before_trans :
    (a b c : Text) → text_before a b ≡ true → text_before b c ≡ true → text_before a c ≡ true
text_before_trans [] [] c h k = cc
text_before_trans (x ∷ xs) [] c h k = cc
text_before_trans a (y ∷ ys) [] h k = cc
text_before_trans [] (y ∷ ys) (z ∷ zs) h k = refl
text_before_trans (x ∷ xs) (y ∷ ys) (z ∷ zs) h k = ground (arith, text_before_trans xs ys zs)

pub text_before_total :
    (a b : Text) → text_eq a b ≡ false → text_before b a ≡ false → text_before a b ≡ true
text_before_total [] [] h k = cc
text_before_total [] (y ∷ ys) h k = refl
text_before_total (x ∷ xs) [] h k = cc
text_before_total (x ∷ xs) (y ∷ ys) h k = ground (arith, text_before_total xs ys)

pub text_eq-before : (a b : Text) → text_before a b ≡ true → text_eq a b ≡ false
text_eq-before [] [] h = cc
text_eq-before [] (y ∷ ys) h = refl
text_eq-before (x ∷ xs) [] h = cc
text_eq-before (x ∷ xs) (y ∷ ys) h = ground (arith, text_eq-before xs ys)

pub text_before_asym : (a b : Text) → text_before a b ≡ true → text_before b a ≡ false
text_before_asym [] [] h = cc
text_before_asym [] (y ∷ ys) h = refl
text_before_asym (x ∷ xs) [] h = cc
text_before_asym (x ∷ xs) (y ∷ ys) h = ground (arith, text_before_asym xs ys)

-- The results of `from_f64` are floats, with the value that they were made from.
abbrev pub FromFloat : {N F : Type 0} → Numbers N F → Type 0
FromFloat {N} {F} numbers =
    (v : F) (n : N)
    → numbers.from_f64 v ≡ some n
    → (numbers.is_f64 n ≡ true) × (numbers.as_f64 n ≡ some v)

pub ok_injective {ℓ} : {A : Type ℓ} {a b : A} → ok a ≡ ok b → a ≡ b
ok_injective h = cc

module _ {N F : Type 0} where
  -- `k` comes before each of the keys, and each of the keys before `k`.
  abbrev pub After : Text → JsonFields N F → Type 0
  After k JsonFields.end = Unit
  After k (JsonFields.field j w m) = (text_before k j ≡ true) × After k m

  abbrev pub AllBefore : JsonFields N F → Text → Type 0
  AllBefore JsonFields.end k = Unit
  AllBefore (JsonFields.field j w m) k = (text_before j k ≡ true) × AllBefore m k

  abbrev pub join : JsonFields N F → JsonFields N F → JsonFields N F
  join JsonFields.end m = m
  join (JsonFields.field j w l) m = JsonFields.field j w (join l m)

  pub After-trans :
      (i k : Text) (m : JsonFields N F) → text_before i k ≡ true → After k m → After i m
  After-trans i k JsonFields.end h a = tt
  After-trans i k (JsonFields.field j w m) h (b, a) =
      (text_before_trans i k j h b, After-trans i k m h a)

  pub AllBefore-trans :
      (m : JsonFields N F) (k l : Text) → AllBefore m k → text_before k l ≡ true → AllBefore m l
  AllBefore-trans JsonFields.end k l a h = tt
  AllBefore-trans (JsonFields.field j w m) k l (b, a) h =
      (text_before_trans j k l b h, AllBefore-trans m k l a h)

  pub After-insert_field :
      (i k : Text) (v : Json N F) (m : JsonFields N F)
      → text_before i k ≡ true
      → After i m
      → After i (insert_field k v m)
  unfolding insert_field
  After-insert_field i k v JsonFields.end h a = (h, tt)
  After-insert_field i k v (JsonFields.field j w m) h (b, a) = elim (Bool-cases (text_eq j k)) [
    | inl e ↦ rw e (h, a)
    | inr e ↦ elim (Bool-cases (text_before k j)) [
      | inl l ↦ rw (e, l) (h, (b, a))
      | inr l ↦ rw (e, l) (b, After-insert_field i k v m h a)
    ]
  ]

  -- A key that comes after all the others is added at the end.
  pub insert_field_last :
      (k : Text) (v : Json N F) (m : JsonFields N F)
      → AllBefore m k
      → insert_field k v m ≡ join m (JsonFields.field k v JsonFields.end)
  unfolding insert_field
  insert_field_last k v JsonFields.end h = refl
  insert_field_last k v (JsonFields.field j w m) (b, a) =
      rw (text_eq-before j k b, text_before_asym j k b, insert_field_last k v m a) refl

  pub AllBefore-join :
      (m : JsonFields N F) (k l : Text) (v : Json N F)
      → AllBefore m l
      → text_before k l ≡ true
      → AllBefore (join m (JsonFields.field k v JsonFields.end)) l
  AllBefore-join JsonFields.end k l v a h = (h, tt)
  AllBefore-join (JsonFields.field j w m) k l v (b, a) h = (b, AllBefore-join m k l v a h)

  pub join-join :
      (m : JsonFields N F) (k : Text) (v : Json N F) (rest : JsonFields N F)
      → join (join m (JsonFields.field k v JsonFields.end)) rest
        ≡ join m (JsonFields.field k v rest)
  join-join JsonFields.end k v rest = refl
  join-join (JsonFields.field j w m) k v rest =
      ap (λ later. JsonFields.field j w later) (join-join m k v rest)
