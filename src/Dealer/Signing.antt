-- ===== src/Dealer/Signing.antt =====
-- Which inputs of a PSET the dealer signs.
use sideswapclient.Prelude.{ℕ, ◌+◌, ◌≡◌, ◌⊎◌, refl, Option, none, some, List, [], ◌∷◌, inl, inr}
use sideswapclient.Prelude.Map.{get}
use sideswapclient.Dealer.Types.{tx_out_key, Utxo, Utxos, SignNotification, ok}
use sideswapclient.Dealer.Psets.{Outside, SignInput, sign_own, sign_known, sign_inputs, sign_pset}
use sideswapclient.Dealer.Replies.{Oks, Oks-ok, unwrap-Oks, ok_or-Oks, and_reply-Oks}

module _ {F : Type 0} (outside : Outside F) where
  -- The input's output is the wallet's, its key is known, and the witness is the signature by that
  -- key, over the transaction and the amount, with the public key.
  abbrev pub IsOwnSigned : Utxos → ℕ → ℕ → SignInput → SignInput → Type 0
  IsOwnSigned utxos tx index input signed =
      (utxo : Utxo) × (key : ℕ) × (commitment : ℕ) × (get input.previous_output utxos ≡ some utxo)
      × (outside.dump_priv_key utxo.item.address ≡ some key)
      × (utxo.item.amountcommitment ≡ some commitment)
      × (signed.final_script_witness
          ≡ some (outside.input_sign tx index key commitment, outside.public_key key))

  -- An input is signed as the dealer's own, or it is not the dealer's and stays as it was.
  abbrev pub SignsOwn : Utxos → ℕ → ℕ → List SignInput → List SignInput → Type 0
  SignsOwn utxos tx index [] [] = Unit
  SignsOwn utxos tx index [] (signed ∷ rest) = ⊥
  SignsOwn utxos tx index (input ∷ inputs) [] = ⊥
  SignsOwn utxos tx index (input ∷ inputs) (signed ∷ rest) =
      (signed.previous_output ≡ input.previous_output)
      × (((get input.previous_output utxos ≡ none) × (signed ≡ input))
          ⊎ IsOwnSigned utxos tx index input signed)
      × SignsOwn utxos tx (index + 1) inputs rest

  abbrev OneSigned : Utxos → ℕ → ℕ → SignInput → SignInput → Type 0
  OneSigned utxos tx index input signed =
      (signed.previous_output ≡ input.previous_output)
      × (((get input.previous_output utxos ≡ none) × (signed ≡ input))
          ⊎ IsOwnSigned utxos tx index input signed)

  sign_known-OneSigned :
      (utxos : Utxos) (tx index : ℕ) (known : Option Utxo) (input : SignInput)
      → get input.previous_output utxos ≡ known
      → Oks (OneSigned utxos tx index input) (sign_known outside tx index known input)
  unfolding sign_own
  sign_known-OneSigned utxos tx index none input e = (refl, inl (e, refl))
  sign_known-OneSigned utxos tx index (some utxo) input e =
      ok_or-Oks (OneSigned utxos tx index input) (outside.dump_priv_key utxo.item.address) _
        λ (key : ℕ) dumped.
          unwrap-Oks (OneSigned utxos tx index input) utxo.item.amountcommitment _
            λ (commitment : ℕ) known. (refl, inr (utxo, key, commitment, e, dumped, known, refl))

  sign_inputs-SignsOwn :
      (utxos : Utxos) (tx index : ℕ) (inputs : List SignInput)
      → Oks (SignsOwn utxos tx index inputs) (sign_inputs outside utxos tx index inputs)
  unfolding sign_inputs
  sign_inputs-SignsOwn utxos tx index [] = tt
  sign_inputs-SignsOwn utxos tx index (input ∷ inputs) =
      and_reply-Oks (SignsOwn utxos tx index (input ∷ inputs))
        (sign_known outside tx index (get input.previous_output utxos) input) _
        λ (first : SignInput) e.
          and_reply-Oks (SignsOwn utxos tx index (input ∷ inputs))
            (sign_inputs outside utxos tx (index + 1) inputs) _
            λ (rest : List SignInput) k.
              let (same, how) =
                Oks-ok (OneSigned utxos tx index input) _
                  (sign_known-OneSigned utxos tx index (get input.previous_output utxos) input refl)
                  e in
              (
                same,
                how,
                Oks-ok (SignsOwn utxos tx (index + 1) inputs) _
                    (sign_inputs-SignsOwn utxos tx (index + 1) inputs) k,
              )

  abbrev pub IsSignedPset : SignNotification F → Utxos → ℕ → Type 0
  IsSignedPset msg utxos pset =
      (inputs : List SignInput) × (signed : List SignInput) × (outside.decode_pset msg.pset
        ≡ some inputs)
      × (pset ≡ outside.encode_pset signed)
      × SignsOwn utxos msg.pset 0 inputs signed

  -- When `sign_pset` returns a PSET, it holds the inputs of the PSET that was sent, in their
  -- order: an input that spends a UTXO of the wallet is signed with the key of that UTXO's
  -- address, over that transaction, index and amount, and every other input is as it was.
  pub sign_pset-IsSignedPset :
      (msg : SignNotification F) (utxos : Utxos) (pset : ℕ)
      → sign_pset outside msg utxos ≡ ok pset
      → IsSignedPset msg utxos pset
  unfolding sign_pset
  sign_pset-IsSignedPset msg utxos pset h =
      Oks-ok (IsSignedPset msg utxos) _
        (ok_or-Oks (IsSignedPset msg utxos) (outside.decode_pset msg.pset) _
          λ (inputs : List SignInput) e.
            and_reply-Oks (IsSignedPset msg utxos) (sign_inputs outside utxos msg.pset 0 inputs) _
              λ (signed : List SignInput) k. (
                inputs,
                signed,
                e,
                refl,
                Oks-ok (SignsOwn utxos msg.pset 0 inputs) _
                    (sign_inputs-SignsOwn utxos msg.pset 0 inputs) k,
              ))
        h
