-- ===== src/Payjoin/Assets.antt =====
-- What the outputs spend and the inputs hold, asset by asset.
use sideswapclient.Prelude.{
  sym, ◌==◌, if◌then◌else◌, ℕ, ◌+◌, ◌<◌, ◌≡◌, refl, ap, ◌∙◌, true, some, List, [], ◌∷◌, ◌++◌, map,
  ltb, lt→ltb, ltb→lt, arith, Bool-cases, Option-cases, inl, inr,
}
use sideswapclient.Payjoin.Types.{AssetId, Address, is_blinded, Utxo, TxOutSecrets, Output}
use sideswapclient.Payjoin.Plan.{
  all_of, output_to, pset_output, change_output, pset_network_fee, secrets_of,
}
use sideswapclient.Payjoin.Funding.{total}

-- An amount of one asset, counted for another.
abbrev pub part : AssetId → AssetId → ℕ → ℕ
part asset other amount = if other == asset then amount else 0

-- What the outputs spend of an asset, and what the inputs hold of it.
abbrev pub spent : AssetId → List Output → ℕ
spent asset [] = 0
spent asset (output ∷ outputs) = part asset output.asset output.amount + spent asset outputs

abbrev pub held : AssetId → List TxOutSecrets → ℕ
held asset [] = 0
held asset (secret ∷ secrets) = part asset secret.asset secret.value + held asset secrets

pub part-sum :
    (asset other : AssetId) (x y : ℕ) {t : ℕ}
    → x + y ≡ t
    → part asset other x + part asset other y ≡ part asset other t
part-sum asset other x y h = elim (Bool-cases (other == asset)) [
  | inl e ↦ rw e h
  | inr e ↦ rw e refl
]

part-zero : (asset other : AssetId) → part asset other 0 ≡ 0
part-zero asset other = elim (Bool-cases (other == asset)) [ inl e ↦ rw e refl | inr e ↦ rw e refl ]

pub held-append :
    (asset : AssetId) (xs ys : List TxOutSecrets)
    → held asset (xs ++ ys) ≡ held asset xs + held asset ys
held-append asset [] ys = omega arith
held-append asset (x ∷ xs) ys = omega (arith, held-append asset xs ys)

pub map-append :
    (xs ys : List Utxo) → map secrets_of (xs ++ ys) ≡ map secrets_of xs ++ map secrets_of ys
map-append [] ys = refl
map-append (x ∷ xs) ys = ap (λ z. secrets_of x ∷ z) (map-append xs ys)

-- UTXOs of one asset hold nothing of another.
pub held-secrets :
    (asset other : AssetId) (utxos : List Utxo)
    → all_of other utxos ≡ true
    → held asset (map secrets_of utxos) ≡ part asset other (total utxos)
held-secrets asset other [] h = sym (part-zero asset other)
held-secrets asset other (utxo ∷ utxos) h =
    let same : utxo.asset_id ≡ other = ground (arith, h) in
    let rest = held-secrets asset other utxos (ground (arith, h)) in
    omega (
      arith,
      rest,
      ap (λ z. part asset z utxo.value) same,
      part-sum asset other utxo.value (total utxos) refl,
    )

spent-append :
    (asset : AssetId) (xs ys : List Output)
    → spent asset (xs ++ ys) ≡ spent asset xs + spent asset ys
spent-append asset [] ys = omega arith
spent-append asset (x ∷ xs) ys = omega (arith, spent-append asset xs ys)

pub spent-outputs :
    (asset : AssetId) (sent fee : Output) (back lbtc : List Output) (other : AssetId) (network : ℕ)
    → spent asset (sent ∷ fee ∷ back ++ lbtc ++ pset_network_fee other network ∷ [])
      ≡ part asset sent.asset sent.amount
        + part asset fee.asset fee.amount
        + spent asset back
        + spent asset lbtc
        + part asset other network
spent-outputs asset sent fee back lbtc other network = omega (
  arith,
  spent-append asset (back ++ lbtc) (pset_network_fee other network ∷ []),
  spent-append asset back lbtc,
)

-- An output to a blinded address, of an amount above 0, is made.
pub pset_output-made :
    (address : Address) (asset : AssetId) (amount : ℕ)
    → is_blinded address ≡ true
    → 0 < amount
    → (output : Output) × (pset_output address asset amount ≡ some output)
      × (output.asset ≡ asset)
      × (output.amount ≡ amount)
unfolding pset_output
pset_output-made address asset amount b p = elim (Option-cases address.blinding_pubkey) [
  | inl e ↦ absurd (ground (arith, e))
  | inr (key, e) ↦ (output_to address asset amount key, rw (e, lt→ltb 0 amount p) refl, refl, refl)
]

pub change_output-made :
    (address : Address) (asset : AssetId) (amount : ℕ)
    → is_blinded address ≡ true
    → (outputs : List Output) × (change_output address asset amount ≡ some outputs)
      × ((counted : AssetId) → spent counted outputs ≡ part counted asset amount)
unfolding change_output
change_output-made address asset amount b = elim (Bool-cases (ltb 0 amount)) [
  | inl e ↦
      let (output, k, of_asset, same) =
        pset_output-made address asset amount b (ltb→lt 0 amount e) in
      (
        output ∷ [],
        rw (e, k) refl,
        λ counted.
            omega (
              arith,
              ap (λ z. part counted z output.amount) of_asset,
              ap (part counted asset) same,
            ),
      )
  | inr e ↦ (
    [],
    rw e refl,
    λ counted.
        let nothing : amount ≡ 0 = ground (arith, e) in
        sym (ap (part counted asset) nothing ∙ part-zero counted asset),
  )
]
