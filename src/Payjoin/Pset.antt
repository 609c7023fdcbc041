-- ===== src/Payjoin/Pset.antt =====
-- The PSET of a payjoin: its proofs, its order, and the copy of its signatures (pset.rs).
use sideswapclient.Prelude.{
  ℕ, zero, suc, ◌+◌, Bool, true, false, ◌&&◌, Option, none, some, List, [], ◌∷◌, ◌++◌, map, length,
  if◌then◌else◌, ◌==◌, ◌>>=◌,
}
use sideswapclient.Prelude.Key.{nat_key}
use sideswapclient.Prelude.Map.{Map, insert, remove}
use sideswapclient.Utxo.Vec.{pop}
use sideswapclient.Payjoin.Types.{PsetInput, TxOutSecrets, Output}

-- `PSET_IN_EXPLICIT_VALUE`, `PSET_IN_VALUE_PROOF`, `PSET_IN_EXPLICIT_ASSET`, `PSET_IN_ASSET_PROOF`.
abbrev pset_in_explicit_value : ℕ
pset_in_explicit_value = 0x11

abbrev pset_in_value_proof : ℕ
pset_in_value_proof = 0x12

abbrev pset_in_explicit_asset : ℕ
pset_in_explicit_asset = 0x13

abbrev pset_in_asset_proof : ℕ
pset_in_asset_proof = 0x14

-- `elements::pset::Input`, the fields that are read or written; `prevout` is the previous output
-- with `witness_utxo`. The proprietary entries are under their subtypes.
pub record Input : Type 0 where
  pub prevout : PsetInput
  pub final_script_sig : Option ℕ
  pub final_script_witness : Option ℕ
  pub proprietary : Map ℕ ℕ

pub record Pset : Type 0 where
  pub inputs : List Input
  pub outputs : List Output

unfoldable pub pset_input : PsetInput → Input
pset_input input = record {
  prevout = input;
  final_script_sig = none;
  final_script_witness = none;
  proprietary = [];
}

-- The `elements` and `rand` libraries: the serialisations, the proofs (`none` where they fail), the
-- shuffles, and `blind_last`.
pub record Library : Type 0 where
  pub serialize_value : ℕ → ℕ
  pub serialize_asset : ℕ → ℕ
  pub blind_asset_proof : Input → TxOutSecrets → Option ℕ
  pub blind_value_proof : Input → TxOutSecrets → Option ℕ
  pub shuffle_inputs : List (Input × TxOutSecrets) → List (Input × TxOutSecrets)
  pub shuffle_outputs : List Output → List Output
  pub blind_last : List (ℕ × TxOutSecrets) → Pset → Option Pset

unfoldable pub remove_explicit : Input → Input
remove_explicit input = record input {
  proprietary = remove pset_in_asset_proof (
      remove pset_in_value_proof
        (remove pset_in_explicit_asset (remove pset_in_explicit_value input.proprietary)));
}

unfoldable pub remove_explicit_values : Pset → Pset
unfolding remove_explicit
remove_explicit_values pset = record pset { inputs = map remove_explicit pset.inputs }

abbrev pub is_signed : Input → Bool
is_signed input = elim input.final_script_witness [ none ↦ false | some witness ↦ true ]

unfoldable pub copy_signature : Input → Input → Input
copy_signature dst src =
    if is_signed src
    then record dst {
      final_script_sig = src.final_script_sig;
      final_script_witness = src.final_script_witness;
    }
    else dst

-- The loop over `zip`.
unfoldable pub copy_all : List Input → List Input → List Input
unfolding copy_signature
copy_all [] srcs = []
copy_all (dst ∷ dsts) [] = dst ∷ dsts
copy_all (dst ∷ dsts) (src ∷ srcs) = copy_signature dst src ∷ copy_all dsts srcs

unfoldable pub copy_signatures : Pset → Pset → Option Pset
unfolding copy_all
copy_signatures dst src =
    if length dst.inputs == length src.inputs && length dst.outputs == length src.outputs
    then some (record dst { inputs = copy_all dst.inputs src.inputs })
    else none

-- `position` of the output with no `blinding_key`.
unfoldable pub fee_output : List Output → Option ℕ
fee_output [] = none
fee_output (output ∷ outputs) = elim output.blinding_key [
  | none ↦ some 0
  | some key ↦ fee_output outputs >>= λ index. some (index + 1)
]

-- `swap(index, len - 1)`
unfoldable pub swap_last {ℓ} : {A : Type ℓ} → ℕ → List A → List A
unfolding pop
swap_last index [] = []
swap_last zero (x ∷ xs) = elim (pop xs) [
  | none ↦ x ∷ []
  | some (last, middle) ↦ last ∷ middle ++ x ∷ []
]
swap_last (suc index) (x ∷ xs) = x ∷ swap_last index xs

abbrev zip : List Input → List TxOutSecrets → List (Input × TxOutSecrets)
zip [] secrets = []
zip (input ∷ inputs) [] = []
zip (input ∷ inputs) (secret ∷ secrets) = (input, secret) ∷ zip inputs secrets

-- `enumerate`, from an index on.
abbrev pub indexed : ℕ → List (Input × TxOutSecrets) → List (ℕ × TxOutSecrets)
indexed index [] = []
indexed index ((input, secret) ∷ inputs) = (index, secret) ∷ indexed (index + 1) inputs

module _ (library : Library) where
  -- `none` stands for the error of the range proof, and also for a panic of the `unwrap`s on the asset's
  -- generator, the commitment and the surjection proof.
  unfoldable pub add_input_explicit_proofs : Input → TxOutSecrets → Option Input
  add_input_explicit_proofs input secret =
      library.blind_asset_proof input secret >>= λ blind_asset_proof.
      library.blind_value_proof input secret >>= λ blind_value_proof. some (record input {
        proprietary = insert pset_in_asset_proof blind_asset_proof (
            insert pset_in_value_proof blind_value_proof (
              insert pset_in_explicit_asset (library.serialize_asset secret.asset) (
                insert pset_in_explicit_value (library.serialize_value secret.value)
                  input.proprietary)));
      })

  unfoldable pub add_all : List (Input × TxOutSecrets) → Option (List Input)
  unfolding add_input_explicit_proofs
  add_all [] = some []
  add_all ((input, secret) ∷ inputs) = add_input_explicit_proofs input secret >>= λ proved.
      add_all inputs >>= λ rest. some (proved ∷ rest)

  -- The PSET before `blind_last`, with the inputs in their order.
  unfoldable pub arrange : Pset → List (Input × TxOutSecrets) → Option Pset
  unfolding fee_output swap_last add_all
  arrange pset inputs =
      let outputs = library.shuffle_outputs pset.outputs in
      fee_output outputs >>= λ index. add_all inputs >>= λ proved.
      some (record { inputs = proved; outputs = swap_last index outputs })

  unfoldable pub randomize_and_blind_pset : Pset → List TxOutSecrets → Option Pset
  unfolding arrange
  randomize_and_blind_pset pset input_secrets =
      if length pset.inputs == length input_secrets
      then (let inputs = library.shuffle_inputs (zip pset.inputs input_secrets) in
          arrange pset inputs >>= λ arranged. library.blind_last (indexed 0 inputs) arranged)
      else none
