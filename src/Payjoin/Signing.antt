-- ===== src/Payjoin/Signing.antt =====
-- What the copy of signatures, the removal of proofs and the order of the outputs keep.
use mathlib.Core.List.{perm_append_singleton}
use mathlib.Core.Path.{ap₂}
use mathlib.Core.Option.{some-injective}
use mathlib.Core.List.Perm
use sideswapclient.Prelude.{
  ℕ, suc, ◌+◌, ◌≡◌, refl, sym, ap, subst, ◌∙◌, true, false, ◌&&◌, ◌||◌, none, some, List, [], ◌∷◌,
  ◌++◌, map, length, Perm, All, arith, if◌then◌else◌, ◌==◌, ◌>>=◌, some-of-bind, Bool-cases,
  Option-cases, ◌⊎◌, inl, inr,
}
use sideswapclient.Prelude.Key.{nat_key}
use sideswapclient.Prelude.Map.{Map, insert, remove}
use sideswapclient.Utxo.Vec.{pop, pop-append, pop-cons}
use sideswapclient.Payjoin.Types.{TxOutSecrets, Output}
use sideswapclient.Payjoin.Pset.{
  Input, Pset, Library, remove_explicit, remove_explicit_values, is_signed, copy_signature,
  copy_all, copy_signatures, fee_output, swap_last, add_input_explicit_proofs, add_all, arrange,
}

-- The inputs, in pairs, are signed on one side at least.
abbrev pub EitherSigned : List Input → List Input → Type 0
EitherSigned [] [] = Unit
EitherSigned [] (src ∷ srcs) = ⊥
EitherSigned (dst ∷ dsts) [] = ⊥
EitherSigned (dst ∷ dsts) (src ∷ srcs) =
    ((is_signed dst || is_signed src) ≡ true) × EitherSigned dsts srcs

-- What a signed input of the second list gives: the signature and the witness of that input, and all
-- else of the first list's.
abbrev pub Merged : Input → Input → Input → Type 0
Merged dst src merged =
    ((is_signed src ≡ true)
      × (merged.final_script_sig ≡ src.final_script_sig)
      × (merged.final_script_witness ≡ src.final_script_witness)
      × (merged.prevout ≡ dst.prevout)
      × (merged.proprietary ≡ dst.proprietary))
    ⊎ ((is_signed src ≡ false) × (merged ≡ dst))

-- The inputs of three lists, one by one.
abbrev pub AllMerged : List Input → List Input → List Input → Type 0
AllMerged [] [] [] = Unit
AllMerged (dst ∷ dsts) (src ∷ srcs) (merged ∷ rest) =
    Merged dst src merged × AllMerged dsts srcs rest
AllMerged _ _ _ = ⊥

EitherSigned-length : (dsts srcs : List Input) → EitherSigned dsts srcs → length dsts ≡ length srcs
EitherSigned-length [] [] h = refl
EitherSigned-length [] (src ∷ srcs) h = absurd h
EitherSigned-length (dst ∷ dsts) [] h = absurd h
EitherSigned-length (dst ∷ dsts) (src ∷ srcs) h = omega (arith, EitherSigned-length dsts srcs h.1)

copy_signature_lem :
    (dst src : Input)
    → (is_signed dst || is_signed src) ≡ true
    → (is_signed (copy_signature dst src) ≡ true) × Merged dst src (copy_signature dst src)
unfolding copy_signature
copy_signature_lem dst src h = elim (Bool-cases (is_signed src)) [
  | inl e ↦
      subst (λ (z : Input). (is_signed z ≡ true) × Merged dst src z) (sym (chosen e))
        (e, inl (e, refl, refl, refl, refl))
  | inr e ↦ (ap is_signed (kept e) ∙ ground (arith, h, e), inr (e, kept e))
]
  where
    given : Input
    given = record dst {
      final_script_sig = src.final_script_sig;
      final_script_witness = src.final_script_witness;
    }

    chosen : is_signed src ≡ true → (if is_signed src then given else dst) ≡ given
    chosen e = ap (λ z. if z then given else dst) e

    kept : is_signed src ≡ false → (if is_signed src then given else dst) ≡ dst
    kept e = ap (λ z. if z then given else dst) e

copy_all_lem :
    (dsts srcs : List Input)
    → EitherSigned dsts srcs
    → All (λ input. is_signed input ≡ true) (copy_all dsts srcs)
      × AllMerged dsts srcs (copy_all dsts srcs)
unfolding copy_all
copy_all_lem [] [] h = (tt, tt)
copy_all_lem [] (src ∷ srcs) h = absurd h
copy_all_lem (dst ∷ dsts) [] h = absurd h
copy_all_lem (dst ∷ dsts) (src ∷ srcs) h =
    let (now, same) = copy_signature_lem dst src h.0 in
    let (later, rest) = copy_all_lem dsts srcs h.1 in ((now, later), (same, rest))

-- If each input is signed on one side at least and both have as many outputs, then the copy of
-- signatures succeeds: all inputs are signed then; where an input of the second PSET has a witness,
-- its witness and its script signature are in the result, with the previous output and the
-- proprietary entries of the first PSET's; where it has none, the input of the first PSET is left as
-- it was; and the outputs are those of the first PSET.
pub copy_signatures-signed :
    (dst src : Pset)
    → EitherSigned dst.inputs src.inputs
    → length dst.outputs ≡ length src.outputs
    → (pset : Pset) × (copy_signatures dst src ≡ some pset)
      × All (λ input. is_signed input ≡ true) pset.inputs
      × AllMerged dst.inputs src.inputs pset.inputs
      × (pset.outputs ≡ dst.outputs)
unfolding copy_signatures
copy_signatures-signed dst src h e =
    let (signed, same) = copy_all_lem dst.inputs src.inputs h in
    (
      record dst { inputs = copy_all dst.inputs src.inputs },
      ap (λ z. if z then some (record dst { inputs = copy_all dst.inputs src.inputs }) else none)
          (both (EitherSigned-length dst.inputs src.inputs h)),
      signed,
      same,
      refl,
    )
  where
    both :
        length dst.inputs ≡ length src.inputs
        → (length dst.inputs == length src.inputs && length dst.outputs == length src.outputs)
          ≡ true
    both k = ground (arith, e, k)

-- The input has no proprietary entries.
abbrev IsFresh : Input × TxOutSecrets → Type 0
IsFresh entry = entry.0.proprietary ≡ []

module _ (library : Library) where
  add_input_explicit_proofs_lem :
      (input later : Input) (secret : TxOutSecrets)
      → input.proprietary ≡ []
      → add_input_explicit_proofs library input secret ≡ some later
      → remove_explicit later ≡ input
  unfolding add_input_explicit_proofs remove_explicit insert remove
  add_input_explicit_proofs_lem input later secret fresh h =
      let (asset_proof, e, h1) = some-of-bind (library.blind_asset_proof input secret) _ h in
      let (value_proof, k, h2) = some-of-bind (library.blind_value_proof input secret) _ h1 in
      let with_proofs = λ (entries : Map ℕ ℕ). record input {
        proprietary = insert 0x14 asset_proof (
            insert 0x12 value_proof (
              insert 0x13 (library.serialize_asset secret.asset)
                (insert 0x11 (library.serialize_value secret.value) entries)));
      } in
      ap remove_explicit (sym (some-injective _ _ h2))
      ∙ ap (λ (entries : Map ℕ ℕ). remove_explicit (with_proofs entries)) fresh
      ∙ ap (λ (entries : Map ℕ ℕ). record input { proprietary = entries }) (sym fresh)

  add_all_lem :
      (inputs : List (Input × TxOutSecrets)) (proved : List Input)
      → All IsFresh inputs
      → add_all library inputs ≡ some proved
      → map remove_explicit proved ≡ map (λ entry. entry.0) inputs
  unfolding add_all
  add_all_lem [] proved fresh h = ap (map remove_explicit) (sym (some-injective _ _ h))
  add_all_lem ((input, secret) ∷ inputs) proved fresh h =
      let (first, e, h1) = some-of-bind (add_input_explicit_proofs library input secret) _ h in
      let (rest, k, h2) = some-of-bind (add_all library inputs) _ h1 in
      ap (map remove_explicit) (sym (some-injective _ _ h2))
      ∙ ap₂ ◌∷◌ (add_input_explicit_proofs_lem input first secret fresh.0 e)
          (add_all_lem inputs rest fresh.1 k)

-- The outputs are the given ones in some order, and the last has no blinding key.
abbrev pub EndsWithFee : List Output → List Output → Type 0
EndsWithFee outputs later =
    (others : List Output) × (fee : Output) × (later ≡ others ++ fee ∷ [])
    × (fee.blinding_key ≡ none)
    × Perm later outputs

swapped :
    (fee : Output) (outputs : List Output) {last : Output} {middle : List Output}
    → pop outputs ≡ some (last, middle)
    → swap_last 0 (fee ∷ outputs) ≡ last ∷ middle ++ fee ∷ []
unfolding swap_last
swapped fee outputs e = rw (swap_last, e) refl

first_last :
    (fee : Output) (outputs : List Output)
    → fee.blinding_key ≡ none
    → EndsWithFee (fee ∷ outputs) (swap_last 0 (fee ∷ outputs))
unfolding swap_last pop
first_last fee [] h = ([], fee, refl, h, Perm.refl _)
first_last fee (x ∷ xs) h =
    let (last, middle, e) = pop-cons x xs in
    let popped : Perm (last ∷ middle) (x ∷ xs) =
      subst (Perm (last ∷ middle)) (sym (pop-append (x ∷ xs) e))
        (Perm.symm (perm_append_singleton last middle)) in
    let order : Perm (last ∷ middle ++ fee ∷ []) (fee ∷ x ∷ xs) =
      Perm.trans (perm_append_singleton fee (last ∷ middle)) (Perm.cons fee popped) in
    subst (EndsWithFee (fee ∷ x ∷ xs)) (sym (swapped fee (x ∷ xs) e))
      (last ∷ middle, fee, refl, h, order)

fee_output_lem :
    (outputs : List Output) (index : ℕ)
    → fee_output outputs ≡ some index
    → EndsWithFee outputs (swap_last index outputs)
unfolding fee_output swap_last
fee_output_lem [] index h = cc
fee_output_lem (output ∷ outputs) index h = elim (Option-cases output.blinding_key) [
  | inl e ↦
      subst (λ z. EndsWithFee (output ∷ outputs) (swap_last z (output ∷ outputs)))
        (some-injective _ _ (at_first e ∙ h)) (first_last output outputs e)
  | inr (key, e) ↦
      let (before, found, k) = some-of-bind (fee_output outputs) _ (at_later key e ∙ h) in
      let (others, fee, same, none_, perm) = fee_output_lem outputs before found in
      subst (λ z. EndsWithFee (output ∷ outputs) (swap_last z (output ∷ outputs)))
        (next before ∙ some-injective _ _ k)
        (output ∷ others, fee, ap (λ z. output ∷ z) same, none_, Perm.cons output perm)
]
  where
    at_first : output.blinding_key ≡ none → some 0 ≡ fee_output (output ∷ outputs)
    at_first e = rw (e, fee_output) refl

    at_later :
        (key : ℕ)
        → output.blinding_key ≡ some key
        → (fee_output outputs >>= λ index. some (index + 1)) ≡ fee_output (output ∷ outputs)
    at_later key e = rw (e, fee_output) refl

    next : (n : ℕ) → suc n ≡ n + 1
    next n = omega arith

module _ (library : Library) where
  -- If the shuffle of the outputs only changes their order, no input has proprietary entries,
  -- and the proofs are made and an output without a blinding key is found, then the arranged
  -- PSET has the outputs of the PSET in some order, the last without a blinding key, and
  -- `remove_explicit_values` gives back the inputs as they were, in their order, without the
  -- values and proofs, and leaves the outputs.
  pub arrange-hidden :
      (pset arranged : Pset) (inputs : List (Input × TxOutSecrets))
      → Perm (library.shuffle_outputs pset.outputs) pset.outputs
      → All IsFresh inputs
      → arrange library pset inputs ≡ some arranged
      → EndsWithFee pset.outputs arranged.outputs
        × ((remove_explicit_values arranged).inputs ≡ map (λ entry. entry.0) inputs)
        × ((remove_explicit_values arranged).outputs ≡ arranged.outputs)
  unfolding arrange remove_explicit_values
  arrange-hidden pset arranged inputs perm fresh h =
      let shuffled = library.shuffle_outputs pset.outputs in
      let (index, e, h1) = some-of-bind (fee_output shuffled) _ h in
      let (proved, k, h2) = some-of-bind (add_all library inputs) _ h1 in
      let same : record { inputs = proved; outputs = swap_last index shuffled } ≡ arranged =
        some-injective _ _ h2 in
      let (others, fee, split, none_, order) = fee_output_lem shuffled index e in
      (
        subst (λ (z : Pset). EndsWithFee pset.outputs z.outputs) same
            (others, fee, split, none_, Perm.trans order perm),
        subst (λ (z : Pset). map remove_explicit z.inputs ≡ map (λ entry. entry.0) inputs) same
            (add_all_lem library inputs proved fresh k),
        refl,
      )
