-- ===== src/Payjoin/Fees.antt =====
-- The fees of a plan are at most those that the request was checked for, and what is left is change.
use sideswapclient.Prelude.{ℕ, ◌+◌, ◌≤◌, ◌<◌, ◌≡◌, ap, ◌∙◌, length, arith}
use sideswapclient.Prelude.Float.{Float}
use sideswapclient.Prelude.Int64
use sideswapclient.Payjoin.Types.{CreatePayjoin, StartResponse, ConstructPsetArgs}
use sideswapclient.Payjoin.Plan.{
  expected_network_fee, asset_fee, max_network_fee, max_asset_fee, network_fee, paid_asset_fee,
}
use sideswapclient.Payjoin.Funding.{Funded, Passed}

module _ (float : Float) where
  open float use {F64}

  -- The fees grow with the number of inputs: rounding is monotone, and a conversion to `u64`
  -- saturates, so both hold of `f64` at every price.
  abbrev pub Monotone : F64 → Type 0
  Monotone price =
      ((a b : ℕ)
        → a ≤ b
        → float.to_u64 (float.round (float.mul price (float.of_u64 a)))
          ≤ float.to_u64 (float.round (float.mul price (float.of_u64 b))))
      × ((a b : ℕ)
          → a ≤ b
          → float.to_u64 (float.ceil (float.mul (float.of_u64 a) (float.literal 1 10)))
            ≤ float.to_u64 (float.ceil (float.mul (float.of_u64 b) (float.literal 1 10))))

  expected_network_fee-le :
      (price : F64) (n m : ℕ)
      → Monotone price
      → n ≤ m
      → m < 4_294_967_296
      → expected_network_fee float n 0 4 ≤ expected_network_fee float m 0 4
  unfolding expected_network_fee
  expected_network_fee-le price n m law h b = law.1 _ _ (omega arith)

  asset_fee-le :
      (fixed_fee : ℕ) (price : F64) (n m : ℕ)
      → Monotone price
      → n ≤ m
      → fixed_fee + float.to_u64 (float.round (float.mul price (float.of_u64 m))) < Int64.modulus
      → (fixed_fee ≤ asset_fee float fixed_fee price n)
        × (asset_fee float fixed_fee price n ≤ asset_fee float fixed_fee price m)
  unfolding asset_fee
  asset_fee-le fixed_fee price n m law h b =
      let part = law.0 n m h in
      let first =
        Int64.add-small fixed_fee (float.to_u64 (float.round (float.mul price (float.of_u64 n))))
          (omega (arith, part)) in
      let second =
        Int64.add-small fixed_fee (float.to_u64 (float.round (float.mul price (float.of_u64 m))))
          b in
      (omega (arith, first), omega (arith, first, second, part))

module _ (float : Float) (req : CreatePayjoin) (resp : StartResponse float.F64) where
  open float use {F64}

  -- The numbers of the server do not wrap: its fee for the largest transaction, and its fixed fee is
  -- not 0.
  abbrev pub FeeFits : Type 0
  FeeFits =
      (length req.utxos + length resp.utxos < 4_294_967_296)
      × (0 < resp.fixed_fee)
      × (resp.fixed_fee
            + float.to_u64
                (float.round (float.mul resp.price (float.of_u64 (max_network_fee float req resp))))
          < Int64.modulus)

  pub fees-le :
      (args : ConstructPsetArgs F64)
      → Monotone float resp.price
      → FeeFits
      → Funded float req resp args
      → Passed float req resp args
      → (network_fee float args ≤ max_network_fee float req resp)
        × (0 < paid_asset_fee float args)
        × (paid_asset_fee float args ≤ max_asset_fee float req resp)
  fees-le args law fits funded passed =
      let n = length args.selected_utxos in
      let m = length req.utxos + length resp.utxos in
      let network = expected_network_fee-le float resp.price n m law funded.3 fits.0 in
      let (least, most) =
        asset_fee-le float resp.fixed_fee resp.price (network_fee float args)
          (max_network_fee float req resp) law network fits.2 in
      let same : paid_asset_fee float args
          ≡ asset_fee float resp.fixed_fee resp.price (network_fee float args) =
        ap (λ f. asset_fee float f args.price (network_fee float args)) passed.0
        ∙ ap (λ x. asset_fee float resp.fixed_fee x (network_fee float args)) passed.1 in
      (network, omega (arith, same, least, fits.1), omega (arith, same, most))

  -- What is left of the two amounts for the change.
  pub changes_lem :
      (args : ConstructPsetArgs F64)
      → Funded float req resp args
      → network_fee float args ≤ max_network_fee float req resp
      → paid_asset_fee float args ≤ max_asset_fee float req resp
      → (args.send_amount
            + paid_asset_fee float args
            + Int64.sub
                (Int64.sub args.utxo_asset_amount args.send_amount)
                (paid_asset_fee float args)
          ≡ args.utxo_asset_amount)
        × (Int64.sub args.utxo_lbtc_amount (network_fee float args) + network_fee float args
            ≡ args.utxo_lbtc_amount)
  changes_lem args funded network most =
      let enough = funded.1 in
      let lbtc_enough = funded.2 in
      let left =
        Int64.sub-small args.utxo_asset_amount args.send_amount (omega (arith, enough)) funded.4 in
      let change_is =
        Int64.sub-small (Int64.sub args.utxo_asset_amount args.send_amount)
          (paid_asset_fee float args) (omega (arith, left, enough, most))
          (omega (arith, left, funded.4)) in
      let lbtc_is =
        Int64.sub-small args.utxo_lbtc_amount (network_fee float args)
          (omega (arith, lbtc_enough, network)) funded.5 in
      (omega (arith, left, change_is, enough, most), omega (arith, lbtc_is, lbtc_enough, network))
