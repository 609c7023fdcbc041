-- ===== src/Payjoin/Funding.antt =====
-- What the UTXOs that `create_payjoin` chooses hold, and that they pay for the amount and the fees.
use mathlib.Core.Option.{some-injective}
use sideswapclient.Prelude.{
  ℕ, ◌+◌, ◌≤◌, ◌<◌, ◌≡◌, refl, sym, subst, Bool, true, false, not, ◌&&◌, Option, none, some, List,
  [], ◌∷◌, ◌++◌, length, length-append, sum, ltb, ltb→lt, leb, ◌==◌, if◌then◌else◌, some-of-bind,
  arith, Bool-cases, inl, inr,
}
use sideswapclient.Prelude.Float.{Float}
use sideswapclient.Prelude.Int64
use sideswapclient.Payjoin.Types.{
  AssetId, is_blinded, Utxo, CreatePayjoin, StartResponse, ConstructPsetArgs,
}
use sideswapclient.Payjoin.Plan.{
  request_checks, response_checks, all_of, is_empty, push_until, amount_to_send, max_network_fee,
  max_asset_fee, select_utxos, first_asset, plan,
}

-- The sum of the values.
abbrev pub total : List Utxo → ℕ
total [] = 0
total (utxo ∷ utxos) = utxo.value + total utxos

pub total-append : (xs ys : List Utxo) → total (xs ++ ys) ≡ total xs + total ys
total-append [] ys = omega arith
total-append (x ∷ xs) ys = omega (arith, total-append xs ys)

-- Without a wrap, `push_until` returns the sum of what it pushes, and pushes no more than there is.
abbrev Pushed : List Utxo → ℕ → ℕ × List Utxo → Type 0
Pushed utxos amount (sum, pushed) =
    (sum ≡ amount + total pushed) × (total pushed ≤ total utxos) × (length pushed ≤ length utxos)

push_until-Pushed :
    (target : ℕ) (utxos : List Utxo) (amount : ℕ)
    → amount + total utxos < Int64.modulus
    → Pushed utxos amount (push_until target utxos amount)
unfolding push_until
push_until-Pushed target [] amount h = (omega arith, omega arith, omega arith)
push_until-Pushed target (utxo ∷ utxos) amount h =
    let next = Int64.add-small amount utxo.value (omega arith) in
    pushed target utxo utxos amount (Int64.add amount utxo.value) next
      (push_until target utxos (Int64.add amount utxo.value))
      (push_until-Pushed target utxos (Int64.add amount utxo.value) (omega (arith, next)))
  where
    pushed :
        (target : ℕ) (utxo : Utxo) (utxos : List Utxo) (amount next : ℕ)
        → next ≡ amount + utxo.value
        → (later : ℕ × List Utxo) → Pushed utxos next later
        → Pushed
            (utxo ∷ utxos)
            amount
            (if leb target next then (next, utxo ∷ []) else (later.0, utxo ∷ later.1))
    pushed target utxo utxos amount next e later p = elim (Bool-cases (leb target next)) [
      | inl k ↦ rw k (omega (arith, e), omega arith, omega arith)
      | inr k ↦ rw k (omega (arith, e, p.0), omega (arith, p.1), omega (arith, p.2))
    ]

all_checks : (a b : Bool) → (a && b) ≡ true → (a ≡ true) × (b ≡ true)
all_checks a b h = ground arith

-- What `push_until` pushes has the asset that all have.
push_until-all_of :
    (asset target : ℕ) (utxos : List Utxo) (amount : ℕ)
    → all_of asset utxos ≡ true
    → all_of asset (push_until target utxos amount).1 ≡ true
unfolding push_until
push_until-all_of asset target [] amount h = refl
push_until-all_of asset target (utxo ∷ utxos) amount h =
    let (same, rest) = all_checks (utxo.asset_id == asset) (all_of asset utxos) h in
    let next = Int64.add amount utxo.value in
    elim (Bool-cases (leb target next)) [
      | inl k ↦ rw k (rw same refl)
      | inr k ↦ rw k (rw same (push_until-all_of asset target utxos next rest))
    ]

first_asset-all_of :
    (float : Float) (asset : AssetId) (utxos : List Utxo) {first : AssetId}
    → all_of asset utxos ≡ true
    → first_asset float utxos ≡ some first
    → first ≡ asset
first_asset-all_of float asset [] h e = cc
first_asset-all_of float asset (utxo ∷ utxos) h e = ground (arith, h, e)

some-of-if {ℓ} :
    {A : Type ℓ} (b : Bool) (x : Option A) {y : A}
    → (if b then x else none) ≡ some y
    → (b ≡ true) × (x ≡ some y)
some-of-if true x h = (refl, h)
some-of-if false x h = cc

subst-some {ℓ κ} : {A : Type ℓ} (P : A → Type κ) {x y : A} → some x ≡ some y → P x → P y
subst-some P e p = subst P (some-injective _ _ e) p

both-leb : (a b c d : ℕ) → (leb a b && leb c d) ≡ true → (a ≤ b) × (c ≤ d)
both-leb a b c d h = ground arith

request_flags :
    (a b c d e f : Bool)
    → (a && b && c && d && e && f) ≡ true
    → (b ≡ true) × (c ≡ true) × (d ≡ true) × (f ≡ true)
request_flags a b c d e f h = ground arith

response_flags : (a b c d e : Bool) → (a && b && c && d && e) ≡ true → (c ≡ true) × (d ≡ true)
response_flags a b c d e h = ground arith

module _ (float : Float) (req : CreatePayjoin) (resp : StartResponse float.F64) where
  open float use {F64}

  -- No sum of the client's or of the server's values, and not the amount with the fee, wraps.
  abbrev pub Fits : Type 0
  Fits =
      (total req.utxos < Int64.modulus)
      × (total resp.utxos < Int64.modulus)
      × (req.amount + max_asset_fee float req resp < Int64.modulus)

  -- The chosen UTXOs hold the two amounts, which pay for what is sent and for the fees.
  abbrev pub Funded : ConstructPsetArgs F64 → Type 0
  Funded args =
      (args.utxo_asset_amount + args.utxo_lbtc_amount ≡ total args.selected_utxos)
      × (args.send_amount + max_asset_fee float req resp ≤ args.utxo_asset_amount)
      × (max_network_fee float req resp ≤ args.utxo_lbtc_amount)
      × (length args.selected_utxos ≤ length req.utxos + length resp.utxos)
      × (args.utxo_asset_amount < Int64.modulus)
      × (args.utxo_lbtc_amount < Int64.modulus)

  -- The fields that are passed on.
  abbrev pub Passed : ConstructPsetArgs F64 → Type 0
  Passed args =
      (args.fixed_fee ≡ resp.fixed_fee)
      × (args.price ≡ resp.price)
      × (args.send_address ≡ req.address)
      × (args.client_change_address ≡ req.change_address)
      × (args.fee_address ≡ resp.fee_address)
      × (args.server_change_address ≡ resp.change_address)

  -- The chosen UTXOs are the client's, of the asset that is sent, and the server's, of the other asset;
  -- they hold the two amounts.
  abbrev pub Chosen : AssetId → ConstructPsetArgs F64 → Type 0
  Chosen lbtc args =
      (client : List Utxo) × (server : List Utxo) × (args.selected_utxos ≡ client ++ server)
      × (all_of args.send_asset_id client ≡ true)
      × (all_of lbtc server ≡ true)
      × (args.utxo_asset_amount ≡ total client)
      × (args.utxo_lbtc_amount ≡ total server)
      × (args.lbtc_asset_id ≡ lbtc)

  amount_to_send-le :
      (subtract : Bool) (amount fee : ℕ) {sent : ℕ}
      → 0 < amount
      → amount_to_send subtract amount fee ≡ some sent
      → (sent ≤ amount) × (0 < sent)
  unfolding amount_to_send
  amount_to_send-le false amount fee p h = ground arith
  amount_to_send-le true amount fee p h = ground arith

  select_utxos-Funded :
      (lbtc_asset_id : AssetId) (sent : ℕ) {args : ConstructPsetArgs F64}
      → Fits
      → all_of req.asset_id req.utxos ≡ true
      → all_of lbtc_asset_id resp.utxos ≡ true
      → sent + max_asset_fee float req resp < Int64.modulus
      → select_utxos float req resp lbtc_asset_id sent ≡ some args
      → Funded args × Passed args × Chosen lbtc_asset_id args × (args.send_amount ≡ sent)
  unfolding select_utxos
  select_utxos-Funded lbtc_asset_id sent {args} fits one other small h =
      let fee = max_asset_fee float req resp in
      let needed = Int64.add sent fee in
      let lbtc = max_network_fee float req resp in
      let client = push_until needed req.utxos 0 in
      let server = push_until lbtc resp.utxos 0 in
      let (enough, e) = some-of-if (leb needed client.0 && leb lbtc server.0) _ h in
      let (c, c', c'') = push_until-Pushed needed req.utxos 0 (omega (arith, fits.0)) in
      let (d, d', d'') = push_until-Pushed lbtc resp.utxos 0 (omega (arith, fits.1)) in
      let (asset_enough, lbtc_enough) = both-leb needed client.0 lbtc server.0 enough in
      subst-some (λ z. Funded z × Passed z × Chosen lbtc_asset_id z × (z.send_amount ≡ sent)) e
        (
          (
            omega (arith, c, d, total-append client.1 server.1),
            omega (arith, asset_enough, Int64.add-small sent fee small),
            lbtc_enough,
            omega (arith, c'', d'', length-append client.1 server.1),
            omega (arith, c, c', fits.0),
            omega (arith, d, d', fits.1),
          ),
          (refl, refl, refl, refl, refl, refl),
          (
            client.1,
            server.1,
            refl,
            push_until-all_of req.asset_id needed req.utxos 0 one,
            push_until-all_of lbtc_asset_id lbtc resp.utxos 0 other,
            omega (arith, c),
            omega (arith, d),
            refl,
          ),
          refl,
        )

  -- The checks that `create_payjoin` makes of the addresses.
  abbrev pub Blinded : Type 0
  Blinded =
      (is_blinded req.address ≡ true)
      × (is_blinded req.change_address ≡ true)
      × (is_blinded resp.fee_address ≡ true)
      × (is_blinded resp.change_address ≡ true)
      × (0 < req.amount)
      × (all_of req.asset_id req.utxos ≡ true)

  checks-Blinded : (request_checks req && response_checks req.address resp) ≡ true → Blinded
  checks-Blinded h =
      let (r, s) = all_checks (request_checks req) (response_checks req.address resp) h in
      let (one, a, b, p) =
        request_flags (not (is_empty req.utxos)) (all_of req.asset_id req.utxos)
          (is_blinded req.address) (is_blinded req.change_address)
          (req.address.params == req.change_address.params) (ltb 0 req.amount) r in
      let (c, d) =
        response_flags (req.address.params == resp.fee_address.params)
          (req.address.params == resp.change_address.params) (is_blinded resp.fee_address)
          (is_blinded resp.change_address) (not (is_empty resp.utxos)) s in
      (a, b, c, d, ltb→lt 0 req.amount p, one)

  -- A plan pays for the amount and the fees, and the checks of the addresses were passed. The server's
  -- UTXOs are of one asset.
  pub plan-Funded :
      (lbtc : AssetId) {args : ConstructPsetArgs F64}
      → Fits
      → all_of lbtc resp.utxos ≡ true
      → plan float req resp ≡ some args
      → Funded args × Passed args × Chosen lbtc args × Blinded × (0 < args.send_amount)
  unfolding plan
  plan-Funded lbtc {args} fits other h =
      let (checked, e) = some-of-if (request_checks req && response_checks req.address resp) _ h in
      let (sent, k, e') =
        some-of-bind
          (amount_to_send req.subtract_fee_from_amount req.amount (max_asset_fee float req resp)) _
          e in
      let (asset, l, e'') = some-of-bind (first_asset float resp.utxos) _ e' in
      let blinded = checks-Blinded checked in
      let (le, pos) =
        amount_to_send-le req.subtract_fee_from_amount req.amount (max_asset_fee float req resp)
          blinded.4 k in
      let is_lbtc : asset ≡ lbtc = first_asset-all_of float lbtc resp.utxos other l in
      let (funded, passed, chosen, same) =
        select_utxos-Funded lbtc sent fits blinded.5 other (omega (arith, le, fits.2))
          (subst (λ z. select_utxos float req resp z sent ≡ some args) is_lbtc e'') in
      (funded, passed, chosen, blinded, subst (λ n. 0 < n) (sym same) pos)
