-- ===== src/Dealer/Reload.antt =====
-- `ReloadUtxo`: the balances and the UTXOs of the wallet, as it lists them.
use sideswapclient.Prelude.{
  Bool, true, false, ◌&&◌, Option, none, some, List, [], ◌∷◌, if◌then◌else◌, ◌>>=◌,
}
use sideswapclient.Prelude.Float.{Float, to_bitcoin}
use sideswapclient.Prelude.Key.{nat_key}
use sideswapclient.Prelude.Map.{Map, get, insert, remove}
use sideswapclient.Ticker.{DealerTicker, ticker_key, ticker_eq, ticker_from_string}
use sideswapclient.Dealer.Types.{
  AssetId, Asset, TxOut, tx_out, tx_out_eq, tx_out_key, UnspentItem, Utxo, Utxos, AllBalances,
}
use sideswapclient.Dealer.Prices.{or_else, zero_f64}
use sideswapclient.Dealer.Psets.{Outside}
use sideswapclient.Dealer.State.{Step}

abbrev pub new_utxo : UnspentItem → Utxo
new_utxo item = record { item = item; amount = item.amount }

-- `entry(..).or_insert_with(..)`
abbrev pub or_insert : UnspentItem → Utxos → Utxos
or_insert item utxos = elim (get (tx_out item) utxos) [
  | none ↦ insert (tx_out item) (new_utxo item) utxos
  | some utxo ↦ utxos
]

unfoldable pub insert_new : List UnspentItem → Utxos → Utxos
insert_new [] utxos = utxos
insert_new (item ∷ items) utxos = insert_new items (or_insert item utxos)

abbrev pub is_listed : TxOut → List UnspentItem → Bool
is_listed key [] = false
is_listed key (item ∷ items) = if tx_out_eq (tx_out item) key then true else is_listed key items

-- The keys of the old map that are not listed are removed.
unfoldable pub remove_spent : Utxos → List UnspentItem → Utxos → Utxos
remove_spent [] items utxos = utxos
remove_spent ((key, utxo) ∷ old) items utxos =
    remove_spent old items (if is_listed key items then utxos else remove key utxos)

unfoldable pub reload_utxos : List UnspentItem → Utxos → Utxos
unfolding insert_new remove_spent
reload_utxos items utxos = remove_spent utxos items (insert_new items utxos)

module _ (float : Float) where
  open float use {F64}

  unfoldable pub asset_amounts : List UnspentItem → Map AssetId F64 → Map AssetId F64
  asset_amounts [] amounts = amounts
  asset_amounts (item ∷ items) amounts = asset_amounts items (
      insert item.asset
        (float.add (or_else (zero_f64 float) (get item.asset amounts))
          (to_bitcoin float item.amount))
        amounts)

  -- The balance of an asset is added under its ticker, if both are known.
  abbrev add_balance :
      Option F64 → Option DealerTicker → Map DealerTicker F64 → Map DealerTicker F64
  add_balance (some balance) (some ticker) balances = insert ticker balance balances
  add_balance none ticker balances = balances
  add_balance (some balance) none balances = balances

  unfoldable pub wallet_balances :
      List Asset → Map AssetId F64 → Map DealerTicker F64 → Map DealerTicker F64
  unfolding ticker_from_string
  wallet_balances [] amounts balances = balances
  wallet_balances (asset ∷ assets) amounts balances =
      wallet_balances assets amounts
        (add_balance (get asset.asset_id amounts) (ticker_from_string asset.ticker) balances)

  -- `==` of the maps.
  abbrev balances_eq : Map DealerTicker F64 → Map DealerTicker F64 → Bool
  balances_eq [] [] = true
  balances_eq ((k, x) ∷ m) ((j, y) ∷ n) = ticker_eq k j && float.eq x y && balances_eq m n
  balances_eq [] (entry ∷ n) = false
  balances_eq (entry ∷ m) [] = false

  abbrev set_wallet : Map DealerTicker F64 → AllBalances F64 → AllBalances F64
  set_wallet new all = if balances_eq all.wallet new then all else record all { wallet = new }

  unfoldable pub process_reload : Outside F64 → Step F64
  unfolding asset_amounts wallet_balances reload_utxos
  process_reload outside state = outside.list_unspent >>= λ items. some (record state {
    all_balances =
        set_wallet (wallet_balances state.assets (asset_amounts items []) []) state.all_balances;
    utxos = reload_utxos items state.utxos;
  })
