-- ===== src/Ticker.antt =====
-- `DealerTicker` of rust/sideswap_dealer/src/dealer.rs: the text is one of five constants, since
-- `ticker_from_string` makes all of them.
use Prim.Native.String.{String}
use text.Mathlib.Text.{◌==◌ as str_eq}
use text.Mathlib.TextEquality.{eq_iff}
use sideswapclient.Prelude.{
  ℕ, ◌≡◌, ◌↔◌, refl, sym, ap, ◌∙◌, Bool, true, Option, none, some, if◌then◌else◌, ltb, ◌==◌, ==_iff,
  arith,
}
use sideswapclient.Prelude.Key.{Key}

pub data DealerTicker : Type 0 where
  lbtc usdt eurx lcad audl : DealerTicker

pub DealerTicker-discrete : Discrete DealerTicker
DealerTicker-discrete = hlevel

-- The `TICKER_` constants of rust/sideswap_api/src/lib.rs.
abbrev pub ticker_name : DealerTicker → String
ticker_name lbtc = "L-BTC"
ticker_name usdt = "USDt"
ticker_name eurx = "EURx"
ticker_name lcad = "LCAD"
ticker_name audl = "AUDL"

-- `ticker_from_string`; `none` is the error.
unfoldable pub ticker_from_string : String → Option DealerTicker
ticker_from_string asset =
    if str_eq asset (ticker_name lbtc)
    then some lbtc
    else if str_eq asset (ticker_name usdt)
    then some usdt
    else if str_eq asset (ticker_name eurx)
    then some eurx
    else if str_eq asset (ticker_name lcad)
    then some lcad
    else if str_eq asset (ticker_name audl)
    then some audl
    else none

-- Every ticker is read back from its name.
ticker_from_string-ticker_name :
    (ticker : DealerTicker) → ticker_from_string (ticker_name ticker) ≡ some ticker
unfolding ticker_from_string
ticker_from_string-ticker_name lbtc = refl
ticker_from_string-ticker_name usdt = refl
ticker_from_string-ticker_name eurx = refl
ticker_from_string-ticker_name lcad = refl
ticker_from_string-ticker_name audl = refl

-- A text that is read as a ticker is its name.
ticker_name-ticker_from_string :
    (asset : String) {ticker : DealerTicker}
    → ticker_from_string asset ≡ some ticker
    → ticker_name ticker ≡ asset
unfolding ticker_from_string
ticker_name-ticker_from_string asset {ticker} h = ground (
  arith,
  eq_iff asset (ticker_name lbtc),
  eq_iff asset (ticker_name usdt),
  eq_iff asset (ticker_name eurx),
  eq_iff asset (ticker_name lcad),
  eq_iff asset (ticker_name audl),
)

-- The names and the tickers are in one to one correspondence: a text is read as a ticker exactly
-- when it is the name of that ticker.
pub ticker_from_string_iff :
    (asset : String) (ticker : DealerTicker)
    → (ticker_from_string asset ≡ some ticker) ↔ (asset ≡ ticker_name ticker)
ticker_from_string_iff asset ticker = (
  λ h. sym (ticker_name-ticker_from_string asset h),
  λ e. ap ticker_from_string e ∙ ticker_from_string-ticker_name ticker,
)

-- The order of the names.
abbrev pub rank : DealerTicker → ℕ
rank audl = 0
rank eurx = 1
rank lbtc = 2
rank lcad = 3
rank usdt = 4

ranked : ℕ → DealerTicker
ranked n =
    if n == 0
    then audl
    else if n == 1
    then eurx
    else if n == 2
    then lbtc
    else if n == 3
    then lcad
    else usdt

ranked-rank : (ticker : DealerTicker) → ranked (rank ticker) ≡ ticker
unfolding ranked
ranked-rank audl = refl
ranked-rank eurx = refl
ranked-rank lbtc = refl
ranked-rank lcad = refl
ranked-rank usdt = refl

abbrev pub ticker_eq : DealerTicker → DealerTicker → Bool
ticker_eq a b = rank a == rank b

pub ticker_eq_iff : (a b : DealerTicker) → (ticker_eq a b ≡ true) ↔ (a ≡ b)
ticker_eq_iff a b = (
  λ h. sym (ranked-rank a) ∙ ap ranked ((==_iff (rank a) (rank b)).0 h) ∙ ranked-rank b,
  λ e. (==_iff (rank a) (rank b)).1 (ap rank e),
)

abbrev pub ticker_before : DealerTicker → DealerTicker → Bool
ticker_before a b = ltb (rank a) (rank b)

instance abbrev pub ticker_key : Key DealerTicker
ticker_key = record { beq = ticker_eq; beq_iff = ticker_eq_iff; before = ticker_before }
