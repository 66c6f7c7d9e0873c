-- ===== src/Storage/Record.antt =====
-- src/infra/storage/PriceData.h: one record of the data file. The texts of `symbol` and
-- `interval` are what stands before the first NUL of their arrays.
use trading_chart_viewer.Common.{
  ℕ, Bool, true, false, ◌&&◌, not, [], ◌∷◌, take, ◌==◌, if◌then◌else◌,
}
use trading_chart_viewer.Common.Int.{ℤ, pos, ◌+ℤ◌, ◌-ℤ◌, ltb_ℤ, leb_ℤ}
use trading_chart_viewer.Core.{TimeUtils}
use trading_chart_viewer.Domain.{TimestampMs}
use trading_chart_viewer.Domain.Label.{Text}

pub record PriceData (D : Type 0) : Type 0 where
  pub open_time : TimestampMs
  pub open_price : D
  pub high_price : D
  pub low_price : D
  pub close_price : D
  pub volume : D
  pub close_time : TimestampMs
  pub base_asset_volume : D
  pub number_of_trades : ℤ
  pub taker_buy_volume : D
  pub taker_buy_base_asset_volume : D
  pub symbol : Text
  pub interval : Text

-- `PriceData{}` clears the two texts and leaves the numbers indeterminate: they are those of an
-- arbitrary record.
unfoldable pub blank : {D : Type 0} → PriceData D → PriceData D
blank garbage = record garbage { symbol = []; interval = [] }

-- The text of a `std::string` as `c_str` gives it, and `strncpy` of at most `n` of its bytes.
unfoldable pub c_str : Text → Text
c_str [] = []
c_str (c ∷ r) = let rest = c_str r in if c == 0 then [] else c ∷ rest

unfoldable pub strncpy : ℕ → Text → Text
unfolding c_str
strncpy n s = take n (c_str s)

unfoldable pub is_empty : Text → Bool
is_empty [] = true
is_empty (c ∷ r) = false

-- `PriceDataManager::isValidRecord`.
unfoldable pub is_valid_record : {D : Type 0} → PriceData D → Bool
unfolding is_empty
is_valid_record r =
    ltb_ℤ (pos 0) r.open_time
    && (ltb_ℤ (pos 0) r.close_time && (not (is_empty r.symbol) && not (is_empty r.interval)))

-- `normalizeRecord`, of the manager and of the engine alike.
unfoldable pub normalize_record : {D : Type 0} → TimeUtils → PriceData D → PriceData D
normalize_record u r =
    let aligned_open = u.floor_to_minute_ms r.open_time in
    if leb_ℤ aligned_open (pos 0)
    then record r { open_time = pos 0; close_time = pos 0 }
    else record r {
      open_time = aligned_open;
      close_time = aligned_open +ℤ u.millis_per_minute -ℤ pos 1;
    }
