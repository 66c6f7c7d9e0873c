-- ===== src/Storage/Repository/State.antt =====
-- The state of the repository, and the conversion between candles and records.
use trading_chart_viewer.Common.{
  ◌+◌, Bool, true, false, ◌&&◌, not, Option, none, some, List, [], ◌∷◌, back, if◌then◌else◌,
}
use trading_chart_viewer.Common.Int.{ℤ, pos, ◌+ℤ◌, ◌-ℤ◌, ltb_ℤ, max_ℤ}
use trading_chart_viewer.Common.Double.{DoubleOps}
use trading_chart_viewer.Domain.{Candle, RepoMetadata, no_metadata, align_down_ms}
use trading_chart_viewer.Domain.Label.{Text}
use trading_chart_viewer.Storage.Record.{PriceData, strncpy}
use trading_chart_viewer.Storage.Manager.{DataFile}

-- What names and spaces the series: `symbol_`, `interval_.ms`, `intervalMs_`, `intervalLabel_`.
pub record Layout : Type 0 where
  pub symbol : Text
  pub interval : ℤ
  pub interval_ms : ℤ
  pub interval_label : Text

pub record Repository (D : Type 0) : Type 0 where
  pub candles : List (Candle D)
  pub file : DataFile D
  pub layout : Layout
  pub metadata : RepoMetadata
  pub has_gap : Bool

-- The close of the interval that opens at an aligned time.
unfoldable pub close_of : ℤ → ℤ → ℤ
close_of aligned_open interval_ms =
    if ltb_ℤ (pos 0) aligned_open && ltb_ℤ (pos 0) interval_ms
    then aligned_open +ℤ interval_ms -ℤ pos 1
    else pos 0

module _ {D : Type 0} where
  unfoldable pub to_candle : Layout → PriceData D → Candle D
  unfolding close_of max_ℤ
  to_candle l r =
      let aligned_open = align_down_ms r.open_time l.interval_ms in
      record {
        open_time = aligned_open;
        close_time = close_of aligned_open l.interval_ms;
        open_price = r.open_price;
        high = r.high_price;
        low = r.low_price;
        close = r.close_price;
        base_volume = r.volume;
        quote_volume = r.base_asset_volume;
        trades = max_ℤ r.number_of_trades (pos 0);
        is_closed = true;
      }

  unfoldable pub to_price_data : DoubleOps D → Layout → Candle D → PriceData D
  unfolding close_of
  to_price_data ops l c =
      let aligned_open = align_down_ms c.open_time l.interval_ms in
      record {
        open_time = aligned_open;
        open_price = c.open_price;
        high_price = c.high;
        low_price = c.low;
        close_price = c.close;
        volume = c.base_volume;
        close_time = close_of aligned_open l.interval_ms;
        base_asset_volume = c.quote_volume;
        number_of_trades = c.trades;
        taker_buy_volume = ops.zero;
        taker_buy_base_asset_volume = ops.zero;
        symbol = strncpy 15 l.symbol;
        interval = strncpy 7 l.interval_label;
      }

  unfoldable pub normalize_candle : Layout → Candle D → Candle D
  normalize_candle l c =
      let aligned_open = align_down_ms c.open_time l.interval_ms in
      if ltb_ℤ (pos 0) l.interval_ms
      then record c {
        open_time = aligned_open;
        close_time =
            if ltb_ℤ (pos 0) aligned_open then aligned_open +ℤ l.interval_ms -ℤ pos 1 else pos 0;
      }
      else c

  unfoldable pub count_closed : Bool → RepoMetadata → Candle D → RepoMetadata
  count_closed first_closed m c = record {
    min_open = if first_closed then c.open_time else m.min_open;
    max_open = c.open_time;
    count = m.count + 1;
  }

  unfoldable pub metadata_loop : Bool → RepoMetadata → List (Candle D) → RepoMetadata
  unfolding count_closed
  metadata_loop first_closed m [] = m
  metadata_loop first_closed m (c ∷ cs) =
      metadata_loop (first_closed && not c.is_closed)
        (if c.is_closed then count_closed first_closed m c else m) cs

  unfoldable pub refresh_metadata : Repository D → Repository D
  unfolding metadata_loop
  refresh_metadata r = record r { metadata = metadata_loop true no_metadata r.candles }

  unfoldable pub open_tail : Option (Candle D) → Bool
  open_tail none = false
  open_tail (some c) = not c.is_closed

  unfoldable pub has_tail_open : Repository D → Bool
  unfolding open_tail
  has_tail_open r = open_tail (back r.candles)

  unfoldable pub refresh_if : Bool → Repository D → Repository D
  unfolding refresh_metadata
  refresh_if touched r = if touched then refresh_metadata r else r
