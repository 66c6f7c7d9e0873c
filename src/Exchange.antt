-- ===== src/Exchange.antt =====
-- src/infra/exchange/ExchangeGateway.cpp: `fetchRange`, which asks the exchange for one page after
-- the other. The request itself is an argument, `fetch_page`, over a state `W` of the world: `none`
-- is a page that is not ok.
pub mod Pages
pub mod Json
pub mod Rest
pub mod Socket
pub mod Targets
pub mod Exchanged
pub mod Backoff
pub mod Reading
pub mod Live
pub mod Streamed
pub mod Tests
use trading_chart_viewer.Common.{
  ℕ, zero, suc, ◌+◌, Bool, true, false, ◌&&◌, ◌||◌, Option, none, some, List, [], ◌∷◌, length, back,
  min, ltb, ◌==◌, if◌then◌else◌,
}
use trading_chart_viewer.Common.Int.{
  ℤ, pos, pos_part, ◌+ℤ◌, ◌-ℤ◌, ◌*ℤ◌, ltb_ℤ, leb_ℤ, ◌==ℤ◌, min_ℤ, max_ℤ,
}
use trading_chart_viewer.Domain.{Candle, TimeRange, empty, valid}
use trading_chart_viewer.Domain.Label.{Text}

pub record ExchangeGatewayConfig : Type 0 where
  pub rest_host : Text
  pub ws_path_template : Text
  pub rest_max_limit : ℕ
  pub backoff_base_ms : ℤ
  pub backoff_cap_ms : ℤ
  pub max_retries : ℤ

-- `ordered[candle.openTime] = candle`, on the candles of a `std::map` in the order of their times.
unfoldable pub put_candle : {D : Type 0} → Candle D → List (Candle D) → List (Candle D)
put_candle c [] = c ∷ []
put_candle c (d ∷ ds) =
    let later = put_candle c ds in
    if ltb_ℤ c.open_time d.open_time
    then c ∷ d ∷ ds
    else if c.open_time ==ℤ d.open_time
    then c ∷ ds
    else d ∷ later

-- The candles of a page that lie in the range.
unfoldable pub keep_page :
    {D : Type 0} → TimeRange → List (Candle D) → List (Candle D) → List (Candle D)
keep_page range ordered [] = ordered
keep_page range ordered (c ∷ cs) =
    keep_page range
      (if ltb_ℤ c.open_time range.start || ltb_ℤ range.end c.open_time
        then ordered
        else put_candle c ordered)
      cs

unfoldable pub cursor_after : {D : Type 0} → ℤ → ℤ → Option (Candle D) → ℤ
cursor_after interval cursor none = cursor +ℤ interval
cursor_after interval cursor (some c) =
    if leb_ℤ c.open_time cursor then cursor +ℤ interval else c.open_time +ℤ interval

unfoldable pub page_end : ℤ → ℕ → ℤ → ℤ → Option ℤ
page_end interval limit range_end cursor =
    if ltb_ℤ (pos 0) interval && ltb 0 limit
    then some (min_ℤ range_end (cursor +ℤ interval *ℤ pos limit -ℤ pos 1))
    else none

module _ {D W : Type 0} (fetch_page : W → ℤ → Option ℤ → Option (List (Candle D)) × W) where
  abbrev pub first_ok :
      Option (List (Candle D)) → W → Option (List (Candle D)) × W → Option (List (Candle D)) × W
  first_ok none w again = again
  first_ok (some page) w again = (some page, w)

  -- The attempts at one page, at most so many.
  unfoldable pub fetch_attempts : ℕ → W → ℤ → Option ℤ → Option (List (Candle D)) × W
  fetch_attempts zero w cursor end = (none, w)
  fetch_attempts (suc attempts) w cursor end =
      let fetched = fetch_page w cursor end in
      first_ok fetched.0 fetched.1 (fetch_attempts attempts fetched.1 cursor end)

  abbrev pub candles_of : Option (List (Candle D)) → List (Candle D)
  candles_of none = []
  candles_of (some page) = page

  -- The loop, which ends behind the range, after the attempts have failed, and after an empty or a
  -- short page.
  module _ (range : TimeRange) (interval : ℤ) (limit attempts : ℕ) where
    unfoldable pub fetch_loop : ℕ → W → ℤ → List (Candle D) → List (Candle D) × W
    fetch_loop zero w cursor ordered = (ordered, w)
    fetch_loop (suc fuel) w cursor ordered =
        let fetched = fetch_attempts attempts w cursor (page_end interval limit range.end cursor) in
        let page = candles_of fetched.0 in
        let kept = keep_page range ordered page in
        let more = fetch_loop fuel fetched.1 (cursor_after interval cursor (back page)) kept in
        if ltb_ℤ range.end cursor
        then (ordered, w)
        else if length page == 0
        then (ordered, fetched.1)
        else if ltb (length page) limit
        then (kept, fetched.1)
        else more

unfoldable pub effective_limit : ExchangeGatewayConfig → ℕ → ℕ
effective_limit cfg limit = if limit == 0 then cfg.rest_max_limit else min limit cfg.rest_max_limit

-- Each round brings the cursor on, so that a round for each millisecond of the range is enough.
unfoldable pub rounds : TimeRange → ℕ
rounds range = pos_part (range.end +ℤ pos 1 -ℤ range.start)

unfoldable pub fetch_range :
    {D W : Type 0}
    → (W → ℤ → Option ℤ → Option (List (Candle D)) × W)
    → ExchangeGatewayConfig
    → W
    → ℤ
    → TimeRange
    → ℕ
    → List (Candle D) × W
fetch_range fetch_page cfg w interval range limit =
    if empty range
    then ([], w)
    else if valid interval
    then fetch_loop fetch_page range interval (effective_limit cfg limit)
        (suc (pos_part (max_ℤ cfg.max_retries (pos 0)))) (rounds range) w range.start []
    else ([], w)
