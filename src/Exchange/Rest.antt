-- ===== src/Exchange/Rest.antt =====
-- `fetchRestPage`: one request to the exchange. The transport is an argument: the answer to a target
-- is whether the status is OK, with the body, or `none` for an exception.
use trading_chart_viewer.Common.{
  ℕ, Bool, true, false, ◌||◌, Option, none, some, List, [], ◌∷◌, ◌++◌, ltb, ◌==◌, if◌then◌else◌,
}
use trading_chart_viewer.Common.Int.{ℤ, pos, pos_part, ltb_ℤ, leb_ℤ}
use trading_chart_viewer.Common.Double.{DoubleOps}
use trading_chart_viewer.Domain.{Candle, TimeRange, align_down_ms}
use trading_chart_viewer.Domain.Label.{Text, codes, to_string, interval_label}
use trading_chart_viewer.Config.Texts.{starts_with}
use trading_chart_viewer.Exchange.{ExchangeGatewayConfig, fetch_range, effective_limit}
use trading_chart_viewer.Exchange.Json.{JsonOps, Fields, ◌>>=◌, read_candle, validate_candle}

-- `text.find(part) != npos`.
unfoldable pub contains : Text → Text → Bool
unfolding starts_with
contains part [] = starts_with part []
contains part (c ∷ r) = let rest = contains part r in starts_with part (c ∷ r) || rest

unfoldable pub klines_path : Text → Text
unfolding contains
klines_path host =
    if contains (codes "fapi") host
    then codes "/fapi/v1/klines"
    else if contains (codes "dapi") host
    then codes "/dapi/v1/klines"
    else codes "/api/v3/klines"

abbrev with_end : Option ℤ → Text
with_end none = []
with_end (some end) =
    if ltb_ℤ (pos 0) end then codes "&endTime=" ++ to_string (pos_part end) else []

unfoldable pub request_target : ExchangeGatewayConfig → Text → Text → ℤ → Option ℤ → ℕ → Text
unfolding klines_path to_string
request_target cfg symbol interval start end limit =
    klines_path cfg.rest_host
    ++ codes "?symbol="
    ++ symbol
    ++ codes "&interval="
    ++ interval
    ++ (if ltb_ℤ (pos 0) start then codes "&startTime=" ++ to_string (pos_part start) else [])
    ++ with_end end
    ++ codes "&limit="
    ++ to_string (if limit == 0 || ltb cfg.rest_max_limit limit then cfg.rest_max_limit else limit)

module _ {D J : Type 0} (ops : DoubleOps D) (json : JsonOps D J) where
  -- The twelve or more values of an entry.
  abbrev pub entry_fields : List J → Option (J × Fields J)
  entry_fields (t ∷ o ∷ h ∷ l ∷ c ∷ v ∷ closing ∷ q ∷ n ∷ tb ∷ tq ∷ unused ∷ more) =
      some (
        t,
        record { opening = o; high = h; low = l; closing = c; volume = v; quote = q; count = n },
      )
  entry_fields _ = none

  unfoldable pub valid_only : Candle D → List (Candle D)
  unfolding validate_candle
  valid_only c = if validate_candle ops c then c ∷ [] else []

  abbrev pub singly : Option (Candle D) → Option (List (Candle D))
  singly none = none
  singly (some c) = some (valid_only c)

  unfoldable pub candle_of_fields : ℤ → Option (J × Fields J) → Option (List (Candle D))
  unfolding align_down_ms read_candle
  candle_of_fields interval none = some []
  candle_of_fields interval (some (t, f)) = do
    raw ← json.as_int64 t
    let aligned = align_down_ms raw interval
    if leb_ℤ aligned (pos 0) then some [] else singly (read_candle json interval aligned f true)

  abbrev pub fields_of : Option (List J) → Option (J × Fields J)
  fields_of none = none
  fields_of (some values) = entry_fields values

  -- An entry gives one candle, or none where it is passed over.
  unfoldable pub parse_entry : ℤ → J → Option (List (Candle D))
  unfolding candle_of_fields
  parse_entry interval entry = candle_of_fields interval (fields_of (json.items entry))

  unfoldable pub parse_entries : ℤ → List J → Option (List (Candle D))
  unfolding parse_entry
  parse_entries interval [] = some []
  parse_entries interval (e ∷ es) =
      parse_entry interval e >>= λ first. parse_entries interval es >>= λ rest. some (first ++ rest)

  -- The body must be an array.
  unfoldable pub parse_body : ℤ → Text → Option (List (Candle D))
  unfolding parse_entries
  parse_body interval body = do
    value ← json.parse body
    entries ← json.items value
    parse_entries interval entries

  abbrev pub page_of : ℤ → Option (Bool × Text) → Option (List (Candle D))
  page_of interval none = none
  page_of interval (some (false, body)) = none
  page_of interval (some (true, body)) = parse_body interval body

  unfoldable pub fetch_rest_page :
      {W : Type 0}
      → (W → Text → Option (Bool × Text) × W)
      → ExchangeGatewayConfig
      → Text
      → Text
      → ℕ
      → ℤ
      → W
      → ℤ
      → Option ℤ
      → Option (List (Candle D)) × W
  unfolding request_target parse_body
  fetch_rest_page http cfg symbol label limit interval w start end =
      let answer = http w (request_target cfg symbol label start end limit) in
      (page_of interval answer.0, answer.1)

abbrev pub label_or_minute : Text → Text
label_or_minute [] = codes "1m"
label_or_minute (c ∷ r) = c ∷ r

-- `ExchangeGateway::fetchRange` with its requests.
unfoldable pub gateway_fetch_range :
    {D J W : Type 0}
    → DoubleOps D
    → JsonOps D J
    → (W → Text → Option (Bool × Text) × W)
    → ExchangeGatewayConfig
    → W
    → Text
    → ℤ
    → TimeRange
    → ℕ
    → List (Candle D) × W
unfolding fetch_rest_page fetch_range interval_label
gateway_fetch_range ops json http cfg w symbol interval range limit =
    fetch_range
      (fetch_rest_page ops json http cfg symbol (label_or_minute (interval_label interval))
        (effective_limit cfg limit) interval)
      cfg w interval range limit
