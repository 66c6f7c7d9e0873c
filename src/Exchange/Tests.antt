-- ===== src/Exchange/Tests.antt =====
-- The pages at concrete answers.
use trading_chart_viewer.Common.{
  ℕ, zero, suc, ◌+◌, ◌≤◌, ◌≡◌, refl, Bool, true, false, Option, none, some, List, [], ◌∷◌, ◌++◌,
  All, length, arith,
}
use trading_chart_viewer.Common.Int.{ℤ, pos, ◌+ℤ◌, ◌-ℤ◌, ◌*ℤ◌, ◌/ℤ◌, ◌<ℤ◌, max_ℤ, min_ℤ}
use trading_chart_viewer.Domain.{Candle, LiveCandle, TimeRange, align_down_ms, empty, valid}
use trading_chart_viewer.Domain.Label.{Text, codes}
use trading_chart_viewer.Storage.Tests.{candle_at, naturals}
use trading_chart_viewer.Exchange.{
  ExchangeGatewayConfig, fetch_loop, fetch_range, rounds, fetch_attempts, keep_page, put_candle,
  effective_limit, page_end,
}
use trading_chart_viewer.Exchange.Pages.{IsOrdered, fetch_loop-rounds, fetch_range-IsOrdered}
use trading_chart_viewer.Exchange.Json.{JsonOps, validate_candle, read_candle, parse_decimal}
use trading_chart_viewer.Exchange.Rest.{
  gateway_fetch_range, fetch_rest_page, parse_body, parse_entries, parse_entry, candle_of_fields,
  valid_only,
}
use trading_chart_viewer.Exchange.Exchanged.{IsExchanged, gateway_fetch_range-IsExchanged}
use trading_chart_viewer.Exchange.Targets.{format_ws_target, format_ws_target-default}
use trading_chart_viewer.Exchange.Backoff.{compute_backoff_ms, compute_backoff_ms-bounds}
use trading_chart_viewer.Exchange.Socket.{WsSession, make_session}
use trading_chart_viewer.Exchange.Reading.{SocketEvent, on_events}
use trading_chart_viewer.Exchange.Live.{deliver_each, deliver_each-order}
use trading_chart_viewer.Exchange.Streamed.{IsStreamed, on_events-IsStreamed}

-- Each page has two candles out of order; the state counts the requests.
abbrev two_per_page : ℕ → ℤ → Option ℤ → Option (List (Candle ℕ)) × ℕ
two_per_page n cursor end = (
  some (
      record (candle_at 1 40 true) { open_time = cursor +ℤ pos 60_000 }
      ∷ record (candle_at 1 40 true) { open_time = cursor }
      ∷ []),
  n + 1,
)

abbrev a_config : ExchangeGatewayConfig
a_config = record {
  rest_host = codes "api.binance.com";
  ws_path_template = codes "/ws/%s@kline_%s";
  rest_max_limit = 2;
  backoff_base_ms = pos 250;
  backoff_cap_ms = pos 8_000;
  max_retries = pos 6;
}

abbrev a_range : TimeRange
a_range = record { start = pos 60_000; end = pos 60_002 }

fetch_range-IsOrdered_example :
    IsOrdered a_range (fetch_range two_per_page a_config 0 (pos 60_000) a_range 2).0
fetch_range-IsOrdered_example = fetch_range-IsOrdered two_per_page a_config 0 (pos 60_000) a_range 2

few_rounds : rounds a_range ≡ 3
unfolding rounds ◌+ℤ◌ ◌-ℤ◌
few_rounds = refl

fetch_loop-rounds_example :
    fetch_loop two_per_page a_range (pos 60_000) 2 7 9 0 a_range.start []
    ≡ fetch_loop two_per_page a_range (pos 60_000) 2 7 (rounds a_range) 0 a_range.start []
fetch_loop-rounds_example =
    fetch_loop-rounds two_per_page a_range (pos 60_000) 2 7 9 0 [] (omega arith)
      (rw few_rounds (omega arith))

-- A body that holds one entry of twelve values, and messages whose members are all there. Every text
-- is "kline" and reads as five, and every whole number is a time in the tenth minute.
abbrev value_items : ℕ → Option (List ℕ)
value_items zero = some (1 ∷ [])
value_items (suc zero) = some (2 ∷ 2 ∷ 2 ∷ 2 ∷ 2 ∷ 2 ∷ 2 ∷ 2 ∷ 2 ∷ 2 ∷ 2 ∷ 2 ∷ [])
value_items (suc (suc n)) = none

abbrev pub simple_json : JsonOps ℕ ℕ
simple_json = record {
  parse = λ text. some 0;
  items = value_items;
  is_object = λ v. true;
  if_contains = λ v key. some (suc v);
  as_string = λ v. some (codes "kline");
  as_int64 = λ v. some (pos 600_017);
  as_bool = λ v. some true;
  stod = λ text. some 5;
}

abbrev always_there : ℕ → Text → Option (Bool × Text) × ℕ
always_there n target = (some (true, []), suc n)

gateway_fetch_range-IsExchanged_example :
    All
      (IsExchanged naturals 60_000)
      (gateway_fetch_range naturals simple_json always_there a_config 0
        (codes "BTCUSDT")
        (pos 60_000)
        a_range
        5).0
gateway_fetch_range-IsExchanged_example =
    gateway_fetch_range-IsExchanged naturals simple_json always_there a_config 0 (codes "BTCUSDT")
      60_000 a_range 5 (omega arith)

-- The exchange is asked, and its candle is found.
one_fetched :
    length
      (gateway_fetch_range naturals simple_json always_there a_config 0
        (codes "BTCUSDT")
        (pos 60_000)
        (record { start = pos 600_000; end = pos 700_000 })
        5).0
    ≡ 1
unfolding gateway_fetch_range fetch_rest_page fetch_range fetch_loop fetch_attempts keep_page
    put_candle parse_body parse_entries parse_entry candle_of_fields valid_only validate_candle
    read_candle parse_decimal align_down_ms effective_limit page_end empty valid rounds max_ℤ min_ℤ
    ◌+ℤ◌ ◌-ℤ◌ ◌*ℤ◌ ◌/ℤ◌
one_fetched = refl

abbrev jitter_none : ℕ → ℕ
jitter_none bound = 0

abbrev events : List SocketEvent
events =
    SocketEvent.starting
    ∷ SocketEvent.resolved
    ∷ SocketEvent.connected
    ∷ SocketEvent.tls_ready
    ∷ SocketEvent.upgraded
    ∷ SocketEvent.message []
    ∷ SocketEvent.failed (pos 4)
    ∷ SocketEvent.timer_fired
    ∷ []

on_events-IsStreamed_example :
    All
      (IsStreamed naturals 60_000)
      (on_events naturals simple_json jitter_none
        (make_session a_config (codes "BTCUSDT") (pos 60_000) true true)
        events).delivered
on_events-IsStreamed_example =
    on_events-IsStreamed naturals simple_json 60_000 (omega arith) jitter_none a_config
      (codes "BTCUSDT") true true events

abbrev a_session : WsSession ℕ
a_session = make_session a_config (codes "BTCUSDT") (pos 60_000) true true

abbrev out_of_order : List (LiveCandle ℕ)
out_of_order =
    record { candle = candle_at 12 40 true; is_final = true }
    ∷ record { candle = candle_at 11 41 true; is_final = true }
    ∷ record { candle = candle_at 13 41 false; is_final = false }
    ∷ []

deliver_each-order_example :
    ((deliver_each a_session out_of_order).delivered ≡ a_session.delivered ++ out_of_order)
    × ((deliver_each a_session out_of_order).closed_backlog ≡ [])
unfolding make_session
deliver_each-order_example =
    deliver_each-order a_session out_of_order refl refl
      (omega arith, (omega arith, (omega arith, tt)))

compute_backoff_ms-bounds_example :
    (pos 0 <ℤ a_config.backoff_cap_ms → compute_backoff_ms a_config 3 ≤ 8_000)
    × (3 ≤ 9 → compute_backoff_ms a_config 3 ≤ compute_backoff_ms a_config 9)
compute_backoff_ms-bounds_example = compute_backoff_ms-bounds a_config 3 9

format_ws_target-default_example :
    format_ws_target (codes "/ws/%s@kline_%s") (codes "btcusdt") (codes "1m")
    ≡ codes "/ws/" ++ (codes "btcusdt" ++ (codes "@kline_" ++ codes "1m"))
format_ws_target-default_example = format_ws_target-default (codes "btcusdt") (codes "1m")
