-- ===== src/Exchange/Socket.antt =====
-- The session of the web socket, `WsSession`: its state and its handlers. What is started on the
-- network is `pending`; its completion is one of the handlers. An
-- operation that is dropped together with its stream is not completed.
use trading_chart_viewer.Common.{
  ℕ, suc, ◌+◌, ◌/◌, Bool, true, false, ◌&&◌, not, Option, none, some, List, [], ◌∷◌, ◌++◌, ◌==◌,
  if◌then◌else◌,
}
use trading_chart_viewer.Common.Int.{ℤ, pos, ◌-ℤ◌, ltb_ℤ, leb_ℤ, ◌==ℤ◌}
use trading_chart_viewer.Common.Double.{DoubleOps}
use trading_chart_viewer.Domain.{Candle, LiveCandle, align_down_ms, valid}
use trading_chart_viewer.Domain.Label.{Text, codes, interval_label}
use trading_chart_viewer.Config.Texts.{lowercase}
use trading_chart_viewer.Exchange.{ExchangeGatewayConfig}
use trading_chart_viewer.Exchange.Json.{JsonOps, Fields, ◌>>=◌, read_candle, validate_candle}
use trading_chart_viewer.Exchange.Rest.{label_or_minute}
use trading_chart_viewer.Exchange.Targets.{format_ws_target}
use trading_chart_viewer.Exchange.Backoff.{compute_backoff_ms}

-- The operation on the network that is waited for.
pub data Pending : Type 0 where
  nothing resolving connecting tls_handshaking reading : Pending
  handshaking : Text → Pending

-- The entries of `closedBacklog_` stand in the order of their times. `delivered` and `errors` are the
-- calls of `onData_` and the codes of those of `onError_`; `delay` is that of the reconnect timer.
pub record WsSession (D : Type 0) : Type 0 where
  pub cfg : ExchangeGatewayConfig
  pub symbol : Text
  pub interval_ms : ℤ
  pub interval_label : Text
  pub has_on_data : Bool
  pub has_on_error : Bool
  pub running : Bool
  pub reconnect_attempts : ℕ
  pub closed_backlog : List (LiveCandle D)
  pub last_closed : ℤ
  pub delivered : List (LiveCandle D)
  pub errors : List ℤ
  pub delay : Option ℕ
  pub pending : Pending

unfoldable pub make_session :
    {D : Type 0} → ExchangeGatewayConfig → Text → ℤ → Bool → Bool → WsSession D
unfolding valid interval_label
make_session cfg symbol interval has_on_data has_on_error = record {
  cfg = cfg;
  symbol = symbol;
  interval_ms = if valid interval then interval else pos 0;
  interval_label = label_or_minute (interval_label interval);
  has_on_data = has_on_data;
  has_on_error = has_on_error;
  running = false;
  reconnect_attempts = 0;
  closed_backlog = [];
  last_closed = pos 0;
  delivered = [];
  errors = [];
  delay = none;
  pending = Pending.nothing;
}

-- `std::numeric_limits<TimestampMs>::max()`.
abbrev pub latest_time : ℤ
latest_time = pos 9_223_372_036_854_775_807

-- `closedBacklog_[openTime] = live`.
unfoldable pub put_live : {D : Type 0} → LiveCandle D → List (LiveCandle D) → List (LiveCandle D)
put_live c [] = c ∷ []
put_live c (d ∷ ds) =
    let later = put_live c ds in
    if ltb_ℤ c.candle.open_time d.candle.open_time
    then c ∷ d ∷ ds
    else if c.candle.open_time ==ℤ d.candle.open_time
    then c ∷ ds
    else d ∷ later

-- `jitter` draws a number from zero up to its argument.
unfoldable pub jitter_ms : (ℕ → ℕ) → ℕ → ℕ
jitter_ms jitter base = if base == 0 then 0 else jitter (base / 5 + 1)

module _ {D : Type 0} where
  abbrev pub call_on_data : WsSession D → LiveCandle D → WsSession D
  call_on_data w live = record w {
    delivered = if w.has_on_data then w.delivered ++ live ∷ [] else w.delivered;
  }

  -- The loop of `flushClosedUpTo` over the entries of the backlog.
  unfoldable pub flush_entries : ℤ → List (LiveCandle D) → WsSession D → WsSession D
  flush_entries up_to [] w = record w { closed_backlog = [] }
  flush_entries up_to (c ∷ cs) w =
      let rest =
        flush_entries up_to cs (record (call_on_data w c) { last_closed = c.candle.open_time }) in
      if leb_ℤ c.candle.open_time up_to then rest else record w { closed_backlog = c ∷ cs }

  unfoldable pub flush_closed_up_to : ℤ → WsSession D → WsSession D
  unfolding flush_entries
  flush_closed_up_to up_to w = flush_entries up_to w.closed_backlog w

  unfoldable pub flush_closed : WsSession D → WsSession D
  unfolding flush_closed_up_to
  flush_closed w = flush_closed_up_to latest_time w

  unfoldable pub deliver : LiveCandle D → WsSession D → WsSession D
  unfolding flush_closed flush_closed_up_to put_live
  deliver live w =
      if not w.has_on_data
      then w
      else if live.is_final
      then flush_closed (record w { closed_backlog = put_live live w.closed_backlog })
      else call_on_data (flush_closed_up_to (live.candle.open_time -ℤ w.interval_ms) w) live

  unfoldable pub do_read : WsSession D → WsSession D
  do_read w = if w.running then record w { pending = Pending.reading } else w

  unfoldable pub begin_resolve : WsSession D → WsSession D
  begin_resolve w = if w.running then record w { pending = Pending.resolving } else w

  abbrev pub call_on_error : ℤ → WsSession D → WsSession D
  call_on_error code w = record w {
    errors = if w.has_on_error then w.errors ++ code ∷ [] else w.errors;
  }

  module _ (jitter : ℕ → ℕ) where
    unfoldable pub schedule_reconnect : WsSession D → WsSession D
    unfolding compute_backoff_ms jitter_ms
    schedule_reconnect w =
        let backoff = compute_backoff_ms w.cfg w.reconnect_attempts in
        if w.running
        then record (call_on_error (pos 0) w) {
          reconnect_attempts = suc w.reconnect_attempts;
          pending = Pending.nothing;
          delay = some (backoff + jitter_ms jitter backoff);
        }
        else w

    unfoldable pub handle_failure : ℤ → WsSession D → WsSession D
    unfolding schedule_reconnect
    handle_failure code w = if w.running then schedule_reconnect (call_on_error code w) else w

  unfoldable pub on_reconnect_timer : WsSession D → WsSession D
  unfolding begin_resolve
  on_reconnect_timer w = if w.running then begin_resolve (record w { delay = none }) else w

  unfoldable pub on_handshake : WsSession D → WsSession D
  unfolding do_read
  on_handshake w = do_read (record w { reconnect_attempts = 0 })

  unfoldable pub on_ssl_handshake : WsSession D → WsSession D
  unfolding format_ws_target lowercase
  on_ssl_handshake w =
      let target = format_ws_target w.cfg.ws_path_template (lowercase w.symbol) w.interval_label in
      record w { pending = Pending.handshaking target }

  unfoldable pub start_session : WsSession D → WsSession D
  unfolding begin_resolve
  start_session w = if w.running then w else begin_resolve (record w { running = true })

  unfoldable pub stop_session : WsSession D → WsSession D
  stop_session w =
      if w.running then record w { running = false; delay = none; pending = Pending.nothing } else w

module _ {D J : Type 0} (ops : DoubleOps D) (json : JsonOps D J) where
  -- `kline.at(key)`, of which `none` is an exception too.
  unfoldable pub kline_fields : J → Option (Fields J)
  kline_fields k = do
    o ← json.if_contains k (codes "o")
    h ← json.if_contains k (codes "h")
    l ← json.if_contains k (codes "l")
    c ← json.if_contains k (codes "c")
    v ← json.if_contains k (codes "v")
    q ← json.if_contains k (codes "q")
    n ← json.if_contains k (codes "n")
    some (record { opening = o; high = h; low = l; closing = c; volume = v; quote = q; count = n })

  -- A candle whose prices are in order is delivered.
  unfoldable pub deliver_valid : Bool → Candle D → WsSession D → WsSession D
  unfolding deliver validate_candle
  deliver_valid closed c w =
      if validate_candle ops c then deliver (record { candle = c; is_final = closed }) w else w

  unfoldable pub take_kline : ℤ → J → WsSession D → Option (WsSession D)
  unfolding kline_fields read_candle deliver_valid
  take_kline aligned k w = do
    fields ← kline_fields k
    flag ← json.if_contains k (codes "x")
    closed ← json.as_bool flag
    candle ← read_candle json w.interval_ms aligned fields closed
    some (deliver_valid closed candle w)

  abbrev pub has_key : J → Text → Bool
  has_key k key = elim (json.if_contains k key) [ none ↦ false | some v ↦ true ]

  unfoldable pub kline_open : J → Option ℤ
  kline_open k = do t ← json.if_contains k (codes "t"); json.as_int64 t

  unfoldable pub handle_kline : J → WsSession D → Option (WsSession D)
  unfolding kline_open take_kline align_down_ms
  handle_kline k w =
      if has_key k (codes "t") && has_key k (codes "T")
      then (kline_open k >>= λ raw.
          let aligned = align_down_ms raw w.interval_ms in
          if leb_ℤ aligned (pos 0) then some w else take_kline aligned k w)
      else some w
