-- ===== src/Exchange/Streamed.antt =====
-- What is known of the candles that the session delivers.
use trading_chart_viewer.Common.{
  ℕ, ◌<◌, ◌≡◌, refl, ap, subst, sym, ◌∙◌, Bool, true, false, ◌&&◌, not, Option, none, some, List,
  [], ◌∷◌, All, All-append, arith, if_all, if_split,
}
use trading_chart_viewer.Common.Int.{ℤ, pos, ◌-ℤ◌, ltb_ℤ, leb_ℤ, ◌==ℤ◌}
use trading_chart_viewer.Common.Double.{DoubleOps}
use trading_chart_viewer.Domain.{valid, Candle, LiveCandle, align_down_ms}
use trading_chart_viewer.Domain.Label.{Text, codes}
use trading_chart_viewer.Exchange.{ExchangeGatewayConfig}
use trading_chart_viewer.Exchange.Json.{JsonOps, ◌>>=◌, read_candle, validate_candle}
use trading_chart_viewer.Exchange.Exchanged.{
  IsExchanged, IsReadIfAny, read_candle-IsRead, read-IsExchanged, bind_all,
}
use trading_chart_viewer.Exchange.Socket.{
  Pending, WsSession, make_session, put_live, call_on_data, flush_entries, flush_closed_up_to,
  flush_closed, deliver, latest_time, do_read, begin_resolve, schedule_reconnect, handle_failure,
  on_reconnect_timer, on_handshake, on_ssl_handshake, start_session, stop_session, call_on_error,
  deliver_valid, take_kline, handle_kline, kline_fields, kline_open, has_key,
}
use trading_chart_viewer.Exchange.Reading.{
  Reaction, react, payload_of, on_read, or_same, take_object, take_event, take_value,
  after_reaction, SocketEvent, on_event, on_events,
}

-- A candle that comes from the exchange, which is final where it is closed.
pub record IsStreamed {D : Type 0} (ops : DoubleOps D) (s : ℕ) (c : LiveCandle D) : Type 0 where
  pub exchanged : IsExchanged ops s c.candle
  pub final_closed : c.is_final ≡ c.candle.is_closed

pub record IsGood {D : Type 0} (ops : DoubleOps D) (s : ℕ) (w : WsSession D) : Type 0 where
  pub spaced : w.interval_ms ≡ pos s
  pub waiting : All (IsStreamed ops s) w.closed_backlog
  pub called : All (IsStreamed ops s) w.delivered

module _ {D : Type 0} (ops : DoubleOps D) (s : ℕ) where
  abbrev Good : WsSession D → Type 0
  Good = IsGood ops s

  abbrev Streamed : LiveCandle D → Type 0
  Streamed = IsStreamed ops s

  -- It is about the interval and the candles alone.
  untouched :
      (w w' : WsSession D)
      → w'.interval_ms ≡ w.interval_ms
      → w'.closed_backlog ≡ w.closed_backlog
      → w'.delivered ≡ w.delivered
      → Good w
      → Good w'
  untouched w w' i b d v = record {
    spaced = i ∙ v.spaced;
    waiting = rw b v.waiting;
    called = rw d v.called;
  }

  call_on_data-IsGood :
      (w : WsSession D) (c : LiveCandle D) → Streamed c → Good w → Good (call_on_data w c)
  call_on_data-IsGood w c h v = record {
    spaced = v.spaced;
    waiting = v.waiting;
    called =
        if_all (All Streamed) w.has_on_data _ _ (All-append Streamed w.delivered _ v.called (h, tt))
          v.called;
  }

  flush_entries-IsGood :
      (up_to : ℤ) (cs : List (LiveCandle D)) (w : WsSession D)
      → All Streamed cs
      → Good w
      → Good (flush_entries up_to cs w)
  unfolding flush_entries
  flush_entries-IsGood up_to [] w h v = record {
    spaced = v.spaced;
    waiting = tt;
    called = v.called;
  }
  flush_entries-IsGood up_to (c ∷ cs) w h v =
      let sent = call_on_data w c in
      let later = record sent { last_closed = c.candle.open_time } in
      if_all Good (leb_ℤ c.candle.open_time up_to) _ _
        (flush_entries-IsGood up_to cs later h.1
          (untouched sent later refl refl refl (call_on_data-IsGood w c h.0 v)))
        (record { spaced = v.spaced; waiting = h; called = v.called })

  put_live-Streamed :
      (c : LiveCandle D) (cs : List (LiveCandle D))
      → Streamed c
      → All Streamed cs
      → All Streamed (put_live c cs)
  unfolding put_live
  put_live-Streamed c [] h g = (h, tt)
  put_live-Streamed c (d ∷ ds) h g =
      if_all (All Streamed) (ltb_ℤ c.candle.open_time d.candle.open_time) _ _ (h, g)
        (if_all (All Streamed) (c.candle.open_time ==ℤ d.candle.open_time) _ _ (h, g.1)
          (g.0, put_live-Streamed c ds h g.1))

  deliver-IsGood : (c : LiveCandle D) (w : WsSession D) → Streamed c → Good w → Good (deliver c w)
  unfolding deliver flush_closed flush_closed_up_to
  deliver-IsGood c w h v =
      let waiting = put_live c w.closed_backlog in
      let added = put_live-Streamed c w.closed_backlog h v.waiting in
      let up_to = c.candle.open_time -ℤ w.interval_ms in
      if_all Good (not w.has_on_data) _ _ v (
        if_all Good c.is_final _ _
          (flush_entries-IsGood latest_time waiting (record w { closed_backlog = waiting }) added
            (record { spaced = v.spaced; waiting = added; called = v.called }))
          (call_on_data-IsGood (flush_entries up_to w.closed_backlog w) c h
            (flush_entries-IsGood up_to w.closed_backlog w v.waiting v)))

module _ {D J : Type 0} (ops : DoubleOps D) (json : JsonOps D J) (s : ℕ) (positive : 0 < s) where
  -- What the block of a message that may throw leaves.
  abbrev IfSome : Option (WsSession D) → Type 0
  IfSome none = Unit
  IfSome (some w) = IsGood ops s w

  deliver_valid-IsGood :
      (closed : Bool) (c : Candle D) (w : WsSession D)
      → (validate_candle ops c ≡ true → IsStreamed ops s (record { candle = c; is_final = closed }))
      → IsGood ops s w
      → IsGood ops s (deliver_valid ops json closed c w)
  unfolding deliver_valid
  deliver_valid-IsGood closed c w h v =
      if_split (IsGood ops s) (validate_candle ops c) _ _
        (λ ok. deliver-IsGood ops s (record { candle = c; is_final = closed }) w (h ok) v)
        (λ bad. v)

  take_read-IsGood :
      (raw : ℤ) (closed : Bool) (w : WsSession D) (o : Option (Candle D))
      → leb_ℤ (align_down_ms raw (pos s)) (pos 0) ≡ false
      → IsReadIfAny (align_down_ms raw (pos s)) s closed o
      → IsGood ops s w
      → IfSome (o >>= λ c. some (deliver_valid ops json closed c w))
  take_read-IsGood raw closed w none e r v = tt
  take_read-IsGood raw closed w (some c) e r v =
      deliver_valid-IsGood closed c w
        (λ ok. record {
          exchanged = read-IsExchanged ops json s positive raw closed c e r ok;
          final_closed = sym r.same_state;
        })
        v

  take_kline-IsGood :
      (raw interval aligned : ℤ) (k : J) (w : WsSession D)
      → w.interval_ms ≡ pos s
      → aligned ≡ align_down_ms raw (pos s)
      → leb_ℤ aligned (pos 0) ≡ false
      → IsGood ops s w
      → IfSome (take_kline ops json aligned k w)
  unfolding take_kline
  take_kline-IsGood raw interval aligned k w i a e v =
      bind_all IfSome (kline_fields ops json k) _ tt (λ f.
        bind_all IfSome (json.if_contains k (codes "x")) _ tt (λ flag.
          bind_all IfSome (json.as_bool flag) _ tt (λ closed.
            let read =
              subst
                (λ t.
                  IsReadIfAny (align_down_ms raw (pos s)) s closed
                    (read_candle json w.interval_ms t f closed))
                (sym a)
                (subst
                  (λ j.
                    IsReadIfAny (align_down_ms raw (pos s)) s closed
                      (read_candle json j (align_down_ms raw (pos s)) f closed))
                  (sym i)
                  (read_candle-IsRead ops json s positive (align_down_ms raw (pos s)) f closed)) in
            take_read-IsGood raw closed w _ (rw a at e) read v)))

  handle_kline-IsGood :
      (k : J) (w : WsSession D) → IsGood ops s w → IfSome (handle_kline ops json k w)
  unfolding handle_kline
  handle_kline-IsGood k w v =
      if_all IfSome (has_key ops json k (codes "t") && has_key ops json k (codes "T")) _ _
        (bind_all IfSome (kline_open ops json k) _ tt (λ raw.
          if_split IfSome (leb_ℤ (align_down_ms raw w.interval_ms) (pos 0)) _ _ (λ early. v)
            (λ later.
              take_kline-IsGood raw w.interval_ms _ k w v.spaced (ap (align_down_ms raw) v.spaced)
                later v)))
        v

  abbrev OkReaction : Reaction D → Type 0
  OkReaction Reaction.returns = Unit
  OkReaction (Reaction.ends w) = IsGood ops s w

  or_same-IsGood :
      (w : WsSession D) (o : Option (WsSession D))
      → IsGood ops s w
      → IfSome o
      → OkReaction (or_same ops json w o)
  or_same-IsGood w none v h = v
  or_same-IsGood w (some w') v h = h

  take_object-IsGood :
      (w : WsSession D) (o : Option J) → IsGood ops s w → OkReaction (take_object ops json w o)
  take_object-IsGood w none v = tt
  take_object-IsGood w (some k) v = or_same-IsGood w _ v (handle_kline-IsGood k w v)

  take_event-IsGood :
      (w : WsSession D) (payload : J) (o : Option Bool)
      → IsGood ops s w
      → OkReaction (take_event ops json w payload o)
  take_event-IsGood w payload none v = v
  take_event-IsGood w payload (some false) v = tt
  take_event-IsGood w payload (some true) v = take_object-IsGood w _ v

  take_value-IsGood :
      (w : WsSession D) (o : Option J) → IsGood ops s w → OkReaction (take_value ops json w o)
  take_value-IsGood w none v = v
  take_value-IsGood w (some root) v =
      if_all OkReaction (json.is_object root) _ _
        (take_event-IsGood w (payload_of ops json root) _ v) tt

  do_read-IsGood : (w : WsSession D) → IsGood ops s w → IsGood ops s (do_read w)
  unfolding do_read
  do_read-IsGood w v = if_all (IsGood ops s) w.running _ _ (untouched ops s w _ refl refl refl v) v

  after_reaction-IsGood :
      (w : WsSession D) (r : Reaction D)
      → IsGood ops s w
      → OkReaction r
      → IsGood ops s (after_reaction ops json w r)
  after_reaction-IsGood w Reaction.returns v h = v
  after_reaction-IsGood w (Reaction.ends w') v h = do_read-IsGood w' h

  on_read-IsGood :
      (text : Text) (w : WsSession D) → IsGood ops s w → IsGood ops s (on_read ops json text w)
  unfolding on_read react
  on_read-IsGood text w v =
      let done = record w { pending = Pending.nothing } in
      let h = untouched ops s w done refl refl refl v in
      after_reaction-IsGood done _ h (take_value-IsGood done (json.parse text) h)

  module _ (jitter : ℕ → ℕ) where
    schedule_reconnect-IsGood :
        (w : WsSession D) → IsGood ops s w → IsGood ops s (schedule_reconnect jitter w)
    unfolding schedule_reconnect
    schedule_reconnect-IsGood w v =
        if_all (IsGood ops s) w.running _ _ (untouched ops s w _ refl refl refl v) v

    handle_failure-IsGood :
        (code : ℤ) (w : WsSession D) → IsGood ops s w → IsGood ops s (handle_failure jitter code w)
    unfolding handle_failure
    handle_failure-IsGood code w v =
        let told = call_on_error code w in
        if_all (IsGood ops s) w.running _ _
          (schedule_reconnect-IsGood told (untouched ops s w told refl refl refl v)) v

    begin_resolve-IsGood : (w : WsSession D) → IsGood ops s w → IsGood ops s (begin_resolve w)
    unfolding begin_resolve
    begin_resolve-IsGood w v =
        if_all (IsGood ops s) w.running _ _ (untouched ops s w _ refl refl refl v) v

    on_event-IsGood :
        (w : WsSession D) (e : SocketEvent)
        → IsGood ops s w
        → IsGood ops s (on_event ops json jitter w e)
    unfolding on_event start_session stop_session on_reconnect_timer on_ssl_handshake on_handshake
    on_event-IsGood w SocketEvent.starting v =
        let begun = record w { running = true } in
        if_all (IsGood ops s) w.running _ _ v
          (begin_resolve-IsGood begun (untouched ops s w begun refl refl refl v))
    on_event-IsGood w SocketEvent.stopping v =
        if_all (IsGood ops s) w.running _ _ (untouched ops s w _ refl refl refl v) v
    on_event-IsGood w SocketEvent.timer_fired v =
        let fired = record w { delay = none } in
        if_all (IsGood ops s) w.running _ _
          (begin_resolve-IsGood fired (untouched ops s w fired refl refl refl v)) v
    on_event-IsGood w SocketEvent.idle_timeout v =
        let told = call_on_error (pos 0) w in
        if_all (IsGood ops s) w.running _ _
          (schedule_reconnect-IsGood told (untouched ops s w told refl refl refl v)) v
    on_event-IsGood w SocketEvent.closed v = schedule_reconnect-IsGood w v
    on_event-IsGood w SocketEvent.resolved v = untouched ops s w _ refl refl refl v
    on_event-IsGood w SocketEvent.connected v = untouched ops s w _ refl refl refl v
    on_event-IsGood w SocketEvent.tls_ready v = untouched ops s w _ refl refl refl v
    on_event-IsGood w SocketEvent.upgraded v =
        let reset = record w { reconnect_attempts = 0 } in
        do_read-IsGood reset (untouched ops s w reset refl refl refl v)
    on_event-IsGood w (SocketEvent.failed code) v = handle_failure-IsGood code w v
    on_event-IsGood w (SocketEvent.message text) v = on_read-IsGood text w v

    on_events-IsGood :
        (w : WsSession D) (es : List SocketEvent)
        → IsGood ops s w
        → IsGood ops s (on_events ops json jitter w es)
    unfolding on_events
    on_events-IsGood w [] v = v
    on_events-IsGood w (e ∷ es) v =
        on_events-IsGood (on_event ops json jitter w e) es (on_event-IsGood w e v)

    made-IsGood :
        (cfg : ExchangeGatewayConfig) (symbol : Text) (on_data on_error : Bool)
        → IsGood ops s (make_session cfg symbol (pos s) on_data on_error)
    unfolding make_session valid
    made-IsGood cfg symbol on_data on_error = record {
      spaced = ground (arith, positive);
      waiting = tt;
      called = tt;
    }

    -- For a session of an interval of a positive number of milliseconds: whatever happens to it, in
    -- whatever order, and whatever the messages hold, each candle that its callback gets opens at a
    -- positive multiple of the interval, closes at its end, has a count of trades of 32 bits, passes
    -- the test of its prices, and is final exactly where it is closed.
    pub on_events-IsStreamed :
        (cfg : ExchangeGatewayConfig) (symbol : Text) (on_data on_error : Bool)
        (es : List SocketEvent)
        → All
            (IsStreamed ops s)
            (on_events ops json jitter
              (make_session cfg symbol (pos s) on_data on_error)
              es).delivered
    on_events-IsStreamed cfg symbol on_data on_error es =
        (on_events-IsGood (make_session cfg symbol (pos s) on_data on_error) es
          (made-IsGood cfg symbol on_data on_error)).called
