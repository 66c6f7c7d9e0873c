-- ===== src/Exchange/Live.antt =====
-- What the session delivers.
use mathlib.Core.List.{append_assoc, append-nil}
use trading_chart_viewer.Common.{
  ◌≡◌, refl, ap, true, not, List, [], ◌∷◌, ◌++◌, All, arith, if_split,
}
use trading_chart_viewer.Common.Int.{ℤ, ◌-ℤ◌, ◌≤ℤ◌, leb_ℤ}
use trading_chart_viewer.Domain.{LiveCandle}
use trading_chart_viewer.Exchange.Socket.{
  WsSession, put_live, call_on_data, flush_entries, flush_closed_up_to, flush_closed, deliver,
  latest_time,
}

-- The candles in the order in which they came.
unfoldable pub deliver_each : {D : Type 0} → WsSession D → List (LiveCandle D) → WsSession D
deliver_each w [] = w
deliver_each w (c ∷ cs) = deliver_each (deliver c w) cs

leb_of : (a b : ℤ) → a ≤ℤ b → leb_ℤ a b ≡ true
leb_of a b h = ground arith

-- Nothing waits, and the calls have been made up to here.
record IsDirect {D : Type 0} (calls : List (LiveCandle D)) (w : WsSession D) : Type 0 where
  pub listens : w.has_on_data ≡ true
  pub nothing_waits : w.closed_backlog ≡ []
  pub called : w.delivered ≡ calls

module _ {D : Type 0} where
  call_on_data-calls :
      (w : WsSession D) (calls : List (LiveCandle D)) (c : LiveCandle D)
      → w.has_on_data ≡ true
      → w.delivered ≡ calls
      → (call_on_data w c).delivered ≡ calls ++ c ∷ []
  call_on_data-calls w calls c h e =
      if_split (λ xs. xs ≡ calls ++ c ∷ []) w.has_on_data _ _ (λ on. ap (λ xs. xs ++ c ∷ []) e)
        (λ off. cc)

  flush_entries-one :
      (up_to : ℤ) (w : WsSession D) (calls cs : List (LiveCandle D)) (c : LiveCandle D)
      → cs ≡ c ∷ []
      → c.candle.open_time ≤ℤ up_to
      → w.has_on_data ≡ true
      → w.delivered ≡ calls
      → IsDirect (calls ++ c ∷ []) (flush_entries up_to cs w)
  unfolding flush_entries
  flush_entries-one up_to w calls [] c e h on called = cc
  flush_entries-one up_to w calls (d ∷ []) c e h on called =
      let same : d ≡ c = cc in
      rw same (
        if_split (IsDirect (calls ++ c ∷ [])) (leb_ℤ c.candle.open_time up_to) _ _
          (λ due. record {
            listens = on;
            nothing_waits = refl;
            called = call_on_data-calls w calls c on called;
          })
          (λ late. absurd (ground (arith, late, h))))
  flush_entries-one up_to w calls (d ∷ f ∷ r) c e h on called = cc

  flush_entries-none :
      (up_to : ℤ) (w : WsSession D) (calls cs : List (LiveCandle D))
      → cs ≡ []
      → w.has_on_data ≡ true
      → w.delivered ≡ calls
      → IsDirect calls (flush_entries up_to cs w)
  unfolding flush_entries
  flush_entries-none up_to w calls [] e on called = record {
    listens = on;
    nothing_waits = refl;
    called = called;
  }
  flush_entries-none up_to w calls (c ∷ cs) e on called = cc

  put_live-empty : (c : LiveCandle D) (cs : List (LiveCandle D)) → cs ≡ [] → put_live c cs ≡ c ∷ []
  unfolding put_live
  put_live-empty c [] e = refl
  put_live-empty c (d ∷ ds) e = cc

  deliver-IsDirect :
      (w : WsSession D) (calls : List (LiveCandle D)) (c : LiveCandle D)
      → c.candle.open_time ≤ℤ latest_time
      → IsDirect calls w
      → IsDirect (calls ++ c ∷ []) (deliver c w)
  unfolding deliver flush_closed flush_closed_up_to
  deliver-IsDirect w calls c h v =
      let P = IsDirect (calls ++ c ∷ []) in
      let waiting = put_live c w.closed_backlog in
      if_split P (not w.has_on_data) _ _ (λ e. absurd (ground (arith, e, v.listens)))
        (λ e.
          if_split P c.is_final _ _
            (λ closed.
              flush_entries-one latest_time (record w { closed_backlog = waiting }) calls waiting c
                (put_live-empty c w.closed_backlog v.nothing_waits) h v.listens v.called)
            (λ still_open.
              let up_to = c.candle.open_time -ℤ w.interval_ms in
              let f =
                flush_entries-none up_to w calls w.closed_backlog v.nothing_waits v.listens
                  v.called in
              record {
                listens = f.listens;
                nothing_waits = f.nothing_waits;
                called =
                    call_on_data-calls (flush_entries up_to w.closed_backlog w) calls c f.listens
                      f.called;
              }))

  deliver_each-IsDirect :
      (w : WsSession D) (calls cs : List (LiveCandle D))
      → All (λ c. c.candle.open_time ≤ℤ latest_time) cs
      → IsDirect calls w
      → IsDirect (calls ++ cs) (deliver_each w cs)
  unfolding deliver_each
  deliver_each-IsDirect w calls [] h v = rw (append-nil calls) v
  deliver_each-IsDirect w calls (c ∷ cs) h v = rw (← append_assoc calls (c ∷ []) cs) (
      deliver_each-IsDirect (deliver c w) (calls ++ c ∷ []) cs h.1
        (deliver-IsDirect w calls c h.0 v))

  -- For a session that has a callback for data and no closed candle waiting: whatever candles come, in
  -- whatever order of their times, as long as these are those of 64 bits, the callback gets each of
  -- them once, in the order in which they came, and no closed candle is left waiting.
  pub deliver_each-order :
      (w : WsSession D) (cs : List (LiveCandle D))
      → w.has_on_data ≡ true
      → w.closed_backlog ≡ []
      → All (λ c. c.candle.open_time ≤ℤ latest_time) cs
      → ((deliver_each w cs).delivered ≡ w.delivered ++ cs)
        × ((deliver_each w cs).closed_backlog ≡ [])
  deliver_each-order w cs on empty h =
      let v =
        deliver_each-IsDirect w w.delivered cs h
          (record { listens = on; nothing_waits = empty; called = refl }) in
      (v.called, v.nothing_waits)
