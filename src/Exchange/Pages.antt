-- ===== src/Exchange/Pages.antt =====
-- What the pages add up to.
use trading_chart_viewer.Common.{
  ℕ, zero, suc, ◌≤◌, ◌≡◌, refl, ap, true, ◌||◌, Option, none, some, List, [], ◌∷◌, All, length,
  back, ltb, ◌==◌, arith, if◌then◌else◌, Bool-cases, inl, inr,
}
use trading_chart_viewer.Common.Int.{
  ℤ, pos, pos_part, ◌+ℤ◌, ◌-ℤ◌, ◌<ℤ◌, ◌≤ℤ◌, ltb_ℤ, leb_ℤ, ◌==ℤ◌, int_laws, max_ℤ, lt→ltb_ℤ,
}
use trading_chart_viewer.Domain.{Candle, TimeRange, empty, valid}
use trading_chart_viewer.Exchange.{
  ExchangeGatewayConfig, put_candle, keep_page, cursor_after, page_end, candles_of, fetch_attempts,
  fetch_loop, effective_limit, rounds, fetch_range,
}

abbrev pub Ascending : {D : Type 0} → List (Candle D) → Type 0
Ascending [] = Unit
Ascending (c ∷ cs) = All (λ d. c.open_time <ℤ d.open_time) cs × Ascending cs

abbrev pub Within : {D : Type 0} → TimeRange → Candle D → Type 0
Within range c = (range.start ≤ℤ c.open_time) × (c.open_time ≤ℤ range.end)

-- The candles ascend, each time once, and lie in the range.
pub record IsOrdered {D : Type 0} (range : TimeRange) (cs : List (Candle D)) : Type 0 where
  pub ascending : Ascending cs
  pub within : All (Within range) cs

module _ {D : Type 0} where
  pub All-put_candle :
      (P : Candle D → Type 0) (c : Candle D) (cs : List (Candle D))
      → P c
      → All P cs
      → All P (put_candle c cs)
  unfolding put_candle
  All-put_candle P c [] h g = (h, tt)
  All-put_candle P c (d ∷ ds) h g = elim (Bool-cases (ltb_ℤ c.open_time d.open_time)) [
    | inl e ↦ rw e (h, g)
    | inr e ↦ rw e (elim (Bool-cases (c.open_time ==ℤ d.open_time)) [
      | inl f ↦ rw f (h, g.1)
      | inr f ↦ rw f (g.0, All-put_candle P c ds h g.1)
    ])
  ]

  All-after :
      (a b : ℤ) (cs : List (Candle D))
      → a ≤ℤ b
      → All (λ d. b <ℤ d.open_time) cs
      → All (λ d. a <ℤ d.open_time) cs
  All-after a b [] h g = tt
  All-after a b (c ∷ cs) h g = (omega (arith, h, g.0), All-after a b cs h g.1)

  Ascending-put_candle :
      (c : Candle D) (cs : List (Candle D)) → Ascending cs → Ascending (put_candle c cs)
  unfolding put_candle
  Ascending-put_candle c [] h = (tt, tt)
  Ascending-put_candle c (d ∷ ds) h = elim (Bool-cases (ltb_ℤ c.open_time d.open_time)) [
    | inl e ↦
        rw e ((ground (arith, e), All-after c.open_time d.open_time ds (ground (arith, e)) h.0), h)
    | inr e ↦ rw e (elim (Bool-cases (c.open_time ==ℤ d.open_time)) [
      | inl f ↦ rw f (All-after c.open_time d.open_time ds (ground (arith, f)) h.0, h.1)
      | inr f ↦ rw f (
        All-put_candle (λ x. d.open_time <ℤ x.open_time) c ds (ground (arith, e, f)) h.0,
        Ascending-put_candle c ds h.1,
      )
    ])
  ]

  keep_page-IsOrdered :
      (range : TimeRange) (ordered page : List (Candle D))
      → IsOrdered range ordered
      → IsOrdered range (keep_page range ordered page)
  unfolding keep_page
  keep_page-IsOrdered range ordered [] v = v
  keep_page-IsOrdered range ordered (c ∷ cs) v =
      elim (Bool-cases (ltb_ℤ c.open_time range.start || ltb_ℤ range.end c.open_time)) [
        | inl e ↦ rw e (keep_page-IsOrdered range ordered cs v)
        | inr e ↦ rw e (
            keep_page-IsOrdered range (put_candle c ordered) cs (record {
              ascending = Ascending-put_candle c ordered v.ascending;
              within =
                  All-put_candle (Within range) c ordered (ground (arith, e), ground (arith, e))
                    v.within;
            }))
      ]

module _ {D W : Type 0} (fetch_page : W → ℤ → Option ℤ → Option (List (Candle D)) × W)
    (range : TimeRange) (interval : ℤ) (limit attempts : ℕ) where
  fetch_loop-IsOrdered :
      (fuel : ℕ) (w : W) (cursor : ℤ) (ordered : List (Candle D))
      → IsOrdered range ordered
      → IsOrdered range
          (fetch_loop fetch_page range interval limit attempts fuel w cursor ordered).0
  unfolding fetch_loop
  fetch_loop-IsOrdered zero w cursor ordered v = v
  fetch_loop-IsOrdered (suc fuel) w cursor ordered v =
      let fetched =
        fetch_attempts fetch_page attempts w cursor (page_end interval limit range.end cursor) in
      let page = candles_of fetch_page fetched.0 in
      let kept = keep_page range ordered page in
      let kept_ordered = keep_page-IsOrdered range ordered page v in
      elim (Bool-cases (ltb_ℤ range.end cursor)) [
        | inl a ↦ rw a v
        | inr a ↦ rw a (elim (Bool-cases (length page == 0)) [
          | inl b ↦ rw b v
          | inr b ↦ rw b (elim (Bool-cases (ltb (length page) limit)) [
            | inl d ↦ rw d kept_ordered
            | inr d ↦ rw d (
                fetch_loop-IsOrdered fuel fetched.1 (cursor_after interval cursor (back page)) kept
                  kept_ordered)
          ])
        ])
      ]

  cursor_after-later :
      (cursor : ℤ) (o : Option (Candle D))
      → pos 0 <ℤ interval
      → cursor <ℤ cursor_after interval cursor o
  unfolding cursor_after
  cursor_after-later cursor none p = omega (int_laws, p)
  cursor_after-later cursor (some c) p = elim (Bool-cases (leb_ℤ c.open_time cursor)) [
    | inl e ↦ rw e (omega (int_laws, p))
    | inr e ↦
        let after : cursor <ℤ c.open_time = ground (arith, e) in rw e (omega (int_laws, p, after))
  ]

  behind : (cursor : ℤ) → range.end +ℤ pos 1 ≤ℤ cursor +ℤ pos 0 → ltb_ℤ range.end cursor ≡ true
  behind cursor h = lt→ltb_ℤ range.end cursor (omega (int_laws, h))

  -- Two numbers of rounds that both reach the end give the same.
  fetch_loop-agree :
      (fuel other : ℕ) (w : W) (cursor : ℤ) (ordered : List (Candle D))
      → pos 0 <ℤ interval
      → range.end +ℤ pos 1 ≤ℤ cursor +ℤ pos fuel
      → range.end +ℤ pos 1 ≤ℤ cursor +ℤ pos other
      → fetch_loop fetch_page range interval limit attempts fuel w cursor ordered
        ≡ fetch_loop fetch_page range interval limit attempts other w cursor ordered
  unfolding fetch_loop
  fetch_loop-agree zero zero w cursor ordered p h g = refl
  fetch_loop-agree zero (suc other) w cursor ordered p h g = rw (behind cursor h) refl
  fetch_loop-agree (suc fuel) zero w cursor ordered p h g = rw (behind cursor g) refl
  fetch_loop-agree (suc fuel) (suc other) w cursor ordered p h g =
      let fetched =
        fetch_attempts fetch_page attempts w cursor (page_end interval limit range.end cursor) in
      let page = candles_of fetch_page fetched.0 in
      let kept = keep_page range ordered page in
      let next = cursor_after interval cursor (back page) in
      let later = cursor_after-later cursor (back page) p in
      ap
        (λ (more : List (Candle D) × W).
          if ltb_ℤ range.end cursor
          then (ordered, w)
          else if length page == 0
          then (ordered, fetched.1)
          else if ltb (length page) limit
          then (kept, fetched.1)
          else more)
        (fetch_loop-agree fuel other fetched.1 next kept p (omega (int_laws, h, later))
          (omega (int_laws, g, later)))

  -- With a positive interval the loop ends: whatever the exchange answers, more rounds than the
  -- range has milliseconds give the same result and leave the same state as that many.
  pub fetch_loop-rounds :
      (fuel : ℕ) (w : W) (ordered : List (Candle D))
      → pos 0 <ℤ interval
      → rounds range ≤ fuel
      → fetch_loop fetch_page range interval limit attempts fuel w range.start ordered
        ≡ fetch_loop fetch_page range interval limit attempts (rounds range) w range.start ordered
  unfolding rounds
  fetch_loop-rounds fuel w ordered p h =
      let enough : range.end +ℤ pos 1
          ≤ℤ range.start +ℤ pos (pos_part (range.end +ℤ pos 1 -ℤ range.start)) =
        omega int_laws in
      fetch_loop-agree fuel (pos_part (range.end +ℤ pos 1 -ℤ range.start)) w range.start ordered p
        (omega (int_laws, enough, h)) enough

-- Whatever the exchange answers, the candles of a range ascend in time, each time once, and lie in
-- the range.
pub fetch_range-IsOrdered :
    {D W : Type 0} (fetch_page : W → ℤ → Option ℤ → Option (List (Candle D)) × W)
    (cfg : ExchangeGatewayConfig) (w : W) (interval : ℤ) (range : TimeRange) (limit : ℕ)
    → IsOrdered range (fetch_range fetch_page cfg w interval range limit).0
unfolding fetch_range
fetch_range-IsOrdered {D = D} fetch_page cfg w interval range limit =
    let nothing : IsOrdered {D = D} range [] = record { ascending = tt; within = tt } in
    elim (Bool-cases (empty range)) [
      | inl e ↦ rw e nothing
      | inr e ↦ rw e (elim (Bool-cases (valid interval)) [
        | inl v ↦ rw v (
            fetch_loop-IsOrdered fetch_page range interval (effective_limit cfg limit)
              (suc (pos_part (max_ℤ cfg.max_retries (pos 0)))) (rounds range) w range.start []
              nothing)
        | inr v ↦ rw v nothing
      ])
    ]
