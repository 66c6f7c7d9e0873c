-- ===== src/Storage/Repository/Storable.antt =====
-- The candles that go through the data file unchanged.
use trading_chart_viewer.Common.{
  zero, if◌then◌else◌, ℕ, suc, ◌*◌, ◌/◌, ◌<◌, ◌≡◌, refl, ap, sym, ◌∙◌, true, false, arith,
}
use trading_chart_viewer.Common.Int.{
  ℤ, pos, negsuc, pos_part, ◌+ℤ◌, ◌-ℤ◌, ◌≤ℤ◌, ◌<ℤ◌, ltb_ℤ, max_ℤ, int_laws, lt→ltb_ℤ, lt→leb_ℤ,
  ge→ltb_ℤ,
}
use trading_chart_viewer.Common.Double.{DoubleOps}
use trading_chart_viewer.Core.{TimeUtils, IsTimeUtils}
use trading_chart_viewer.Domain.{Candle, align_down_ms}
use trading_chart_viewer.Domain.Alignment.{
  align_down_ms-idempotent, align_down_ms_nonpos, align_down_ms-pos, align_down_ms-negsuc_le,
  align_down_ms-multiple,
}
use trading_chart_viewer.Storage.Record.{
  PriceData, is_valid_record, is_empty, strncpy, normalize_record,
}
use trading_chart_viewer.Storage.Repository.Interval.{parse_interval_ms}
use trading_chart_viewer.Storage.Repository.State.{
  Layout, to_candle, to_price_data, normalize_candle, close_of,
}

-- An interval of `k` minutes, with a symbol and a label that the record's arrays can hold.
pub record IsLayout (u : TimeUtils) (k : ℕ) (l : Layout) : Type 0 where
  pub some_minutes : 0 < k
  pub minutes : l.interval_ms ≡ pos (k * 60_000)
  pub has_symbol : is_empty (strncpy 15 l.symbol) ≡ false
  pub has_label : is_empty (strncpy 7 l.interval_label) ≡ false
  pub reads_back : parse_interval_ms u (strncpy 7 l.interval_label) ≡ l.interval_ms

-- A candle as the repository keeps it: it opens at a positive multiple of the interval.
pub record IsStorable {D : Type 0} (k : ℕ) (c : Candle D) : Type 0 where
  pub number : ℕ
  pub later : 0 < number
  pub opens : c.open_time ≡ pos (number * (k * 60_000))
  pub closes : c.close_time ≡ c.open_time +ℤ pos (k * 60_000) -ℤ pos 1
  pub counts : pos 0 ≤ℤ c.trades

factor_pos : (a b : ℕ) → 0 < a * b → 0 < a
factor_pos zero b h = absurd (omega arith)
factor_pos (suc a) b h = omega arith

valid-open_time : {D : Type 0} (r : PriceData D) → is_valid_record r ≡ true → pos 0 <ℤ r.open_time
unfolding is_valid_record
valid-open_time r h = ground arith

-- The record of a candle as it stands in the file.
unfoldable pub disk_record :
    {D : Type 0} → TimeUtils → DoubleOps D → Layout → Candle D → PriceData D
disk_record u ops l c = normalize_record u (to_price_data ops l c)

module _ {D : Type 0} (u : TimeUtils) (times : IsTimeUtils u) (ops : DoubleOps D) (k : ℕ)
    (l : Layout) (good : IsLayout u k l) where
  step_pos : 0 < k * 60_000
  step_pos = omega (arith, good.some_minutes)

  aligned : (c : Candle D) → IsStorable k c → align_down_ms c.open_time l.interval_ms ≡ c.open_time
  aligned c s = rw (s.opens, good.minutes) (align_down_ms-multiple s.number (k * 60_000) step_pos)

  pub to_price_data-open_time :
      (c : Candle D) → IsStorable k c → (to_price_data ops l c).open_time ≡ c.open_time
  unfolding to_price_data
  to_price_data-open_time c s = aligned c s

  floor-open : (c : Candle D) → IsStorable k c → u.floor_to_minute_ms c.open_time ≡ c.open_time
  floor-open c s = rw s.opens (times.floors (s.number * (k * 60_000)) ∙ ap pos (grind arith))

  floor_of-record :
      (c : Candle D)
      → IsStorable k c
      → u.floor_to_minute_ms (to_price_data ops l c).open_time ≡ c.open_time
  floor_of-record c s = ap u.floor_to_minute_ms (to_price_data-open_time c s) ∙ floor-open c s

  number_pos : (c : Candle D) → (s : IsStorable k c) → 0 < s.number * (k * 60_000)
  number_pos c s = let p = step_pos in let q = s.later in grind arith

  open_pos : (c : Candle D) → IsStorable k c → pos 0 <ℤ c.open_time
  open_pos c s = rw s.opens (omega (arith, number_pos c s))

  pub disk_record_lem :
      (c : Candle D)
      → IsStorable k c
      → disk_record u ops l c ≡ record (to_price_data ops l c) {
        open_time = c.open_time;
        close_time = c.open_time +ℤ pos 60_000 -ℤ pos 1;
      }
  unfolding disk_record normalize_record
  disk_record_lem c s =
      rw (floor_of-record c s, times.minute, lt→leb_ℤ c.open_time (pos 0) (open_pos c s)) refl

  pub disk_record-open_time :
      (c : Candle D) → IsStorable k c → (disk_record u ops l c).open_time ≡ c.open_time
  disk_record-open_time c s = rw (disk_record_lem c s)

  ends_later :
      (n : ℕ) (c : Candle D) → IsStorable k c → 0 < n → pos 0 <ℤ c.open_time +ℤ pos n -ℤ pos 1
  ends_later n c s h = omega (int_laws, open_pos c s)

  closes_at : (c : Candle D) → IsStorable k c → close_of c.open_time l.interval_ms ≡ c.close_time
  unfolding close_of
  closes_at c s =
      rw
        (
          lt→ltb_ℤ (pos 0) c.open_time (open_pos c s),
          good.minutes,
          lt→ltb_ℤ (pos 0) (pos (k * 60_000)) (omega (arith, step_pos)),
        )
        (sym s.closes)

  pub disk_record-valid :
      (c : Candle D) → IsStorable k c → is_valid_record (disk_record u ops l c) ≡ true
  unfolding is_valid_record to_price_data
  disk_record-valid c s =
      rw
        (
          disk_record_lem c s,
          good.has_symbol,
          good.has_label,
          lt→ltb_ℤ _ _ (open_pos c s),
          lt→ltb_ℤ _ _ (ends_later 60_000 c s (omega arith)),
        )
        refl

  close_pos : (c : Candle D) → IsStorable k c → pos 0 <ℤ c.close_time
  close_pos c s = rw s.closes (ends_later (k * 60_000) c s step_pos)

  pub to_price_data-valid :
      (c : Candle D) → IsStorable k c → is_valid_record (to_price_data ops l c) ≡ true
  unfolding is_valid_record to_price_data
  to_price_data-valid c s =
      rw
        (
          aligned c s,
          closes_at c s,
          good.has_symbol,
          good.has_label,
          lt→ltb_ℤ _ _ (open_pos c s),
          lt→ltb_ℤ _ _ (close_pos c s),
        )
        refl

  counts_same : (c : Candle D) → IsStorable k c → max_ℤ c.trades (pos 0) ≡ c.trades
  unfolding max_ℤ
  counts_same c s = rw (ge→ltb_ℤ c.trades (pos 0) s.counts) refl

  -- Reading a stored record gives the candle back, closed.
  pub to_candle-disk_record :
      (c : Candle D)
      → IsStorable k c
      → to_candle l (disk_record u ops l c) ≡ record c { is_closed = true }
  unfolding to_candle to_price_data
  to_candle-disk_record c s =
      rw (disk_record_lem c s, aligned c s, closes_at c s, counts_same c s) refl

  -- A time that is aligned to a positive time is aligned to a positive multiple.
  aligned_number :
      (t : ℤ)
      → let step = pos (k * 60_000) in
        pos 0 <ℤ align_down_ms (align_down_ms t step) step
        → (j : ℕ) × (0 < j) × (align_down_ms t step ≡ pos (j * (k * 60_000)))
  aligned_number (pos t) h =
      let step = k * 60_000 in (t / step, quotient_pos, align_down_ms-pos t step step_pos)
    where
      quotient_pos : 0 < t / (k * 60_000)
      quotient_pos =
          factor_pos (t / (k * 60_000)) (k * 60_000)
            (omega (arith, ap pos_part (align_down_ms-idempotent t (k * 60_000) step_pos), h))
  aligned_number (negsuc t) h =
      let step = pos (k * 60_000) in
      absurd (
        omega (
          arith,
          align_down_ms_nonpos (align_down_ms (negsuc t) step) step
              (align_down_ms-negsuc_le t step),
        ))

  normalize_candle_lem :
      (c : Candle D)
      → let aligned_open = align_down_ms c.open_time (pos (k * 60_000)) in
        normalize_candle l c ≡ record c {
          open_time = aligned_open;
          close_time =
              if ltb_ℤ (pos 0) aligned_open
              then aligned_open +ℤ pos (k * 60_000) -ℤ pos 1
              else pos 0;
        }
  unfolding normalize_candle
  normalize_candle_lem c =
      rw (good.minutes, lt→ltb_ℤ (pos 0) (pos (k * 60_000)) (omega (arith, step_pos))) refl

  normalized_later :
      (c : Candle D)
      → is_valid_record (to_price_data ops l (normalize_candle l c)) ≡ true
      → let step = pos (k * 60_000) in pos 0 <ℤ align_down_ms (align_down_ms c.open_time step) step
  unfolding to_price_data
  normalized_later c v = rw (normalize_candle_lem c, good.minutes) at (valid-open_time _ v)

  open_later : (t : ℤ) (j : ℕ) → 0 < j → t ≡ pos (j * (k * 60_000)) → pos 0 <ℤ t
  open_later t j p e = let q = step_pos in rw e (grind arith)

  -- A candle that normalising makes valid is storable.
  pub normalize_candle-IsStorable :
      (c : Candle D)
      → pos 0 ≤ℤ c.trades
      → is_valid_record (to_price_data ops l (normalize_candle l c)) ≡ true
      → IsStorable k (normalize_candle l c)
  normalize_candle-IsStorable c h v =
      let (j, later, opens) = aligned_number c.open_time (normalized_later c v) in
      rw (normalize_candle_lem c, lt→ltb_ℤ (pos 0) _ (open_later _ j later opens))
        (record { number = j; later = later; opens = opens; closes = refl; counts = h })
