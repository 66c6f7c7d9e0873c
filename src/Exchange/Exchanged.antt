-- ===== src/Exchange/Exchanged.antt =====
-- What is known of the candles that come from the exchange.
use trading_chart_viewer.Common.{
  ℕ, zero, suc, ◌*◌, ◌/◌, ◌<◌, ◌≡◌, refl, ◌∙◌, Bool, true, false, ◌||◌, Option, none, some, List,
  [], ◌∷◌, ◌++◌, All, All-append, length, back, ltb, ◌==◌, arith, if_all, if_split, if◌then◌else◌,
}
use trading_chart_viewer.Common.Int.{
  ℤ, pos, negsuc, ◌+ℤ◌, ◌-ℤ◌, ◌<ℤ◌, ltb_ℤ, leb_ℤ, max_ℤ, to_int32-IsInt32, IsInt32,
}
use trading_chart_viewer.Common.Double.{DoubleOps}
use trading_chart_viewer.Domain.{Candle, TimeRange, align_down_ms, empty, valid}
use trading_chart_viewer.Domain.Alignment.{align_down_ms-pos, align_down_ms-negsuc_le}
use trading_chart_viewer.Domain.Label.{Text}
use trading_chart_viewer.Exchange.{
  ExchangeGatewayConfig, put_candle, keep_page, cursor_after, page_end, candles_of, first_ok,
  fetch_attempts, fetch_loop, fetch_range,
}
use trading_chart_viewer.Exchange.Pages.{All-put_candle}
use trading_chart_viewer.Exchange.Json.{
  JsonOps, Fields, ◌>>=◌, parse_decimal, read_candle, validate_candle,
}
use trading_chart_viewer.Exchange.Rest.{
  valid_only, singly, candle_of_fields, parse_entry, parse_entries, parse_body, page_of,
  fetch_rest_page, gateway_fetch_range,
}

-- A candle of an interval of `s` milliseconds: it opens at a positive multiple of it, closes at its
-- end, has a count of trades of 32 bits, and its prices are in order.
pub record IsExchanged {D : Type 0} (ops : DoubleOps D) (s : ℕ) (c : Candle D) : Type 0 where
  pub number : ℕ
  pub later : pos 0 <ℤ c.open_time
  pub opens : c.open_time ≡ pos (number * s)
  pub closes : c.close_time ≡ c.open_time +ℤ pos s -ℤ pos 1
  pub counts : IsInt32 c.trades
  pub in_order : validate_candle ops c ≡ true

pub bind_all :
    {A B : Type 0} (P : Option B → Type 0) (o : Option A) (f : A → Option B)
    → P none
    → ((a : A) → P (f a))
    → P (o >>= f)
bind_all P none f h g = h
bind_all P (some a) f h g = g a

-- A time that is aligned to a positive one.
aligned_number :
    (raw : ℤ) (s : ℕ)
    → 0 < s
    → leb_ℤ (align_down_ms raw (pos s)) (pos 0) ≡ false
    → (n : ℕ) × (align_down_ms raw (pos s) ≡ pos (n * s))
aligned_number (pos t) s h e = (t / s, align_down_ms-pos t s h)
aligned_number (negsuc t) s h e = absurd (ground (arith, e, align_down_ms-negsuc_le t (pos s)))

-- What is read for a candle, before its prices are looked at.
pub record IsRead {D : Type 0} (aligned : ℤ) (s : ℕ) (closed : Bool) (c : Candle D) : Type 0 where
  pub opens : c.open_time ≡ aligned
  pub closes : c.close_time ≡ aligned +ℤ pos s -ℤ pos 1
  pub counts : IsInt32 c.trades
  pub same_state : c.is_closed ≡ closed

abbrev pub IsReadIfAny : {D : Type 0} → ℤ → ℕ → Bool → Option (Candle D) → Type 0
IsReadIfAny aligned s closed none = Unit
IsReadIfAny aligned s closed (some c) = IsRead aligned s closed c

abbrev pub AllIfAny : {A : Type 0} → (A → Type 0) → Option (List A) → Type 0
AllIfAny P none = Unit
AllIfAny P (some xs) = All P xs

both :
    {A : Type 0} (P : A → Type 0) (a b : Option (List A))
    → AllIfAny P a
    → AllIfAny P b
    → AllIfAny P (a >>= λ xs. b >>= λ ys. some (xs ++ ys))
both P none b h g = tt
both P (some xs) none h g = tt
both P (some xs) (some ys) h g = All-append P xs ys h g

module _ {D J : Type 0} (ops : DoubleOps D) (json : JsonOps D J) (s : ℕ) (positive : 0 < s) where
  pub read_candle-IsRead :
      (aligned : ℤ) (f : Fields J) (closed : Bool)
      → IsReadIfAny aligned s closed (read_candle json (pos s) aligned f closed)
  unfolding read_candle
  read_candle-IsRead aligned f closed =
      let P = IsReadIfAny aligned s closed in
      bind_all P (parse_decimal json f.opening) _ tt (λ o.
        bind_all P (parse_decimal json f.high) _ tt (λ h.
          bind_all P (parse_decimal json f.low) _ tt (λ l.
            bind_all P (parse_decimal json f.closing) _ tt (λ c.
              bind_all P (parse_decimal json f.volume) _ tt (λ v.
                bind_all P (parse_decimal json f.quote) _ tt (λ q.
                  bind_all P (json.as_int64 f.count) _ tt (λ n. record {
                    opens = refl;
                    closes = refl;
                    counts = to_int32-IsInt32 (max_ℤ n (pos 0));
                    same_state = refl;
                  })))))))

  -- A candle that was read for a positive aligned time, and whose prices are in order.
  pub read-IsExchanged :
      (raw : ℤ) (closed : Bool) (c : Candle D)
      → leb_ℤ (align_down_ms raw (pos s)) (pos 0) ≡ false
      → IsRead (align_down_ms raw (pos s)) s closed c
      → validate_candle ops c ≡ true
      → IsExchanged ops s c
  read-IsExchanged raw closed c e v ok =
      let n = aligned_number raw s positive e in
      record {
        number = n.0;
        later = rw v.opens (ground (arith, e));
        opens = v.opens ∙ n.1;
        closes = rw v.opens v.closes;
        counts = v.counts;
        in_order = ok;
      }

  singly-IsExchanged :
      (raw : ℤ) (closed : Bool) (o : Option (Candle D))
      → leb_ℤ (align_down_ms raw (pos s)) (pos 0) ≡ false
      → IsReadIfAny (align_down_ms raw (pos s)) s closed o
      → AllIfAny (IsExchanged ops s) (singly ops json o)
  unfolding valid_only
  singly-IsExchanged raw closed none e v = tt
  singly-IsExchanged raw closed (some c) e v =
      if_split (All (IsExchanged ops s)) (validate_candle ops c) _ _
        (λ ok. (read-IsExchanged raw closed c e v ok, tt)) (λ bad. tt)

  candle_of_fields-IsExchanged :
      (o : Option (J × Fields J))
      → AllIfAny (IsExchanged ops s) (candle_of_fields ops json (pos s) o)
  unfolding candle_of_fields
  candle_of_fields-IsExchanged none = tt
  candle_of_fields-IsExchanged (some (t, f)) =
      let P = AllIfAny (IsExchanged ops s) in
      bind_all P (json.as_int64 t) _ tt (λ raw.
        let aligned = align_down_ms raw (pos s) in
        if_split P (leb_ℤ aligned (pos 0)) _ _ (λ early. tt)
          (λ e. singly-IsExchanged raw true _ e (read_candle-IsRead aligned f true)))

  parse_entries-IsExchanged :
      (es : List J) → AllIfAny (IsExchanged ops s) (parse_entries ops json (pos s) es)
  unfolding parse_entries parse_entry
  parse_entries-IsExchanged [] = tt
  parse_entries-IsExchanged (e ∷ es) =
      both (IsExchanged ops s) (parse_entry ops json (pos s) e) (parse_entries ops json (pos s) es)
        (candle_of_fields-IsExchanged _) (parse_entries-IsExchanged es)

  page_of-IsExchanged :
      (answer : Option (Bool × Text))
      → AllIfAny (IsExchanged ops s) (page_of ops json (pos s) answer)
  unfolding parse_body
  page_of-IsExchanged none = tt
  page_of-IsExchanged (some (false, body)) = tt
  page_of-IsExchanged (some (true, body)) =
      let P = AllIfAny (IsExchanged ops s) in
      bind_all P (json.parse body) _ tt
        (λ v. bind_all P (json.items v) _ tt (λ es. parse_entries-IsExchanged es))

-- What holds of all candles of all pages holds of all that are fetched.
module _ {D W : Type 0} (P : Candle D → Type 0)
    (fetch_page : W → ℤ → Option ℤ → Option (List (Candle D)) × W)
    (pages : (w : W) (cursor : ℤ) (end : Option ℤ) → AllIfAny P (fetch_page w cursor end).0) where
  keep_page-All :
      (range : TimeRange) (cs page : List (Candle D))
      → All P cs
      → All P page
      → All P (keep_page range cs page)
  unfolding keep_page
  keep_page-All range cs [] h g = h
  keep_page-All range cs (c ∷ page) h g =
      let outside = ltb_ℤ c.open_time range.start || ltb_ℤ range.end c.open_time in
      keep_page-All range (if outside then cs else put_candle c cs) page
        (if_all (All P) outside _ _ h (All-put_candle P c cs g.0 h)) g.1

  first_ok-All :
      (o : Option (List (Candle D))) (w : W) (again : Option (List (Candle D)) × W)
      → AllIfAny P o
      → AllIfAny P again.0
      → AllIfAny P (first_ok fetch_page o w again).0
  first_ok-All none w again h g = g
  first_ok-All (some page) w again h g = h

  fetch_attempts-All :
      (attempts : ℕ) (w : W) (cursor : ℤ) (end : Option ℤ)
      → AllIfAny P (fetch_attempts fetch_page attempts w cursor end).0
  unfolding fetch_attempts
  fetch_attempts-All zero w cursor end = tt
  fetch_attempts-All (suc attempts) w cursor end =
      first_ok-All _ _ _ (pages w cursor end) (fetch_attempts-All attempts _ cursor end)

  candles_of-All : (o : Option (List (Candle D))) → AllIfAny P o → All P (candles_of fetch_page o)
  candles_of-All none h = tt
  candles_of-All (some page) h = h

  fetch_loop-All :
      (range : TimeRange) (interval : ℤ) (limit attempts fuel : ℕ) (w : W) (cursor : ℤ)
      (cs : List (Candle D))
      → All P cs
      → All P (fetch_loop fetch_page range interval limit attempts fuel w cursor cs).0
  unfolding fetch_loop
  fetch_loop-All range interval limit attempts zero w cursor cs h = h
  fetch_loop-All range interval limit attempts (suc fuel) w cursor cs h =
      let end = page_end interval limit range.end cursor in
      let fetched = fetch_attempts fetch_page attempts w cursor end in
      let page = candles_of fetch_page fetched.0 in
      let kept =
        keep_page-All range cs page h
          (candles_of-All fetched.0 (fetch_attempts-All attempts w cursor end)) in
      let Q = λ (x : List (Candle D) × W). All P x.0 in
      if_all Q (ltb_ℤ range.end cursor) _ _ h (
        if_all Q (length page == 0) _ _ h (
          if_all Q (ltb (length page) limit) _ _ kept (
            fetch_loop-All range interval limit attempts fuel fetched.1
              (cursor_after interval cursor (back page)) (keep_page range cs page) kept)))

  fetch_range-All :
      (cfg : ExchangeGatewayConfig) (w : W) (interval : ℤ) (range : TimeRange) (limit : ℕ)
      → All P (fetch_range fetch_page cfg w interval range limit).0
  unfolding fetch_range
  fetch_range-All cfg w interval range limit =
      let Q = λ (x : List (Candle D) × W). All P x.0 in
      if_all Q (empty range) _ _ tt
        (if_all Q (valid interval) _ _ (fetch_loop-All range interval _ _ _ w range.start [] tt) tt)

-- For an interval of a positive number of milliseconds, whatever the exchange answers, what its
-- texts read as, and whatever fails: each candle that is fetched opens at a positive multiple of the
-- interval, closes at its end, has a count of trades of 32 bits, and passes the test of its prices.
pub gateway_fetch_range-IsExchanged :
    {D J W : Type 0} (ops : DoubleOps D) (json : JsonOps D J)
    (http : W → Text → Option (Bool × Text) × W) (cfg : ExchangeGatewayConfig) (w : W)
    (symbol : Text) (s : ℕ) (range : TimeRange) (limit : ℕ)
    → 0 < s
    → All (IsExchanged ops s) (gateway_fetch_range ops json http cfg w symbol (pos s) range limit).0
unfolding gateway_fetch_range fetch_rest_page
gateway_fetch_range-IsExchanged ops json http cfg w symbol s range limit h =
    fetch_range-All (IsExchanged ops s) _ (λ x cursor end. page_of-IsExchanged ops json s h _) cfg w
      (pos s) range limit
