-- ===== src/Exchange/Json.antt =====
-- What the gateway uses of the library for JSON and of `std::stod`, as an argument, and a candle that
-- it reads with them. `none` is an exception.
use trading_chart_viewer.Common.{Bool, true, false, Option, none, some, List, if◌then◌else◌}
use trading_chart_viewer.Common.Int.{ℤ, pos, ◌+ℤ◌, ◌-ℤ◌, max_ℤ, to_int32}
use trading_chart_viewer.Common.Double.{DoubleOps}
use trading_chart_viewer.Domain.{Candle}
use trading_chart_viewer.Domain.Label.{Text}

-- `items` are the elements of a value that is an array, and `is_object` is whether it is an object.
pub record JsonOps (D J : Type 0) : Type 0 where
  pub parse : Text → Option J
  pub items : J → Option (List J)
  pub is_object : J → Bool
  pub if_contains : J → Text → Option J
  pub as_string : J → Option Text
  pub as_int64 : J → Option ℤ
  pub as_bool : J → Option Bool
  pub stod : Text → Option D

infixl 5 ◌>>=◌
abbrev pub ◌>>=◌ : {A B : Type 0} → Option A → (A → Option B) → Option B
none >>= f = none
some a >>= f = f a

module _ {D : Type 0} (ops : DoubleOps D) where
  -- 1e-9.
  abbrev price_epsilon : D
  price_epsilon = ops.div (ops.of_int (pos 1)) (ops.of_int (pos 1_000_000_000))

  -- `std::min` and `std::max`.
  abbrev min_of : D → D → D
  min_of a b = if ops.lt b a then b else a

  abbrev max_of : D → D → D
  max_of a b = if ops.lt a b then b else a

  unfoldable pub validate_candle : Candle D → Bool
  validate_candle c =
      if ops.lt price_epsilon (ops.sub c.low (min_of c.open_price c.close))
      then false
      else if ops.lt price_epsilon (ops.sub (max_of c.open_price c.close) c.high)
      then false
      else if ops.lt price_epsilon (ops.sub c.low c.high)
      then false
      else true

-- The values that a candle is read from.
pub record Fields (J : Type 0) : Type 0 where
  pub opening : J
  pub high : J
  pub low : J
  pub closing : J
  pub volume : J
  pub quote : J
  pub count : J

module _ {D J : Type 0} (json : JsonOps D J) where
  unfoldable pub parse_decimal : J → Option D
  parse_decimal v = do text ← json.as_string v; json.stod text

  -- A candle of the interval that opens at an aligned time.
  unfoldable pub read_candle : ℤ → ℤ → Fields J → Bool → Option (Candle D)
  unfolding parse_decimal max_ℤ to_int32
  read_candle interval aligned f closed = do
    opening ← parse_decimal f.opening
    high ← parse_decimal f.high
    low ← parse_decimal f.low
    closing ← parse_decimal f.closing
    volume ← parse_decimal f.volume
    quote ← parse_decimal f.quote
    count ← json.as_int64 f.count
    some (record {
      open_time = aligned;
      close_time = aligned +ℤ interval -ℤ pos 1;
      open_price = opening;
      high = high;
      low = low;
      close = closing;
      base_volume = volume;
      quote_volume = quote;
      trades = to_int32 (max_ℤ count (pos 0));
      is_closed = closed;
    })
