-- ===== src/WeatherStation/Displays.antt =====
-- The three display classes of 02.observer.cpp.
use sundries.Prelude.{Bool, if◌then◌else◌}
use sundries.Prelude.Int.{ℤ, pos, ◌+ℤ◌}

-- What the code uses of float.
pub record Floats {ℓ} : Type (ℓ + 1) where
  pub float : Type ℓ
  pub add : float → float → float
  pub divide : float → float → float
  pub lt : float → float → Bool
  pub float_eq : float → float → Bool
  pub of_int : ℤ → float
  -- The literals 0.0f, 200 and 29.92f.
  pub zero_point : float
  pub two_hundred : float
  pub first_pressure : float

-- The second half of the line that a ForecastDisplay prints. Of NaN it says nothing.
pub data Forecast : Type 0 where
  improving more_of_the_same cooler_rainy nothing_said : Forecast

module _ {ℓ} (N : Floats {ℓ}) where
  pub data Line : Type ℓ where
    current_line : N.float → N.float → Line
    statistics_line : N.float → N.float → N.float → Line
    forecast_line : Forecast → Line

  -- The fields of the display classes; the first arguments of a line's constructor are printed first.
  pub data Display : Type ℓ where
    current : (temperature humidity : N.float) → Display
    statistics : (max_temp min_temp temp_sum : N.float) (num_readings : ℤ) → Display
    forecast : (current_pressure last_pressure : N.float) → Display

  -- A field that the constructor leaves alone has whatever stood in its place.
  unfoldable pub new_current : N.float → N.float → Display
  new_current t h = current t h

  unfoldable pub new_statistics : ℤ → Display
  new_statistics n = statistics N.zero_point N.two_hundred N.zero_point n

  unfoldable pub new_forecast : N.float → Display
  new_forecast p = forecast N.first_pressure p

  unfoldable pub greater : N.float → N.float → N.float
  greater t m = if N.lt m t then t else m

  unfoldable pub less : N.float → N.float → N.float
  less t m = if N.lt t m then t else m

  -- update, but for the call of display() that ends it.
  unfoldable pub update : N.float → N.float → N.float → Display → Display
  unfolding greater less
  update t h p (current t' h') = current t h
  update t h p (statistics most least sum n) =
      statistics (greater t most) (less t least) (N.add sum t) (n +ℤ pos 1)
  update t h p (forecast c l) = forecast p c

  unfoldable told : N.float → N.float → Forecast
  told c l =
      if N.lt l c
      then improving
      else if N.float_eq c l
      then more_of_the_same
      else if N.lt c l
      then cooler_rainy
      else nothing_said

  unfoldable pub display : Display → Line
  unfolding told
  display (current t h) = current_line t h
  display (statistics most least sum n) = statistics_line (N.divide sum (N.of_int n)) most least
  display (forecast c l) = forecast_line (told c l)
