-- ===== src/WeatherStation/Tests.antt =====
-- The calls of main, on whole numbers in place of floats.
use sundries.Prelude.{
  ℕ, ◌+◌, ◌≡◌, refl, true, false, Option, some, none, List, [], ◌∷◌, ltb, ◌==◌, ◌>>=◌, arith,
}
use sundries.Prelude.Int.{ℤ, pos, pos_part, ◌+ℤ◌}
use Prim.Native.Nat.{◌/◌}
use sundries.WeatherStation.Displays.{
  Floats, Line, current_line, statistics_line, forecast_line, cooler_rainy, more_of_the_same,
  improving, current, statistics, forecast, new_current, new_statistics, new_forecast, update,
  display,
}
use sundries.WeatherStation.Subject.{
  Station, set_measurements, make_display, reset, remove_observer, register_observer,
}
use sundries.WeatherStation.Notified.{AllAlive, AllUpdated, set_measurements-updated}
use sundries.WeatherStation.Extremes.{
  Among, NoneBefore, hotter, updates, temperatures, statistics_extremes,
}

abbrev whole : Floats {0}
whole = record {
  float = ℕ;
  add = λ a b. a + b;
  divide = λ a b. a / b;
  lt = ltb;
  float_eq = ◌==◌;
  of_int = pos_part;
  zero_point = 0;
  two_hundred = 200;
  first_pressure = 30;
}

abbrev no_displays : Station whole
no_displays = record {
  subject = record { observers = []; temperature = 0; humidity = 0; pressure = 0 };
  displays = [];
  printed = [];
}

-- The last display is registered a second time, and so is a null pointer.
abbrev three_displays : Station whole
three_displays =
    let w = make_display whole (new_forecast whole 0) (
      make_display whole (new_statistics whole (pos 0))
        (make_display whole (new_current whole 0 0) no_displays)) in
    record w { subject = register_observer whole none (register_observer whole (some 2) w.subject) }

abbrev lines_of : Option (Station whole) → List (Line whole)
lines_of none = []
lines_of (some w) = w.printed

measurements_test :
    lines_of (set_measurements whole 80 65 31 three_displays >>= set_measurements whole 82 70 29)
    ≡ current_line 80 65
      ∷ statistics_line 80 80 80
      ∷ forecast_line improving
      ∷ forecast_line more_of_the_same
      ∷ current_line 82 70
      ∷ statistics_line 81 82 80
      ∷ forecast_line cooler_rainy
      ∷ forecast_line more_of_the_same
      ∷ []
unfolding set_measurements make_display register_observer new_forecast new_statistics new_current
    update display ◌+ℤ◌
measurements_test = refl

-- As after the end of main, if there was another measurement.
destroyed_test : set_measurements whole 78 90 29 (reset whole 1 three_displays) ≡ none
unfolding set_measurements reset make_display register_observer new_forecast new_statistics
    new_current
destroyed_test = refl

-- If the display had been removed first.
removed_test :
    lines_of (
      set_measurements whole 78 90 29 (
        let w = reset whole 1 (reset whole 2 three_displays) in
        record w {
          subject = remove_observer whole (some 2) (remove_observer whole (some 1) w.subject);
        }))
    ≡ current_line 78 90 ∷ []
unfolding set_measurements reset remove_observer make_display register_observer new_forecast
    new_statistics new_current update display
removed_test = refl

three_alive : AllAlive whole three_displays.subject.observers three_displays.displays
unfolding make_display register_observer new_forecast new_statistics new_current
three_alive = (
  (current 0 0, refl),
  ((statistics 0 200 0 (pos 0), refl), ((forecast 30 0, refl), ((forecast 30 0, refl), tt))),
)

set_measurements-updated_example :
    (w' : Station whole) × (set_measurements whole 80 65 31 three_displays ≡ some w')
    × AllUpdated whole 80 65 31 three_displays.subject.observers three_displays w'
set_measurements-updated_example =
    set_measurements-updated whole 80 65 31 three_displays three_alive

ltb_irreflexive : (x : ℕ) → ltb x x ≡ false
ltb_irreflexive x = ground arith

ltb_transitive : (x y z : ℕ) → ltb x y ≡ true → ltb y z ≡ true → ltb x z ≡ true
ltb_transitive x y z h k = ground arith

abbrev of_main : List (ℕ × ℕ × ℕ)
of_main = (80, 65, 30) ∷ (82, 70, 29) ∷ (78, 90, 29) ∷ []

statistics_extremes_example :
    (m l s : ℕ) × (k : ℤ) × (updates whole of_main (new_statistics whole (pos 0))
      ≡ statistics m l s k)
    × NoneBefore (hotter whole) m (0 ∷ temperatures whole of_main)
    × Among m 0 (temperatures whole of_main)
    × NoneBefore ltb l (200 ∷ temperatures whole of_main)
    × Among l 200 (temperatures whole of_main)
statistics_extremes_example =
    statistics_extremes whole of_main (pos 0) ltb_irreflexive ltb_transitive
