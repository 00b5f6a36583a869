-- ===== src/WeatherStation/Subject.antt =====
-- WeatherData of 02.observer.cpp, and the displays that it points to.
use sundries.Prelude.{
  ℕ, Bool, true, false, Option, none, some, List, [], ◌∷◌, ◌++◌, if◌then◌else◌, ◌==◌, ◌>>=◌,
  get_elem?, set, length,
}
use sundries.WeatherStation.Displays.{Floats, Line, Display, update, display}

-- A pointer to a display is its place among those ever made, a null one is `none`.
abbrev pub same_pointer : Option ℕ → Option ℕ → Bool
same_pointer none none = true
same_pointer none (some b) = false
same_pointer (some a) none = false
same_pointer (some a) (some b) = a == b

module _ {ℓ} (N : Floats {ℓ}) where
  pub record WeatherData : Type ℓ where
    pub observers : List (Option ℕ)
    pub temperature : N.float
    pub humidity : N.float
    pub pressure : N.float

  -- `displays` has `none` for a display that was destroyed; the pointer to it stays registered, since it
  -- does not own the display. `printed` are the lines of display().
  pub record Station : Type ℓ where
    pub subject : WeatherData
    pub displays : List (Option (Display N))
    pub printed : List (Line N)

  unfoldable pub register_observer : Option ℕ → WeatherData → WeatherData
  register_observer o d = record d { observers = d.observers ++ o ∷ [] }

  abbrev remove_all : Option ℕ → List (Option ℕ) → List (Option ℕ)
  remove_all o [] = []
  remove_all o (x ∷ xs) = let rest = remove_all o xs in if same_pointer x o then rest else x ∷ rest

  unfoldable pub remove_observer : Option ℕ → WeatherData → WeatherData
  remove_observer o d = record d { observers = remove_all o d.observers }

  -- `none` where a destroyed display is updated.
  abbrev pub update_at : ℕ → Option (Option (Display N)) → Station → Option Station
  update_at a none w = none
  update_at a (some none) w = none
  update_at a (some (some d)) w =
      let d' = update N w.subject.temperature w.subject.humidity w.subject.pressure d in
      some (record w {
        displays = set w.displays a (some d');
        printed = w.printed ++ display N d' ∷ [];
      })

  abbrev pub notify : List (Option ℕ) → Station → Option Station
  notify [] w = some w
  notify (none ∷ os) w = notify os w
  notify (some a ∷ os) w = update_at a (get_elem? w.displays a) w >>= notify os

  unfoldable notify_observers : Station → Option Station
  notify_observers w = notify w.subject.observers w

  unfoldable pub set_measurements : N.float → N.float → N.float → Station → Option Station
  unfolding notify_observers
  set_measurements temp humi press w = notify_observers (record w {
    subject = record w.subject { temperature = temp; humidity = humi; pressure = press };
  })

  -- make_shared of a display, whose constructor registers it.
  unfoldable pub make_display : Display N → Station → Station
  unfolding register_observer
  make_display d w = record w {
    subject = register_observer (some (length w.displays)) w.subject;
    displays = w.displays ++ some d ∷ [];
  }

  unfoldable pub reset : ℕ → Station → Station
  reset a w = record w { displays = set w.displays a none }
