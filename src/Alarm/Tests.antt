-- ===== src/Alarm/Tests.antt =====
-- Runs of the alarm at concrete times.
use cpeclock.Base.{
  ◌+◌, ◌*◌, ◌≡◌, refl, arith, [], ◌∷◌, ◌++◌, map, replicate, ltb, if◌then◌else◌, u16,
}
use cpeclock.Hal.{Hal, cells, cells-IsMemory}
use cpeclock.Alarm.{
  Alarm, disabled, enabled, active, search_region, in_active_region, alarm_set, save_to_nvram,
  alarm_sounds_for,
}
use cpeclock.Alarm.Region.{minutes_since, time_of_day, in_active_region_lem}
use cpeclock.Alarm.Update.{IsValid}
use cpeclock.Alarm.Persist.{Saved, save_to_nvram-Saved}
use cpeclock.Alarm.Cycle.{run, Gives, Inside, Outside, at, position, alarm_cycle}

abbrev blank : Hal cells
blank = record { mem = λ a. 0xff; out = [] }

abbrev morning : Alarm
morning = record { time = 450; state = enabled }

-- Five minutes before midnight.
abbrev late : Alarm
late = record { time = 1435; state = active }

morning-IsValid : IsValid morning
morning-IsValid = record { within_day = omega arith; known_state = λ e. cc }

abbrev saved : Hal cells
saved = save_to_nvram morning blank

saved-Saved : Saved morning saved
saved-Saved = save_to_nvram-Saved cells-IsMemory morning blank (omega arith)

late_positions :
    map (in_active_region late) (1434 ∷ 1435 ∷ 1439 ∷ 0 ∷ 4 ∷ 5 ∷ []) ≡ 0 ∷ 1 ∷ 5 ∷ 6 ∷ 10 ∷ 0 ∷ []
unfolding in_active_region search_region
late_positions = refl

in_active_region_lem_example :
    in_active_region late 3
    ≡ (let d = minutes_since (time_of_day 1435) 3 in if ltb d alarm_sounds_for then d + 1 else 0)
in_active_region_lem_example = in_active_region_lem late 3 (omega arith)

positions :
    map (position 450) ((7, 31) ∷ (7, 45) ∷ (23, 0) ∷ (7, 30) ∷ (7, 39) ∷ (7, 40) ∷ [])
    ≡ 2 ∷ 0 ∷ 0 ∷ 1 ∷ 10 ∷ 0 ∷ []
unfolding in_active_region search_region
positions = refl

minute_31-Inside : Inside 450 (7, 31)
unfolding in_active_region search_region
minute_31-Inside = omega arith

minute_30-Inside : Inside 450 (7, 30)
unfolding in_active_region search_region
minute_30-Inside = omega arith

minute_39-Inside : Inside 450 (7, 39)
unfolding in_active_region search_region
minute_39-Inside = omega arith

minute_45-Outside : Outside 450 (7, 45)
unfolding in_active_region search_region
minute_45-Outside = refl

hour_23-Outside : Outside 450 (23, 0)
unfolding in_active_region search_region
hour_23-Outside = refl

minute_40-Outside : Outside 450 (7, 40)
unfolding in_active_region search_region
minute_40-Outside = refl

-- Set at 07:31 for 07:30, the alarm waits for the next day.
alarm_cycle_example :
    let time = u16 (7 * 60 + 30) in
    let (changed, a', h') = alarm_set 7 30 late blank in
    Gives
      (replicate 1 0
        ++ ((0 ∷ replicate 1 0)
            ++ (map (position time) ((7, 30) ∷ (7, 39) ∷ []) ++ (0 ∷ replicate 1 0))))
      (at time disabled)
      (run
        (((7, 31) ∷ [])
          ++ (((7, 45) ∷ (23, 0) ∷ []) ++ (((7, 30) ∷ (7, 39) ∷ []) ++ ((7, 40) ∷ (7, 30) ∷ []))))
        a'
        h')
alarm_cycle_example =
    alarm_cycle 7 30 late blank ((7, 31) ∷ []) (7, 45) ((23, 0) ∷ []) (7, 30) ((7, 39) ∷ []) (7, 40)
      ((7, 30) ∷ []) (minute_31-Inside, tt) (minute_45-Outside, (hour_23-Outside, tt))
      (minute_30-Inside, (minute_39-Inside, tt)) minute_40-Outside
