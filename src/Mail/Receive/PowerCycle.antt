-- ===== src/Mail/Receive/PowerCycle.antt =====
-- Losing the power after messages were received.
use cpeclock.Base.{ℕ, ◌≡◌, List, true, some}
use cpeclock.Hal
use cpeclock.Hal.{Hal, IsMemory}
use cpeclock.Alarm
use cpeclock.NightDay
use cpeclock.Hmac.{Sha256}
use cpeclock.Ncrs.{Rs}
use cpeclock.Mail.{Device, mail_init, mail_receive_messages}
use cpeclock.Mail.Counter.{mail_init-Holds}
use cpeclock.Mail.Receive.{Kept}
use cpeclock.Mail.Receive.Step.{mail_receive_messages-Kept}
use cpeclock.Alarm.Update as AlarmUpdate
use cpeclock.Alarm.Persist as AlarmMemory
use cpeclock.NightDay.Interval as Interval
use cpeclock.NightDay.Persist as NightDayMemory

-- Booting from the memory gives the three values back.
pub record Recovered {nv : Hal.Nvram} (d : Device nv) : Type 0 where
  pub counter : mail_init d.hal ≡ (true, some d.hmac_message_counter, d.hal)
  pub alarm : AlarmUpdate.IsValid d.alarm → (Alarm.alarm_init d.hal).0 ≡ d.alarm
  pub night_day :
      Interval.IsValid d.night_day → (NightDay.night_day_time_init d.hal).0 ≡ d.night_day

-- If the memory, which keeps what is written, is in step with the counter, the alarm and the
-- night's times, then after a call of `mail_receive_messages` it is in step again. A boot from it
-- then finds the new counter and writes nothing, and finds the new alarm and the new night's times
-- as far as these lie within the day and the alarm's state is a known one.
pub mail_receive_messages-Recovered :
    {nv : Hal.Nvram} (ok : IsMemory nv) (rs : Rs) (c : rs.Control) (sha : Sha256) (secret : List ℕ)
    → (d : Device nv) → Kept d
    → let d' = mail_receive_messages rs c sha secret d in Kept d' × Recovered d'
mail_receive_messages-Recovered ok rs c sha secret d k =
    let d' = mail_receive_messages rs c sha secret d in
    let k' = mail_receive_messages-Kept ok rs c sha secret d k in
    (
      k',
      record {
        counter = mail_init-Holds d'.hmac_message_counter d'.hal k'.counter;
        alarm = λ v. AlarmMemory.alarm_init-Saved ok d'.alarm d'.hal v k'.alarm;
        night_day =
            λ v. NightDayMemory.night_day_time_init-Saved ok d'.night_day d'.hal v k'.night_day;
      },
    )
