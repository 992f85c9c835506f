-- ===== src/Core/Recurring.antt =====
-- src/core/recurring.rs. The `cron` crate is the parameter `Cron`: its parser, and the first
-- occurrence after an instant.
use qml.Base.{String, Bool, true, Option, none, some, ◌<>◌}
use qml.Core.JobState.{DateTime}
use qml.Error.{QmlError, Result, ok, err}

pub record RecurringJob : Type 0 where
  pub id : String
  pub cron : String
  pub method : String
  pub payload : String
  pub queue : String
  pub next_run_at : DateTime
  pub last_run_at : Option DateTime
  pub created_at : DateTime
  pub updated_at : DateTime
  pub enabled : Bool

-- `Schedule::from_str`, with the text of its error, and `schedule.after(&from).next()`.
pub record Cron : Type 1 where
  pub Schedule : Type 0
  pub from_str : String → Result String Schedule
  pub next_of : Schedule → DateTime → Option DateTime

module _ (c : Cron) where
  open c use {Schedule, from_str, next_of}

  unfoldable pub parse_schedule : String → Result QmlError Schedule
  parse_schedule expr = elim (from_str expr) [
    | ok s ↦ ok s
    | err e ↦ err (QmlError.invalid_job_data ("Invalid cron expression `" <> expr <> "`: " <> e))
  ]

  unfoldable pub next_after : String → DateTime → Result QmlError DateTime
  unfolding parse_schedule
  next_after expr from = elim (parse_schedule expr) [
    | err e ↦ err e
    | ok s ↦ elim (next_of s from) [
      | some t ↦ ok t
      | none ↦
          err (
            QmlError.invalid_job_data
              ("Cron expression `" <> expr <> "` has no future occurrences"))
    ]
  ]

  -- `first` is the instant that the first occurrence is counted from, `now` the next reading.
  unfoldable pub new :
      DateTime
      → DateTime
      → String
      → String
      → String
      → String
      → String
      → Result QmlError RecurringJob
  unfolding next_after
  new first now id cron method payload queue = elim (next_after cron first) [
    | err e ↦ err e
    | ok next_run_at ↦ ok (record {
      id = id;
      cron = cron;
      method = method;
      payload = payload;
      queue = queue;
      next_run_at = next_run_at;
      last_run_at = none;
      created_at = now;
      updated_at = now;
      enabled = true;
    })
  ]

  -- On an error the template is unchanged.
  unfoldable pub advance :
      RecurringJob → DateTime → DateTime → RecurringJob × Result QmlError (Unit {0})
  unfolding next_after
  advance r from now = elim (next_after r.cron from) [
    | err e ↦ (r, err e)
    | ok t ↦ (record r { next_run_at = t; updated_at = now }, ok tt)
  ]
