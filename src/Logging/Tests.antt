-- ===== src/Logging/Tests.antt =====
-- test_manager/features/utils/loggerutils.py: runs.
use up_tck.Base.{◌≡◌, refl, true, false, some, [], ◌∷◌, string_eq}
use up_tck.Base.Dict.{lookup, insert}
use up_tck.Base.Text.{append, starts_with}
use up_tck.Base.Exec.{ok}
use up_tck.Logging
use up_tck.Logging.{
  Loggers, TimeFilter, allows, setup_logging, setup_formatted_logging, setup_unformatted_logging,
  run_filters,
}

-- The configuration leaves the loggers alone.
setup_run : setup_logging (λ settings. ok tt) Logging.init ≡ (ok tt, Logging.init)
unfolding setup_logging
setup_run = refl

-- The second set-up takes the place of the first in the context, but its filter stays with its logger.
both_run : (setup_unformatted_logging 2 (setup_formatted_logging 1 Logging.init).1).1 ≡ record {
  log_timestamp = some 2;
  logger = some "unformatted_log";
  filters =
      ("formatted_log", record { name = "formatted_log" } ∷ [])
      ∷ ("unformatted_log", record { name = "unformatted_log" } ∷ [])
      ∷ [];
}
unfolding setup_unformatted_logging setup_formatted_logging lookup insert string_eq
both_run = refl

-- A record leaves its time in the context.
filter_run :
    run_filters 9 "formatted_log" (record { name = "formatted_log" } ∷ []) Logging.init
    ≡ (ok true, record Logging.init { log_timestamp = some 9 })
unfolding run_filters allows string_eq append starts_with
filter_run = refl

-- One that is refused does too.
refused_run :
    run_filters 9 "formatted_logs" (record { name = "formatted_log" } ∷ []) Logging.init
    ≡ (ok false, record Logging.init { log_timestamp = some 9 })
unfolding run_filters allows string_eq append starts_with
refused_run = refl
