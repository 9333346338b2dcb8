-- ===== src/Logging.antt =====
-- test_manager/features/utils/loggerutils.py: the loggers of the tests. A logger is its name, since
-- `getLogger` gives one object for a name, and `now` is what `time.time` gives.
mod Tests
use up_tck.Base.{
  ℕ, String, Bool, true, false, ◌||◌, Option, none, some, List, [], ◌∷◌, ◌++◌, ◌≡◌, refl, ◌==◌,
  string_eq, if◌then◌else◌, ap,
}
use up_tck.Base.Dict.{Dict, lookup, insert}
use up_tck.Base.Text.{append, starts_with}
use up_tck.Base.Exec.{Exec, Result, ok, pure, lift, modify, ◌>>=◌, ◌>>◌}
use up_tck.Json.{Json, int, pos, str, boolean, dict, Fields, field, end}

-- `LOG_SETTINGS`
abbrev pub log_settings : Json
log_settings = dict (
    field "version" (int (pos 1)) (
      field "disable_existing_loggers" (boolean false) (
        field "handlers" (dict end) (
          field "formatters"
            (dict (
              field "detailed"
                (dict (
                  field "format"
                    (str
                      "[%(levelname)s] : %(asctime)s : %(filename)s : %(funcName)s:%(lineno)d : %(message)s")
                    end))
                (field "blank" (dict (field "format" (str "") end)) end)))
            (field "loggers" (dict end) end)))))

-- A `TimeFilter` with its name; its context is the one below.
pub record TimeFilter : Type 0 where
  pub name : String

-- What the module keeps in behave's context, and the filters of the loggers.
pub record Loggers : Type 0 where
  pub log_timestamp : Option ℕ
  pub logger : Option String
  pub filters : Dict String (List TimeFilter)

abbrev pub init : Loggers
init = record { log_timestamp = none; logger = none; filters = [] }

abbrev or_empty : Option (List TimeFilter) → List TimeFilter
or_empty none = []
or_empty (some fs) = fs

-- `context.log_timestamp = time.time()`
unfoldable pub stamp : ℕ → Exec Loggers Unit
stamp now = modify (λ s. record s { log_timestamp = some now })

-- `logging.Filter(name).filter` of a record of this logger.
unfoldable pub allows : String → String → Bool
unfolding append starts_with
allows name logger = name == "" || logger == name || starts_with logger (append name ".")

-- `TimeFilter(context, name)`
unfoldable pub time_filter : ℕ → String → Exec Loggers TimeFilter
unfolding stamp
time_filter now name = stamp now >> pure (record { name = name })

-- `TimeFilter.filter`
unfoldable pub filter : TimeFilter → ℕ → String → Exec Loggers Bool
unfolding stamp allows
filter f now logger = stamp now >> pure (allows f.name logger)

unfoldable pub add_filter : String → TimeFilter → Exec Loggers Unit
unfolding lookup insert
add_filter logger f = modify (λ s. record s {
  filters = insert logger (or_empty (lookup logger s.filters) ++ f ∷ []) s.filters;
})

-- `setup_logging`
unfoldable pub setup_logging : (Json → Result {0} Unit) → Exec Loggers Unit
setup_logging dict_config = lift (dict_config log_settings)

unfoldable pub set_logger : String → Exec Loggers Unit
set_logger name = modify (λ s. record s { logger = some name })

-- `setup_formatted_logging`
unfoldable pub setup_formatted_logging : ℕ → Exec Loggers Unit
unfolding set_logger time_filter add_filter
setup_formatted_logging now = do
  set_logger "formatted_log"
  f ← time_filter now "formatted_log"
  add_filter "formatted_log" f

-- `setup_unformatted_logging`
unfoldable pub setup_unformatted_logging : ℕ → Exec Loggers Unit
unfolding set_logger time_filter add_filter
setup_unformatted_logging now = do
  set_logger "unformatted_log"
  f ← time_filter now "unformatted_log"
  add_filter "unformatted_log" f

-- The filters of a logger look at a record of its own, one after the other, up to the first that
-- refuses.
unfoldable pub run_filters : ℕ → String → List TimeFilter → Exec Loggers Bool
unfolding filter
run_filters now logger [] = pure true
run_filters now logger (f ∷ fs) = do
  allowed ← filter f now logger
  if allowed then run_filters now logger fs else pure false
