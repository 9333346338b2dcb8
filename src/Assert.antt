-- ===== src/Assert.antt =====
-- test_manager/features/utils/assertutils.py: the wrappers around hamcrest's `assert_that`. Hamcrest
-- is a parameter.
mod Tests
use up_tck.Base.{String, Bool, true, false, ◌≡◌, Option, none, some, if◌then◌else◌}
use up_tck.Base.Exec.{Result, ok, raise, assertion_error}
use up_tck.Json.{Json, null, boolean, truth}

-- The second argument of `assert_that`: a matcher, or another object such as the functions `none` and
-- `not_none` of hamcrest, which make matchers when they are called, and Booleans.
pub data Argument : Type 0 where
  equal_to contains_string : Json → Argument
  none_function not_none_function : Argument
  value : Bool → Argument

module _ (assert_that : Json → Argument → Result {0} Unit) where
  unfoldable pub assert_true : Json → Result {0} Unit
  assert_true condition = assert_that condition (equal_to (boolean true))

  unfoldable pub assert_false : Json → Result {0} Unit
  assert_false condition = assert_that condition (equal_to (boolean false))

  unfoldable pub assert_equals : Json → Json → Result {0} Unit
  assert_equals actual expected = assert_that actual (equal_to expected)

  unfoldable pub assert_contains : Json → Json → Result {0} Unit
  assert_contains actual expected = assert_that actual (contains_string expected)

  -- `not (equal_to(expected))` is false, since a matcher is a true object.
  unfoldable pub assert_not_equals : Json → Json → Result {0} Unit
  assert_not_equals actual expected = assert_that actual (value false)

  unfoldable pub assert_none : Json → Result {0} Unit
  assert_none condition = assert_that condition none_function

  unfoldable pub assert_not_none : Json → Result {0} Unit
  assert_not_none condition = assert_that condition not_none_function

  unfoldable pub assert_fail : Result {0} Unit
  assert_fail = assert_that (boolean false) (equal_to (boolean true))
