-- ===== src/Assert/Tests.antt =====
-- test_manager/features/utils/assertutils.py: the wrappers with an `assert_that` that does what hamcrest
-- documents: with a matcher it raises AssertionError unless the matcher matches, and with another second
-- argument, which it then takes for the reason, unless the first argument is true.
use up_tck.Base.{◌≡◌, refl, Bool, true, false, if◌then◌else◌, ◌==◌, string_eq}
use up_tck.Base.Exec.{Result, ok, raise, assertion_error}
use up_tck.Json.{Json, null, boolean, str, truth}
use up_tck.Assert.{
  Argument, equal_to, contains_string, none_function, not_none_function, value, assert_equals,
  assert_true, assert_none, assert_not_none, assert_not_equals, assert_fail,
}

-- Equality of the values below.
abbrev equal : Json → Json → Bool
equal (str s) (str t) = s == t
equal (boolean true) (boolean true) = true
equal v w = false

abbrev raise_unless : Bool → Result {0} Unit
raise_unless b = if b then ok tt else raise assertion_error

abbrev assert_that : Json → Argument → Result {0} Unit
assert_that v (equal_to w) = raise_unless (equal v w)
assert_that v (contains_string w) = raise_unless (equal v w)
assert_that v none_function = raise_unless (truth v)
assert_that v not_none_function = raise_unless (truth v)
assert_that v (value b) = raise_unless (truth v)

program : Unit {0}
unfolding assert_equals assert_true assert_none assert_not_none assert_not_equals assert_fail truth
    string_eq
program = tt

assert_equals_run : assert_equals assert_that (str "a") (str "a") ≡ ok tt
unfolding program
assert_equals_run = refl

assert_equals-differ : assert_equals assert_that (str "a") (str "b") ≡ raise assertion_error
unfolding program
assert_equals-differ = refl

assert_fail_run : assert_fail assert_that ≡ raise assertion_error
unfolding program
assert_fail_run = refl

-- None is not accepted as None, and a text is.
assert_none-null : assert_none assert_that null ≡ raise assertion_error
unfolding program
assert_none-null = refl

assert_none-str : assert_none assert_that (str "a") ≡ ok tt
unfolding program
assert_none-str = refl

-- False is not None, but is refused.
assert_not_none-false : assert_not_none assert_that (boolean false) ≡ raise assertion_error
unfolding program
assert_not_none-false = refl

-- Equal texts pass, and None is refused though it differs.
assert_not_equals-equal : assert_not_equals assert_that (str "a") (str "a") ≡ ok tt
unfolding program
assert_not_equals-equal = refl

assert_not_equals-null : assert_not_equals assert_that null (str "a") ≡ raise assertion_error
unfolding program
assert_not_equals-null = refl
