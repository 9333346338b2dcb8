-- ===== src/Steps/Context.antt =====
-- test_manager/features/steps/tck_step_implementations.py: behave's context, which the steps of a
-- scenario share, and the steps that set keys of the next request. `tm` is the test manager. An
-- attribute that is not set yet raises AttributeError.
use up_tck.Base.{◌≡◌, refl, ℕ, String, Bool, Option, none, some, List}
use up_tck.Base.Text
use up_tck.Base.Dict.{Dict}
use up_tck.Base.Exec.{
  Exec, Exception, attribute_error, assertion_error, value_error, Result, ok, raise, pure, ◌>>=◌,
}
use up_tck.Json.{ℤ, Json, str, Fields, get, put}
use up_tck.Steps.Cast.{Enum, Casted}
use up_tck.Manager.Server.{Manager}
use up_tck.Dispatcher.{Dispatcher}

pub record Context : Type 0 where
  pub json_dict : Option Fields
  pub response_data : Option Json
  pub ue : Option String
  pub action : Option String
  pub rust_sender : Option Bool
  -- `context.transport`, whose one key is "transport".
  pub transport : Option String
  -- `context.ues`, the processes of each test agent.
  pub ues : Dict String (List ℕ)
  pub dispatcher : Dict String Dispatcher
  pub tm : Manager

-- Python, hamcrest and the uProtocol library as the steps use them. `assert_equal` is
-- `assert_that(a, equal_to(b))`, `float_json` a float in a dict, `b64decode` the text that the decoded
-- bytes stand for in ISO 8859-1, and `decode_utf8` that text decoded as UTF-8 instead.
pub record Library (Float : Type 0) : Type 0 where
  pub member : Enum → String → Result ℤ
  pub to_int : Json → Result ℤ
  pub to_float : Json → Result Float
  pub float_json : Float → Json
  pub assert_equal : Casted Float → Casted Float → Result {0} Unit
  pub py_str : Casted Float → String
  pub b64decode : String → Result String
  pub decode_utf8 : String → Result String
  pub unicode_escape : String → String

-- A method of the test manager, on the whole context.
abbrev pub on_tm : {A : Type 0} → Exec Manager A → Exec Context A
on_tm f c = let (r, m) = f c.tm in (r, record c { tm = m })

-- `context.name`
unfoldable pub attribute : {A : Type 0} → (Context → Option A) → Exec Context A
attribute field c = elim (field c) [ none ↦ (raise attribute_error, c) | some a ↦ (ok a, c) ]

pub attribute-set :
    {A : Type 0} (field : Context → Option A) (c : Context) (a : A)
    → field c ≡ some a
    → attribute field c ≡ (ok a, c)
unfolding attribute
attribute-set field c a h = rw (h, attribute) refl

unfoldable pub set_json_dict : Fields → Exec Context Unit
set_json_dict d c = (ok tt, record c { json_dict = some d })

unfoldable pub set_response_data : Json → Exec Context Unit
set_response_data v c = (ok tt, record c { response_data = some v })

-- `if key not in context.json_dict: context.json_dict[key] = …`, where the value may raise.
unfoldable pub put_new : String → Exec Context Json → Fields → Option Json → Exec Context Unit
unfolding set_json_dict
put_new key value d (some old) = pure tt
put_new key value d none = do v ← value; set_json_dict (put key v d)

unfoldable pub set_new : String → Exec Context Json → Exec Context Unit
unfolding attribute put_new
set_new key value = do d ← attribute (λ c. c.json_dict); put_new key value d (get key d)

unfoldable pub sets_key_to_previous_response : String → Exec Context Unit
unfolding set_new
sets_key_to_previous_response key = set_new key (attribute (λ c. c.response_data))

unfoldable pub set_key_to_val : String → String → Exec Context Unit
unfolding set_new
set_key_to_val key value = set_new key (pure (str value))

unfoldable pub set_blank_key : String → Exec Context Unit
set_blank_key key = pure tt

unfoldable pub set_key_to_bytes : String → String → Exec Context Unit
unfolding set_new
set_key_to_bytes key value = set_new key (pure (str (Text.append "BYTES:" value)))

-- `except AssertionError` and `except Exception`, which raise the one as it is and all others as
-- ValueError.
unfoldable pub reraise : Exception → Exception
reraise assertion_error = assertion_error
reraise e = value_error

unfoldable pub checked : Exec Context Unit → Exec Context Unit
unfolding reraise
checked m c = let (r, c') = m c in (elim r [ ok a ↦ ok a | raise e ↦ raise (reraise e) ], c')
