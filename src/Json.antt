-- ===== src/Json.antt =====
-- Values of Python's `json`: what the test manager and the test agents exchange. A dict keeps the
-- order of its keys. Numbers are integers.
use text.Mathlib.TextEquality.{eq_iff}
use up_tck.Base.{
  ℕ, zero, true, String, ◌≡◌, ◌≢◌, refl, Bool, false, Option, none, some, arith, ◌==◌, string_eq,
  if◌then◌else◌,
}
use up_tck.Base.Exec.{Result, ok, raise, key_error, type_error, attribute_error}

pub data ℤ : Type 0 where
  pos : ℕ → ℤ
  negsuc : ℕ → ℤ

mutual
  pub data Json : Type 0 where
    null : Json
    boolean : Bool → Json
    int : ℤ → Json
    str : String → Json
    list : Items → Json
    dict : Fields → Json

  pub data Items : Type 0 where
    nil : Items
    cons : Json → Items → Items

  pub data Fields : Type 0 where
    end : Fields
    field : String → Json → Fields → Fields

-- `d.get(k)`
unfoldable pub get : String → Fields → Option Json
get k end = none
get k (field j v d) = if k == j then some v else get k d

-- `d[k] = v`
unfoldable pub put : String → Json → Fields → Fields
put k v end = field k v end
put k v (field j w d) = if k == j then field k v d else field j w (put k v d)

pub get-put :
    (j k : String) (v : Json) (d : Fields)
    → get j (put k v d) ≡ (if j == k then some v else get j d)
unfolding get put
get-put j k v end = refl
get-put j k v (field i w d) = ground (arith, get-put j k v d)

-- `value[key]`
unfoldable pub subscript : Json → String → Result Json
subscript (dict d) key = elim (get key d) [ none ↦ raise key_error | some v ↦ ok v ]
subscript _ key = raise type_error

-- `value.get(key)`
unfoldable pub get_method : Json → String → Result (Option Json)
get_method (dict d) key = ok (get key d)
get_method _ key = raise attribute_error

-- `bool(value)`
unfoldable pub truth : Json → Bool
truth null = false
truth (boolean b) = b
truth (int (pos zero)) = false
truth (int _) = true
truth (str s) = if s == "" then false else true
truth (list nil) = false
truth (list (cons item items)) = true
truth (dict end) = false
truth (dict (field k v d)) = true

-- Whether a value equals this text, as `==` has it.
abbrev pub is_str : String → Json → Bool
is_str t (str s) = s == t
is_str t _ = false

pub get-put_ne : (j k : String) (v : Json) (d : Fields) → j ≢ k → get j (put k v d) ≡ get j d
get-put_ne j k v d h = ground (arith, get-put j k v d)

pub get-put_self : (k : String) (v : Json) (d : Fields) → get k (put k v d) ≡ some v
get-put_self k v d = ground (arith, get-put k k v d)

-- The keys of the program's messages differ.
pub action-ne-test_id : ◌≢◌ {A = String} "action" "test_id"
action-ne-test_id e = cc ((eq_iff "action" "test_id").1 e)

pub data-ne-test_id : ◌≢◌ {A = String} "data" "test_id"
data-ne-test_id e = cc ((eq_iff "data" "test_id").1 e)

pub ue-ne-test_id : ◌≢◌ {A = String} "ue" "test_id"
ue-ne-test_id e = cc ((eq_iff "ue" "test_id").1 e)
