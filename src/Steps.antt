-- ===== src/Steps.antt =====
-- test_manager/features/steps/tck_step_implementations.py: the helpers on nested dicts, through
-- which a scenario's table becomes a request and a response is read.
pub mod Paths
pub mod Cast
pub mod Context
pub mod Sending
pub mod Received
pub mod Properties
pub mod Payloads
pub mod Launch
pub mod RoundTrip
pub mod Leaves
pub mod Tests
use up_tck.Base.{
  ℕ, String, Bool, true, false, Option, none, some, List, [], ◌∷◌, ◌==◌, string_eq, if◌then◌else◌,
}
use up_tck.Base.Text
use up_tck.Base.Exec.{Result, ok, raise, key_error, type_error, ◌>>=?◌}
use up_tck.Json.{Json, dict, Fields, end, field, get, put, subscript}

-- `flattened.update(more)`
unfoldable pub update : Fields → Fields → Fields
update d end = d
update d (field k v more) = update (put k v d) more

-- `parent_key + sep + k if parent_key else k`
unfoldable pub new_key : String → String → String
new_key parent k = if parent == "" then k else Text.append parent (Text.append "." k)

-- `flatten_dict`, with the separator ".": `flattened` is the first argument of `flatten_from`, and
-- `flatten_entry` is the body of the loop.
unfoldable mutual
  pub flatten_entry : Fields → String → Json → Fields
  flatten_entry flattened key (dict d) = update flattened (flatten_from end key d)
  flatten_entry flattened key v = put key v flattened

  pub flatten_from : Fields → String → Fields → Fields
  flatten_from flattened parent end = flattened
  flatten_from flattened parent (field k v d) =
      flatten_from (flatten_entry flattened (new_key parent k) v) parent d

unfoldable pub flatten_dict : Fields → Fields
unfolding flatten_from
flatten_dict d = flatten_from end "" d

-- `temp[part]` on the way, with a new dict where there is none. A value that is no dict raises, be
-- it at `in`, at the read or at the write.
unfoldable pub step_into : Option Json → Result Fields
step_into none = ok end
step_into (some (dict d)) = ok d
step_into (some _) = raise type_error

-- The walk over `parts[:-1]` from `temp`, and the write at `parts[-1]`.
unfoldable pub set_path : List String → Json → Fields → Result Fields
unfolding step_into
set_path [] v temp = ok temp
set_path (part ∷ []) v temp = ok (put part v temp)
set_path (part ∷ next ∷ parts) v temp = step_into (get part temp) >>=? λ d.
    set_path (next ∷ parts) v d >>=? λ sub. ok (put part (dict sub) temp)

unfoldable pub unflatten_from : Fields → Fields → Result Fields
unfolding set_path
unflatten_from unflattened end = ok unflattened
unflatten_from unflattened (field key v d) =
    set_path (Text.split "." key) v unflattened >>=? λ next. unflatten_from next d

-- `unflatten_dict`, with the delimiter ".".
unfoldable pub unflatten_dict : Fields → Result Fields
unfolding unflatten_from
unflatten_dict d = unflatten_from end d

unfoldable pub subscript_all : Json → List String → Result Json
unfolding subscript
subscript_all v [] = ok v
subscript_all v (key ∷ keys) = subscript v key >>=? λ next. subscript_all next keys

-- `access_nested_dict`
unfoldable pub access_nested_dict : Json → String → Result Json
unfolding subscript_all
access_nested_dict v keys = if keys == "" then ok v else subscript_all v (Text.split "." keys)
