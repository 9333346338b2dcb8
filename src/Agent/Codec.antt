-- ===== src/Agent/Codec.antt =====
-- test_agent/python/testagent.py: between JSON values and protobuf messages. Messages and their
-- reflection are the protobuf library's: `Reflection` holds what the code asks of a message, and a
-- `View` is what walking the fields of a message shows.
pub mod RoundTrip
use up_tck.Base.{ℕ, String, Bool, true, false, Option, none, some, if◌then◌else◌}
use up_tck.Base.Text.{contains_text, remove_all}
use up_tck.Base.Exec.{Result, ok, raise, type_error, decode_error, ◌>>=?◌}
use up_tck.Json.{Json, str, list, dict, Items, nil, cons, Fields, end, field, put}

-- A Python value on its way into a message; bytes are the encoding of a text.
pub data Value : Type 0 where
  json : Json → Value
  bytes : String → Value

-- `type(getattr(proto_obj, field_name))`
pub data FieldType : Type 0 where
  int_type float_type bytes_type other_type : FieldType

-- `hasattr`, `getattr` and `setattr`, and the calls of `int` and `float`. `get_attr` gives a
-- reference, so `with_attr` is the object after its attribute has changed.
pub record Reflection (M : Type 0) : Type 0 where
  pub has_attr : M → String → Bool
  pub get_attr : M → String → M
  pub with_attr : M → String → M → M
  pub set_attr : M → String → Value → Result M
  pub type_of : M → String → FieldType
  pub to_int : Value → Result Value
  pub to_float : Value → Result Value

-- A text with the mark of bytes in it becomes bytes, all marks taken away.
unfoldable pub unmark : Json → Value
unmark (str s) = if contains_text "BYTES:" s then bytes (remove_all "BYTES:" s) else json (str s)
unmark v = json v

unfoldable pub or_else : Value → Result Value → Value
or_else v (ok w) = w
or_else v (raise e) = v

unfoldable pub encode : Value → Value
encode (json (str s)) = bytes s
encode v = v

module _ {M : Type 0} (r : Reflection M) where
  -- The `try` of `populate_fields`: a conversion that raises leaves the value.
  unfoldable pub convert : FieldType → Value → Value
  unfolding or_else encode
  convert int_type v = or_else v (r.to_int v)
  convert float_type v = or_else v (r.to_float v)
  convert bytes_type v = encode v
  convert other_type v = v

  -- `populate_fields`; `populate_field` is the body of the loop.
  unfoldable mutual
    pub populate_field : String → Json → M → Result M
    populate_field name (dict d) obj =
        let sub = populate_fields d (r.get_attr obj name) in
        if r.has_attr obj name then sub >>=? (λ o. ok (r.with_attr obj name o)) else ok obj
    populate_field name v obj =
        if r.has_attr obj name
        then r.set_attr obj name (convert (r.type_of obj name) (unmark v))
        else ok obj

    pub populate_fields : Fields → M → Result M
    populate_fields end obj = ok obj
    populate_fields (field name v d) obj =
        populate_field name v obj >>=? λ next. populate_fields d next

  -- `dict_to_proto`
  unfoldable pub dict_to_proto : Json → M → Result M
  unfolding populate_fields
  dict_to_proto (dict d) obj = populate_fields d obj
  dict_to_proto v obj = raise type_error

-- The fields of a message in their order; `raw` is a field of bytes with its decoding, `none` where
-- that raises.
mutual
  pub data View : Type 0 where
    done : View
    shown : String → Shown → View → View

  pub data Shown : Type 0 where
    raw : Option String → Shown
    message : View → Shown
    messages : Views → Shown
    scalars : Items → Shown
    scalar : Json → Shown

  pub data Views : Type 0 where
    no_view : Views
    and_view : View → Views → Views

-- `repeated.append(value)` for each element: what is appended is the whole container.
unfoldable pub append_each : Items → Items → Items
append_each nil value = nil
append_each (cons item items) value = cons (list value) (append_each items value)

unfoldable pub decode : Option String → Result Json
decode (some s) = ok (str s)
decode none = raise decode_error

-- `message_to_dict`: `fields_from` is the loop, with `result` first.
unfoldable mutual
  pub fields_from : Fields → View → Result Fields
  fields_from result done = ok result
  fields_from result (shown name value view) =
      shown_value value >>=? λ v. fields_from (put name v result) view

  pub shown_value : Shown → Result Json
  shown_value (raw decoded) = decode decoded
  shown_value (message view) = fields_from end view >>=? λ d. ok (dict d)
  shown_value (messages views) = shown_views views >>=? λ items. ok (list items)
  shown_value (scalars items) = ok (list (append_each items items))
  shown_value (scalar v) = ok v

  pub shown_views : Views → Result Items
  shown_views no_view = ok nil
  shown_views (and_view view views) =
      fields_from end view >>=? λ d. shown_views views >>=? λ items. ok (cons (dict d) items)

unfoldable pub message_to_dict : View → Result Fields
unfolding fields_from
message_to_dict view = fields_from end view
