-- ===== src/Steps/Properties/Flat.antt =====
-- test_manager/features/steps/tck_step_implementations.py: the flattened response as the steps read it that compare it
-- with the rows of a table.
use up_tck.Base.{String, ◌≡◌, ◌≢◌, refl, ap, ◌∙◌, Option, none, some, string_eq, arith}
use up_tck.Base.Dict.{Dict, lookup}
use up_tck.Json.{Json, dict, Fields, end, field, get}
use up_tck.Steps.{flatten_dict, access_nested_dict}
use up_tck.Steps.Cast.{Casted, json}
use up_tck.Steps.Leaves.{IsTidy, found_scalar}
use up_tck.Steps.Leaves.Found.{get-flatten_dict}
use up_tck.Steps.Properties.{entries}

-- What the nested dicts hold at the path that a key names, if that is no dict.
abbrev pub reads : Fields → String → Option Json
reads d key = found_scalar (access_nested_dict (dict d) key)

-- What a value of the response is in the flattened one.
abbrev pub kept : {Float : Type 0} → Option Json → Option (Casted Float)
kept none = none
kept (some v) = some (json v)

lookup-entries :
    {Float : Type 0} (key : String) (d : Fields)
    → lookup key (entries {Float = Float} d) ≡ kept (get key d)
unfolding lookup entries get
lookup-entries {Float} key end = refl
lookup-entries {Float} key (field k v d) = ground (arith, lookup-entries {Float = Float} key d)

module _ {Float : Type 0} (d : Fields) (tidy : IsTidy d) where
  -- The flattened response as the step reads it.
  abbrev pub flat : Dict String (Casted Float)
  flat = entries (flatten_dict d)

  pub lookup-flat : (key : String) → key ≢ "" → lookup key flat ≡ kept (reads d key)
  lookup-flat key ne =
      lookup-entries {Float = Float} key (flatten_dict d) ∙ ap kept (get-flatten_dict d key tidy ne)

  pub lookup-missing : (key : String) → key ≢ "" → reads d key ≡ none → lookup key flat ≡ none
  lookup-missing key ne h = lookup-flat key ne ∙ ap kept h

  pub lookup-there :
      (key : String) (v : Json) → key ≢ "" → reads d key ≡ some v → lookup key flat ≡ some (json v)
  lookup-there key v ne h = lookup-flat key ne ∙ ap kept h
