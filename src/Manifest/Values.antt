-- ===== src/Manifest/Values.antt =====
-- What the YAML reader of packages/core/src/front-matter.ts gives: `null`, texts, flags, sequences,
-- mappings with their entries in order, and anything else. `undefined` is `none` of an option.
use skillcdn.Common.{Bool, true, false, List, [], ◌∷◌, Option, none, some, if◌then◌else◌}
use skillcdn.Text.{Text, same}

mutual
  pub data Value : Type 0 where
    null : Value
    text : Text → Value
    flag : Bool → Value
    sequence : Values → Value
    mapping : Fields → Value
    other : Value

  pub data Values : Type 0 where
    nil : Values
    cons : Value → Values → Values

  pub data Fields : Type 0 where
    end : Fields
    field : Value → Value → Fields → Fields

abbrev pub is_key : Value → Text → Bool
is_key (text key) wanted = same key wanted
is_key null wanted = false
is_key (flag b) wanted = false
is_key (sequence vs) wanted = false
is_key (mapping fs) wanted = false
is_key other wanted = false

-- `fields.get(key)`.
unfoldable pub get_field : Text → Fields → Option Value
unfolding same
get_field key end = none
get_field key (field k v fields) = if is_key k key then some v else get_field key fields

-- `fields.has(key)`.
unfoldable pub has_field : Text → Fields → Bool
unfolding get_field
has_field key fields = elim (get_field key fields) [ none ↦ false | some v ↦ true ]

-- `typeof value === "string" ? value : undefined`.
abbrev pub text_of : Option Value → Option Text
text_of none = none
text_of (some (text t)) = some t
text_of (some null) = none
text_of (some (flag b)) = none
text_of (some (sequence vs)) = none
text_of (some (mapping fs)) = none
text_of (some other) = none

-- `value === undefined || value === null`.
abbrev pub is_missing : Option Value → Bool
is_missing none = true
is_missing (some null) = true
is_missing (some (text t)) = false
is_missing (some (flag b)) = false
is_missing (some (sequence vs)) = false
is_missing (some (mapping fs)) = false
is_missing (some other) = false

-- `value instanceof Map`.
abbrev pub mapping_of : Option Value → Option Fields
mapping_of none = none
mapping_of (some (mapping fs)) = some fs
mapping_of (some null) = none
mapping_of (some (text t)) = none
mapping_of (some (flag b)) = none
mapping_of (some (sequence vs)) = none
mapping_of (some other) = none

abbrev pub items_of : Values → List Value
items_of nil = []
items_of (cons v vs) = v ∷ items_of vs

-- `Array.isArray(value)`.
abbrev pub sequence_of : Option Value → Option (List Value)
sequence_of none = none
sequence_of (some (sequence vs)) = some (items_of vs)
sequence_of (some null) = none
sequence_of (some (text t)) = none
sequence_of (some (flag b)) = none
sequence_of (some (mapping fs)) = none
sequence_of (some other) = none
