-- ===== src/GitRef.antt =====
-- packages/core/src/git-ref.ts: the names of git refs, by their syntax alone.
pub mod Laws
use skillcdn.Common.{
  ℕ, Bool, true, false, ◌&&◌, ◌||◌, not, List, [], ◌∷◌, ltb, leb, ◌==◌, if◌then◌else◌, length,
  is_empty, all, any,
}
use skillcdn.Text.{Text, codes, slash, same, starts_with, ends_with, includes, has_unit, split}
use skillcdn.TextSafety.{has_forbidden_code_point}

abbrev pub max_ref_length : ℕ
max_ref_length = 255

abbrev pub is_digit : ℕ → Bool
is_digit c = leb b'0' c && leb c b'9'

-- `[0-9a-f]` without case.
unfoldable pub is_hex_digit : ℕ → Bool
is_hex_digit c = is_digit c || (leb b'a' c && leb c b'f') || (leb b'A' c && leb c b'F')

-- `/^[0-9a-f]{40}$/i`.
unfoldable pub is_full_commit_hash : Text → Bool
is_full_commit_hash value = length value == 40 && all is_hex_digit value

-- `/[ ~^:?*[\\]/`.
unfoldable pub is_ref_forbidden : ℕ → Bool
is_ref_forbidden c =
    c == b' '
    || c == b'~'
    || c == b'^'
    || c == b':'
    || c == b'?'
    || c == b'*'
    || c == b'['
    || c == b'\\'

-- One round of the loop over the components.
unfoldable pub is_valid_component : Text → Bool
is_valid_component component =
    if is_empty component
      || starts_with component (codes ".")
      || ends_with component (codes ".lock")
    then false
    else true

unfoldable pub is_valid_ref_name : Text → Bool
is_valid_ref_name name =
    if is_empty name || ltb max_ref_length (length name)
    then false
    else if has_forbidden_code_point name || any is_ref_forbidden name
    then false
    else if same name (codes "@")
        || includes name (codes "@{")
        || includes name (codes "..")
        || ends_with name (codes ".")
    then false
    else if starts_with name (codes "-")
    then false
    else all is_valid_component (split slash name)
