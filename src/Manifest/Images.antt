-- ===== src/Manifest/Images.antt =====
-- `isImageUrl` of packages/core/src/image-source.ts and `readImage` of repo-manifest.ts.
use skillcdn.Common.{
  ℕ, Bool, true, false, ◌&&◌, ◌||◌, not, [], ◌∷◌, Option, none, some, leb, ◌==◌, if◌then◌else◌,
  length, is_empty, all, any, take, drop,
}
use skillcdn.Text.{Text, codes, split, starts_with}
use skillcdn.TextSafety.{has_forbidden_code_point}
use skillcdn.RepoPath.{parse_repo_path, value_of}
use skillcdn.License.Words.{trim, is_space}
use skillcdn.Markdown.Lines.{leading}
use skillcdn.Manifest.Values.{Value, text_of, is_missing}
use skillcdn.Manifest.Fields.{bad_image, Read, is_letter_or_digit}
use skillcdn.Manifest.Scalars.{is_letter}
use skillcdn.Manifest.RepoManifest.{max_image_url_length, RepoImage, image_path, image_url}

-- `HTTPS_URL` of packages/core/src/image-source.ts: the labels of a host, behind it a port, and a path,
-- a query or a fragment.
abbrev pub is_host_unit : ℕ → Bool
is_host_unit c = is_letter_or_digit c || c == b'-' || c == b'.'

abbrev pub is_decimal : ℕ → Bool
is_decimal c = leb b'0' c && leb c b'9'

abbrev pub is_url_tail : Text → Bool
is_url_tail [] = true
is_url_tail (c ∷ s) = (c == b'/' || c == b'?' || c == b'#') && not (any is_space s)

abbrev pub is_behind_host : Text → Bool
is_behind_host [] = true
is_behind_host (c ∷ s) =
    let digits = leading is_decimal s in
    if c == b':'
    then leb 1 digits && leb digits 5 && is_url_tail (drop digits s)
    else is_url_tail (c ∷ s)

unfoldable pub is_https_url : Text → Bool
unfolding starts_with leading split is_space
is_https_url url =
    let rest = drop 8 url in
    let size = leading is_host_unit rest in
    starts_with url (codes "https://")
    && all (λ label. not (is_empty label)) (split b'.' (take size rest))
    && is_behind_host (drop size rest)

unfoldable pub is_image_url : Text → Bool
unfolding has_forbidden_code_point is_https_url
is_image_url url =
    not (is_empty url)
    && leb (length url) max_image_url_length
    && not (has_forbidden_code_point url)
    && is_https_url url

-- `text.replace(/^\.\//, "")`.
abbrev pub without_here : Text → Text
without_here t = if starts_with t (codes "./") then drop 2 t else t

abbrev pub is_scheme_unit : ℕ → Bool
is_scheme_unit c = is_letter_or_digit c || c == b'+' || c == b'.' || c == b'-'

-- `/^[A-Za-z][A-Za-z0-9+.-]*:/`.
unfoldable pub has_scheme : Text → Bool
unfolding leading starts_with
has_scheme [] = false
has_scheme (c ∷ s) = is_letter c && starts_with (drop (leading is_scheme_unit s) s) (codes ":")

-- `typeof value === "string" ? value.trim() : ""`.
abbrev pub trimmed : Option Value → Text
trimmed value = elim (text_of value) [ none ↦ [] | some t ↦ trim t ]

abbrev pub image_of_path : Text → Read (Option RepoImage)
image_of_path relative =
    if is_empty relative || has_scheme relative
    then (none, bad_image ∷ [])
    else elim (value_of (parse_repo_path relative)) [
      | none ↦ (none, bad_image ∷ [])
      | some path ↦ (some (image_path path), [])
    ]

unfoldable pub read_image : Option Value → Read (Option RepoImage)
unfolding trim is_image_url starts_with has_scheme parse_repo_path
read_image value =
    if is_missing value
    then (none, [])
    else if is_image_url (trimmed value)
    then (some (image_url (trimmed value)), [])
    else image_of_path (without_here (trimmed value))
