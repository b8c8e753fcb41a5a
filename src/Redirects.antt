-- ===== src/Redirects.antt =====
-- apps/server/src/auth/oauth/redirects.ts: what a client may be sent back to. The URL parser of the
-- platform is a parameter.
pub mod Rules
pub mod Registered
mod Tests
use skillcdn.Common.{
  ℕ, Bool, true, false, ◌&&◌, ◌||◌, not, List, [], ◌∷◌, Option, none, some, ltb, is_empty, length,
  any, if◌then◌else◌,
}
use skillcdn.Text.{Text, codes, same, has, has_unit}

abbrev pub max_redirect_uri_length : ℕ
max_redirect_uri_length = 1024

-- What the rules read of a parsed URL.
pub record Url : Type 0 where
  pub protocol : Text
  pub hostname : Text
  pub host : Text
  pub pathname : Text
  pub search : Text
  pub hash : Text
  pub username : Text
  pub password : Text

abbrev pub forbidden_schemes : List Text
forbidden_schemes =
    codes "javascript:"
    ∷ codes "data:"
    ∷ codes "vbscript:"
    ∷ codes "file:"
    ∷ codes "blob:"
    ∷ codes "about:"
    ∷ codes "ws:"
    ∷ codes "wss:"
    ∷ codes "ftp:"
    ∷ []

abbrev pub loopback_hosts : List Text
loopback_hosts = codes "localhost" ∷ codes "127.0.0.1" ∷ codes "[::1]" ∷ []

-- What is wrong with a URI, by the sentence that says so.
pub data RedirectProblem : Type 0 where
  too_long not_absolute has_fragment has_credentials not_https into_browser : RedirectProblem

abbrev pub problem_text : RedirectProblem → Text
problem_text too_long = codes "a redirect URI has at most 1024 characters"
problem_text not_absolute = codes "a redirect URI is an absolute URI"
problem_text has_fragment = codes "a redirect URI has no fragment"
problem_text has_credentials = codes "a redirect URI carries no credentials"
problem_text not_https = codes "a redirect URI uses https, unless it leads to this computer"
problem_text into_browser = codes "a redirect URI leads to a client, not into the browser"

unfoldable pub is_loopback_url : Option Url → Bool
is_loopback_url none = false
is_loopback_url (some url) = same url.protocol (codes "http:") && has loopback_hosts url.hostname

-- The rules on the scheme.
unfoldable pub scheme_problem : Url → Option RedirectProblem
scheme_problem url =
    if same url.protocol (codes "https:")
    then none
    else if same url.protocol (codes "http:")
    then (if has loopback_hosts url.hostname then none else some not_https)
    else if has forbidden_schemes url.protocol
    then some into_browser
    else none

unfoldable pub url_problem : Text → Option Url → Option RedirectProblem
unfolding scheme_problem
url_problem uri none = some not_absolute
url_problem uri (some url) =
    if not (is_empty url.hash) || has_unit b'#' uri
    then some has_fragment
    else if not (is_empty url.username) || not (is_empty url.password)
    then some has_credentials
    else scheme_problem url

-- The same but for the port.
unfoldable pub same_but_port : Option Url → Option Url → Bool
same_but_port (some known) (some wanted) =
    same known.hostname wanted.hostname
    && (same known.pathname wanted.pathname && same known.search wanted.search)
same_but_port _ _ = false

unfoldable pub is_web_uri : Url → Bool
is_web_uri url = same url.protocol (codes "https:") || same url.protocol (codes "http:")

-- `URL.parse` is `parse`, `none` for null.
module _ (parse : Text → Option Url) where
  unfoldable pub is_loopback_redirect : Text → Bool
  unfolding is_loopback_url
  is_loopback_redirect uri = is_loopback_url (parse uri)

  unfoldable pub redirect_uri_problem : Text → Option RedirectProblem
  unfolding url_problem
  redirect_uri_problem uri =
      if ltb max_redirect_uri_length (length uri)
      then some too_long
      else url_problem uri (parse uri)

  unfoldable pub is_registered_redirect : List Text → Text → Bool
  unfolding is_loopback_redirect same_but_port
  is_registered_redirect registered presented =
      if has registered presented
      then true
      else if not (is_loopback_redirect presented)
      then false
      else any
          (λ candidate.
            if not (is_loopback_redirect candidate)
            then false
            else same_but_port (parse candidate) (parse presented))
          registered

  unfoldable pub is_local_redirect : Text → Bool
  unfolding is_loopback_redirect is_web_uri
  is_local_redirect uri = elim (parse uri) [
    | none ↦ false
    | some url ↦ is_loopback_redirect uri || not (is_web_uri url)
  ]

  unfoldable pub redirect_host_of : Text → Text
  unfolding is_web_uri
  redirect_host_of uri = elim (parse uri) [
    | none ↦ uri
    | some url ↦ if is_web_uri url then url.host else url.protocol
  ]
