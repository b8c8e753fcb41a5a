-- ===== src/Redirects/Tests.antt =====
-- Redirects judged with a small parser of URLs in place of the platform's.
use skillcdn.Common.{◌≡◌, refl, ◌↔◌, ◌⊎◌, true, [], ◌∷◌, Option, none, some, In, if◌then◌else◌}
use skillcdn.Text.{Text, codes, same, has, has_unit}
use skillcdn.Redirects.{
  Url, redirect_uri_problem, url_problem, scheme_problem, is_registered_redirect,
  is_loopback_redirect, is_loopback_url, same_but_port, into_browser,
}
use skillcdn.Redirects.Rules.{IsAccepted, redirect_uri_problem_iff}
use skillcdn.Redirects.Registered.{IsSameLoopback, is_registered_iff}

run : Unit {0}
unfolding redirect_uri_problem url_problem scheme_problem is_registered_redirect
    is_loopback_redirect is_loopback_url same_but_port same has has_unit
run = tt

abbrev url_of : Text → Text → Text → Url
url_of protocol hostname pathname = record {
  protocol = protocol;
  hostname = hostname;
  host = hostname;
  pathname = pathname;
  search = [];
  hash = [];
  username = [];
  password = [];
}

abbrev registered_uri : Text
registered_uri = codes "http://localhost/cb"

abbrev presented_uri : Text
presented_uri = codes "http://localhost:8080/cb"

-- The URLs of the tests, each parsed as the platform does.
abbrev parse : Text → Option Url
parse uri =
    if same uri registered_uri
    then some (url_of (codes "http:") (codes "localhost") (codes "/cb"))
    else if same uri presented_uri
    then some (url_of (codes "http:") (codes "localhost") (codes "/cb"))
    else if same uri (codes "javascript:x")
    then some (url_of (codes "javascript:") [] (codes "x"))
    else none

refused : redirect_uri_problem parse (codes "javascript:x") ≡ some into_browser
unfolding run
refused = refl

other_port : is_registered_redirect parse (registered_uri ∷ []) presented_uri ≡ true
unfolding run
other_port = refl

redirect_uri_problem_iff_example :
    (redirect_uri_problem parse presented_uri ≡ none) ↔ IsAccepted parse presented_uri
redirect_uri_problem_iff_example = redirect_uri_problem_iff parse presented_uri

is_registered_iff_example :
    (is_registered_redirect parse (registered_uri ∷ []) presented_uri ≡ true) ↔ (
      In presented_uri (registered_uri ∷ [])
      ⊎ ((candidate : Text) × In candidate (registered_uri ∷ [])
          × IsSameLoopback parse candidate presented_uri))
is_registered_iff_example = is_registered_iff parse (registered_uri ∷ []) presented_uri
