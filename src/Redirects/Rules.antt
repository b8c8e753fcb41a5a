-- ===== src/Redirects/Rules.antt =====
-- Which redirects are accepted.
use skillcdn.Common.{
  ◌≤◌, ◌≡◌, refl, ap, ◌∙◌, ◌≢◌, ◌↔◌, inl, inr, Bool, true, false, ◌||◌, not, [], ◌∷◌, Option, none,
  some, ltb, is_empty, length, arith, Bool-cases, if◌then◌else◌,
}
use skillcdn.Text.{Text, codes, same, has, has_unit}
use skillcdn.Text.Compare.{same_iff}
use skillcdn.Redirects.{
  Url, RedirectProblem, max_redirect_uri_length, forbidden_schemes, loopback_hosts, scheme_problem,
  url_problem, redirect_uri_problem,
}

-- A scheme that leads to a client: the web, this computer, or one that the client has of its own.
pub data IsClientScheme (url : Url) : Type 0 where
  web : url.protocol ≡ codes "https:" → IsClientScheme url
  loopback :
      url.protocol ≡ codes "http:" → has loopback_hosts url.hostname ≡ true → IsClientScheme url
  own :
      url.protocol ≢ codes "https:"
      → url.protocol ≢ codes "http:"
      → has forbidden_schemes url.protocol ≡ false
      → IsClientScheme url

differs : (s t : Text) → same s t ≡ false → s ≢ t
differs s t h e = cc (h, (same_iff s t).1 e)

pub scheme_problem_iff : (url : Url) → (scheme_problem url ≡ none) ↔ IsClientScheme url
unfolding scheme_problem
scheme_problem_iff url = elim (Bool-cases (same url.protocol (codes "https:"))) [
  | inl s ↦ rw s (λ h. web ((same_iff url.protocol (codes "https:")).0 s), λ h. refl)
  | inr ns ↦ elim (Bool-cases (same url.protocol (codes "http:"))) [
    | inl p ↦
        let at_http = (same_iff url.protocol (codes "http:")).0 p in
        elim (Bool-cases (has loopback_hosts url.hostname)) [
          | inl l ↦ rw (ns, p, l) (λ h. loopback at_http l, λ h. refl)
          | inr nl ↦
              rw (ns, p, nl)
                (
                  λ h. cc,
                  λ h. elim h [
                    | web e ↦ absurd (differs url.protocol (codes "https:") ns e)
                    | loopback e k ↦ cc
                    | own a b k ↦ absurd (b at_http)
                  ],
                )
        ]
    | inr np ↦ elim (Bool-cases (has forbidden_schemes url.protocol)) [
      | inl f ↦
          rw (ns, np, f)
            (
              λ h. cc,
              λ h. elim h [
                | web e ↦ absurd (differs url.protocol (codes "https:") ns e)
                | loopback e k ↦ absurd (differs url.protocol (codes "http:") np e)
                | own a b k ↦ cc
              ],
            )
      | inr nf ↦
          rw (ns, np, nf)
            (
              λ h.
                  own (differs url.protocol (codes "https:") ns)
                    (differs url.protocol (codes "http:") np) nf,
              λ h. refl,
            )
    ]
  ]
]

-- A URI that a client may be sent back to.
pub record IsAccepted (parse : Text → Option Url) (uri : Text) : Type 0 where
  pub short : length uri ≤ max_redirect_uri_length
  pub url : Url
  pub parsed : parse uri ≡ some url
  pub no_hash : url.hash ≡ []
  pub no_mark : has_unit b'#' uri ≡ false
  pub no_username : url.username ≡ []
  pub no_password : url.password ≡ []
  pub scheme : IsClientScheme url

empty_iff : (s : Text) → (is_empty s ≡ true) ↔ (s ≡ [])
empty_iff [] = (λ h. refl, λ h. refl)
empty_iff (c ∷ s) = (λ h. cc, λ h. cc)

guards :
    (hash mark username password : Bool) (rest : Option RedirectProblem) (p q : RedirectProblem)
    → ((if not hash || mark then some p else if not username || not password then some q else rest)
        ≡ none)
      ↔ ((hash ≡ true) × (mark ≡ false) × (username ≡ true) × (password ≡ true) × (rest ≡ none))
guards false mark u w rest p q = (λ h. cc, λ (a, b, c, d, e). cc)
guards true true u w rest p q = (λ h. cc, λ (a, b, c, d, e). cc)
guards true false false w rest p q = (λ h. cc, λ (a, b, c, d, e). cc)
guards true false true false rest p q = (λ h. cc, λ (a, b, c, d, e). cc)
guards true false true true rest p q = (λ h. (refl, refl, refl, refl, h), λ (a, b, c, d, e). e)

url_problem_iff :
    (uri : Text) (url : Url)
    → (url_problem uri (some url) ≡ none) ↔ (
        (url.hash ≡ [])
        × (has_unit b'#' uri ≡ false)
        × (url.username ≡ [])
        × (url.password ≡ [])
        × IsClientScheme url)
unfolding url_problem
url_problem_iff uri url =
    let (to, from) =
      guards (is_empty url.hash) (has_unit b'#' uri) (is_empty url.username) (is_empty url.password)
        (scheme_problem url) RedirectProblem.has_fragment RedirectProblem.has_credentials in
    (
      λ h.
          let (a, b, c, d, e) = to h in
          (
            (empty_iff url.hash).0 a,
            b,
            (empty_iff url.username).0 c,
            (empty_iff url.password).0 d,
            (scheme_problem_iff url).0 e,
          ),
      λ (a, b, c, d, e). from (
        (empty_iff url.hash).1 a,
        b,
        (empty_iff url.username).1 c,
        (empty_iff url.password).1 d,
        (scheme_problem_iff url).1 e,
      ),
    )

module _ (parse : Text → Option Url) where
  url-IsAccepted :
      (uri : Text) (o : Option Url)
      → parse uri ≡ o
      → length uri ≤ max_redirect_uri_length
      → url_problem uri o ≡ none
      → IsAccepted parse uri
  unfolding url_problem
  url-IsAccepted uri none e short h = cc
  url-IsAccepted uri (some url) e short h =
      let (a, b, c, d, s) = (url_problem_iff uri url).0 h in
      record {
        short = short;
        url = url;
        parsed = e;
        no_hash = a;
        no_mark = b;
        no_username = c;
        no_password = d;
        scheme = s;
      }

  -- A URI is accepted exactly if it is short, absolute, carries no fragment and no credentials, and
  -- its scheme is `https`, or `http` to this computer, or another that is not one of the browser's.
  pub redirect_uri_problem_iff :
      (uri : Text) → (redirect_uri_problem parse uri ≡ none) ↔ IsAccepted parse uri
  unfolding redirect_uri_problem
  redirect_uri_problem_iff uri = elim (Bool-cases (ltb max_redirect_uri_length (length uri))) [
    | inl long ↦ rw long (λ h. cc, λ h. let short = h.short in absurd (ground arith))
    | inr short ↦ rw short (
      λ h. url-IsAccepted uri (parse uri) refl (ground arith) h,
      λ h.
          ap (url_problem uri) h.parsed
          ∙ (url_problem_iff uri h.url).1
              (h.no_hash, h.no_mark, h.no_username, h.no_password, h.scheme),
    )
  ]
