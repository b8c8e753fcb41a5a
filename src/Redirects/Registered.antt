-- ===== src/Redirects/Registered.antt =====
-- Which redirects are a registered one.
use skillcdn.Common.{
  ◌≡◌, refl, sym, ◌↔◌, ◌⊎◌, inl, inr, true, false, ◌&&◌, not, List, Option, none, some, any-true,
  any-In, In, head, tail, Bool-cases, if◌then◌else◌, and_iff, Option-cases,
}
use skillcdn.Text.{Text, codes, has, same}
use skillcdn.Text.Compare.{has→In, In→has, same_iff}
use skillcdn.Redirects.{
  Url, is_loopback_url, is_loopback_redirect, same_but_port, is_registered_redirect, loopback_hosts,
}

-- A URL of this computer.
pub record IsOfComputer (url : Url) : Type 0 where
  pub plain : url.protocol ≡ codes "http:"
  pub host :
      (url.hostname ≡ codes "localhost")
      ⊎ (url.hostname ≡ codes "127.0.0.1")
      ⊎ (url.hostname ≡ codes "[::1]")

In-loopback_hosts :
    (h : Text)
    → In h loopback_hosts
    → (h ≡ codes "localhost") ⊎ (h ≡ codes "127.0.0.1") ⊎ (h ≡ codes "[::1]")
In-loopback_hosts h (head e) = inl (sym e)
In-loopback_hosts h (tail (head e)) = inr (inl (sym e))
In-loopback_hosts h (tail (tail (head e))) = inr (inr (sym e))
In-loopback_hosts h (tail (tail (tail m))) = elim m [ ]

loopback_hosts-In :
    (h : Text)
    → (h ≡ codes "localhost") ⊎ (h ≡ codes "127.0.0.1") ⊎ (h ≡ codes "[::1]")
    → In h loopback_hosts
loopback_hosts-In h (inl e) = head (sym e)
loopback_hosts-In h (inr (inl e)) = tail (head (sym e))
loopback_hosts-In h (inr (inr e)) = tail (tail (head (sym e)))

is_loopback_url_iff : (url : Url) → (is_loopback_url (some url) ≡ true) ↔ IsOfComputer url
unfolding is_loopback_url
is_loopback_url_iff url = (
  λ h.
      let (p, q) =
        (and_iff (same url.protocol (codes "http:")) (has loopback_hosts url.hostname)).0 h in
      record {
        plain = (same_iff url.protocol (codes "http:")).0 p;
        host = In-loopback_hosts url.hostname (has→In loopback_hosts url.hostname q);
      },
  λ c. (and_iff (same url.protocol (codes "http:")) (has loopback_hosts url.hostname)).1 (
    (same_iff url.protocol (codes "http:")).1 c.plain,
    In→has (loopback_hosts-In url.hostname c.host),
  ),
)

-- Two URLs that agree in the host name, the path and the query.
pub record IsSamePlace (known wanted : Url) : Type 0 where
  pub host_name : known.hostname ≡ wanted.hostname
  pub path : known.pathname ≡ wanted.pathname
  pub query : known.search ≡ wanted.search

same_but_port_iff :
    (known wanted : Url)
    → (same_but_port (some known) (some wanted) ≡ true) ↔ IsSamePlace known wanted
unfolding same_but_port
same_but_port_iff known wanted = (
  λ h.
      let (a, r) =
        (and_iff (same known.hostname wanted.hostname)
            (same known.pathname wanted.pathname && same known.search wanted.search)).0
          h in
      let (b, c) =
        (and_iff (same known.pathname wanted.pathname) (same known.search wanted.search)).0 r in
      record {
        host_name = (same_iff known.hostname wanted.hostname).0 a;
        path = (same_iff known.pathname wanted.pathname).0 b;
        query = (same_iff known.search wanted.search).0 c;
      },
  λ p.
      (and_iff (same known.hostname wanted.hostname)
          (same known.pathname wanted.pathname && same known.search wanted.search)).1
        (
          (same_iff known.hostname wanted.hostname).1 p.host_name,
          (and_iff (same known.pathname wanted.pathname) (same known.search wanted.search)).1 (
            (same_iff known.pathname wanted.pathname).1 p.path,
            (same_iff known.search wanted.search).1 p.query,
          ),
        ),
)

no_loopback : is_loopback_url none ≡ false
unfolding is_loopback_url
no_loopback = refl

module _ (parse : Text → Option Url) where
  -- Two URIs that lead to this computer, to the same place but for the port.
  pub record IsSameLoopback (candidate presented : Text) : Type 0 where
    pub known : Url
    pub known_parsed : parse candidate ≡ some known
    pub known_computer : IsOfComputer known
    pub wanted : Url
    pub wanted_parsed : parse presented ≡ some wanted
    pub wanted_computer : IsOfComputer wanted
    pub place : IsSamePlace known wanted

  loopback_parsed :
      (uri : Text)
      → is_loopback_redirect parse uri ≡ true
      → (url : Url) × (parse uri ≡ some url) × IsOfComputer url
  unfolding is_loopback_redirect
  loopback_parsed uri h = elim (Option-cases (parse uri)) [
    | inl e ↦ cc (no_loopback, rw e at h)
    | inr (url, e) ↦ (url, e, (is_loopback_url_iff url).0 (rw e at h))
  ]

  parsed_loopback :
      (uri : Text) (url : Url)
      → parse uri ≡ some url
      → IsOfComputer url
      → is_loopback_redirect parse uri ≡ true
  unfolding is_loopback_redirect
  parsed_loopback uri url e c = rw e ((is_loopback_url_iff url).1 c)

  matches :
      (candidate presented : Text)
      → (if not (is_loopback_redirect parse candidate)
          then false
          else same_but_port (parse candidate) (parse presented))
        ≡ true
      → is_loopback_redirect parse presented ≡ true
      → IsSameLoopback candidate presented
  matches candidate presented h l = elim (Bool-cases (is_loopback_redirect parse candidate)) [
    | inr n ↦ cc (rw n at h)
    | inl k ↦
        let (known, e, c) = loopback_parsed candidate k in
        let (wanted, f, d) = loopback_parsed presented l in
        record {
          known = known;
          known_parsed = e;
          known_computer = c;
          wanted = wanted;
          wanted_parsed = f;
          wanted_computer = d;
          place = (same_but_port_iff known wanted).0 (rw (k, e, f) at h);
        }
  ]

  same_loopback :
      (candidate presented : Text)
      → IsSameLoopback candidate presented
      → (if not (is_loopback_redirect parse candidate)
          then false
          else same_but_port (parse candidate) (parse presented))
        ≡ true
  same_loopback candidate presented k =
      rw
        (
          parsed_loopback candidate k.known k.known_parsed k.known_computer,
          k.known_parsed,
          k.wanted_parsed,
        )
        ((same_but_port_iff k.known k.wanted).1 k.place)

  -- A URI that a request names is taken for a registered one exactly if it is one of them, or if it and
  -- one of them lead by `http:` to localhost, 127.0.0.1 or [::1] and have the same host name, path and
  -- query.
  pub is_registered_iff :
      (registered : List Text) (presented : Text)
      → (is_registered_redirect parse registered presented ≡ true) ↔ (
          In presented registered
          ⊎ ((candidate : Text) × In candidate registered × IsSameLoopback candidate presented))
  unfolding is_registered_redirect
  is_registered_iff registered presented = elim (Bool-cases (has registered presented)) [
    | inl listed ↦ rw listed (λ h. inl (has→In registered presented listed), λ h. refl)
    | inr unlisted ↦ elim (Bool-cases (is_loopback_redirect parse presented)) [
      | inr away ↦
          rw (unlisted, away)
            (
              λ h. cc,
              λ h. elim h [
                | inl m ↦ cc (unlisted, In→has m)
                | inr (c, m, k) ↦
                    cc (away, parsed_loopback presented k.wanted k.wanted_parsed k.wanted_computer)
              ],
            )
      | inl here ↦
          rw (unlisted, here)
            (
              λ h.
                  let (c, m, e) = any-true _ registered h in inr (c, m, matches c presented e here),
              λ h. elim h [
                | inl m ↦ cc (unlisted, In→has m)
                | inr (c, m, k) ↦ any-In _ m (same_loopback c presented k)
              ],
            )
    ]
  ]
