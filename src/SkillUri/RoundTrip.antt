-- ===== src/SkillUri/RoundTrip.antt =====
-- A skill URI names what it was made of.
use skillcdn.Common.{◌+◌, ◌≤◌, ◌≡◌, refl, sym, ap, ◌≢◌, [], ◌∷◌, ◌++◌, some, arith, length, subst}
use skillcdn.Text.{Text, codes, slash, starts_with}
use skillcdn.Result.{ok}
use skillcdn.RepoPath.{RepoPath}
use skillcdn.Address.{parse_address, max_address_length}
use skillcdn.Address.Canonical.{IsCanonical}
use skillcdn.Address.Encoded.{format-DecodesTo}
use skillcdn.Address.Format.{parse-format}
use skillcdn.SkillUri.{SkillUriAddress, at_path, format_skill_uri, parse_skill_uri, skill_uri_of}

read_uri :
    (a : SkillUriAddress) (path : RepoPath) (t : Text)
    → path ≢ []
    → parse_address (slash ∷ t) ≡ ok (at_path a path)
    → parse_skill_uri (codes "skill://" ++ t) ≡ some (record { address = a; path = path })
unfolding parse_skill_uri starts_with skill_uri_of
read_uri a [] t n h = absurd (n refl)
read_uri a (c ∷ path) t n h = rw h refl

-- The URI of a file, at a path that is not the root of a repository whose names are canonical, is
-- read back as that repository and that path, where the address in it is within the accepted length.
pub parse_skill-format :
    (a : SkillUriAddress) (path : RepoPath) (uri : Text)
    → IsCanonical (at_path a path)
    → path ≢ []
    → format_skill_uri a path ≡ some uri
    → length uri ≤ max_address_length + 7
    → parse_skill_uri uri ≡ some (record { address = a; path = path })
unfolding format_skill_uri
parse_skill-format a path uri h n e short =
    let (t, f, d) = format-DecodesTo (at_path a path) h in
    let q : uri ≡ codes "skill:/" ++ (slash ∷ t) = cc (rw f at e) in
    subst (λ u. parse_skill_uri u ≡ some (record { address = a; path = path })) (sym q)
      (read_uri a path t n
        (parse-format (at_path a path) (slash ∷ t) h f (omega (arith, short, ap length q))))
