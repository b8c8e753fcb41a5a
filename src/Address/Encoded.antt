-- ===== src/Address/Encoded.antt =====
-- What formatAddress writes, against what the address says before it is encoded.
use skillcdn.Common.{
  ◌≡◌, refl, ◌∙◌, ap, true, ◌||◌, [], ◌∷◌, ◌++◌, arith, All-map, append_assoc, Bool-cases, inl, inr,
  Option, none, some,
}
use skillcdn.Text.{Text, slash, has_unit, split, join, replace_three}
use skillcdn.TextSafety.{code_points}
use skillcdn.Percent.{encode_uri_component, encode_points}
use skillcdn.Text.Split.{Lacks}
use skillcdn.TextSafety.Laws.{IsSafe, IsSafe-nil, IsSafe-join}
use skillcdn.RepoPath.{RepoPath}
use skillcdn.RepoPath.Segments.{slash-IsSafePoint, IsPath, root, segments}
use skillcdn.Percent.Points.{IsUnits}
use skillcdn.Address.{
  Address, AddressHost, AddressRef, gh, local_host, host_naming_rules, host_key, is_valid_repo,
}
use skillcdn.Address.Print.{
  ref_text, mounted_path, ref_tail, repo_prefix, encode_slash_separated, encode_segments,
  encode_segment, format_address,
}
use skillcdn.Address.Names.{owner-IsNameUnit, repo-IsNameUnit, unit-IsPlainUnit}
use skillcdn.Address.Canonical.{IsRefOption, IsCanonical, plain_suffix, ref-IsRefText}
use skillcdn.Address.Segments.{
  DecodesTo, DecodesTo-append, DecodesTo-unit, DecodesTo-nil, DecodesTo-plain, DecodesTo-empty,
  encode_slash-DecodesTo,
}
use skillcdn.Address.Interpret.{body}

pub path-IsSafe : {s : Text} → IsPath s → IsSafe s
path-IsSafe root = IsSafe-nil
path-IsSafe (segments p ps h) =
    (IsSafe-join slash slash-IsSafePoint (p ∷ ps)).1 (All-map (λ s h. h.safe) (p ∷ ps) h)

-- An encoded path is empty exactly if the path is.
pub record IsEncodedPath (t s : Text) : Type 0 where
  pub decodes : DecodesTo t s
  pub nil_only : s ≡ [] → t ≡ []

encode-nil : encode_slash_separated [] ≡ some []
unfolding encode_slash_separated encode_segments encode_segment split join encode_uri_component
    replace_three code_points encode_points
encode-nil = refl

pub encode_path :
    (s : Text)
    → IsSafe s
    → IsUnits s
    → (t : Text) × (encode_slash_separated s ≡ some t) × IsEncodedPath t s
encode_path [] h u = ([], encode-nil, record { decodes = DecodesTo-nil; nil_only = λ e. refl })
encode_path (c ∷ s) h u =
    let (t, e, d) = encode_slash-DecodesTo (c ∷ s) u h in
    (t, e, record { decodes = d; nil_only = λ q. cc })

pub mounted-DecodesTo :
    (t s : Text) → IsEncodedPath t s → DecodesTo (mounted_path t) (mounted_path s)
mounted-DecodesTo [] [] h = DecodesTo-nil
mounted-DecodesTo [] (c ∷ s) h = let e = DecodesTo-empty (c ∷ s) h.decodes in absurd (cc e)
mounted-DecodesTo (c ∷ t) [] h = let e = h.nil_only refl in absurd (cc e)
mounted-DecodesTo (c ∷ t) (d ∷ s) h = DecodesTo-unit slash (c ∷ t) (d ∷ s) (omega arith) h.decodes

-- The ref and the path behind it.
ref_tail-DecodesTo :
    (text path encoded_ref encoded_path : Text)
    → DecodesTo encoded_ref text
    → IsEncodedPath encoded_path path
    → DecodesTo (ref_tail text path encoded_ref encoded_path) (ref_tail text path text path)
unfolding ref_tail
ref_tail-DecodesTo text path er ep h k =
    elim (Bool-cases (has_unit slash text || has_unit b':' path)) [
      | inl explicit ↦ rw explicit (
          DecodesTo-append er text (b':' ∷ ep) (b':' ∷ path) h
            (DecodesTo-unit b':' ep path (omega arith) k.decodes))
      | inr implicit ↦ rw implicit (
          DecodesTo-append er text (mounted_path ep) (mounted_path path) h
            (mounted-DecodesTo ep path k))
    ]

-- What stands behind the repository.
suffix-encoded :
    (r : Option AddressRef)
    → IsRefOption r
    → (path : RepoPath) → IsSafe path
    → IsUnits path
    → (t : Text) × ((a : Address)
        → a.ref ≡ r
        → a.path ≡ path
        → format_address a ≡ some (repo_prefix a ++ t))
      × DecodesTo t (plain_suffix r path)
unfolding format_address
suffix-encoded none h path safe units =
    let (ep, e, d) = encode_path path safe units in
    (
      mounted_path ep,
      λ a p q. rw (ap encode_slash_separated q ∙ e, format_address, p) refl,
      mounted-DecodesTo ep path d,
    )
suffix-encoded (some ref) h path safe units =
    let (ep, e, d) = encode_path path safe units in
    let facts = ref-IsRefText ref h in
    let (er, f, g) = encode_slash-DecodesTo (ref_text ref) facts.units facts.safe in
    (
      b'@' ∷ ref_tail (ref_text ref) path er ep,
      λ a p q. rw (ap encode_slash_separated q ∙ e, format_address, p, f, q) refl,
      DecodesTo-unit b'@' _ _ (omega arith) (ref_tail-DecodesTo (ref_text ref) path er ep g d),
    )

name-DecodesTo :
    (s : Text) → Lacks b'%' s → (t u : Text) → DecodesTo t u → DecodesTo (s ++ t) (s ++ u)
name-DecodesTo s h t u d = DecodesTo-append s s t u (DecodesTo-plain s h) d

owner-Lacks :
    (h : AddressHost) (s : Text) → (host_naming_rules h).owner_test s ≡ true → Lacks b'%' s
owner-Lacks h s e = All-map (λ c u. (unit-IsPlainUnit c u).no_percent) s (owner-IsNameUnit h s e).0

repo-Lacks_percent :
    (h : AddressHost) (s : Text) → is_valid_repo (host_naming_rules h) s ≡ true → Lacks b'%' s
repo-Lacks_percent h s e =
    All-map (λ c u. (unit-IsPlainUnit c u).no_percent) s (repo-IsNameUnit h s e).0

host-Lacks_percent : (h : AddressHost) → Lacks b'%' (host_key h)
host-Lacks_percent gh = omega arith
host-Lacks_percent local_host = omega arith

-- A canonical address is formatted as a slash and a text whose segments decode to those of its body.
pub format-DecodesTo :
    (a : Address)
    → IsCanonical a
    → (t : Text) × (format_address a ≡ some (slash ∷ t)) × DecodesTo t (body a)
unfolding repo_prefix
format-DecodesTo a h =
    let (t, e, d) =
      suffix-encoded a.ref h.ref_valid a.path (path-IsSafe h.path_valid.0) h.path_units in
    (
      host_key a.host ++ (slash ∷ a.owner ++ (slash ∷ a.repo ++ t)),
      e a refl refl ∙ assoc (host_key a.host) a.owner a.repo t,
      name-DecodesTo (host_key a.host) (host-Lacks_percent a.host) _ _ (
          DecodesTo-unit slash _ _ (omega arith) (
            name-DecodesTo a.owner (owner-Lacks a.host a.owner h.owner_valid) _ _ (
              DecodesTo-unit slash _ _ (omega arith)
                (name-DecodesTo a.repo (repo-Lacks_percent a.host a.repo h.repo_valid) _ _ d)))),
    )
  where
    assoc :
        (x y z t : Text)
        → ◌≡◌ {A = Option Text}
            (some (slash ∷ x ++ (slash ∷ y ++ (slash ∷ z)) ++ t))
            (some (slash ∷ (x ++ (slash ∷ y ++ (slash ∷ z ++ t)))))
    assoc x y z t = rw (append_assoc x (slash ∷ y ++ (slash ∷ z)) t, append_assoc y (slash ∷ z) t)
