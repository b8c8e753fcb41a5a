-- ===== src/Address/Format.antt =====
-- What formatAddress writes is read back.
use skillcdn.Common.{
  ◌≤◌, ◌≡◌, refl, sym, subst, false, ◌||◌, [], ◌∷◌, ◌++◌, arith, All, All-append, Bool-cases, inl,
  inr, Option, none, some, append-nil, length, ltb,
}
use skillcdn.Text.{Text, slash, has_unit, split, starts_with}
use skillcdn.Text.Split.{Lacks, split_of_Lacks, split-append-cons, split-append_sep}
use skillcdn.Result.{ok}
use skillcdn.TextSafety.{is_surrogate, is_forbidden_code_point}
use skillcdn.RepoPath.{RepoPath}
use skillcdn.RepoPath.Segments.{IsSegment, IsPath, IsPath→split}
use skillcdn.Address.{
  Address, AddressHost, AddressRef, gh, local_host, host_key, parse_address, max_address_length,
  matches_name, is_alphanumeric, is_owner_unit,
}
use skillcdn.Address.Print.{ref_text, mounted_path, ref_tail, format_address}
use skillcdn.Address.Names.{owner-IsSegment, repo-IsSegment}
use skillcdn.Address.Canonical.{
  IsRefOption, IsCanonical, plain_suffix, ref-IsRefText, owner-Lacks-slash, repo-Lacks,
}
use skillcdn.Address.Segments.{DecodesTo, decode_segments-ok}
use skillcdn.Address.Interpret.{body, parse_segments-body}
use skillcdn.Address.Glue.{IsMark, IsTail, nil-IsTail, segments-IsTail, glue-segments}
use skillcdn.Address.Encoded.{format-DecodesTo}

at-IsMark : IsMark b'@'
unfolding is_surrogate is_forbidden_code_point
at-IsMark = record {
  no_slash = omega arith;
  no_backslash = omega arith;
  no_dot = omega arith;
  safe = (refl, refl);
}

colon-IsMark : IsMark b':'
unfolding is_surrogate is_forbidden_code_point
colon-IsMark = record {
  no_slash = omega arith;
  no_backslash = omega arith;
  no_dot = omega arith;
  safe = (refl, refl);
}

path-IsTail : (s : Text) → IsPath s → IsTail (split slash s)
path-IsTail [] h = nil-IsTail
path-IsTail (c ∷ s) h = segments-IsTail _ (IsPath→split h (λ e. cc))

-- A text of segments with a path mounted below it.
mounted-segments :
    (s path : Text)
    → All IsSegment (split slash s)
    → IsPath path
    → All IsSegment (split slash (s ++ mounted_path path))
mounted-segments s [] h k = rw (append-nil s) h
mounted-segments s (c ∷ path) h k =
    rw (split-append_sep slash s (c ∷ path))
      (All-append IsSegment (split slash s) _ h (IsPath→split k (λ e. cc)))

ref_tail-segments :
    (text path : Text)
    → All IsSegment (split slash text)
    → IsPath path
    → All IsSegment (split slash (ref_tail text path text path))
unfolding ref_tail
ref_tail-segments text path h k = elim (Bool-cases (has_unit slash text || has_unit b':' path)) [
  | inl explicit ↦ rw explicit (glue-segments b':' colon-IsMark text path h (path-IsTail path k))
  | inr implicit ↦ rw implicit (mounted-segments text path h k)
]

suffix-segments :
    (repo : Text)
    → All IsSegment (split slash repo)
    → (r : Option AddressRef) → IsRefOption r
    → (path : RepoPath) → IsPath path
    → All IsSegment (split slash (repo ++ plain_suffix r path))
suffix-segments repo h none k path p = mounted-segments repo path h p
suffix-segments repo h (some ref) k path p =
    let facts = ref-IsRefText ref k in
    glue-segments b'@' at-IsMark repo (ref_tail (ref_text ref) path (ref_text ref) path) h (
      segments-IsTail _
        (ref_tail-segments (ref_text ref) path (IsPath→split facts.path facts.not_empty) p))

host-IsSegment : (h : AddressHost) → IsSegment (host_key h)
unfolding matches_name is_alphanumeric is_owner_unit
host-IsSegment gh = owner-IsSegment gh _ refl
host-IsSegment local_host = owner-IsSegment gh _ refl

host_key-Lacks-slash : (h : AddressHost) → Lacks slash (host_key h)
host_key-Lacks-slash h = (host-IsSegment h).no_slash

-- The segments of a canonical address are names.
body-segments : (a : Address) → IsCanonical a → All IsSegment (split slash (body a))
body-segments a h =
    rw
      (
        split-append-cons slash (host_key a.host)
            (a.owner ++ (slash ∷ a.repo ++ plain_suffix a.ref a.path))
            (host_key-Lacks-slash a.host),
        split-append-cons slash a.owner (a.repo ++ plain_suffix a.ref a.path)
            (owner-Lacks-slash a.host a.owner h.owner_valid),
      )
      (
        host-IsSegment a.host,
        (
          owner-IsSegment a.host a.owner h.owner_valid,
          suffix-segments a.repo
              (rw (split_of_Lacks slash a.repo (repo-Lacks a.host a.repo h.repo_valid).0)
                (repo-IsSegment a.host a.repo h.repo_valid, tt))
              a.ref h.ref_valid a.path h.path_valid.0,
        ),
      )

-- formatAddress succeeds on every canonical address.
pub format_total : (a : Address) → IsCanonical a → (t : Text) × (format_address a ≡ some t)
format_total a h = let (t, e, d) = format-DecodesTo a h in (slash ∷ t, e)

read_back :
    (a : Address) (t : Text)
    → IsCanonical a
    → DecodesTo t (body a)
    → length (slash ∷ t) ≤ max_address_length
    → parse_address (slash ∷ t) ≡ ok a
unfolding parse_address starts_with split
read_back a t h d short =
    let decoded = decode_segments-ok (split slash t) (split slash (body a)) d (body-segments a h) in
    let accepted : ltb max_address_length (length (slash ∷ t)) ≡ false = ground arith in
    rw (accepted, decoded) (parse_segments-body a h)

-- What formatAddress writes of a canonical address is, within the accepted length, read back by
-- parseAddress as the same address: with its host, owner, repository, ref and path.
pub parse-format :
    (a : Address) (t : Text)
    → IsCanonical a
    → format_address a ≡ some t
    → length t ≤ max_address_length
    → parse_address t ≡ ok a
parse-format a t h e short =
    let (u, f, d) = format-DecodesTo a h in
    let q : t ≡ slash ∷ u = cc in
    subst (λ x. parse_address x ≡ ok a) (sym q) (read_back a u h d (rw q at short))
