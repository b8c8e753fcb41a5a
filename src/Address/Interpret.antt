-- ===== src/Address/Interpret.antt =====
-- What the segments of a formatted address are read as.
use skillcdn.Common.{
  ◌≡◌, refl, sym, ◌∙◌, ap, true, List, [], ◌∷◌, ◌++◌, arith, Option, none, some, append-nil,
}
use skillcdn.Text.{Text, slash, same, split, join}
use skillcdn.Text.Split.{Lacks, split-ne-nil, split_of_Lacks, join-split, split-append-cons}
use skillcdn.Result.{Result, ok}
use skillcdn.RepoPath.{RepoPath}
use skillcdn.RepoPath.Parse.{parse_repo_path_iff}
use skillcdn.RepoPath.Segments.{IsRepoPath}
use skillcdn.Address.{
  Address, AddressHost, AddressRef, AddressError, gh, local_host, host_naming_rules, host_key,
  is_valid_repo, canonical_name, repo_of, locate, cut_tail, parse_path, parse_repository,
  parse_named, parse_segments, address_host,
}
use skillcdn.Address.Print.{ref_text, mounted_path, ref_tail}
use skillcdn.Address.Canonical.{
  IsRef, IsRefOption, IsCanonical, plain_suffix, parse_ref-ok, owner-Lacks-slash, repo-Lacks,
  ref-IsRefText,
}
use skillcdn.Address.Locate.{
  cut_tail-ref_tail, repo_segments, repo_of-at, repo_of-none, locate-none, locate-at,
}

parse_path-ok : (path : RepoPath) → IsRepoPath path → parse_path path ≡ ok path
unfolding parse_path
parse_path-ok path h = rw ((parse_repo_path_iff path path).1 (refl, h), parse_path)

-- What is read once the names, the ref and the path have been found valid.
parse_repository-ok :
    (h : AddressHost) (owner segment : Text) (rest : List Text) (repo : Text)
    (ref : Option AddressRef) (input : Text) (path : RepoPath)
    → (host_naming_rules h).owner_test owner ≡ true
    → repo_of segment ≡ repo
    → is_valid_repo (host_naming_rules h) repo ≡ true
    → locate segment rest ≡ ok (ref, input)
    → parse_path input ≡ ok path
    → canonical_name (host_naming_rules h) owner ≡ owner
    → canonical_name (host_naming_rules h) repo ≡ repo
    → parse_repository h owner segment rest
      ≡ ok (record { host = h; owner = owner; repo = repo; ref = ref; path = path })
unfolding parse_repository
parse_repository-ok h owner segment rest repo ref input path o r v l p co cr =
    rw (o, r, v, l, p, co, cr, parse_repository) refl

-- The rest of the parser, from the repository's segment on.
pub read_repository : AddressHost → Text → List Text → Result Address AddressError
read_repository h owner [] = parse_named h (owner ∷ [])
read_repository h owner (segment ∷ rest) = parse_repository h owner segment rest

read_mounted :
    (a : Address)
    → IsCanonical a
    → (path : RepoPath) → IsRepoPath path
    → read_repository a.host a.owner (split slash (a.repo ++ mounted_path path))
      ≡ ok (record { host = a.host; owner = a.owner; repo = a.repo; ref = none; path = path })
unfolding read_repository join
read_mounted a h [] valid =
    let (no_slash, no_at) = repo-Lacks a.host a.repo h.repo_valid in
    rw (append-nil a.repo, split_of_Lacks slash a.repo no_slash)
      (parse_repository-ok a.host a.owner a.repo [] a.repo none [] [] h.owner_valid
        (repo_of-none a.repo no_at) h.repo_valid (locate-none a.repo [] no_at)
        (parse_path-ok [] valid) h.owner_case h.repo_case)
read_mounted a h (c ∷ path) valid =
    let (no_slash, no_at) = repo-Lacks a.host a.repo h.repo_valid in
    rw (split-append-cons slash a.repo (c ∷ path) no_slash) (
      parse_repository-ok a.host a.owner a.repo (split slash (c ∷ path)) a.repo none (c ∷ path)
        (c ∷ path) h.owner_valid (repo_of-none a.repo no_at) h.repo_valid
        (rw (join-split slash (c ∷ path)) at (locate-none a.repo (split slash (c ∷ path)) no_at))
        (parse_path-ok (c ∷ path) valid) h.owner_case h.repo_case)

read_ref :
    (a : Address)
    → IsCanonical a
    → (ref : AddressRef) → IsRef ref
    → read_repository a.host a.owner (split slash (a.repo ++ plain_suffix (some ref) a.path))
      ≡ ok (record { host = a.host; owner = a.owner; repo = a.repo; ref = some ref; path = a.path })
unfolding read_repository
read_ref a h ref r = go (split slash tail) refl
  where
    tail : Text
    tail = ref_tail (ref_text ref) a.path (ref_text ref) a.path

    go :
        (parts : List Text)
        → split slash tail ≡ parts
        → read_repository a.host a.owner (split slash (a.repo ++ (b'@' ∷ tail)))
          ≡ ok (record {
            host = a.host;
            owner = a.owner;
            repo = a.repo;
            ref = some ref;
            path = a.path;
          })
    go [] e = absurd (split-ne-nil slash tail e)
    go (x ∷ xs) e =
        let (no_slash, no_at) = repo-Lacks a.host a.repo h.repo_valid in
        let facts = ref-IsRefText ref r in
        let whole : join slash (x ∷ xs) ≡ tail = ap (join slash) (sym e) ∙ join-split slash tail in
        rw (repo_segments a.repo tail x xs no_slash e) (
          parse_repository-ok a.host a.owner (a.repo ++ (b'@' ∷ x)) xs a.repo (some ref) a.path
            a.path h.owner_valid (repo_of-at a.repo x no_at) h.repo_valid
            (locate-at a.repo x xs (ref_text ref) a.path ref no_at
              (ap cut_tail whole ∙ cut_tail-ref_tail (ref_text ref) a.path facts.no_colon)
              (parse_ref-ok ref r facts.not_empty))
            (parse_path-ok a.path h.path_valid) h.owner_case h.repo_case)

-- What an address spells after the first slash, before anything is encoded.
abbrev pub body : Address → Text
body a = host_key a.host ++ (slash ∷ a.owner ++ (slash ∷ a.repo ++ plain_suffix a.ref a.path))

host_key-Lacks : (h : AddressHost) → Lacks slash (host_key h)
host_key-Lacks gh = omega arith
host_key-Lacks local_host = omega arith

parse_named-read :
    (h : AddressHost) (owner : Text) (parts : List Text)
    → parse_named h (owner ∷ parts) ≡ read_repository h owner parts
unfolding parse_named read_repository
parse_named-read h owner [] = refl
parse_named-read h owner (segment ∷ rest) = refl

parse_host :
    (h : AddressHost) (parts : List Text)
    → parse_segments (host_key h ∷ parts) ≡ parse_named h parts
unfolding parse_segments address_host same
parse_host gh parts = refl
parse_host local_host parts = refl

with_ref : (a : Address) → Option AddressRef → Address
with_ref a r = record { host = a.host; owner = a.owner; repo = a.repo; ref = r; path = a.path }

read_any :
    (a : Address)
    → IsCanonical a
    → (r : Option AddressRef) → IsRefOption r
    → read_repository a.host a.owner (split slash (a.repo ++ plain_suffix r a.path))
      ≡ ok (with_ref a r)
unfolding with_ref
read_any a h none k = read_mounted a h a.path h.path_valid
read_any a h (some ref) k = read_ref a h ref k

read_all :
    (a : Address)
    → IsCanonical a
    → read_repository a.host a.owner (split slash (a.repo ++ plain_suffix a.ref a.path)) ≡ ok a
unfolding with_ref
read_all a h = read_any a h a.ref h.ref_valid

-- The segments of a canonical address are read as the address.
pub parse_segments-body :
    (a : Address) → IsCanonical a → parse_segments (split slash (body a)) ≡ ok a
parse_segments-body a h =
    rw
      (
        split-append-cons slash (host_key a.host)
            (a.owner ++ (slash ∷ a.repo ++ plain_suffix a.ref a.path)) (host_key-Lacks a.host),
        split-append-cons slash a.owner (a.repo ++ plain_suffix a.ref a.path)
            (owner-Lacks-slash a.host a.owner h.owner_valid),
        parse_host,
        parse_named-read,
      )
      (read_all a h)
