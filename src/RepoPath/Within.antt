-- ===== src/RepoPath/Within.antt =====
-- `isWithinRepoPath`, `relativeRepoPath` and `joinRepoPath`.
use skillcdn.Common.{
  ℕ, ◌≤◌, ◌≡◌, refl, sym, ap, ◌∙◌, ◌↔◌, ◌⊎◌, inl, inr, true, [], ◌∷◌, ◌++◌, arith, length,
  Bool-cases, append_assoc, length-append, subst,
}
use skillcdn.Text.{Text, slash, same}
use skillcdn.Text.Compare.{same_iff, starts_with→append, starts_with-append}
use skillcdn.RepoPath.{RepoPath, is_within_repo_path}

-- A path at or beneath another: the root is above all, and else the lower path starts with the
-- upper one and ends there, or goes on with a slash.
pub data Under (a : Text) (b : Text) : Type 0 where
  under_root : a ≡ [] → Under a b
  itself : b ≡ a → Under a b
  beneath : (r : Text) → b ≡ a ++ (slash ∷ r) → Under a b

pub is_within→Under : (a b : RepoPath) → is_within_repo_path a b ≡ true → Under a b
unfolding is_within_repo_path
is_within→Under [] b h = under_root refl
is_within→Under (c ∷ a) b h = elim (Bool-cases (same b (c ∷ a))) [
  | inl e ↦ itself ((same_iff b (c ∷ a)).0 e)
  | inr n ↦
      let (r, e) = starts_with→append b ((c ∷ a) ++ (slash ∷ [])) (ground arith) in
      beneath r (e ∙ append_assoc (c ∷ a) (slash ∷ []) r)
]

pub Under→is_within : (a b : RepoPath) → Under a b → is_within_repo_path a b ≡ true
unfolding is_within_repo_path
Under→is_within a b (under_root e) = rw e
Under→is_within a b (itself e) = ground (arith, same_iff b a)
Under→is_within a b (beneath r e) =
    ground (arith, starts_with-append (a ++ (slash ∷ [])) r, append_assoc a (slash ∷ []) r)

-- `isWithinRepoPath` decides the order of the tree of paths.
pub is_within_iff : (a b : RepoPath) → (is_within_repo_path a b ≡ true) ↔ Under a b
is_within_iff a b = (is_within→Under a b, Under→is_within a b)

pub Under-refl : (a : Text) → Under a a
Under-refl a = itself refl

append-eq-nil : (a : Text) (c : ℕ) (r : Text) → [] ≡ a ++ (c ∷ r) → ⊥
append-eq-nil [] c r e = cc
append-eq-nil (d ∷ a) c r e = cc

pub Under-trans : (a b c : Text) → Under a b → Under b c → Under a c
Under-trans a b c (under_root e) k = under_root e
Under-trans a b c (itself e) k = subst (λ x. Under x c) e k
Under-trans a b c (beneath r e) (under_root n) = absurd (append-eq-nil a slash r (sym n ∙ e))
Under-trans a b c (beneath r e) (itself k) = beneath r (k ∙ e)
Under-trans a b c (beneath r e) (beneath t k) =
    beneath (r ++ (slash ∷ t))
      (k ∙ ap (λ x. x ++ (slash ∷ t)) e ∙ append_assoc a (slash ∷ r) (slash ∷ t))

pub Under-length : (a b : Text) → Under a b → length a ≤ length b
Under-length a b (under_root e) = rw e (omega arith)
Under-length a b (itself e) = rw e (omega arith)
Under-length a b (beneath r e) = rw e (omega (arith, length-append a (slash ∷ r)))

pub Under-antisym : (a b : Text) → Under a b → Under b a → a ≡ b
Under-antisym a b (itself e) k = sym e
Under-antisym a b (under_root e) (under_root k) = e ∙ sym k
Under-antisym a b (under_root e) (itself k) = k
Under-antisym a b (under_root e) (beneath r k) = absurd (append-eq-nil b slash r (sym e ∙ k))
Under-antisym a b (beneath r e) k =
    absurd (ground (arith, Under-length b a k, length-append a (slash ∷ r)))

-- Of two texts that end at slashes of one text, one goes on from the other or they are the same.
abbrev pub Meet : Text → Text → Type 0
Meet a b = (a ≡ b) ⊎ ((u : Text) × (b ≡ a ++ (slash ∷ u))) ⊎ ((u : Text) × (a ≡ b ++ (slash ∷ u)))

Meet-cons : (x y : ℕ) (a b : Text) → x ≡ y → Meet a b → Meet (x ∷ a) (y ∷ b)
Meet-cons x y a b p (inl e) = inl (cc)
Meet-cons x y a b p (inr (inl (u, e))) = inr (inl (u, cc))
Meet-cons x y a b p (inr (inr (u, e))) = inr (inr (u, cc))

pub meet : (a b r t : Text) → a ++ (slash ∷ r) ≡ b ++ (slash ∷ t) → Meet a b
meet [] [] r t e = inl refl
meet [] (y ∷ b) r t e = inr (inl (b, cc))
meet (x ∷ a) [] r t e = inr (inr (a, cc))
meet (x ∷ a) (y ∷ b) r t e = Meet-cons x y a b (cc) (meet a b r t (cc))

-- Two paths above the same path are one above the other.
pub Under-linear : (a b c : Text) → Under a c → Under b c → Under a b ⊎ Under b a
Under-linear a b c (under_root e) k = inl (under_root e)
Under-linear a b c (itself e) k = inr (subst (Under b) e k)
Under-linear a b c (beneath r e) (under_root k) = inr (under_root k)
Under-linear a b c (beneath r e) (itself k) = inl (beneath r (sym k ∙ e))
Under-linear a b c (beneath r e) (beneath t k) = elim (meet a b r t (sym e ∙ k)) [
  | inl same_path ↦ inl (itself (sym same_path))
  | inr (inl (u, below)) ↦ inl (beneath u below)
  | inr (inr (u, below)) ↦ inr (beneath u below)
]

-- Within is transitive: what is within a path within another is within that one.
pub is_within_trans :
    (a b c : RepoPath)
    → is_within_repo_path a b ≡ true
    → is_within_repo_path b c ≡ true
    → is_within_repo_path a c ≡ true
is_within_trans a b c h k =
    Under→is_within a c (Under-trans a b c (is_within→Under a b h) (is_within→Under b c k))

-- Two paths within one another are the same.
pub is_within_antisym :
    (a b : RepoPath) → is_within_repo_path a b ≡ true → is_within_repo_path b a ≡ true → a ≡ b
is_within_antisym a b h k = Under-antisym a b (is_within→Under a b h) (is_within→Under b a k)

-- `isWithinRepoPath` orders the paths as a tree: of two paths that one path is within, one is within
-- the other.
pub is_within_linear :
    (a b c : RepoPath)
    → is_within_repo_path a c ≡ true
    → is_within_repo_path b c ≡ true
    → (is_within_repo_path a b ≡ true) ⊎ (is_within_repo_path b a ≡ true)
is_within_linear a b c h k =
    elim (Under-linear a b c (is_within→Under a c h) (is_within→Under b c k)) [
      | inl up ↦ inl (Under→is_within a b up)
      | inr down ↦ inr (Under→is_within b a down)
    ]
