-- ===== src/Percent/Replace.antt =====
-- Writing an escape of an ASCII character back as the character does not change what is decoded.
use mathlib.Core.Option
use skillcdn.Common.{
  ℕ, ◌+◌, ◌*◌, ◌<◌, ◌≡◌, refl, ap, ◌∙◌, ◌≢◌, true, false, ◌&&◌, List, [], ◌∷◌, ◌++◌, none, some,
  ◌==◌, ==_iff, arith, Bool-cases, inl, inr,
}
use skillcdn.Text.{Text, replace_three}
use skillcdn.Text.Split.{Lacks}
use skillcdn.Percent.{
  hex_value, Piece, unit, byte, Decoding, assemble, between, within, begin_byte, next_byte,
  read_piece,
}
use skillcdn.Percent.RoundTrip.{Decodes, Cut, done, plain, escape, Cut→pieces, pieces→Cut}

module _ (q r u : ℕ) where
  replace_kept :
      (c : ℕ) (s : Text)
      → c ≢ b'%'
      → replace_three b'%' q r u (c ∷ s) ≡ c ∷ replace_three b'%' q r u s
  unfolding replace_three
  replace_kept c [] n = refl
  replace_kept c (d ∷ []) n = refl
  replace_kept c (d ∷ e ∷ s) n = ground arith

  replace_other :
      (h l : ℕ) (s : Text)
      → (h == q && l == r) ≡ false
      → replace_three b'%' q r u (b'%' ∷ h ∷ l ∷ s) ≡ b'%' ∷ replace_three b'%' q r u (h ∷ l ∷ s)
  unfolding replace_three
  replace_other h l s n = ground arith

  replace_match :
      (h l : ℕ) (s : Text)
      → (h == q && l == r) ≡ true
      → replace_three b'%' q r u (b'%' ∷ h ∷ l ∷ s) ≡ u ∷ replace_three b'%' q r u s
  unfolding replace_three
  replace_match h l s n = ground arith

  pub replace-Lacks : (c : ℕ) (s : Text) → u ≢ c → Lacks c s → Lacks c (replace_three b'%' q r u s)
  unfolding replace_three
  replace-Lacks c [] n h = h
  replace-Lacks c (x ∷ []) n h = h
  replace-Lacks c (x ∷ y ∷ []) n h = h
  replace-Lacks c (x ∷ y ∷ z ∷ s) n (hx, (hy, (hz, h))) =
      elim (Bool-cases (x == b'%' && (y == q && z == r))) [
        | inl yes_ ↦ rw (yes_, replace_three) (n, replace-Lacks c s n h)
        | inr no_ ↦ rw (no_, replace_three) (hx, replace-Lacks c (y ∷ z ∷ s) n (hy, (hz, h)))
      ]

-- A percent sign is no hexadecimal digit.
hex_ne_percent : (h a : ℕ) → hex_value h ≡ some a → h ≢ b'%'
unfolding hex_value
hex_ne_percent h a e = ground arith

read-ascii : (d : Decoding) (v : ℕ) → v < 0x80 → read_piece d (unit v) ≡ read_piece d (byte v)
unfolding read_piece begin_byte next_byte
read-ascii between v h = ground arith
read-ascii (within left value least) v h = ground arith

assemble-cong :
    (d : Decoding) (p p' : Piece) (ps qs : List Piece)
    → read_piece d p ≡ read_piece d p'
    → ((d : Decoding) → assemble d qs ≡ assemble d ps)
    → assemble d (p ∷ qs) ≡ assemble d (p' ∷ ps)
unfolding assemble
assemble-cong between p p' ps qs e f =
    λ i. elim (e i) [ none ↦ none | some (out, next) ↦ Option.map (λ rest. out ++ rest) (f next i) ]
assemble-cong (within left value least) p p' ps qs e f =
    λ i. elim (e i) [ none ↦ none | some (out, next) ↦ Option.map (λ rest. out ++ rest) (f next i) ]

module _ (q r u a b : ℕ) (hq : hex_value q ≡ some a) (hr : hex_value r ≡ some b)
    (hu : u ≡ a * 16 + b) (ascii : u < 0x80) (n : u ≢ b'%') where
  replace-Cut :
      {t : Text} {ps : List Piece}
      → Cut t ps
      → (qs : List Piece) × Cut (replace_three b'%' q r u t) qs
        × ((d : Decoding) → assemble d qs ≡ assemble d ps)
  unfolding replace_three
  replace-Cut done = ([], done, λ d. refl)
  replace-Cut (plain {c} {t} {ps} k cut) =
      let (qs, cut', same_) = replace-Cut cut in
      (
        unit c ∷ qs,
        rw (replace_kept q r u c t k) (plain k cut'),
        λ d. assemble-cong d (unit c) (unit c) ps qs refl same_,
      )
  replace-Cut (escape {c} {h} {l} {a = x} {b = y} {v} {t} {ps} p e f w cut) =
      let (qs, cut', same_) = replace-Cut cut in
      elim (Bool-cases (h == q && l == r)) [
        | inl match ↦
            let same_value : u ≡ v = ground (
              arith,
              ==_iff h q,
              ==_iff l r,
              ap hex_value ((==_iff h q).0 (ground arith)),
              ap hex_value ((==_iff l r).0 (ground arith)),
            ) in
            (
              unit u ∷ qs,
              rw (p, replace_match q r u h l t match) (plain n cut'),
              λ d.
                  assemble-cong d (unit u) (byte v) ps qs
                    (read-ascii d u ascii ∙ ap (λ (z : ℕ). read_piece d (byte z)) same_value) same_,
            )
        | inr other ↦ (
          byte v ∷ qs,
          rw
              (
                p,
                replace_other q r u h l t other,
                replace_kept q r u h (l ∷ t) (hex_ne_percent h x e),
                replace_kept q r u l t (hex_ne_percent l y f),
              )
              (escape refl e f w cut'),
          λ d. assemble-cong d (byte v) (byte v) ps qs refl same_,
        )
      ]

  pub Decodes-replace : {t s : Text} → Decodes t s → Decodes (replace_three b'%' q r u t) s
  Decodes-replace {t} d =
      let (qs, cut, same_) = replace-Cut (pieces→Cut t d.read d.cut) in
      record { read = qs; cut = Cut→pieces cut; put = same_ between ∙ d.put }
