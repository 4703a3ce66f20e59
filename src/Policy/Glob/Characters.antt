-- ===== src/Policy/Glob/Characters.antt =====
-- src/policy.rs: what `glob_matches` decides of a text as characters, each of which UTF-8 writes in one
-- byte or more.
use trunnion.Prelude.{
  ℕ, true, Bool-cases, ◌==◌, Text, codes, All, strip_prefix, strip_prefix-eq-some, Option-cases, [],
  ◌∷◌, ◌++◌, ◌≡◌, ◌≢◌, ◌⊎◌, ◌↔◌, refl, sym, subst, inl, inr, arith, ◌≤◌, ◌<◌,
}
use trunnion.Policy.Glob.{strip_dot, glob_matches}
use trunnion.Policy.Glob.Meaning.{
  Matches, finish, star, single, GlobMatches, glob_matches-iff-GlobMatches,
}

-- The bytes of one character: one below 128, or a first one from 192 and then those from 128 to 191.
pub data IsCharacter : Text → Type 0 where
  short : {c : ℕ} → c < 128 → IsCharacter (c ∷ [])
  long :
      {c d : ℕ} {s : Text}
      → 192 ≤ c
      → All (λ b. (128 ≤ b) × (b < 192)) (d ∷ s)
      → IsCharacter (c ∷ (d ∷ s))

-- `*` stands for any bytes, `?` for any one character, and every other byte of the pattern for itself.
pub data Reads : Text → Text → Type 0 where
  all_read : Reads [] []
  any_bytes : {c : ℕ} {p t : Text} (s : Text) → c ≡ b'*' → Reads p t → Reads (c ∷ p) (s ++ t)
  any_character :
      {c : ℕ} {p t : Text} (s : Text)
      → c ≡ b'?'
      → IsCharacter s
      → Reads p t
      → Reads (c ∷ p) (s ++ t)
  itself : {c : ℕ} {p t : Text} → c ≢ b'*' → c ≢ b'?' → Reads p t → Reads (c ∷ p) (c ∷ t)

abbrev pub IsAscii : Text → Type 0
IsAscii = All (λ b. b < 128)

-- A character whose bytes are all below 128 is one byte.
single_byte : (s : Text) → IsCharacter s → IsAscii s → (c : ℕ) × (s ≡ c ∷ [])
single_byte s (short {c = c} _) ascii = (c, refl)
single_byte s (long _ more) ascii = absurd (omega (arith, more.0.0, ascii.1.0))

IsAscii-right : (s t : Text) → IsAscii (s ++ t) → IsAscii t
IsAscii-right [] t h = h
IsAscii-right (c ∷ s) t h = IsAscii-right s t h.1

IsAscii-left : (s t : Text) → IsAscii (s ++ t) → IsAscii s
IsAscii-left [] t h = tt
IsAscii-left (c ∷ s) t h = (h.0, IsAscii-left s t h.1)

Matches-Reads : {p t : Text} → Matches p t → IsAscii t → Reads p t
Matches-Reads finish ascii = all_read
Matches-Reads (star {c = c} {p = p} {t = t} s wild split m) ascii =
    subst (Reads (c ∷ p)) (sym split)
      (any_bytes s wild (Matches-Reads m (IsAscii-right s t (subst IsAscii split ascii))))
Matches-Reads (single {c = c} {d = d} {p = p} {t = t} plain same m) ascii =
    elim (Bool-cases (c == b'?')) [
      | inl any ↦ any_character (d ∷ []) (ground arith) (short ascii.0) (Matches-Reads m ascii.1)
      | inr exact ↦
          let (other, e) : (c ≢ b'?') × (c ≡ d) = (ground arith, ground arith) in
          subst (λ x. Reads (c ∷ p) (x ∷ t)) e (itself plain other (Matches-Reads m ascii.1))
    ]

Reads-Matches : {p t : Text} → Reads p t → IsAscii t → Matches p t
Reads-Matches all_read ascii = finish
Reads-Matches (any_bytes {t = t} s wild r) ascii =
    star s wild refl (Reads-Matches r (IsAscii-right s t ascii))
Reads-Matches (any_character {c = c} {p = p} {t = t} s any one r) ascii =
    let (d, e) = single_byte s one (IsAscii-left s t ascii) in
    subst (λ x. Matches (c ∷ p) (x ++ t)) (sym e)
      (single (omega (arith, any)) (inl any) (Reads-Matches r (IsAscii-right s t ascii)))
Reads-Matches (itself plain _ r) ascii = single plain (inr refl) (Reads-Matches r ascii.1)

-- A pattern stands for a text by itself or by what follows a leading `**/`.
abbrev pub GlobReads : Text → Text → Type 0
GlobReads pattern target =
    Reads pattern target ⊎ ((rest : Text) × (pattern ≡ codes "**/" ++ rest) × Reads rest target)

strip_dot-IsAscii : (t : Text) → IsAscii t → IsAscii (strip_dot t)
unfolding strip_dot
strip_dot-IsAscii t ascii = elim (Option-cases (strip_prefix (codes "./") t)) [
  | inl bare ↦ rw (bare, strip_dot) ascii
  | inr (rest, found) ↦
      rw (found, strip_dot)
        (IsAscii-right (codes "./") rest
          (subst IsAscii (strip_prefix-eq-some (codes "./") t rest found) ascii))
]

-- Of a target in ASCII, `glob_matches` holds exactly when the pattern stands for it, `?` for one character,
-- a leading `./` aside on both sides, and with a leading `**/` of the pattern read also as no directory.
pub glob_matches_iff :
    (pattern target : Text)
    → IsAscii target
    → (glob_matches pattern target ≡ true) ↔ GlobReads (strip_dot pattern) (strip_dot target)
glob_matches_iff pattern target ascii =
    let (there, back) = glob_matches-iff-GlobMatches pattern target in
    (λ h. reads (there h), λ g. back (matches g))
  where
    plain : IsAscii (strip_dot target)
    plain = strip_dot-IsAscii target ascii

    reads :
        GlobMatches (strip_dot pattern) (strip_dot target)
        → GlobReads (strip_dot pattern) (strip_dot target)
    reads (inl m) = inl (Matches-Reads m plain)
    reads (inr (rest, split, m)) = inr (rest, split, Matches-Reads m plain)

    matches :
        GlobReads (strip_dot pattern) (strip_dot target)
        → GlobMatches (strip_dot pattern) (strip_dot target)
    matches (inl r) = inl (Reads-Matches r plain)
    matches (inr (rest, split, r)) = inr (rest, split, Reads-Matches r plain)
