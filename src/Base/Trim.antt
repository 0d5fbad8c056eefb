-- ===== src/Base/Trim.antt =====
-- `bytes.TrimSpace` and `strings.TrimSpace`: Unicode white space, written in UTF-8, is cut off at
-- both ends.
use Prim.Native.Nat.{ℕ, zero, suc, ◌≤◌}
use mathlib.Core.Path.{◌≡◌, refl, sym, ap, ◌∙◌}
use mathlib.Core.Bool.{Bool, ◌&&◌, ◌||◌}
use mathlib.Core.List.{[], ◌∷◌, ◌++◌, reverse, reverse-append, reverse-reverse}
use native.Mathlib.Omega.{arith}
use scaffolding.Base.Tests.{leb, eqb, if◌then◌else◌}
use scaffolding.Base.Lists.{length, length-append}
use scaffolding.Base.Text.{Bytes}

-- `unicode.IsSpace` of an ASCII character, and of one of two or of three bytes
ascii_space : ℕ → Bool
ascii_space c = eqb c 0x20 || leb 0x09 c && leb c 0x0d

space2 : ℕ → ℕ → Bool
space2 a b = eqb a 0xc2 && (eqb b 0x85 || eqb b 0xa0)

space3 : ℕ → ℕ → ℕ → Bool
space3 a b c =
    eqb a 0xe1 && eqb b 0x9a && eqb c 0x80
    || eqb a 0xe2
      && eqb b 0x80
      && (leb 0x80 c && leb c 0x8a || eqb c 0xa8 || eqb c 0xa9 || eqb c 0xaf)
    || eqb a 0xe2 && eqb b 0x81 && eqb c 0x9f
    || eqb a 0xe3 && eqb b 0x80 && eqb c 0x80

-- The bytes of the white space with which a text begins; 0 if it begins with none.
first_space : Bytes → ℕ
first_space [] = 0
first_space (a ∷ []) = if ascii_space a then 1 else 0
first_space (a ∷ b ∷ []) = if ascii_space a then 1 else if space2 a b then 2 else 0
first_space (a ∷ b ∷ c ∷ s) =
    if ascii_space a then 1 else if space2 a b then 2 else if space3 a b c then 3 else 0

-- The same at the end of the text, which is given reversed.
last_space : Bytes → ℕ
last_space [] = 0
last_space (a ∷ []) = if ascii_space a then 1 else 0
last_space (b ∷ a ∷ []) = if ascii_space b then 1 else if space2 a b then 2 else 0
last_space (c ∷ b ∷ a ∷ s) =
    if ascii_space c then 1 else if space2 b c then 2 else if space3 a b c then 3 else 0

-- Cuts `skip` more bytes, and then all white space.
cut : (Bytes → ℕ) → ℕ → Bytes → Bytes
cut size skip [] = []
cut size (suc n) (a ∷ s) = cut size n s
cut size zero (a ∷ s) = elim (size (a ∷ s)) [ zero ↦ a ∷ s | suc n ↦ cut size n s ]

unfoldable pub trim_space : Bytes → Bytes
unfolding ascii_space space2 space3 first_space last_space cut
trim_space s = reverse (cut last_space 0 (reverse (cut first_space 0 s)))

length-cut : (size : Bytes → ℕ) (skip : ℕ) (s : Bytes) → length (cut size skip s) ≤ length s
unfolding cut
length-cut size skip [] = omega arith
length-cut size (suc n) (a ∷ s) = omega (arith, length-cut size n s)
length-cut size zero (a ∷ s) = go (size (a ∷ s)) (λ n. length-cut size n s)
  where
    go :
        (k : ℕ)
        → ((n : ℕ) → length (cut size n s) ≤ length s)
        → length (elim k [ zero ↦ a ∷ s | suc n ↦ cut size n s ]) ≤ suc (length s)
    go zero ih = omega arith
    go (suc n) ih = omega (arith, ih n)

length-reverse : (s : Bytes) → length (reverse s) ≡ length s
length-reverse [] = refl
length-reverse (a ∷ s) =
    ap length (reverse-append (a ∷ []) s)
    ∙ omega (arith, length-append {0} (reverse s) (a ∷ []), length-reverse s)

pub length-trim_space : (s : Bytes) → length (trim_space s) ≤ length s
unfolding trim_space
length-trim_space s = omega (
  arith,
  length-reverse (cut last_space 0 (reverse (cut first_space 0 s))),
  length-cut last_space 0 (reverse (cut first_space 0 s)),
  length-reverse (cut first_space 0 s),
  length-cut first_space 0 s,
)

first_space-dash : (s : Bytes) → first_space (b'-' ∷ s) ≡ 0
unfolding first_space ascii_space space2 space3
first_space-dash [] = refl
first_space-dash (b ∷ []) = refl
first_space-dash (b ∷ c ∷ s) = refl

last_space-dash : (s : Bytes) → last_space (b'-' ∷ s) ≡ 0
unfolding last_space ascii_space space2 space3
last_space-dash [] = refl
last_space-dash (b ∷ []) = ground arith
last_space-dash (b ∷ c ∷ s) = ground arith

cut-dash : (size : Bytes → ℕ) (s : Bytes) → size (b'-' ∷ s) ≡ 0 → cut size 0 (b'-' ∷ s) ≡ b'-' ∷ s
unfolding cut
cut-dash size s e = rw (e, cut) refl

-- A text that begins and ends with a dash is left alone.
pub trim_space-dashes :
    (s : Bytes) → trim_space (b'-' ∷ (s ++ (b'-' ∷ []))) ≡ b'-' ∷ (s ++ (b'-' ∷ []))
unfolding trim_space
trim_space-dashes s =
    let t : Bytes = b'-' ∷ (s ++ (b'-' ∷ [])) in
    let e : reverse t ≡ b'-' ∷ reverse (b'-' ∷ s) = reverse-append (b'-' ∷ s) (b'-' ∷ []) in
    let head : cut first_space 0 t ≡ t =
      cut-dash first_space (s ++ (b'-' ∷ [])) (first_space-dash (s ++ (b'-' ∷ []))) in
    let tail : cut last_space 0 (reverse t) ≡ reverse t =
      ap (cut last_space 0) e
      ∙ cut-dash last_space (reverse (b'-' ∷ s)) (last_space-dash (reverse (b'-' ∷ s)))
      ∙ sym e in
    ap (λ x. reverse (cut last_space 0 (reverse x))) head ∙ ap reverse tail ∙ reverse-reverse t

without_slash : Bytes → Bytes → Bytes
without_slash s [] = s
without_slash s (c ∷ r) = if eqb c b'/' then reverse r else s

-- `strings.TrimSuffix` of a slash
unfoldable pub trim_slash : Bytes → Bytes
unfolding without_slash
trim_slash s = without_slash s (reverse s)
