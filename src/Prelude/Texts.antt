-- ===== src/Prelude/Texts.antt =====
-- Texts of the program as their code units, which its code walks and slices.
use Prim.Native.Nat.{ℕ}
use Prim.Native.Char.{code}
use Prim.Native.String.{String}
use mathlib.Core.Path.{◌≡◌, refl}
use mathlib.Core.Logic.{◌↔◌}
use mathlib.Core.Bool.{Bool, true, false, ◌&&◌}
use mathlib.Core.List.{List, [], ◌∷◌}
use native.Mathlib.Omega.{arith}
use sznouns.Prelude.Tests.{◌==◌ as nat_eq, leb, if◌then◌else◌}

abbrev pub Text : Type 0
Text = List ℕ

-- The code units of a literal.
abbrev pub codes : String → Text
codes String.[] = []
codes (String.◌∷◌ c s) = code c ∷ codes s

-- `===` on texts.
unfoldable pub text_eq : Text → Text → Bool
text_eq [] [] = true
text_eq (a ∷ s) (b ∷ t) = nat_eq a b && text_eq s t
text_eq _ _ = false

pub text_eq_iff : (s t : Text) → (text_eq s t ≡ true) ↔ (s ≡ t)
unfolding text_eq
text_eq_iff [] [] = (λ h. refl, λ h. refl)
text_eq_iff [] (b ∷ t) = (λ h. cc, λ h. cc)
text_eq_iff (a ∷ s) [] = (λ h. cc, λ h. cc)
text_eq_iff (a ∷ s) (b ∷ t) = ground (arith, text_eq_iff s t)

-- `s.startsWith(prefix)`.
unfoldable pub starts_with : Text → Text → Bool
starts_with [] t = true
starts_with (p ∷ ps) [] = false
starts_with (p ∷ ps) (c ∷ t) = nat_eq p c && starts_with ps t

-- A character that `\s` matches.
abbrev pub is_space : ℕ → Bool
is_space c =
    if leb 9 c && leb c 13
    then true
    else if nat_eq c 32
    then true
    else if nat_eq c 160
    then true
    else if nat_eq c 0x1680
    then true
    else if leb 0x2000 c && leb c 0x200a
    then true
    else if leb 0x2028 c && leb c 0x2029
    then true
    else if nat_eq c 0x202f
    then true
    else if nat_eq c 0x205f
    then true
    else if nat_eq c 0x3000
    then true
    else nat_eq c 0xfeff

-- `text.replace(/^\s*/, '')`.
abbrev pub skip_space : Text → Text
skip_space [] = []
skip_space (c ∷ t) = if is_space c then skip_space t else c ∷ t
