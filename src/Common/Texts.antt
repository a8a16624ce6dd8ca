-- ===== src/Common/Texts.antt =====
-- Tests on `String` as the source makes them.
use Prim.Native.Nat.{ℕ, ◌+◌}
use Prim.Native.Char.{Char, code}
use mathlib.Core.Path.{◌≡◌, refl}
use text.Mathlib.TextEquality.{eq_iff}
use Prim.Native.String
use Prim.Native.String.{String}
use mathlib.Core.Bool.{Bool, true, false, ◌&&◌}
use mathlib.Core.List.{List, [], ◌∷◌}
use text.Mathlib.Text.{is_eq}
use mexchange_study.Common.Tests.{leb, ◌==◌, if◌then◌else◌}

-- `==`
abbrev pub same_text : String → String → Bool
same_text s t = is_eq (String.compare s t)

abbrev pub codes : String → List ℕ
codes String.[] = []
codes (String.◌∷◌ c s) = code c ∷ codes s

abbrev pub same_codes : List ℕ → List ℕ → Bool
same_codes [] [] = true
same_codes (a ∷ as_) (b ∷ bs) = a == b && same_codes as_ bs
same_codes _ _ = false

-- `to_lowercase` of one character, for the characters whose lowercase form is an ASCII letter; the
-- last of them is the Kelvin sign.
abbrev pub lower : ℕ → ℕ
lower c = if leb 65 c && leb c 90 then c + 32 else if c == 8490 then 107 else c

abbrev pub lower_all : List ℕ → List ℕ
lower_all [] = []
lower_all (c ∷ cs) = lower c ∷ lower_all cs

pub same_text→eq : (s t : String) → same_text s t ≡ true → s ≡ t
same_text→eq s t e = (eq_iff s t).0 e

pub same_text_self : (s : String) → same_text s s ≡ true
same_text_self s = (eq_iff s s).1 refl

abbrev pub push_front : Char → List String → List String
push_front c [] = (String.◌∷◌ c String.[]) ∷ []
push_front c (p ∷ ps) = (String.◌∷◌ c p) ∷ ps

-- `split` at a character; there is always a first part.
abbrev pub split_at : ℕ → String → List String
split_at sep String.[] = "" ∷ []
split_at sep (String.◌∷◌ c s) =
    let rest = split_at sep s in if code c == sep then "" ∷ rest else push_front c rest
