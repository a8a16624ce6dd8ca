-- ===== src/Common/TextMap.antt =====
-- `std::collections::HashMap` keyed by texts. Where the program iterates over one, the order is the
-- list's.
use Prim.Native.String.{String}
use mexchange_study.Common.Tests.{if◌then◌else◌, Bool-cases}
use mexchange_study.Common.Texts.{same_text, same_text→eq}
use mathlib.Core.Path.{◌≡◌, refl, sym, ◌∙◌, subst}
use mathlib.Core.Logic.{inl, inr}
use mathlib.Core.Bool.{true, false}
use mathlib.Core.Option.{Option, none, some}
use mathlib.Core.List.{List, [], ◌∷◌}
use native.Mathlib.Omega.{arith}

differs : (j k i : String) → same_text j i ≡ true → same_text k i ≡ false → same_text j k ≡ false
differs j k i here other = elim (Bool-cases (same_text j k)) [
  | inr e ↦ e
  | inl e ↦
      cc (sym (subst (λ (x : String). same_text x i ≡ true) (same_text→eq j k e) here) ∙ other)
]

abbrev pub TextMap {ℓ} : Type ℓ → Type ℓ
TextMap V = List (String × V)

module _ {ℓ} {V : Type ℓ} where
  -- `HashMap::get`
  unfoldable pub get : String → TextMap V → Option V
  get k [] = none
  get k ((j, v) ∷ m) = if same_text k j then some v else get k m

  -- `HashMap::remove`
  unfoldable pub remove : String → TextMap V → TextMap V
  remove k [] = []
  remove k ((j, v) ∷ m) = let rest = remove k m in if same_text k j then rest else (j, v) ∷ rest

  -- `HashMap::insert`
  unfoldable pub insert : String → V → TextMap V → TextMap V
  insert k v m = (k, v) ∷ remove k m

  pub get-remove :
      (j k : String) (m : TextMap V)
      → get j (remove k m) ≡ (if same_text j k then none else get j m)
  unfolding get remove
  get-remove j k [] = ground arith
  get-remove j k ((i, v) ∷ m) = elim (Bool-cases (same_text k i)) [
    | inl same ↦
        let e : k ≡ i = same_text→eq k i same in
        rw (same, get-remove j k m)
          (subst
            (λ (x : String).
              (if same_text j k then none else get j m)
              ≡ (if same_text j k then none else if same_text j x then some v else get j m))
            e (ground arith))
    | inr other ↦ elim (Bool-cases (same_text j i)) [
      | inl here ↦
          let ne : same_text j k ≡ false = differs j k i here other in rw (other, here, ne) refl
      | inr there ↦ rw (other, there, get-remove j k m) refl
    ]
  ]

  pub get-insert :
      (j k : String) (v : V) (m : TextMap V)
      → get j (insert k v m) ≡ (if same_text j k then some v else get j m)
  unfolding get insert
  get-insert j k v m = ground (arith, get-remove j k m)
