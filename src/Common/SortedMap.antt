-- ===== src/Common/SortedMap.antt =====
-- `std::collections::BTreeMap` with Decimal keys: the entries in ascending order of the keys.
use mexchange_study.Common.Int.{
  ℤ, ◌<ℤ◌, ltb_ℤ, eqb_ℤ, eqb_ℤ→eq, eqb_ℤ-self, eqb_ℤ→ne, lt→ne_ℤ, int_laws,
}
use mexchange_study.Common.Tests.{if◌then◌else◌, Bool-cases}
use mathlib.Core.Path.{◌≡◌, refl, sym, ◌∙◌, subst}
use mathlib.Core.Logic.{inl, inr, ◌≢◌}
use mathlib.Core.Bool.{false}
use mathlib.Core.Option.{Option, none, some}
use mathlib.Core.List.{List, [], ◌∷◌, map}
use native.Mathlib.Omega.{arith}

abbrev pub SortedMap {ℓ} : Type ℓ → Type ℓ
SortedMap V = List (ℤ × V)

module _ {ℓ} {V : Type ℓ} where
  -- `BTreeMap::get`
  unfoldable pub get : ℤ → SortedMap V → Option V
  get k [] = none
  get k ((j, v) ∷ m) = if eqb_ℤ k j then some v else get k m

  -- `BTreeMap::insert`
  unfoldable pub insert : ℤ → V → SortedMap V → SortedMap V
  insert k v [] = (k, v) ∷ []
  insert k v ((j, w) ∷ m) =
      if eqb_ℤ k j
      then (k, v) ∷ m
      else if ltb_ℤ k j
      then (k, v) ∷ (j, w) ∷ m
      else (j, w) ∷ insert k v m

  -- `BTreeMap::remove`
  unfoldable pub remove : ℤ → SortedMap V → SortedMap V
  remove k [] = []
  remove k ((j, w) ∷ m) = if eqb_ℤ k j then m else (j, w) ∷ remove k m

  abbrev pub keys : SortedMap V → List ℤ
  keys = map λ (e : ℤ × V). e.0

  -- Keys ascend strictly, from above the bound.
  abbrev pub SortedFrom : ℤ → SortedMap V → Type 0
  SortedFrom lo [] = Unit {0}
  SortedFrom lo ((k, v) ∷ m) = (lo <ℤ k) × SortedFrom k m

  abbrev pub IsSorted : SortedMap V → Type 0
  IsSorted [] = Unit {0}
  IsSorted ((k, v) ∷ m) = SortedFrom k m

  pub SortedFrom-mono : (a b : ℤ) (m : SortedMap V) → a <ℤ b → SortedFrom b m → SortedFrom a m
  SortedFrom-mono a b [] h s = tt
  SortedFrom-mono a b ((k, v) ∷ m) h s = (omega arith, s.1)

  pub IsSorted-of_from : (lo : ℤ) (m : SortedMap V) → SortedFrom lo m → IsSorted m
  IsSorted-of_from lo [] s = tt
  IsSorted-of_from lo ((k, v) ∷ m) s = s.1

  insert-SortedFrom :
      (lo k : ℤ) (v : V) (m : SortedMap V)
      → lo <ℤ k
      → SortedFrom lo m
      → SortedFrom lo (insert k v m)
  unfolding insert
  insert-SortedFrom lo k v [] h s = (h, tt)
  insert-SortedFrom lo k v ((j, w) ∷ m) h s =
      ground (arith, insert-SortedFrom j k v m, eqb_ℤ→eq k j)

  pub insert-IsSorted : (k : ℤ) (v : V) (m : SortedMap V) → IsSorted m → IsSorted (insert k v m)
  unfolding insert
  insert-IsSorted k v [] s = tt
  insert-IsSorted k v ((j, w) ∷ m) s = ground (arith, insert-SortedFrom j k v m, eqb_ℤ→eq k j)

  remove-SortedFrom : (lo k : ℤ) (m : SortedMap V) → SortedFrom lo m → SortedFrom lo (remove k m)
  unfolding remove
  remove-SortedFrom lo k [] s = tt
  remove-SortedFrom lo k ((j, w) ∷ m) s =
      ground (arith, remove-SortedFrom j k m, SortedFrom-mono lo j m)

  pub remove-IsSorted : (k : ℤ) (m : SortedMap V) → IsSorted m → IsSorted (remove k m)
  unfolding remove
  remove-IsSorted k [] s = tt
  remove-IsSorted k ((j, w) ∷ m) s = ground (arith, remove-SortedFrom j k m, IsSorted-of_from j m)

module _ {ℓ κ} {V : Type ℓ} (P : ℤ → V → Type κ) where
  -- The predicate holds of every entry.
  abbrev pub Each : SortedMap V → Type κ
  Each [] = Unit
  Each ((k, v) ∷ m) = P k v × Each m

  pub get-Each : (k : ℤ) {v : V} (m : SortedMap V) → Each m → get k m ≡ some v → P k v
  unfolding get
  get-Each k [] h e = cc
  get-Each k {v} ((j, w) ∷ m) h e = elim (Bool-cases (eqb_ℤ k j)) [
    | inl same ↦
        subst (λ (i : ℤ). P i v) (eqb_ℤ→eq j k (ground arith)) (subst (P j) (ground arith) h.0)
    | inr other ↦ get-Each k m h.1 (ground arith)
  ]

  pub insert-Each : (k : ℤ) (v : V) (m : SortedMap V) → P k v → Each m → Each (insert k v m)
  unfolding insert
  insert-Each k v [] p h = (p, tt)
  insert-Each k v ((j, w) ∷ m) p h = ground (arith, insert-Each k v m p)

  pub remove-Each : (k : ℤ) (m : SortedMap V) → Each m → Each (remove k m)
  unfolding remove
  remove-Each k [] h = tt
  remove-Each k ((j, w) ∷ m) h = ground (arith, remove-Each k m)

pub Each-map {ℓ κ ι} :
    {V : Type ℓ} (P : ℤ → V → Type κ) (Q : ℤ → V → Type ι) (m : SortedMap V)
    → ((k : ℤ) (v : V) → P k v → Q k v)
    → Each P m
    → Each Q m
Each-map P Q [] f h = tt
Each-map P Q ((k, v) ∷ m) f h = (f k v h.0, Each-map P Q m f h.1)

pub Each-zip {ℓ κ ι τ} :
    {V : Type ℓ} (P : ℤ → V → Type κ) (Q : ℤ → V → Type ι) (R : ℤ → V → Type τ) (m : SortedMap V)
    → ((k : ℤ) (v : V) → P k v → Q k v → R k v)
    → Each P m
    → Each Q m
    → Each R m
Each-zip P Q R [] f h i = tt
Each-zip P Q R ((k, v) ∷ m) f h i = (f k v h.0 i.0, Each-zip P Q R m f h.1 i.1)

module _ {ℓ} {V : Type ℓ} where
  pub get-none-Each : (k : ℤ) (m : SortedMap V) → get k m ≡ none → Each (λ j v. j ≢ k) m
  unfolding get
  get-none-Each k [] e = tt
  get-none-Each k ((j, w) ∷ m) e = elim (Bool-cases (eqb_ℤ k j)) [
    | inl same ↦ absurd (ground arith)
    | inr other ↦ (eqb_ℤ→ne k j other, get-none-Each k m (ground arith))
  ]

  pub SortedFrom-Each : (lo : ℤ) (m : SortedMap V) → SortedFrom lo m → Each (λ j v. lo <ℤ j) m
  SortedFrom-Each lo [] s = tt
  SortedFrom-Each lo ((k, v) ∷ m) s = (s.0, SortedFrom-Each lo m (SortedFrom-mono lo k m s.0 s.1))

  -- In a sorted map the removed key is gone.
  pub remove-Each_ne : (k : ℤ) (m : SortedMap V) → IsSorted m → Each (λ j v. j ≢ k) (remove k m)
  unfolding remove
  remove-Each_ne k [] s = tt
  remove-Each_ne k ((j, w) ∷ m) s = elim (Bool-cases (eqb_ℤ k j)) [
    | inl same ↦ rw same (
        Each-map (λ i v. j <ℤ i) (λ i v. i ≢ k) m (λ i v h. rw (eqb_ℤ→eq k j same) (lt→ne_ℤ j i h))
          (SortedFrom-Each j m s))
    | inr other ↦ rw other (eqb_ℤ→ne k j other, remove-Each_ne k m (IsSorted-of_from j m s))
  ]

  SortedFrom-of_Each :
      (lo : ℤ) (m : SortedMap V) → Each (λ j v. lo <ℤ j) m → IsSorted m → SortedFrom lo m
  SortedFrom-of_Each lo [] h s = tt
  SortedFrom-of_Each lo ((k, v) ∷ m) h s = (h.0, s)

  pub get-insert_self : (k : ℤ) (v : V) (m : SortedMap V) → get k (insert k v m) ≡ some v
  unfolding get insert
  get-insert_self k v [] = ground (arith, eqb_ℤ-self k)
  get-insert_self k v ((j, w) ∷ m) = ground (arith, eqb_ℤ-self k, get-insert_self k v m)

  pub get-insert :
      (j k : ℤ) (v : V) (m : SortedMap V)
      → get j (insert k v m) ≡ (if eqb_ℤ j k then some v else get j m)
  unfolding get insert
  get-insert j k v [] = ground arith
  get-insert j k v ((i, w) ∷ m) = ground (arith, get-insert j k v m, eqb_ℤ→eq k i, eqb_ℤ→eq j k)

  -- Where every key differs, nothing is found.
  get-of_Each_ne : (k : ℤ) (m : SortedMap V) → Each (λ j v. j ≢ k) m → get k m ≡ none
  unfolding get
  get-of_Each_ne k [] h = refl
  get-of_Each_ne k ((j, w) ∷ m) h = elim (Bool-cases (eqb_ℤ k j)) [
    | inl same ↦ absurd (h.0 (eqb_ℤ→eq j k (ground arith)))
    | inr other ↦ rw other (get-of_Each_ne k m h.1)
  ]

  pub get-remove_self : (k : ℤ) (m : SortedMap V) → IsSorted m → get k (remove k m) ≡ none
  get-remove_self k m s = get-of_Each_ne k (remove k m) (remove-Each_ne k m s)

  pub get-remove_ne : (j k : ℤ) (m : SortedMap V) → eqb_ℤ j k ≡ false → get j (remove k m) ≡ get j m
  unfolding get remove
  get-remove_ne j k [] h = refl
  get-remove_ne j k ((i, w) ∷ m) h = elim (Bool-cases (eqb_ℤ k i)) [
    | inl same ↦
        let e : eqb_ℤ j i ≡ false = subst (λ (x : ℤ). eqb_ℤ j x ≡ false) (eqb_ℤ→eq k i same) h in
        rw (same, e)
    | inr other ↦ rw (other, get-remove_ne j k m h)
  ]

  pub get_below : (k : ℤ) (m : SortedMap V) → SortedFrom k m → get k m ≡ none
  get_below k m s =
      get-of_Each_ne k m
        (Each-map (λ i v. k <ℤ i) (λ i v. i ≢ k) m (λ i v. lt→ne_ℤ k i) (SortedFrom-Each k m s))

  get_head : (k : ℤ) (v : V) (m : SortedMap V) → get k ((k, v) ∷ m) ≡ some v
  unfolding get
  get_head k v m = rw (eqb_ℤ-self k)

  pub get_tail :
      (i k : ℤ) (v : V) (m : SortedMap V) → eqb_ℤ i k ≡ false → get i ((k, v) ∷ m) ≡ get i m
  unfolding get
  get_tail i k v m e = rw e

  -- Below the first key there is nothing, so the least keys of two maps that agree are equal.
  head_of_agree :
      (k j : ℤ) (v w : V) (m n : SortedMap V)
      → SortedFrom j n
      → get k ((k, v) ∷ m) ≡ get k ((j, w) ∷ n)
      → ¬ (k <ℤ j)
  head_of_agree k j v w m n t h lt =
      absurd (cc (sym (get_head k v m) ∙ h ∙ get_below k ((j, w) ∷ n) (lt, t)))

  tail_of_agree :
      (k j : ℤ) (v w : V) (m n : SortedMap V)
      → k ≡ j
      → SortedFrom k m
      → SortedFrom j n
      → ((i : ℤ) → get i ((k, v) ∷ m) ≡ get i ((j, w) ∷ n))
      → (i : ℤ) → get i m ≡ get i n
  tail_of_agree k j v w m n e s t h i = elim (Bool-cases (eqb_ℤ i k)) [
    | inl same ↦
        let at_k : i ≡ k = eqb_ℤ→eq i k same in
        subst (λ (x : ℤ). get x m ≡ none) (sym at_k) (get_below k m s)
        ∙ sym (subst (λ (x : ℤ). get x n ≡ none) (sym (at_k ∙ e)) (get_below j n t))
    | inr other ↦
        sym (get_tail i k v m other)
        ∙ h i
        ∙ get_tail i j w n (subst (λ (x : ℤ). eqb_ℤ i x ≡ false) e other)
  ]

  get_nil : (k : ℤ) → get {V = V} k [] ≡ none
  unfolding get
  get_nil k = refl

  -- Sorted maps that agree at every key are equal.
  pub get-ext :
      (m n : SortedMap V) → IsSorted m → IsSorted n → ((k : ℤ) → get k m ≡ get k n) → m ≡ n
  get-ext [] [] s t h = refl
  get-ext [] ((j, w) ∷ n) s t h = cc (sym (get_nil j) ∙ h j ∙ get_head j w n)
  get-ext ((k, v) ∷ m) [] s t h = cc (sym (get_head k v m) ∙ h k ∙ get_nil k)
  get-ext ((k, v) ∷ m) ((j, w) ∷ n) s t h =
      let e : k ≡ j =
        omega
          (int_laws, head_of_agree k j v w m n t (h k), head_of_agree j k w v n m s (sym (h j))) in
      let found : get k ((j, w) ∷ n) ≡ some w =
        subst (λ (x : ℤ). get x ((j, w) ∷ n) ≡ some w) (sym e) (get_head j w n) in
      let rest : m ≡ n =
        get-ext m n (IsSorted-of_from k m s) (IsSorted-of_from j n t)
          (tail_of_agree k j v w m n e s t h) in
      cc (sym (get_head k v m) ∙ h k ∙ found)
