-- ===== src/Routes/Pages.antt =====
-- accounts/src/routes/orders.rs: the pages of a listing.
use mathlib.Core.List.{reverse-cons, map-append}
use mexchange_study.Common.{
  ℕ, zero, suc, ◌+◌, ◌*◌, ◌≤◌, ◌≡◌, refl, sym, ap, ◌∙◌, true, none, List, [], ◌∷◌, ◌++◌, map,
  reverse, arith, length, take, drop, length-append, pos, min_ℤ, max_ℤ,
}
use mexchange_study.Accounts.Tables.{Decimals, Tables, Outcome, fine, failure}
use mexchange_study.Routes.Replies.{Prints, OrderResponse, order_to_response}
use mexchange_study.Routes.Placing.{Refused}
use mexchange_study.Routes.Orders.{
  Page, orders_of, newest, list_for_user, page_limit, page_offset, list_orders,
}

length-reverse {ℓ} : {A : Type ℓ} (xs : List A) → length (reverse xs) ≡ length xs
length-reverse [] = refl
length-reverse (x ∷ xs) =
    ap length (reverse-cons x xs)
    ∙ omega (arith, length-append (reverse xs) (x ∷ []), length-reverse xs)

drop_nil {ℓ} : {A : Type ℓ} (n : ℕ) → drop {A = A} n [] ≡ []
drop_nil zero = refl
drop_nil (suc n) = refl

take_nil {ℓ} : {A : Type ℓ} (n : ℕ) → take {A = A} n [] ≡ []
take_nil zero = refl
take_nil (suc n) = refl

suc_add : (n m : ℕ) → suc (n + m) ≡ suc n + m
suc_add n m = omega arith

drop-drop {ℓ} : {A : Type ℓ} (n m : ℕ) (xs : List A) → drop m (drop n xs) ≡ drop (n + m) xs
drop-drop zero m xs = ap (λ k. drop k xs) (omega arith)
drop-drop (suc n) m [] = drop_nil m ∙ sym (drop_nil (suc n + m))
drop-drop (suc n) m (x ∷ xs) = drop-drop n m xs ∙ ap (λ k. drop k (x ∷ xs)) (suc_add n m)

take_add {ℓ} :
    {A : Type ℓ} (n m : ℕ) (xs : List A) → take n xs ++ take m (drop n xs) ≡ take (n + m) xs
take_add zero m xs = ap (λ k. take k xs) (omega arith)
take_add (suc n) m [] = take_nil m ∙ sym (take_nil (suc n + m))
take_add (suc n) m (x ∷ xs) =
    ap (λ ys. x ∷ ys) (take_add n m xs) ∙ ap (λ k. take k (x ∷ xs)) (suc_add n m)

take_all {ℓ} : {A : Type ℓ} (n : ℕ) (xs : List A) → length xs ≤ n → take n xs ≡ xs
take_all zero [] h = refl
take_all (suc n) [] h = refl
take_all zero (x ∷ xs) h = absurd (omega (arith, h))
take_all (suc n) (x ∷ xs) h = ap (λ ys. x ∷ ys) (take_all n xs (omega (arith, h)))

limit_kept : (size : ℕ) → 1 ≤ size → size ≤ 100 → page_limit (pos size) ≡ pos size
unfolding page_limit min_ℤ max_ℤ
limit_kept size low high = ground (arith, low, high)

offset_kept : (n : ℕ) → page_offset (pos n) ≡ pos n
unfolding page_offset max_ℤ
offset_kept n = ground arith

abbrev pub page_rows : Outcome Refused (Page OrderResponse) → List OrderResponse
page_rows (fine page) = page.rows
page_rows (failure e) = []

module _ (d : Decimals) (p : Prints) where
  -- So many pages, each of this size, from an offset on.
  abbrev pub pages : ℕ → ℕ → ℕ → ℕ → Tables → List OrderResponse
  pages zero size offset user t = []
  pages (suc n) size offset user t =
      page_rows (list_orders d p true user (pos size) (pos offset) t)
      ++ pages n size (offset + size) user t

  page-newest :
      (size offset user : ℕ) (t : Tables)
      → 1 ≤ size
      → size ≤ 100
      → page_rows (list_orders d p true user (pos size) (pos offset) t)
        ≡ map
            (order_to_response p)
            (take size (drop offset (reverse (orders_of user none t.orders))))
  unfolding list_orders list_for_user newest
  page-newest size offset user t low high = rw (limit_kept size low high, offset_kept offset) refl

  pages-newest :
      (n size offset user : ℕ) (t : Tables)
      → 1 ≤ size
      → size ≤ 100
      → pages n size offset user t
        ≡ map
            (order_to_response p)
            (take (n * size) (drop offset (reverse (orders_of user none t.orders))))
  pages-newest zero size offset user t low high =
      ap
        (λ k.
          map (order_to_response p) (take k (drop offset (reverse (orders_of user none t.orders)))))
        {x = 0} {y = 0 * size} (omega arith)
  pages-newest (suc n) size offset user t low high =
      let f = order_to_response p in
      let rows = reverse (orders_of user none t.orders) in
      let rest = drop offset rows in
      ap (λ r. r ++ pages n size (offset + size) user t) (page-newest size offset user t low high)
      ∙ ap (λ r. map f (take size rest) ++ r) (pages-newest n size (offset + size) user t low high)
      ∙ ap (λ r. map f (take size rest) ++ map f (take (n * size) r))
          (sym (drop-drop offset size rows))
      ∙ sym (map-append f (take size rest) (take (n * size) (drop size rest)))
      ∙ ap (map f) (take_add size (n * size) rest)
      ∙ ap (λ k. map f (take k rest)) (omega arith)

  -- The pages of a listing, of a size from 1 to 100 and as many as the user's orders need, are together
  -- those orders, the newest first, each once, when the database answers.
  pub pages-all :
      (n size user : ℕ) (t : Tables)
      → 1 ≤ size
      → size ≤ 100
      → length (orders_of user none t.orders) ≤ n * size
      → pages n size 0 user t ≡ map (order_to_response p) (reverse (orders_of user none t.orders))
  pages-all n size user t low high enough =
      let own = orders_of user none t.orders in
      pages-newest n size 0 user t low high
      ∙ ap (map (order_to_response p))
          (take_all (n * size) (reverse own) (omega (arith, length-reverse own, enough)))
