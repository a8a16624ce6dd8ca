-- ===== src/Routes/Privacy.antt =====
-- accounts/src/routes: the answers to a user who has no order with the id.
use Prim.Native.String
use Prim.Native.String.{String}
use mexchange_study.Common.{
  ℕ, ◌≡◌, refl, ◌≢◌, inl, inr, true, false, none, some, arith, ◌==◌, Bool-cases, Option-cases,
}
use mexchange_study.Accounts.Tables.{Decimals, OrderRow, Tables, failure, find_order}
use mexchange_study.Accounts.Orders.{not_found, cancel}
use mexchange_study.Routes.Replies.{Prints, plain, coded, bad_request}
use mexchange_study.Routes.Replies as Replies
use mexchange_study.Routes.Orders.{get, get_order, cancel_error, cancel_order, get_order_fills}
use mexchange_study.Routes.Internal.{user_of, cancel_error_internal, cancel_order_by_id_internal}

-- The user has no order with this id.
abbrev pub IsForeign : ℕ → ℕ → Tables → Type 0
IsForeign user id t = (o : OrderRow) → find_order id t.orders ≡ some o → user ≢ o.user_id

not_same : (a b : ℕ) → a ≢ b → (a == b) ≡ false
not_same a b h = elim (Bool-cases (a == b)) [ inr e ↦ e | inl e ↦ absurd (h (ground arith)) ]

get-IsForeign : (user id : ℕ) (t : Tables) → IsForeign user id t → get user id t ≡ none
unfolding get
get-IsForeign user id t h = elim (Option-cases (find_order id t.orders)) [
  | inl e ↦ rw (get, e) refl
  | inr (o, e) ↦ rw (get, e, not_same user o.user_id (h o e)) refl
]

module _ (d : Decimals) (p : Prints) where
  cancel-IsForeign :
      (user id : ℕ) (t : Tables) → IsForeign user id t → cancel d user id t ≡ failure not_found
  unfolding cancel
  cancel-IsForeign user id t h = elim (Option-cases (find_order id t.orders)) [
    | inl e ↦ rw (cancel, e) refl
    | inr (o, e) ↦ rw (cancel, e, not_same user o.user_id (h o e)) refl
  ]

  -- The handlers that take an order's id answer "not found" to a user who has no such order, whoever else
  -- may have it, when the database answers: reading the order and its fills, and cancelling it, by the user
  -- or by the gateway with a header that names the user.
  pub orders-Private :
      (user id : ℕ) (header : String) (t : Tables)
      → IsForeign user id t
      → p.parse_uuid header ≡ some user
      → (get_order d p true user id t ≡ failure (plain Replies.not_found "Order not found"))
        × (get_order_fills d p true true user id t
            ≡ failure (plain Replies.not_found "Order not found"))
        × (cancel_order d p user id t ≡ failure (plain Replies.not_found "Order not found"))
        × (cancel_order_by_id_internal d p (some header) id t
            ≡ failure (
                coded bad_request "ORDER_NOT_FOUND"
                  (String.◌++◌ "Order not found: " (p.print_uuid id))))
  unfolding get_order get_order_fills cancel_order cancel_order_by_id_internal user_of cancel_error
      cancel_error_internal
  orders-Private user id header t h parsed =
      let no = get-IsForeign user id t h in
      let nothing = cancel-IsForeign user id t h in
      (
        rw no refl,
        rw no refl,
        rw (cancel_order, nothing) refl,
        rw (cancel_order_by_id_internal, user_of, parsed, nothing) refl,
      )
