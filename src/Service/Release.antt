-- ===== src/Service/Release.antt =====
-- matching_engine_service/src/main.rs: what a market order leaves unfilled is released.
use Prim.Native.String.{String}
use mexchange_study.Common.{
  ℕ, suc, ◌≡◌, refl, ap, ◌∙◌, ◌⊎◌, inl, inr, Bool, true, false, ◌&&◌, Option, some, List, [], ◌∷◌,
  ◌++◌, map, arith, Bool-cases, All, ℤ, pos, ◌+ℤ◌, ◌≤ℤ◌, ◌<ℤ◌, ltb_ℤ, int_laws, if_true, if_false,
}
use mexchange_study.Engine.Orders.{Side, Order, new_market, Fill, OrderBook}
use mexchange_study.Engine.Operations.{add_market_order, result_of}
use mexchange_study.Engine.Levels.{GoodFill, sum_fills}
use mexchange_study.Engine.Validity.{IsValid}
use mexchange_study.Engine.Validity.Fills.{add_market_order-fills}
use mexchange_study.Events.{MarketEvent, order_accepted, order_cancelled, order_filled, place_order}
use mexchange_study.Service.Handling.{send_next-Keeps}
use mexchange_study.Service.Settlement.{SettlementResult}
use mexchange_study.Service.Commands.{
  is_market, Handled, is_settled, settle_fills, fill_event, sum_settled, send_events, send_next,
  cancel_unfilled, after_matching, process_order_command,
}

not_less : (a b : ℤ) → a ≤ℤ b → ¬ (a <ℤ b) → a ≡ b
not_less a b h k = omega (int_laws, h, k)

-- Every send succeeds.
abbrev pub always : MarketEvent → Bool
always e = true

module _ (settle : Fill → ℕ → SettlementResult) (now : ℕ → ℕ) where
  send_events-always : (es : List MarketEvent) → send_events settle now always es ≡ (es, true)
  unfolding send_events
  send_events-always [] = refl
  send_events-always (e ∷ es) =
      ap (λ (r : List MarketEvent × Bool). (e ∷ r.0, r.1)) (send_events-always es)

  send_next-always :
      (es : List MarketEvent) (h : Handled)
      → h.succeeded ≡ true
      → send_next settle now always es h ≡ record h { events = h.events ++ es; succeeded = true }
  unfolding send_next
  send_next-always es h e =
      let (sent, fine) = send_events settle now always es in
      if_true h.succeeded (record h { events = h.events ++ sent; succeeded = fine }) h e
      ∙ ap (λ (r : List MarketEvent × Bool). record h { events = h.events ++ r.0; succeeded = r.1 })
          (send_events-always es)

  -- The settled fills are no more than the fills.
  sum_settled-le :
      (o : Order) (total bound : ℤ) (n : ℕ) (fs : List Fill)
      → All (GoodFill o) fs
      → total +ℤ sum_fills fs ≤ℤ bound
      → sum_settled settle now always total (settle_fills settle now always n fs) ≤ℤ bound
  unfolding sum_settled settle_fills
  sum_settled-le o total bound n [] good h = omega (int_laws, h)
  sum_settled-le o total bound n (f ∷ fs) good h =
      let more = good.0.positive in
      elim (Bool-cases (is_settled settle now always (settle f (now n)))) [
        | inl e ↦ rw e (
            sum_settled-le o (total +ℤ f.quantity) bound (suc n) fs good.1
              (omega (int_laws, h, more)))
        | inr e ↦ rw e (sum_settled-le o total bound (suc n) fs good.1 (omega (int_laws, h, more)))
      ]

  send_next-succeeded :
      (es : List MarketEvent) (h : Handled)
      → h.succeeded ≡ true
      → (send_next settle now always es h).succeeded ≡ true
  send_next-succeeded es h e = ap (λ (x : Handled). x.succeeded) (send_next-always es h e)

  cancel_unfilled-cases :
      (m : Bool) (id : ℕ) (filled quantity : ℤ) (h : Handled)
      → m ≡ true
      → h.succeeded ≡ true
      → h.cancellations ≡ []
      → let h' = cancel_unfilled settle now always m id filled quantity h in
        (h'.succeeded ≡ true)
        × (((filled <ℤ quantity) × (h'.cancellations ≡ (id, filled) ∷ []))
            ⊎ (¬ (filled <ℤ quantity) × (h'.cancellations ≡ [])))
  unfolding cancel_unfilled
  cancel_unfilled-cases m id filled quantity h e s c =
      let asked = record h { cancellations = h.cancellations ++ (id, filled) ∷ [] } in
      let es = order_cancelled id filled ∷ [] in
      elim (Bool-cases (ltb_ℤ filled quantity)) [
        | inl less ↦
            let go : (h.succeeded && (m && ltb_ℤ filled quantity)) ≡ true = rw (s, e, less) refl in
            let same =
              if_true (h.succeeded && (m && ltb_ℤ filled quantity))
                (send_next settle now always es asked) h go in
            (
              ap (λ (x : Handled). x.succeeded) same ∙ send_next-succeeded es asked s,
              inl (
                ground arith,
                ap (λ (x : Handled). x.cancellations) same
                    ∙ (send_next-Keeps settle now always es asked).same_cancellations
                    ∙ ap (λ (r : List (ℕ × ℤ)). r ++ (id, filled) ∷ []) c,
              ),
            )
        | inr covers ↦
            let stop : (h.succeeded && (m && ltb_ℤ filled quantity)) ≡ false =
              rw (s, e, covers) refl in
            let same =
              if_false (h.succeeded && (m && ltb_ℤ filled quantity))
                (send_next settle now always es asked) h stop in
            (
              ap (λ (x : Handled). x.succeeded) same ∙ s,
              inr ((λ l. absurd (ground arith)), ap (λ (x : Handled). x.cancellations) same ∙ c),
            )
      ]

  -- When every event is sent, a market order's settled fills never exceed its quantity, and the accounts
  -- service is asked to release the order with the settled quantity just when that falls short.
  pub process_order_command-released :
      (symbol : String) (id : ℕ) (side : Side) (kind : String) (price : Option ℤ) (quantity : ℤ)
      (user : Option ℕ) (b : OrderBook)
      → is_market kind ≡ true
      → pos 0 <ℤ quantity
      → IsValid b
      → (h : Handled) × (process_order_command settle now always symbol
            (place_order id side kind price quantity user)
            b
          ≡ some h)
        × (h.succeeded ≡ true)
        × (let filled =
              sum_settled settle now always
                (pos 0)
                (settle_fills settle now always 0 (add_market_order id side quantity b).1.fills) in
            (filled ≤ℤ quantity)
            × (((filled <ℤ quantity) × (h.cancellations ≡ (id, filled) ∷ []))
                ⊎ ((filled ≡ quantity) × (h.cancellations ≡ []))))
  unfolding process_order_command after_matching add_market_order result_of
  process_order_command-released symbol id side kind price quantity user b m positive v =
      let (b', r) = add_market_order id side quantity b in
      let settled = settle_fills settle now always 0 r.fills in
      let filled = sum_settled settle now always (pos 0) settled in
      let start : Handled = record {
        book = b';
        requested = r.fills;
        cancellations = [];
        events = [];
        succeeded = true;
      } in
      let fill_events = map (fill_event settle now always symbol) settled in
      let h1 = send_next settle now always fill_events start in
      let h2 = cancel_unfilled settle now always (is_market kind) id filled quantity h1 in
      let last = order_accepted id side kind price quantity ∷ map order_filled r.completed_orders in
      let (good, within, rest) = add_market_order-fills id side quantity b positive v in
      let le =
        sum_settled-le (new_market id side quantity) (pos 0) quantity 0 r.fills good
          (omega (int_laws, within)) in
      let (fine, asked) =
        cancel_unfilled-cases (is_market kind) id filled quantity h1 m
          (send_next-succeeded fill_events start refl)
          (send_next-Keeps settle now always fill_events start).same_cancellations in
      let same = (send_next-Keeps settle now always last h2).same_cancellations in
      (
        after_matching settle now always symbol id side kind price quantity b' r,
        rw (m, process_order_command) refl,
        send_next-succeeded last h2 fine,
        (
          le,
          elim asked [
            | inl (less, c) ↦ inl (less, same ∙ c)
            | inr (covers, c) ↦ inr (not_less filled quantity le covers, same ∙ c)
          ],
        ),
      )
