-- ===== src/Service/Handling.antt =====
-- matching_engine_service/src/main.rs: what a command does to the book and to the accounts.
use Prim.Native.String.{String}
use mexchange_study.Common.{ℕ, ◌≡◌, refl, Bool, List, ◌++◌, if-both}
use mexchange_study.Engine.Orders.{Fill}
use mexchange_study.Events.{MarketEvent}
use mexchange_study.Service.Settlement.{SettlementResult}
use mexchange_study.Service.Commands.{Handled, send_events, send_next}

-- Only the events and their outcome differ.
pub record Keeps (h h' : Handled) : Type 0 where
  pub same_book : h'.book ≡ h.book
  pub same_requested : h'.requested ≡ h.requested
  pub same_cancellations : h'.cancellations ≡ h.cancellations

Keeps-refl : (h : Handled) → Keeps h h
Keeps-refl h = record { same_book = refl; same_requested = refl; same_cancellations = refl }

module _ (settle : Fill → ℕ → SettlementResult) (now : ℕ → ℕ) (send : MarketEvent → Bool) where
  pub send_next-Keeps :
      (es : List MarketEvent) (h : Handled) → Keeps h (send_next settle now send es h)
  unfolding send_next
  send_next-Keeps es h =
      let (sent, fine) = send_events settle now send es in
      if-both (Keeps h) h.succeeded (record h { events = h.events ++ sent; succeeded = fine }) h
        (record { same_book = refl; same_requested = refl; same_cancellations = refl })
        (Keeps-refl h)
