-- ===== src/Gateway/Rounds.antt =====
-- One round of publishing, from the book to the gateway: matching_engine_service/src/main.rs and
-- gateway/src/channel_updates.rs.
use Prim.Native.String.{String}
use mexchange_study.Common.{
  ℕ, ◌≤◌, ◌≡◌, refl, sym, ap, ◌∙◌, subst, ◌⊎◌, inl, inr, Bool, true, false, Option, none, some,
  List, [], ◌∷◌, map, arith, Bool-cases, Option-cases, List-cases, All, ℤ,
}
use mexchange_study.Common.SortedMap.{IsSorted}
use mexchange_study.Engine.Orders.{OrderBook}
use mexchange_study.Engine.Validity.{IsValid}
use mexchange_study.Engine.Queries.{get_bids, get_asks}
use mexchange_study.Events.{LevelDelta, Level, MarketEvent, order_book_snapshot, order_book_delta}
use mexchange_study.Publisher.{
  Publisher, collect, compute_deltas, level_of, max_levels, snapshot_interval, should_send_snapshot,
  update_state, count_update, next_event, publish,
}
use mexchange_study.Gateway.State.{Doubles, OrderBookState}
use mexchange_study.Gateway.Updates.{
  DeltaLoop, apply_deltas, build_side, apply_snapshot, apply_delta_event, apply_orderbook_update,
}
use mexchange_study.Gateway.Sync.{
  collect-IsSorted, build_side-collect, compute_deltas-apply, NonZero,
}
use mexchange_study.Gateway.Tops.{get_bids-NonZero, get_asks-NonZero}

module _ (d : Doubles) where
  abbrev Gateway : Type 0
  Gateway = OrderBookState d.F

  -- What the publisher remembers is what the gateway has, once a snapshot has been sent.
  pub record IsSynced (p : Publisher) (s : Gateway) : Type 0 where
    pub bids_sorted : IsSorted p.prev_bids
    pub asks_sorted : IsSorted p.prev_asks
    pub counted : p.updates_since_snapshot ≤ snapshot_interval
    pub same_books :
        (should_send_snapshot p ≡ true) ⊎ ((s.bids ≡ p.prev_bids) × (s.asks ≡ p.prev_asks))

  -- The gateway handles what was sent, if anything was.
  abbrev pub receive : d.F → Option MarketEvent → Gateway → Gateway
  receive now none s = s
  receive now (some event) s = (apply_orderbook_update d now event s).0

  snapshot-state :
      (now : d.F) (symbol : String) (sequence : ℕ) (bids asks : List Level) (s : Gateway)
      → let s' =
          (apply_orderbook_update d now (order_book_snapshot symbol sequence bids asks) s).0 in
        (s'.bids ≡ build_side bids []) × (s'.asks ≡ build_side asks [])
  unfolding apply_orderbook_update apply_snapshot
  snapshot-state now symbol sequence bids asks s = ground arith

  delta-state :
      (now : d.F) (symbol : String) (sequence : ℕ) (ds : List LevelDelta) (s : Gateway)
      → let s' = (apply_orderbook_update d now (order_book_delta symbol sequence ds) s).0 in
        let done =
          apply_deltas d ds
            (record { bids = s.bids; asks = s.asks; bid_changes = []; ask_changes = [] }) in
        (s'.bids ≡ done.bids) × (s'.asks ≡ done.asks)
  unfolding apply_orderbook_update apply_delta_event
  delta-state now symbol sequence ds s = (refl, refl)

  synced_books {ℓ} : {P : Type ℓ} (b : Bool) → (b ≡ true) ⊎ P → b ≡ false → P
  synced_books b (inl e) f = absurd (cc (sym e ∙ f))
  synced_books b (inr h) f = h

  receive-next :
      (now : d.F) (symbol : String) (bids asks : List (ℤ × ℤ)) (p : Publisher) (s : Gateway)
      → All NonZero bids
      → All NonZero asks
      → IsSynced p s
      → let s' = receive now (next_event symbol bids asks p) s in
        (s'.bids ≡ collect bids) × (s'.asks ≡ collect asks)
  unfolding next_event collect apply_deltas
  receive-next now symbol bids asks p s nb na v = elim (Bool-cases (should_send_snapshot p)) [
    | inl snapshot ↦
        let r = snapshot-state now symbol p.sequence (map level_of bids) (map level_of asks) s in
        rw snapshot (r.0 ∙ build_side-collect bids [] nb, r.1 ∙ build_side-collect asks [] na)
    | inr delta ↦
        let t : DeltaLoop d = record {
          bids = s.bids;
          asks = s.asks;
          bid_changes = [];
          ask_changes = [];
        } in
        let same = synced_books (should_send_snapshot p) v.same_books delta in
        let done = compute_deltas-apply d p bids asks t v.bids_sorted v.asks_sorted same.0 same.1 in
        elim (List-cases (compute_deltas p bids asks)) [
          | inl same ↦
              let unchanged : apply_deltas d (compute_deltas p bids asks) t ≡ t =
                ap (λ ds. apply_deltas d ds t) same in
              rw (delta, same)
                (
                  ap (λ (l : DeltaLoop d). l.bids) (sym unchanged) ∙ done.0,
                  ap (λ (l : DeltaLoop d). l.asks) (sym unchanged) ∙ done.1,
                )
          | inr (x, xs, some_) ↦
              let r = delta-state now symbol p.sequence (x ∷ xs) s in
              let e : apply_deltas d (x ∷ xs) t ≡ apply_deltas d (compute_deltas p bids asks) t =
                ap (λ ds. apply_deltas d ds t) (sym some_) in
              rw (delta, some_)
                (
                  r.0 ∙ ap (λ (l : DeltaLoop d). l.bids) e ∙ done.0,
                  r.1 ∙ ap (λ (l : DeltaLoop d). l.asks) e ∙ done.1,
                )
        ]
  ]

  publish_done :
      (send : MarketEvent → Bool) (symbol : String) (book : OrderBook) (p : Publisher)
      → let bids = get_bids max_levels book in
        let asks = get_asks max_levels book in
        let (p', sent, ok) = publish send symbol book p in
        ((ok ≡ true)
          × (sent ≡ next_event symbol bids asks p)
          × (p'.prev_bids ≡ collect bids)
          × (p'.prev_asks ≡ collect asks)
          × (p.updates_since_snapshot ≤ snapshot_interval
              → p'.updates_since_snapshot ≤ snapshot_interval))
        ⊎ ((ok ≡ false) × (sent ≡ none) × (p' ≡ p))
  unfolding publish count_update update_state should_send_snapshot
  publish_done send symbol book p =
      elim (Option-cases
        (next_event symbol (get_bids max_levels book) (get_asks max_levels book) p)) [
          | inl nothing ↦ rw nothing (ground arith)
          | inr (event, e) ↦ rw e (ground arith)
        ]

  IsSynced-after :
      (p' : Publisher) (s' : Gateway) (bids asks : List (ℤ × ℤ))
      → p'.prev_bids ≡ collect bids
      → p'.prev_asks ≡ collect asks
      → p'.updates_since_snapshot ≤ snapshot_interval
      → s'.bids ≡ collect bids
      → s'.asks ≡ collect asks
      → IsSynced p' s'
  IsSynced-after p' s' bids asks eb ea n gb ga = record {
    bids_sorted = subst IsSorted (sym eb) (collect-IsSorted bids);
    asks_sorted = subst IsSorted (sym ea) (collect-IsSorted asks);
    counted = n;
    same_books = inr (gb ∙ sym eb, ga ∙ sym ea);
  }

  -- A round of publishing keeps the publisher and the gateway in step, when what was sent arrives: either
  -- it succeeds, and then the gateway has the top of the book, or the send fails and nothing was sent.
  pub publish-IsSynced :
      (send : MarketEvent → Bool) (now : d.F) (symbol : String) (book : OrderBook) (p : Publisher)
      (s : Gateway)
      → IsValid book
      → IsSynced p s
      → let (p', sent, ok) = publish send symbol book p in
        let s' = receive now sent s in
        IsSynced p' s'
        × (((ok ≡ true)
              × (s'.bids ≡ collect (get_bids max_levels book))
              × (s'.asks ≡ collect (get_asks max_levels book)))
            ⊎ ((ok ≡ false) × (sent ≡ none)))
  publish-IsSynced send now symbol book p s ok v =
      let bids = get_bids max_levels book in
      let asks = get_asks max_levels book in
      let got =
        receive-next now symbol bids asks p s (get_bids-NonZero max_levels book ok.bids_hold)
          (get_asks-NonZero max_levels book ok.asks_hold) v in
      elim (publish_done send symbol book p) [
        | inl (fine, sent, eb, ea, n) ↦
            let same = λ (e : Option MarketEvent). receive now e s in
            let gb = ap (λ (y : Option MarketEvent). (same y).bids) sent ∙ got.0 in
            let ga = ap (λ (y : Option MarketEvent). (same y).asks) sent ∙ got.1 in
            (
              IsSynced-after (publish send symbol book p).0 (same (publish send symbol book p).1)
                  bids asks eb ea (n v.counted) gb ga,
              inl (fine, gb, ga),
            )
        | inr (failed, sent, e) ↦ (
          subst (λ (q : Publisher). IsSynced q (receive now (publish send symbol book p).1 s))
              (sym e)
              (subst (λ (y : Option MarketEvent). IsSynced p (receive now y s)) (sym sent) v),
          inr (failed, sent),
        )
      ]

  -- Rounds one after the other, each with its book and the outcome of its send.
  abbrev pub rounds :
      d.F
      → String
      → List ((MarketEvent → Bool) × OrderBook)
      → Publisher × Gateway
      → Publisher × Gateway
  rounds now symbol [] ps = ps
  rounds now symbol ((send, book) ∷ rs) (p, s) =
      let (p', sent, ok) = publish send symbol book p in
      rounds now symbol rs (p', receive now sent s)
