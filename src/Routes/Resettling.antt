-- ===== src/Routes/Resettling.antt =====
-- accounts/src/routes/internal.rs: a fill that is settled again.
use mexchange_study.Common.{◌≡◌, refl, Bool, List, ℤ}
use mexchange_study.Accounts.Tables.{Decimals, TradeRow, Tables, fine}
use mexchange_study.Accounts.Trades.{settle}
use mexchange_study.Accounts.Again.{settle-again}
use mexchange_study.Candles.{Ohlcv, update_from_trade}
use mexchange_study.Routes.Replies.{Prints}
use mexchange_study.Routes.Internal.{SettleFillRequest, fill_of, after_candles, settle_fill}

module _ (d : Decimals) (p : Prints) (is_time : ℤ → Bool) where
  -- When a fill has been settled, a repeated request for it leaves the accounts as they are and answers with
  -- the same trade, but the candles count the trade once more, whatever they hold by then.
  pub settle_fill-again :
      (req : SettleFillRequest) (t t' : Tables) (r : TradeRow) (candles : List Ohlcv)
      → settle d req.symbol (fill_of d p req) t ≡ fine (t', r)
      → settle_fill d p is_time req t' candles
        ≡ after_candles d p t' r (
            update_from_trade is_time req.symbol req.price.value req.quantity.value req.timestamp
              candles)
  unfolding settle_fill
  settle_fill-again req t t' r candles h =
      rw (settle_fill, settle-again d req.symbol (fill_of d p req) t t' r h) refl
