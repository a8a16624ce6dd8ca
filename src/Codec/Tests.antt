-- ===== src/Codec/Tests.antt =====
-- The theorems about events on the wire, with tables for bytes and the decimals for doubles.
use mexchange_study.Common.{◌≡◌, refl, ◌^◌, some, [], ◌∷◌, arith, ℤ, pos}
use mexchange_study.Accounts.Tables.{fine}
use mexchange_study.Engine.Orders.{bid, ask}
use mexchange_study.Events.{add, remove, MarketEvent, order_book_delta}
use mexchange_study.Codec.Flat.{FlatBuffers, FbEvent}
use mexchange_study.Codec.Binary.{BinaryEvent, binary_fill, encode, decode_market_event}
use mexchange_study.Codec.Convert.{Texts}
use mexchange_study.Codec.RoundTrip.{decode_market_event-encode}

abbrev tables : FlatBuffers ℤ
tables = record {
  Buffer = FbEvent ℤ;
  finished_data = λ e. e;
  root_as_market_event = λ e. some e;
  built_is_read = λ e. refl;
}

abbrev texts : Texts
texts = record { F = ℤ; to_double = λ q. q; of_double = λ q. q }

abbrev sample_fill : BinaryEvent ℤ
sample_fill = binary_fill "BTC/USD" 5 (2 ^ 100) (pos 50000) (pos 1) 1699999999000

decode_market_event-encode_example :
    decode_market_event tables (encode tables sample_fill) ≡ fine sample_fill
decode_market_event-encode_example =
    decode_market_event-encode tables sample_fill (refl, omega arith, omega arith)

abbrev two_deltas : MarketEvent
two_deltas = order_book_delta "KCN/EUR" 7 (
    record { action = add; side = bid; price = pos 10; quantity = pos 5 }
    ∷ record { action = remove; side = ask; price = pos 12; quantity = pos 0 }
    ∷ [])
