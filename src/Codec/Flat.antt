-- ===== src/Codec/Flat.antt =====
-- The FlatBuffers tables of udp_proto/src/market_data.fbs, as the generated code shows them: a field of a
-- table may be missing, and an enum is its raw byte. The bytes themselves are a parameter.
use Prim.Native.String.{String}
use mexchange_study.Common.{ℕ, ◌≡◌, Option, some, List, ℤ}

pub record FbUuid : Type 0 where
  pub high : ℕ
  pub low : ℕ

pub record FbLevel (F : Type 0) : Type 0 where
  pub price : F
  pub quantity : F

pub record FbDelta (F : Type 0) : Type 0 where
  pub action : ℤ
  pub side : ℤ
  pub price : F
  pub quantity : F

pub data PayloadType : Type 0 where
  fill_type snapshot_type delta_type cancelled_type filled_type : PayloadType

-- A table `MarketEvent` with its payload.
pub data FbEvent (F : Type 0) : Type 0 where
  -- symbol, buy_order_id, sell_order_id, price, quantity, timestamp
  fb_fill : Option String → Option FbUuid → Option FbUuid → F → F → ℕ → FbEvent F
  -- symbol, sequence, bids, asks
  fb_snapshot :
      Option String → ℕ → Option (List (FbLevel F)) → Option (List (FbLevel F)) → FbEvent F
  -- symbol, sequence, deltas
  fb_delta : Option String → ℕ → Option (List (FbDelta F)) → FbEvent F
  -- order_id, filled_quantity
  fb_cancelled : Option FbUuid → F → FbEvent F
  fb_filled : Option FbUuid → FbEvent F
  -- a payload's type with no payload
  fb_missing : PayloadType → FbEvent F
  -- another type
  fb_unknown : FbEvent F

-- The library: building a buffer, and the verified root of one.
pub record FlatBuffers (F : Type 0) : Type 1 where
  -- the bytes
  pub Buffer : Type 0
  pub finished_data : FbEvent F → Buffer
  pub root_as_market_event : Buffer → Option (FbEvent F)
  -- What was built is read back.
  pub built_is_read : (e : FbEvent F) → root_as_market_event (finished_data e) ≡ some e
