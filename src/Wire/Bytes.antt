-- ===== src/Wire/Bytes.antt =====
-- udp_proto/src: the errors of error.rs, and what protocol.rs uses of slices and of the little-endian
-- conversions.
use mexchange_study.Common.{
  ℕ, zero, suc, ◌+◌, ◌-◌, ◌*◌, ◌/◌, ◌%◌, ◌^◌, ◌≤◌, ◌<◌, ◌≡◌, refl, sym, ap, ◌∙◌, List, [], ◌∷◌,
  ◌++◌, arith, length, take, drop,
}

pub data ProtocolError : Type 0 where
  -- needed and available
  buffer_too_small : ℕ → ℕ → ProtocolError
  -- expected and got
  invalid_version : ℕ → ℕ → ProtocolError
  invalid_header_length : ℕ → ℕ → ProtocolError
  -- size and mtu
  packet_too_large : ℕ → ℕ → ProtocolError
  -- size and max
  message_too_large : ℕ → ℕ → ProtocolError
  io : ProtocolError
  -- expected and got
  gap_detected : ℕ → ℕ → ProtocolError
  duplicate_packet : ℕ → ProtocolError
  stream_timeout : ℕ → ProtocolError
  channel_closed : ProtocolError

pub data Result {ℓ} (A : Type ℓ) : Type ℓ where
  ok : A → Result A
  err : ProtocolError → Result A

-- `to_le_bytes` and `from_le_bytes`
unfoldable pub to_le : ℕ → ℕ → List ℕ
to_le zero n = []
to_le (suc w) n = n % 256 ∷ to_le w (n / 256)

unfoldable pub from_le : List ℕ → ℕ
from_le [] = 0
from_le (b ∷ bs) = b + 256 * from_le bs

-- `buf[n]`, for an index that the length was tested for
unfoldable pub byte_at : ℕ → List ℕ → ℕ
byte_at n [] = 0
byte_at zero (b ∷ bs) = b
byte_at (suc n) (b ∷ bs) = byte_at n bs

-- `buf[first..last]`, for bounds that the length was tested for
unfoldable pub slice : ℕ → ℕ → List ℕ → List ℕ
slice first last buf = take (last - first) (drop first buf)

-- `copy_from_slice` into the front of a buffer, and into `buf[offset..]`
unfoldable pub overwrite : List ℕ → List ℕ → List ℕ
overwrite [] buf = buf
overwrite (x ∷ xs) [] = []
overwrite (x ∷ xs) (b ∷ buf) = x ∷ overwrite xs buf

unfoldable pub write_at : ℕ → List ℕ → List ℕ → List ℕ
write_at zero bytes buf = overwrite bytes buf
write_at (suc n) bytes [] = []
write_at (suc n) bytes (b ∷ buf) = b ∷ write_at n bytes buf

unfoldable pub zeros : ℕ → List ℕ
zeros zero = []
zeros (suc n) = 0 ∷ zeros n

pub length-to_le : (w n : ℕ) → length (to_le w n) ≡ w
unfolding to_le
length-to_le zero n = refl
length-to_le (suc w) n = omega (arith, length-to_le w (n / 256))

pub length-zeros : (n : ℕ) → length (zeros n) ≡ n
unfolding zeros
length-zeros zero = refl
length-zeros (suc n) = omega (arith, length-zeros n)

length-overwrite : (bytes buf : List ℕ) → length (overwrite bytes buf) ≡ length buf
unfolding overwrite
length-overwrite [] buf = refl
length-overwrite (x ∷ xs) [] = refl
length-overwrite (x ∷ xs) (b ∷ buf) = omega (arith, length-overwrite xs buf)

pub length-write_at : (n : ℕ) (bytes buf : List ℕ) → length (write_at n bytes buf) ≡ length buf
unfolding write_at
length-write_at zero bytes buf = length-overwrite bytes buf
length-write_at (suc n) bytes [] = refl
length-write_at (suc n) bytes (b ∷ buf) = omega (arith, length-write_at n bytes buf)

take-overwrite :
    (bytes buf : List ℕ)
    → length bytes ≤ length buf
    → take (length bytes) (overwrite bytes buf) ≡ bytes
unfolding overwrite
take-overwrite [] buf h = refl
take-overwrite (x ∷ xs) [] h = absurd (omega (arith, h))
take-overwrite (x ∷ xs) (b ∷ buf) h =
    ap (λ (r : List ℕ). x ∷ r) (take-overwrite xs buf (omega (arith, h)))

-- What was written, after what stood before it.
pub take-write_at :
    (m n : ℕ) (bytes buf : List ℕ)
    → m ≡ n + length bytes
    → m ≤ length buf
    → take m (write_at n bytes buf) ≡ take n buf ++ bytes
unfolding write_at
take-write_at m zero bytes buf e h =
    ap (λ (i : ℕ). take i (overwrite bytes buf)) (omega (arith, e))
    ∙ take-overwrite bytes buf (omega (arith, e, h))
take-write_at zero (suc n) bytes buf e h = absurd (omega (arith, e))
take-write_at (suc m) (suc n) bytes [] e h = absurd (omega (arith, h))
take-write_at (suc m) (suc n) bytes (b ∷ buf) e h =
    ap (λ (r : List ℕ). b ∷ r) (take-write_at m n bytes buf (omega (arith, e)) (omega (arith, h)))

-- The bytes before the place are left alone.
pub take-write_at_before :
    (m n : ℕ) (bytes buf : List ℕ) → m ≤ n → take m (write_at n bytes buf) ≡ take m buf
unfolding write_at
take-write_at_before zero n bytes buf h = refl
take-write_at_before (suc m) zero bytes buf h = absurd (omega (arith, h))
take-write_at_before (suc m) (suc n) bytes [] h = refl
take-write_at_before (suc m) (suc n) bytes (b ∷ buf) h =
    ap (λ (r : List ℕ). b ∷ r) (take-write_at_before m n bytes buf (omega (arith, h)))

pub take_append_overwrite :
    (m : ℕ) (bytes buf : List ℕ)
    → length bytes ≤ m
    → length bytes ≤ length buf
    → take m (overwrite bytes buf) ≡ bytes ++ drop (length bytes) (take m buf)
unfolding overwrite
take_append_overwrite m [] buf h k = refl
take_append_overwrite zero (x ∷ xs) buf h k = absurd (omega (arith, h))
take_append_overwrite (suc m) (x ∷ xs) [] h k = absurd (omega (arith, k))
take_append_overwrite (suc m) (x ∷ xs) (b ∷ buf) h k =
    ap (λ (r : List ℕ). x ∷ r)
      (take_append_overwrite m xs buf (omega (arith, h)) (omega (arith, k)))

pub drop-drop : (k m n : ℕ) (xs : List ℕ) → k ≡ m + n → drop n (drop m xs) ≡ drop k xs
drop-drop k zero n xs e = ap (λ (i : ℕ). drop i xs) (omega (arith, e))
drop-drop zero (suc m) n xs e = absurd (omega (arith, e))
drop-drop (suc k) (suc m) zero [] e = refl
drop-drop (suc k) (suc m) (suc n) [] e = refl
drop-drop (suc k) (suc m) n (x ∷ xs) e = drop-drop k m n xs (omega (arith, e))

pub length-drop : (n : ℕ) (xs : List ℕ) → length (drop n xs) ≡ length xs - n
length-drop zero xs = omega arith
length-drop (suc n) [] = omega arith
length-drop (suc n) (x ∷ xs) = omega (arith, length-drop n xs)

pub take_all : (xs ys : List ℕ) → take (length xs) (xs ++ ys) ≡ xs
take_all [] ys = refl
take_all (x ∷ xs) ys = ap (λ (r : List ℕ). x ∷ r) (take_all xs ys)

pub drop_all : (xs ys : List ℕ) → drop (length xs) (xs ++ ys) ≡ ys
drop_all [] ys = refl
drop_all (x ∷ xs) ys = drop_all xs ys

-- Enough bytes hold the number.
abbrev pub Fits : ℕ → ℕ → Type 0
Fits zero n = n ≡ 0
Fits (suc w) n = Fits w (n / 256)

pub from_le-to_le : (w n : ℕ) → Fits w n → from_le (to_le w n) ≡ n
unfolding from_le to_le
from_le-to_le zero n h = sym h
from_le-to_le (suc w) n h = omega (arith, from_le-to_le w (n / 256) h)

pub Fits-u16 : (n : ℕ) → n < 2 ^ 16 → Fits 2 n
Fits-u16 n h = omega (arith, h)

pub Fits-u32 : (n : ℕ) → n < 2 ^ 32 → Fits 4 n
Fits-u32 n h = omega (arith, h)

pub Fits-u64 : (n : ℕ) → n < 2 ^ 64 → Fits 8 n
Fits-u64 n h = omega (arith, h)
