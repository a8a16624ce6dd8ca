-- ===== src/Candles/Aggregates.antt =====
-- accounts/src/models/ohlcv.rs: one row of the table, through an upsert.
use mexchange_study.Common.{
  ◌≡◌, refl, sym, ap, ◌∙◌, inl, inr, Bool, true, false, ◌&&◌, Option, none, some, List, [], ◌∷◌,
  if◌then◌else◌, Bool-cases, eqb_ℤ, eqb_ℤ→eq, eqb_ℤ-self, same_text, same_text→eq, same_text_self,
}
use mexchange_study.Candles.{Key, Ohlcv, same_key, find_bar, merge, put_bar, count_fits, upsert}

and_parts : (a b c : Bool) → (a && (b && c)) ≡ true → (a ≡ true) × (b ≡ true) × (c ≡ true)
and_parts true true true h = (refl, refl, refl)
and_parts true true false h = absurd (cc h)
and_parts true false c h = absurd (cc h)
and_parts false b c h = absurd (cc h)

key_of_parts :
    (k l : Key) → k.symbol ≡ l.symbol → k.interval ≡ l.interval → k.open_time ≡ l.open_time → k ≡ l
key_of_parts k l a b c = λ i. record { symbol = a i; interval = b i; open_time = c i }

same_key→eq : (k l : Key) → same_key k l ≡ true → k ≡ l
unfolding same_key
same_key→eq k l h =
    let (a, b, c) =
      and_parts (same_text k.interval l.interval) (same_text k.symbol l.symbol)
        (eqb_ℤ k.open_time l.open_time) h in
    key_of_parts k l (same_text→eq k.symbol l.symbol b) (same_text→eq k.interval l.interval a)
      (eqb_ℤ→eq k.open_time l.open_time c)

same_key_self : (k : Key) → same_key k k ≡ true
unfolding same_key
same_key_self k =
    rw (same_text_self k.interval, same_text_self k.symbol, eqb_ℤ-self k.open_time) refl

-- What the row of a new bar becomes.
abbrev pub merged : Ohlcv → Option Ohlcv → Ohlcv
merged new none = new
merged new (some c) = merge c new

find-put :
    (k : Key) (new : Ohlcv) (t : List Ohlcv)
    → find_bar k (put_bar new t)
      ≡ (if same_key k new.key then some (merged new (find_bar new.key t)) else find_bar k t)
unfolding find_bar put_bar merge
find-put k new [] = refl
find-put k new (c ∷ cs) = elim (Bool-cases (same_key new.key c.key)) [
  | inl here ↦
      rw (here, same_key→eq new.key c.key here)
        (elim (Bool-cases (same_key k c.key)) [ inl e ↦ rw e refl | inr e ↦ rw e refl ])
  | inr there ↦
      rw (there, find-put k new cs)
        (elim (Bool-cases (same_key k c.key)) [
          | inr e ↦ rw e refl
          | inl e ↦
              let no : same_key k new.key ≡ false = elim (Bool-cases (same_key k new.key)) [
                | inr f ↦ f
                | inl f ↦ absurd (
                    cc (
                      sym (same_key_self c.key)
                      ∙ ap (λ (x : Key). same_key x c.key)
                          (sym (same_key→eq k c.key e) ∙ same_key→eq k new.key f)
                      ∙ there))
              ] in
              rw (e, no) refl
        ])
]

-- What an upsert makes of the row of its key.
abbrev pub advance : Ohlcv → Option Ohlcv → Option Ohlcv
advance new o = if count_fits new o then some (merged new o) else o

abbrev pub or_same : List Ohlcv → Option (List Ohlcv) → List Ohlcv
or_same t none = t
or_same t (some t') = t'

pub find-upsert :
    (k : Key) (new : Ohlcv) (t : List Ohlcv)
    → find_bar k (or_same t (upsert new t))
      ≡ (if same_key k new.key then advance new (find_bar k t) else find_bar k t)
unfolding upsert
find-upsert k new t = elim (Bool-cases (count_fits new (find_bar new.key t))) [
  | inl fits ↦
      rw (upsert, fits, find-put k new t)
        (elim (Bool-cases (same_key k new.key)) [
          | inl e ↦ rw (e, same_key→eq k new.key e, fits) refl
          | inr e ↦ rw e refl
        ])
  | inr full ↦
      rw (upsert, full)
        (elim (Bool-cases (same_key k new.key)) [
          | inl e ↦ rw (e, same_key→eq k new.key e, full) refl
          | inr e ↦ rw e refl
        ])
]
