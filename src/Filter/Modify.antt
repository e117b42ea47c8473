-- ===== src/Filter/Modify.antt =====
-- The MODIFY action of FilterEngine::process: what it does to each byte and each bit of a frame.
use ksg_canbus_rpi_sniffer.Prelude.{
  ℕ, zero, suc, ◌+◌, ◌-◌, ◌/◌, ◌≤◌, ◌<◌, ◌≡◌, refl, ap, ◌∙◌, true, List, ltb, ◌==◌, ==_iff,
  if◌then◌else◌, ◌&&◌, length, length-set, get_or, get_or-set_self, get_or-set_ne, set, bit_and,
  arith,
}
use native.Mathlib.Decide.{ℕ_discrete}
use ksg_canbus_rpi_sniffer.Prelude.Bits.{bit, bit-bit_and, bit-bit_or, all_below, all_below_sound}
use ksg_canbus_rpi_sniffer.Filter.Rule.{CanFilterRule, merge_byte, modify_from, act}

complement_table : all_below 8 (λ i. all_below 256 (λ m. bit i (255 - m) == 1 - bit i m)) ≡ true
unfolding all_below
complement_table = refl

bit-complement : (i m : ℕ) → i < 8 → m < 256 → bit i (255 - m) ≡ 1 - bit i m
bit-complement i m hi hm = (==_iff _ _).0 (
    all_below_sound 256 (λ m. bit i (255 - m) == 1 - bit i m) m
      (all_below_sound 8 _ i complement_table hi) hm)

bit-lt_two : (i x : ℕ) → bit i x < 2
bit-lt_two zero x = omega arith
bit-lt_two (suc i) x = bit-lt_two i (x / 2)

-- A bit that the mask sets comes from the new byte, every other bit from the old one.
pub bit-merge_byte :
    (i old new mask : ℕ)
    → i < 8
    → mask < 256
    → bit i (merge_byte old new mask) ≡ (if bit i mask == 1 then bit i new else bit i old)
unfolding merge_byte
bit-merge_byte i old new mask hi hm = ground (
  arith,
  bit-bit_or i (bit_and old (255 - mask)) (bit_and new mask),
  bit-bit_and i old (255 - mask),
  bit-bit_and i new mask,
  bit-complement i mask hi hm,
  bit-lt_two i mask,
  bit-lt_two i old,
  bit-lt_two i new,
)

pub length-modify_from :
    (n j : ℕ) (r : CanFilterRule) (bytes : List ℕ) (len : ℕ)
    → length (modify_from n j r bytes len) ≡ length bytes
unfolding modify_from
length-modify_from zero j r bytes len = refl
length-modify_from (suc n) j r bytes len = ground (
  arith,
  length-modify_from n (suc j) r
      (set bytes j (
        merge_byte (get_or bytes j 0) (get_or r.modification_data j 0)
          (get_or r.modification_mask j 0)))
      len,
  length-set bytes j (
      merge_byte (get_or bytes j 0) (get_or r.modification_data j 0)
        (get_or r.modification_mask j 0)),
)

abbrev merged : CanFilterRule → List ℕ → ℕ → ℕ
merged r bytes k =
    merge_byte (get_or bytes k 0) (get_or r.modification_data k 0) (get_or r.modification_mask k 0)

-- A byte before the loop's index stays.
get_or-modify_from_below :
    (n j : ℕ) (r : CanFilterRule) (bytes : List ℕ) (len k : ℕ)
    → k < j
    → get_or (modify_from n j r bytes len) k 0 ≡ get_or bytes k 0
unfolding modify_from
get_or-modify_from_below zero j r bytes len k h = refl
get_or-modify_from_below (suc n) j r bytes len k h = ground (
  arith,
  get_or-modify_from_below n (suc j) r (set bytes j (merged r bytes j)) len k,
  get_or-set_ne bytes {i = j} {j = k} (merged r bytes j) 0 (omega arith),
)

get_or-modify_from :
    (n j : ℕ) (r : CanFilterRule) (bytes : List ℕ) (len k : ℕ)
    → j ≤ k
    → k < length bytes
    → get_or (modify_from n j r bytes len) k 0
      ≡ (if ltb k (j + n) && ltb k len then merged r bytes k else get_or bytes k 0)
unfolding modify_from
get_or-modify_from zero j r bytes len k h hk = ground arith
get_or-modify_from (suc n) j r bytes len k h hk = elim (ℕ_discrete j k) [
  | yes e ↦ rw (← e) (
      ground (
        arith,
        get_or-modify_from_below n (suc j) r (set bytes j (merged r bytes j)) len j,
        get_or-set_self bytes j (merged r bytes j) 0,
      ))
  | no ne ↦ ground (
    arith,
    get_or-modify_from n (suc j) r (set bytes j (merged r bytes j)) len k,
    get_or-set_ne bytes {i = j} {j = k} (merged r bytes j) 0 ne,
    length-set bytes j (merged r bytes j),
  )
]

act_two :
    (r : CanFilterRule) (bytes : List ℕ) (len : ℕ)
    → r.action_type ≡ 2
    → act r bytes len ≡ (true, modify_from 8 0 r bytes len)
unfolding act
act_two r bytes len two = rw two

bit-modify :
    (r : CanFilterRule) (bytes : List ℕ) (len k i : ℕ)
    → k < length bytes
    → get_or r.modification_mask k 0 < 256
    → i < 8
    → bit i (get_or (modify_from 8 0 r bytes len) k 0) ≡ (
        if ltb k 8 && ltb k len && (bit i (get_or r.modification_mask k 0) == 1)
        then bit i (get_or r.modification_data k 0)
        else bit i (get_or bytes k 0))
bit-modify r bytes len k i inside byte hi =
    ap (bit i) (get_or-modify_from 8 0 r bytes len k (omega arith) inside) ∙ split
  where
    merge : bit i (merged r bytes k) ≡ (
        if bit i (get_or r.modification_mask k 0) == 1
        then bit i (get_or r.modification_data k 0)
        else bit i (get_or bytes k 0))
    merge =
        bit-merge_byte i (get_or bytes k 0) (get_or r.modification_data k 0)
          (get_or r.modification_mask k 0) hi byte

    split : bit i (if ltb k (0 + 8) && ltb k len then merged r bytes k else get_or bytes k 0) ≡ (
        if ltb k 8 && ltb k len && (bit i (get_or r.modification_mask k 0) == 1)
        then bit i (get_or r.modification_data k 0)
        else bit i (get_or bytes k 0))
    split = ground (arith, merge)

-- A MODIFY rule never blocks the frame. It keeps the length of the data, replaces the masked bits of
-- each of the first min(8, len) bytes by those of the rule, bit by bit, and keeps every other byte.
pub act-modify :
    (r : CanFilterRule) (bytes : List ℕ) (len k i : ℕ)
    → r.action_type ≡ 2
    → k < length bytes
    → get_or r.modification_mask k 0 < 256
    → i < 8
    → ((act r bytes len).0 ≡ true)
      × (length (act r bytes len).1 ≡ length bytes)
      × (bit i (get_or (act r bytes len).1 k 0) ≡ (
          if ltb k 8 && ltb k len && (bit i (get_or r.modification_mask k 0) == 1)
          then bit i (get_or r.modification_data k 0)
          else bit i (get_or bytes k 0)))
act-modify r bytes len k i two inside byte hi =
    rw (act_two r bytes len two)
      (refl, length-modify_from 8 0 r bytes len, bit-modify r bytes len k i inside byte hi)
