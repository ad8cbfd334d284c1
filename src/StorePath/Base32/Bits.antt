-- ===== src/StorePath/Base32/Bits.antt =====
-- crates/garret-common/src/lib.rs: the value of bytes, read five bits at a time.
use Prim.Native.Nat.{bit_and, bit_or}
use garret.Common.{
  ℕ, zero, suc, ◌+◌, ◌-◌, ◌*◌, ◌/◌, ◌%◌, ◌^◌, ◌≤◌, ◌<◌, ◌≡◌, refl, Bool, true, ◌&&◌, none, some,
  List, [], ◌∷◌, arith, if◌then◌else◌, ◌==◌, ==_iff, Text, get_elem?, length, drop, All,
}
use garret.StorePath.Names.{nix_base32_alphabet}
use garret.StorePath.Base32.{carry}

-- The number that bytes stand for, the least significant first.
abbrev pub value : List ℕ → ℕ
value [] = 0
value (b ∷ bs) = b + 256 * value bs

abbrev pub position : ℕ → Text → ℕ
position c [] = 0
position c (a ∷ s) = if a == c then 0 else suc (position c s)

-- The number that a base32 text stands for, read from the left.
abbrev pub read_from : ℕ → Text → ℕ
read_from acc [] = acc
read_from acc (c ∷ s) = read_from (acc * 32 + position c nix_base32_alphabet) s

abbrev pub IsByte : ℕ → Type 0
IsByte b = b < 256

-- To prove a statement about few numbers by evaluating a test of it on each of them.
unfoldable pub tested : (ℕ → Bool) → ℕ → Bool
tested test zero = true
tested test (suc last) = tested test last && test last

pub tested_sound :
    (test : ℕ → Bool) (count i : ℕ) → i < count → tested test count ≡ true → test i ≡ true
unfolding tested
tested_sound test zero i less passed = absurd (omega arith)
tested_sound test (suc last) i less passed = ground (arith, tested_sound test last i)

-- A group assembled from its two bytes, for each offset `j` of the group.
joins : ℕ → ℕ → Bool
joins j x = bit_and (bit_or (x % 2 ^ (8 - j)) (x / 2 ^ (8 - j) * 2 ^ (8 - j))) 0x1f == x % 32

joins_table : tested (λ j. tested (joins j) 256) 8 ≡ true
unfolding tested joins
joins_table = refl

joins_at :
    (j x : ℕ)
    → j < 8
    → x < 256
    → bit_and (bit_or (x % 2 ^ (8 - j)) (x / 2 ^ (8 - j) * 2 ^ (8 - j))) 0x1f ≡ x % 32
unfolding joins
joins_at j x hj hx =
    (==_iff _ _).0 (
      tested_sound (joins j) 256 x hx (tested_sound (λ j. tested (joins j) 256) 8 j hj joins_table))

assembled :
    (j x lo hi r : ℕ)
    → j < 8
    → x < 256
    → lo ≡ x % 2 ^ (8 - j)
    → hi ≡ x / 2 ^ (8 - j) * 2 ^ (8 - j)
    → r ≡ x % 32
    → bit_and (bit_or lo hi) 0x1f ≡ r
assembled j x lo hi r hj hx el eh er = rw (el, eh, er) (joins_at j x hj hx)

-- One group, from the two bytes that it spans and whatever stands above them.
pub joined :
    (j b next rest : ℕ)
    → j < 8
    → b < 256
    → next < 256
    → bit_and (bit_or (b / 2 ^ j) (carry j (some next))) 0x1f
      ≡ (b + 256 * (next + 256 * rest)) / 2 ^ j % 32
joined zero b n r hj hb hn =
    assembled 0 b _ _ _ (omega arith) hb (omega arith) (omega arith) (omega arith)
joined (suc zero) b n r hj hb hn =
    assembled 1 (b / 2 + n % 2 * 128) _ _ _ (omega arith) (omega arith) (omega arith) (omega arith)
      (omega arith)
joined (suc (suc zero)) b n r hj hb hn =
    assembled 2 (b / 4 + n % 4 * 64) _ _ _ (omega arith) (omega arith) (omega arith) (omega arith)
      (omega arith)
joined (suc (suc (suc zero))) b n r hj hb hn =
    assembled 3 (b / 8 + n % 8 * 32) _ _ _ (omega arith) (omega arith) (omega arith) (omega arith)
      (omega arith)
joined (suc (suc (suc (suc zero)))) b n r hj hb hn =
    assembled 4 (b / 16 + n % 16 * 16) _ _ _ (omega arith) (omega arith) (omega arith) (omega arith)
      (omega arith)
joined (suc (suc (suc (suc (suc zero))))) b n r hj hb hn =
    assembled 5 (b / 32 + n % 32 * 8) _ _ _ (omega arith) (omega arith) (omega arith) (omega arith)
      (omega arith)
joined (suc (suc (suc (suc (suc (suc zero)))))) b n r hj hb hn =
    assembled 6 (b / 64 + n % 64 * 4) _ _ _ (omega arith) (omega arith) (omega arith) (omega arith)
      (omega arith)
joined (suc (suc (suc (suc (suc (suc (suc zero))))))) b n r hj hb hn =
    assembled 7 (b / 128 + n % 128 * 2) _ _ _ (omega arith) (omega arith) (omega arith)
      (omega arith) (omega arith)
joined (suc (suc (suc (suc (suc (suc (suc (suc j)))))))) b n r hj hb hn = absurd (omega arith)

-- The number from group `n` up.
unfoldable pub shifted : List ℕ → ℕ → ℕ
shifted bytes n = value (drop (n * 5 / 8) bytes) / 2 ^ (n * 5 % 8)

-- The byte at `i`, or 0 past the end, stands in front of the rest.
pub value_split :
    (i : ℕ) (bytes : List ℕ)
    → All IsByte bytes
    → (b : ℕ) × (value (drop i bytes) ≡ b + 256 * value (drop (suc i) bytes))
      × (b < 256)
      × ((c : ℕ) → get_elem? bytes i ≡ some c → c ≡ b)
      × (get_elem? bytes i ≡ none → b ≡ 0)
value_split zero [] ok = (0, omega arith, omega arith, λ c e. cc, λ e. refl)
value_split (suc i) [] ok = (0, omega arith, omega arith, λ c e. cc, λ e. refl)
value_split zero (x ∷ bytes) ok = (x, refl, ok.0, λ c e. cc, λ e. cc)
value_split (suc i) (x ∷ bytes) ok = value_split i bytes ok.1

pub get_elem?-lt-length :
    (bytes : List ℕ) (i : ℕ) → i < length bytes → (b : ℕ) × (get_elem? bytes i ≡ some b)
get_elem?-lt-length [] i h = absurd (omega arith)
get_elem?-lt-length (x ∷ bytes) zero h = (x, refl)
get_elem?-lt-length (x ∷ bytes) (suc i) h = get_elem?-lt-length bytes i (omega arith)

pub drop_past : (bytes : List ℕ) (i : ℕ) → length bytes ≤ i → value (drop i bytes) ≡ 0
drop_past [] zero h = refl
drop_past [] (suc i) h = refl
drop_past (x ∷ bytes) zero h = absurd (omega arith)
drop_past (x ∷ bytes) (suc i) h = drop_past bytes i (omega arith)
