-- ===== src/Header/Accepted.antt =====
-- The binaries that `headerValidate` of src/header.c lets through.
use Prim.Native.Nat.{digits, min, bit_and-bitwise}
use cortex_vm.Prelude.{
  ◌⊎◌, ◌↔◌, ℕ, zero, suc, ◌+◌, ◌*◌, ◌%◌, ◌/◌, ◌^◌, ◌≤◌, ◌<◌, ◌≡◌, refl, bit_and, ok, arith,
}
use cortex_vm.Header.{Header, header_parse, header_validate, magic_number}

abbrev and_digits : ℕ → ℕ → ℕ → ℕ
and_digits n a b = digits (λ b. 0) min n a b

and_digits-no_bits : (n a : ℕ) → and_digits n a 0 ≡ 0
and_digits-no_bits zero a = refl
and_digits-no_bits (suc n) zero = refl
and_digits-no_bits (suc n) (suc a) = omega (arith, and_digits-no_bits n (suc a / 2))

and_digits-one_bit : (n a : ℕ) → a ≤ n → and_digits n a 1 ≡ a % 2
and_digits-one_bit zero a h = omega arith
and_digits-one_bit (suc n) zero h = refl
and_digits-one_bit (suc n) (suc a) h = omega (arith, and_digits-no_bits n (suc a / 2))

-- `e & 3`
bit_and-three : (e : ℕ) → bit_and e 3 ≡ e % 4
bit_and-three zero = refl
bit_and-three (suc e) =
    omega (arith, bit_and-bitwise (suc e) 3, and_digits-one_bit e (suc e / 2) (omega arith))

-- The first four words of a binary of `size` words that may run.
pub record IsBinary (size : ℕ) (buff : ℕ → ℕ) : Type 0 where
  pub first : (buff 0 ≡ magic_number * 2 ^ 16) ⊎ (buff 0 ≡ magic_number * 2 ^ 16 + 1)
  pub length_word : buff 1 ≡ size
  pub entry_lower : 5 ≤ buff 2
  pub flags_word : buff 3 < 4

pub validate-parse :
    (size : ℕ) (buff : ℕ → ℕ)
    → IsBinary size buff
    → header_validate size (header_parse buff) ≡ ok (header_parse buff)
unfolding header_validate header_parse
validate-parse size buff binary = ground (
  arith,
  binary.first,
  binary.length_word,
  binary.entry_lower,
  binary.flags_word,
  bit_and-three (buff 3),
)

pub parse-IsBinary :
    (size : ℕ) (buff : ℕ → ℕ) (h : Header)
    → header_validate size (header_parse buff) ≡ ok h
    → IsBinary size buff
unfolding header_validate header_parse
parse-IsBinary size buff h e = record {
  first = ground (arith, e);
  length_word = ground (arith, e);
  entry_lower = ground (arith, e);
  flags_word = ground (arith, e, bit_and-three (buff 3));
}

-- `headerValidate` lets a binary through if and only if its first word is the magic number with
-- version 0 or 1, its second is the size, its third is at least 5 and its fourth has no bit set but
-- those of the two extensions.
pub validate-parse-IsBinary :
    (size : ℕ) (buff : ℕ → ℕ)
    → (header_validate size (header_parse buff) ≡ ok (header_parse buff)) ↔ IsBinary size buff
validate-parse-IsBinary size buff =
    (parse-IsBinary size buff (header_parse buff), validate-parse size buff)
