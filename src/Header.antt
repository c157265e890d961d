-- ===== src/Header.antt =====
-- src/header.c: the five words before the code of a binary.
pub mod Accepted
use cortex_vm.Prelude.{ℕ, ltb, ◌==◌, not, if◌then◌else◌, bit_and, bit_or, Result, ok, fatal}
use cortex_vm.Word.{shr, low_bits}
use cortex_vm.Isa.Codes.{version, header_len, ext_float, ext_m}

-- What `headerParse` writes through its pointers.
pub record Header : Type 0 where
  pub magic : ℕ
  pub version_number : ℕ
  pub file_length : ℕ
  pub offset : ℕ
  pub extensions : ℕ
  pub data_offset : ℕ

-- `headerParse`, without what it prints under `DEBUG`. It reads five words, however long the
-- buffer is.
unfoldable pub header_parse : (ℕ → ℕ) → Header
header_parse buff = record {
  magic = shr (buff 0) 16;
  version_number = low_bits (buff 0) 16;
  file_length = buff 1;
  offset = buff 2;
  extensions = buff 3;
  data_offset = buff 4;
}

-- ".:CORT" in ASCII.
abbrev pub magic_number : ℕ
magic_number = 0x2e3a_434f_5254

-- `headerValidate`. Its messages have no number, 0 stands for it.
unfoldable pub header_validate : (file_size : ℕ) → Header → Result Header
header_validate file_size h =
    if ltb version h.version_number
    then fatal 0
    else if not (h.magic == magic_number)
    then fatal 0
    else if not (file_size == h.file_length)
    then fatal 0
    else if ltb h.offset header_len
    then fatal 0
    else if not (h.extensions == bit_and h.extensions (bit_or ext_float ext_m))
    then fatal 0
    else ok h
