-- ===== src/Decoded/Cache.antt =====
-- The cache of decoded records that `run` of src/core.c keeps across calls, and `runCacheReset`.
use cortex_vm.Prelude.{
  ℕ, ◌+◌, ◌*◌, ◌^◌, ◌≡◌, ◌≢◌, ◌≤◌, ◌<◌, refl, sym, ◌∙◌, ltb, leb, ◌==◌, ◌&&◌, ◌>>=◌, if◌then◌else◌,
  Bool, true, false, Bool-cases, inl, inr, Result, ok, fatal, undefined, arith, ne→==,
}
use mathlib.Core.Bool.{false≢true}
use cortex_vm.Word.{add64, u64}
use cortex_vm.Decoded.{DecodedInstr, decode_all}

-- The file-scope variables: the address and the length of the code that `decoded` was made from
-- (0 is NULL), how many records it is taken to have room for, and the bytes of its block.
pub record Cache : Type 0 where
  pub decoded : ℕ → DecodedInstr
  pub decoded_cap : ℕ
  pub block : ℕ
  pub cached_cb : ℕ
  pub cached_len : ℕ

-- `runCacheReset`
unfoldable pub run_cache_reset : Cache → Cache
run_cache_reset c = record c { cached_cb = 0; cached_len = 0 }

-- `sizeof(DecodedInstr)`
abbrev pub record_bytes : ℕ
record_bytes = 32

-- Room for a sentinel besides the code; `malloc` tells whether so many bytes can be had.
unfoldable pub ensure_room : (malloc : ℕ → Bool) (file_length : ℕ) → Cache → Result Cache
ensure_room malloc file_length c =
    if ltb c.decoded_cap (add64 file_length 1)
    then (if malloc (u64 (add64 file_length 1 * record_bytes))
        then ok (record c {
          decoded_cap = add64 file_length 1;
          block = u64 (add64 file_length 1 * record_bytes);
        })
        else fatal 0x3801)
    else ok c

-- The records are written, the sentinel behind those of the code; it must lie inside the block.
unfoldable pub write_records : (code_base file_length : ℕ) (code : ℕ → ℕ) → Cache → Result Cache
write_records code_base file_length code c =
    if leb ((file_length + 1) * record_bytes) c.block
    then ok (record {
      decoded = decode_all code file_length;
      decoded_cap = c.decoded_cap;
      block = c.block;
      cached_cb = code_base;
      cached_len = file_length;
    })
    else undefined

-- Decoding at the start of `run`, unless the same address and length were decoded before.
unfoldable pub refresh :
    (malloc : ℕ → Bool) (code_base file_length : ℕ) (code : ℕ → ℕ) → Cache → Result Cache
unfolding ensure_room write_records
refresh malloc code_base file_length code c =
    if code_base == c.cached_cb && file_length == c.cached_len
    then ok c
    else (ensure_room malloc file_length c >>= write_records code_base file_length code)

-- The block holds as many records as it is taken to have room for.
pub record IsRoomy (c : Cache) : Type 0 where
  pub fits : c.decoded_cap * record_bytes ≤ c.block

-- The records of this code, sentinel included, in a block that holds them all.
pub record Decodes (code : ℕ → ℕ) (file_length : ℕ) (c : Cache) : Type 0 where
  pub records : c.decoded ≡ decode_all code file_length
  pub inside : (file_length + 1) * record_bytes ≤ c.block
  pub roomy : IsRoomy c

-- What decoding comes to: never a write behind the block.
pub data Refreshed (malloc : ℕ → Bool) (code : ℕ → ℕ) (file_length : ℕ)
    : Result Cache → Type 0 where
  no_memory : (n : ℕ) → malloc n ≡ false → Refreshed malloc code file_length (fatal 0x3801)
  refreshed : (c : Cache) → Decodes code file_length c → Refreshed malloc code file_length (ok c)

module _ (malloc : ℕ → Bool) (code_base file_length : ℕ) (code : ℕ → ℕ)
    (small : file_length + 1 < 2 ^ 59) where
  write_records-Refreshed :
      (c : Cache)
      → IsRoomy c
      → (file_length + 1) * record_bytes ≤ c.block
      → Refreshed malloc code file_length (write_records code_base file_length code c)
  unfolding write_records
  write_records-Refreshed c room inside =
      let fits : leb ((file_length + 1) * record_bytes) c.block ≡ true = ground arith in
      rw fits (
        refreshed _
          (record { records = refl; inside = inside; roomy = record { fits = room.fits } }))

  ensured-Refreshed :
      (c : Cache)
      → IsRoomy c
      → Refreshed malloc code file_length
          (ensure_room malloc file_length c >>= write_records code_base file_length code)
  unfolding ensure_room
  ensured-Refreshed c room =
      let one_more : add64 file_length 1 ≡ file_length + 1 = omega arith in
      let bytes : u64 ((file_length + 1) * record_bytes) ≡ (file_length + 1) * record_bytes =
        omega arith in
      rw one_more (elim (Bool-cases (ltb c.decoded_cap (file_length + 1))) [
        | inl grows ↦
            rw (grows, bytes)
              (elim (Bool-cases (malloc ((file_length + 1) * record_bytes))) [
                | inl got ↦
                    rw got (write_records-Refreshed _ (record { fits = omega arith }) (omega arith))
                | inr refused ↦ rw refused (no_memory ((file_length + 1) * record_bytes) refused)
              ])
        | inr enough ↦ rw enough (write_records-Refreshed c room (ground (arith, room.fits)))
      ])

  -- Let the block of the cache hold as many records as it has room for, and let the code not lie at
  -- NULL and have fewer than 2 ^ 59 - 1 words. After `runCacheReset`, and whatever was decoded
  -- before, decoding never writes outside the block: it leaves the records of this code, sentinel
  -- included, in a block of at least their bytes that again holds as many records as the cache has
  -- room for, or ends with FATAL 0x3801 because an allocation is refused.
  pub refresh-run_cache_reset :
      (c : Cache)
      → IsRoomy c
      → code_base ≢ 0
      → Refreshed malloc code file_length
          (refresh malloc code_base file_length code (run_cache_reset c))
  unfolding refresh run_cache_reset
  refresh-run_cache_reset c room some_base =
      rw (ne→== code_base 0 some_base)
        (ensured-Refreshed (run_cache_reset c) (record { fits = room.fits }))

  -- It returns when the memory can be had.
  granted :
      (r : Result Cache)
      → Refreshed malloc code file_length r
      → ((n : ℕ) → malloc n ≡ true)
      → (c : Cache) × (r ≡ ok c) × Decodes code file_length c
  granted r (no_memory n refused) plenty = absurd (false≢true (sym refused ∙ plenty n))
  granted r (refreshed c d) plenty = (c, refl, d)

  pub refresh-returns :
      (c : Cache)
      → IsRoomy c
      → code_base ≢ 0
      → ((n : ℕ) → malloc n ≡ true)
      → (c' : Cache) × (refresh malloc code_base file_length code (run_cache_reset c) ≡ ok c')
        × Decodes code file_length c'
  refresh-returns c room some_base plenty =
      granted _ (refresh-run_cache_reset c room some_base) plenty
