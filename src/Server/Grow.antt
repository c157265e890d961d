-- ===== src/Server/Grow.antt =====
-- The growing buffers of src/server.c.
use cortex_vm.Prelude.{
  ℕ, ◌+◌, ◌-◌, ◌*◌, ◌^◌, ◌≤◌, ◌<◌, ◌≡◌, leb, Bool, Option, none, some, arith, Bool-cases, inl, inr,
  true, false,
}
use cortex_vm.Word.{u64, sub64}
use cortex_vm.Server.Text.{grown}

-- A buffer of `cap` bytes that holds `len` characters of the `most` to come.
pub record Room (most cap len : ℕ) : Type 0 where
  pub bound : most < 2 ^ 60
  pub least : 8 ≤ cap
  pub inside : len < cap
  pub upper : cap ≤ 2 * most + 8192

-- Some allocation fails.
abbrev pub Refused : (ℕ → Bool) → Type 0
Refused alloc = (n : ℕ) × (alloc n ≡ false)

-- Every allocation is granted.
abbrev pub Granted : (ℕ → Bool) → Type 0
Granted alloc = (n : ℕ) → alloc n ≡ true

-- The capacity before a write: refused, or of `spare` more bytes than are used.
pub data Grown (alloc : ℕ → Bool) (most len spare : ℕ) : Option ℕ → Type 0 where
  refused : Refused alloc → Grown alloc most len spare none
  room :
      {cap : ℕ}
      → 8 ≤ cap
      → len + spare < cap
      → cap ≤ 2 * most + 8192
      → Grown alloc most len spare (some cap)

pub sub64_small : (a b : ℕ) → b ≤ a → a < 2 ^ 64 → sub64 a b ≡ a - b
sub64_small a b h small = omega arith

pub grown-Grown :
    (alloc : ℕ → Bool) (most size len spare : ℕ)
    → Room most size len
    → len ≤ most
    → spare ≤ 8
    → Grown alloc most len spare (grown alloc spare size len)
unfolding grown
grown-Grown alloc most size len spare r small few =
    let b = r.bound in
    let l = r.least in
    let i = r.inside in
    let u = r.upper in
    let less : sub64 size spare ≡ size - spare =
      sub64_small size spare (omega arith) (omega arith) in
    let twice : u64 (size * 2) ≡ size * 2 = omega arith in
    rw (less, twice)
      (elim (Bool-cases (leb (size - spare) len)) [
        | inl full ↦ rw full (elim (Bool-cases (alloc (size * 2))) [
          | inl got ↦ rw got (room (omega arith) (omega arith) (ground arith))
          | inr not_got ↦ rw not_got (refused (size * 2, not_got))
        ])
        | inr free ↦ rw free (room l (ground arith) u)
      ])
