-- ===== src/Run/Dispatch.antt =====
-- The rows of the dispatch table, and case splits on a function code.
use native.Mathlib.Decide.{ℕ_discrete}
use mathlib.Core.Path.{subst}
use cortex_vm.Prelude.{ℕ, ◌+◌, ◌*◌, ◌<◌, ◌≤◌, ◌≡◌, ◌≢◌, sym, arith}
use cortex_vm.Isa.Codes.{op_r, op_i, op_s, op_l, op_b, op_sys}
use cortex_vm.Decoded.{do_illegal, dispatch}

-- Beyond every code that some opcode knows.
abbrev pub Unknown : ℕ → Type 0
Unknown fn =
    (fn ≢ 1)
    × (fn ≢ 2)
    × (fn ≢ 3)
    × (fn ≢ 4)
    × (fn ≢ 5)
    × (fn ≢ 6)
    × (fn ≢ 7)
    × (fn ≢ 8)
    × (fn ≢ 9)
    × (fn ≢ 10)

-- To prove a statement about a function code, prove it of 1 to 10 and of the others.
pub by_code :
    (P : ℕ → Type 0)
    → P 1 × P 2 × P 3 × P 4 × P 5 × P 6 × P 7 × P 8 × P 9 × P 10
    → ((fn : ℕ) → Unknown fn → P fn)
    → (fn : ℕ) → P fn
by_code P known other fn = elim (ℕ_discrete fn 1) [
  | yes e ↦ subst P (sym e) (known.0)
  | no n1 ↦ elim (ℕ_discrete fn 2) [
    | yes e ↦ subst P (sym e) (known.1)
    | no n2 ↦ elim (ℕ_discrete fn 3) [
      | yes e ↦ subst P (sym e) (known.2)
      | no n3 ↦ elim (ℕ_discrete fn 4) [
        | yes e ↦ subst P (sym e) (known.3)
        | no n4 ↦ elim (ℕ_discrete fn 5) [
          | yes e ↦ subst P (sym e) (known.4)
          | no n5 ↦ elim (ℕ_discrete fn 6) [
            | yes e ↦ subst P (sym e) (known.5)
            | no n6 ↦ elim (ℕ_discrete fn 7) [
              | yes e ↦ subst P (sym e) (known.6)
              | no n7 ↦ elim (ℕ_discrete fn 8) [
                | yes e ↦ subst P (sym e) (known.7)
                | no n8 ↦ elim (ℕ_discrete fn 9) [
                  | yes e ↦ subst P (sym e) (known.8)
                  | no n9 ↦ elim (ℕ_discrete fn 10) [
                    | yes e ↦ subst P (sym e) (known.9)
                    | no n10 ↦ other fn (n1, n2, n3, n4, n5, n6, n7, n8, n9, n10)
                  ]
                ]
              ]
            ]
          ]
        ]
      ]
    ]
  ]
]

pub dispatch-Unknown_r : (fn : ℕ) → fn < 256 → Unknown fn → dispatch (op_r * 256 + fn) ≡ do_illegal
unfolding dispatch
dispatch-Unknown_r fn h u = ground arith

pub dispatch-Unknown_i : (fn : ℕ) → fn < 256 → Unknown fn → dispatch (op_i * 256 + fn) ≡ do_illegal
unfolding dispatch
dispatch-Unknown_i fn h u = ground arith

pub dispatch-Unknown_s : (fn : ℕ) → fn < 256 → Unknown fn → dispatch (op_s * 256 + fn) ≡ do_illegal
unfolding dispatch
dispatch-Unknown_s fn h u = ground arith

pub dispatch-Unknown_l : (fn : ℕ) → fn < 256 → Unknown fn → dispatch (op_l * 256 + fn) ≡ do_illegal
unfolding dispatch
dispatch-Unknown_l fn h u = ground arith

pub dispatch-Unknown_b : (fn : ℕ) → fn < 256 → Unknown fn → dispatch (op_b * 256 + fn) ≡ do_illegal
unfolding dispatch
dispatch-Unknown_b fn h u = ground arith

pub dispatch-Unknown_sys :
    (fn : ℕ) → fn < 256 → Unknown fn → dispatch (op_sys * 256 + fn) ≡ do_illegal
unfolding dispatch
dispatch-Unknown_sys fn h u = ground arith

-- An opcode that has no row.
abbrev pub IsBase : ℕ → Type 0
IsBase op = (op_r ≤ op) × (op ≤ op_sys)

pub dispatch-other : (op fn : ℕ) → fn < 256 → ¬ IsBase op → dispatch (op * 256 + fn) ≡ do_illegal
unfolding dispatch
dispatch-other op fn h u = ground arith
