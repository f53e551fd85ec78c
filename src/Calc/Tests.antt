-- ===== src/Calc/Tests.antt =====
-- The statements on i386/whitex/calc.h at concrete inputs.
use whitex_kernel.Prelude.{◌≡◌, refl, none, [], ◌∷◌, arith}
use whitex_kernel.Kernel.Shell.{codes}
use whitex_kernel.Calc.Printed.{Shows}
use whitex_kernel.Calc.{no_stacks, calc_from, shown, itoa2, cmd_calc_handler}
use whitex_kernel.Calc.Meaning.{plus, times}
use whitex_kernel.Calc.Bounds.{Fits, calc_from-Fits}
use whitex_kernel.Calc.Terms.{
  Term, number, operation, Means, reads, computes, written, cmd_calc_handler-Means,
}

calc_from-Fits_example : Fits (calc_from (codes "(1+2)*3") none no_stacks)
calc_from-Fits_example =
    calc_from-Fits (codes "(1+2)*3") none no_stacks
      (record { values_in = omega arith; ops_in = omega arith })

-- (15+(7*2))
abbrev sum_of : Term
sum_of = operation (number 49 (53 ∷ [])) plus (operation (number 55 []) times (number 50 []))

sum-Means : Means sum_of 29
sum-Means = computes (reads refl (refl, tt)) (computes (reads refl tt) (reads refl tt) refl) refl

cmd_calc_handler-Means_example :
    (cmd_calc_handler (written sum_of []) ≡ shown (itoa2 29)) × Shows 29 (itoa2 29)
cmd_calc_handler-Means_example =
    cmd_calc_handler-Means sum_of 29 sum-Means (omega arith) (omega arith) (omega arith)
      (omega arith)
