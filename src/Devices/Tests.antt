-- ===== src/Devices/Tests.antt =====
-- The numbers of i386/whitex/hexdump.h and i386/whitex/echo.h at concrete values.
use whitex_kernel.Prelude.{◌≡◌, refl}
use whitex_kernel.Kernel.Shell.{codes}
use whitex_kernel.Devices.{hex_digit, hex_from, to_hex, echo}

beef : to_hex 0xDEAD_BEEF ≡ codes "0xDEADBEEF"
unfolding to_hex hex_from hex_digit
beef = refl

said : echo (codes "echo hello") ≡ codes "hello"
unfolding echo
said = refl
