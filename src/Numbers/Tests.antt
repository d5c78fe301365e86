-- ===== src/Numbers/Tests.antt =====
-- Runs of the number conversions of str.c, and the instances of their theorems.
use jawas.Base.{◌≡◌, refl, arith, codes, some}
use jawas.Numbers.{int_str, hex_str, str_hex}
use jawas.Numbers.Read.{str_hex-hex_str}

int_str_runs : int_str 8080 ≡ codes "8080"
unfolding int_str
int_str_runs = refl

hex_str_runs : hex_str 1460 ≡ codes "5b4"
unfolding hex_str
hex_str_runs = refl

str_hex-hex_str_example : str_hex (some (hex_str 1460)) ≡ 1460
str_hex-hex_str_example = str_hex-hex_str 1460 (omega arith)
