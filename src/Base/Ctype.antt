-- ===== src/Base/Ctype.antt =====
-- <ctype.h> in the C locale.
use Prim.Native.Nat.{ℕ}
use mathlib.Core.Bool.{Bool, ◌&&◌, ◌||◌}
use shroomio.Base.Tests.{ltb, leb, ◌==◌}

abbrev pub is_print : ℕ → Bool
is_print c = leb 32 c && ltb c 127

abbrev pub is_space : ℕ → Bool
is_space c = c == 32 || leb 9 c && leb c 13

abbrev pub is_alnum : ℕ → Bool
is_alnum c = leb 48 c && leb c 57 || leb 65 c && leb c 90 || leb 97 c && leb c 122
