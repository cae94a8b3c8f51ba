-- ===== src/Codec/Ascii.antt =====
-- Byte-string literals of the source: the code points of an ASCII text.
use Prim.Native.Char.{code}
use Prim.Native.String.{String}
use desperate.Prelude.{[], ◌∷◌}
use desperate.Codec.Words.{Bytes}

abbrev pub ascii : String → Bytes
ascii String.[] = []
ascii (String.◌∷◌ c s) = code c ∷ ascii s
