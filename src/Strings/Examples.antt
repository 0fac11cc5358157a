-- ===== src/Strings/Examples.antt =====
-- An overlapping move of three bytes.

use linux.Strings.Defs.{Bytes}

abbrev counting : Bytes
counting a = a
