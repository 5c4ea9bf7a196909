-- ===== src/Util.antt =====
-- common/util.c: `strcopy` and `strcopy2`. A copy is the same text in another buffer.
use re203_projet_reseau.Prelude.{Option, none, some, Pointer}

unfoldable pub strcopy : Pointer → Pointer
strcopy none = none
strcopy (some origin) = some origin

-- `strcopy2 (dest, origin)`, where `dest` points to a pointer or is NULL. The old text is freed.
unfoldable pub strcopy2 : Option Pointer → Pointer → Option Pointer
strcopy2 none origin = none
strcopy2 (some dest) none = some none
strcopy2 (some dest) (some origin) = some (some origin)
