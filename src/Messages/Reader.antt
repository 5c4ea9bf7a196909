-- ===== src/Messages/Reader.antt =====
-- A run of calls of `strtok` in `mess__parse` (common/messages.c): the state is the text that
-- `strtok` has still to read.
pub mod Steps
use re203_projet_reseau.Prelude.{ℤ, none, some, Str, Pointer, Outcome, ok, fault, null_pointer}
use re203_projet_reseau.Libc.Decimal.{atoi}
use re203_projet_reseau.Libc.Tokens.{strtok, space}
use re203_projet_reseau.Util.{strcopy}

abbrev pub Reader : Type 0 → Type 0
Reader A = Str → Outcome (A × Str)

infixl 5 ◌>>=◌ ◌>>◌
unfoldable pub ◌>>=◌ : {A B : Type 0} → Reader A → (A → Reader B) → Reader B
◌>>=◌ m f s = elim (m s) [ ok (a, t) ↦ f a t | fault e ↦ fault e ]

abbrev pub ◌>>◌ : {A B : Type 0} → Reader A → Reader B → Reader B
m >> k = m >>= λ _. k

abbrev pub give : {A : Type 0} → A → Reader A
give a s = ok (a, s)

-- `strtok (NULL, delimiters)`, the first call included
unfoldable pub next_by : Str → Reader Pointer
next_by delimiters s = ok (strtok delimiters s)

unfoldable pub next : Reader Pointer
unfolding next_by
next = next_by space

-- `strcopy (strtok (NULL, " "))`
unfoldable pub next_copy : Reader Pointer
unfolding strcopy
next_copy s = ok (strcopy (strtok space s).0, (strtok space s).1)

-- A step that reads no token.
unfoldable pub lift : {A : Type 0} → Outcome A → Reader A
lift (ok a) s = ok (a, s)
lift (fault e) s = fault e

unfoldable pub atoi_pointer : Pointer → Outcome ℤ
atoi_pointer none = fault null_pointer
atoi_pointer (some s) = atoi s

-- `atoi (strtok (NULL, " "))`
unfoldable pub next_int : Reader ℤ
unfolding lift atoi_pointer
next_int s = lift (atoi_pointer (strtok space s).0) (strtok space s).1

-- The result, when `strtok` is called no more.
unfoldable pub run : {A : Type 0} → Reader A → Str → Outcome A
run m s = elim (m s) [ ok (a, t) ↦ ok a | fault e ↦ fault e ]

-- Everything that runs a reader.
unfoldable pub reader_program : Unit {0}
unfolding ◌>>=◌ next next_copy next_int lift run
reader_program = tt
