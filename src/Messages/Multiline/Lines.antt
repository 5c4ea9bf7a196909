-- ===== src/Messages/Multiline/Lines.antt =====
-- The lines that `mess__multiline_parse` (common/messages.c) splits a text into, and what its loop
-- does to the text.
use mathlib.Core.List.{append_assoc}
use re203_projet_reseau.Prelude.{
  ℕ, zero, suc, ◌+◌, ◌≡◌, ◌<◌, ◌≢◌, refl, true, false, List, [], ◌∷◌, ◌++◌, Str, length, get_or,
  set, sym, length-append, length-set, ap, ◌∙◌, ◌==◌, if◌then◌else◌, arith,
}
use re203_projet_reseau.Messages.Multiline.{clear_previous}

-- A line at the end of a text, if it is begun.
unfoldable pub last_line : Str → List Str
last_line [] = []
last_line (d ∷ line) = (d ∷ line) ∷ []

-- The lines of a text behind the bytes of a line that is begun; each keeps its newline.
unfoldable pub lines_from : Str → Str → List Str
lines_from line [] = last_line line
lines_from line (c ∷ s) =
    let ended = (line ++ c ∷ []) ∷ lines_from [] s in
    let longer = lines_from (line ++ c ∷ []) s in if c == 10 then ended else longer

pub lines_from-newline :
    (line : Str) (c : ℕ) (s : Str)
    → c == 10 ≡ true
    → lines_from line (c ∷ s) ≡ (line ++ c ∷ []) ∷ lines_from [] s
unfolding lines_from
lines_from-newline line c s e = rw e

pub lines_from-other :
    (line : Str) (c : ℕ) (s : Str)
    → c == 10 ≡ false
    → lines_from line (c ∷ s) ≡ lines_from (line ++ c ∷ []) s
unfolding lines_from
lines_from-other line c s e = rw e

-- One byte more is read.
pub read_more :
    (p s source : Str) (c i : ℕ)
    → source ≡ p ++ c ∷ s
    → length p ≡ i
    → (source ≡ (p ++ c ∷ []) ++ s) × (length (p ++ c ∷ []) ≡ i + 1)
read_more p s source c i e h =
    (e ∙ sym (append_assoc p (c ∷ []) s), omega (arith, length-append p (c ∷ [])))

pub get_or-middle : (p : Str) (c : ℕ) (s : Str) → get_or (p ++ c ∷ s) (length p) 0 ≡ c
get_or-middle [] c s = refl
get_or-middle (x ∷ p) c s = get_or-middle p c s

pub set-append : (p s : Str) (i : ℕ) → i < length p → set (p ++ s) i 0 ≡ set p i 0 ++ s
set-append [] s i h = absurd (omega arith)
set-append (x ∷ p) s zero h = refl
set-append (x ∷ p) s (suc i) h = ap (λ t. x ∷ t) (set-append p s i (omega arith))

-- Only bytes that are read already are cleared.
pub clear_previous-append :
    (i : ℕ) (p s : Str)
    → length p ≡ i
    → (p' : Str) × (length p' ≡ i) × (clear_previous i (p ++ s) ≡ p' ++ s)
unfolding clear_previous
clear_previous-append zero p s h = (p, h, refl)
clear_previous-append (suc i) p s h =
    (set p i 0, length-set p i 0 ∙ h, set-append p s i (omega arith))

abbrev pub HasNoNewline : Str → Type 0
HasNoNewline [] = Unit
HasNoNewline (c ∷ s) = (c ≢ 10) × HasNoNewline s
