-- ===== src/Messages/Parse/FileNames.antt =====
-- The file name that `mess__parse` (common/messages.c) cuts out of `load` and `save` by position.
use native.Mathlib.Decide.{dec_lt}
use re203_projet_reseau.Prelude.{
  ℕ, Option, ◌≡◌, ◌+◌, ◌-◌, ◌<◌, ◌≤◌, ◌^◌, some, none, Str, ◌∷◌, ◌++◌, codes, arith, length, ok,
  ◌∙◌, take, drop, take-all, sym, if◌then◌else◌, leb, ap,
}
use re203_projet_reseau.Messages.Types.{MessageType, init_message}
use re203_projet_reseau.Messages.Cases.{str_sub, last_index, parse_file}
use re203_projet_reseau.Messages.Parse.{cases, parse_case}

-- What is kept of a file name: the test in `str_sub` is `start < end`.
abbrev pub file_name : Str → Option Str
file_name name = if leb 2 (length name) then some name else none

str_sub-some :
    (s : Str) (start end : ℕ)
    → start < end
    → end ≤ length s
    → str_sub (some s) start end ≡ some (take (end - start + 1) (drop start s))
unfolding str_sub
str_sub-some s start end h k = ground arith

str_sub-none : (s : Str) (start end : ℕ) → end ≤ start → str_sub (some s) start end ≡ none
unfolding str_sub
str_sub-none s start end h = ground arith

file_name-some : (name : Str) → 2 ≤ length name → file_name name ≡ some name
file_name-some name h = ground arith

file_name-none : (name : Str) → length name < 2 → file_name name ≡ none
file_name-none name h = ground arith

-- A keyword of four bytes and a space stand in front of the name.
str_sub-name :
    (c d e f : ℕ) (name : Str)
    → length (c ∷ d ∷ e ∷ f ∷ b' ' ∷ name) < 2 ^ 32
    → str_sub (some (c ∷ d ∷ e ∷ f ∷ b' ' ∷ name)) 5 (last_index (c ∷ d ∷ e ∷ f ∷ b' ' ∷ name))
      ≡ file_name name
str_sub-name c d e f name h =
    let s : Str = c ∷ d ∷ e ∷ f ∷ b' ' ∷ name in
    let last : last_index s ≡ length name + 4 = omega arith in
    elim (dec_lt (length name) 2) [
      | yes lt ↦
          str_sub-none s 5 (last_index s) (omega (arith, last)) ∙ sym (file_name-none name lt)
      | no ge ↦
          let size : last_index s - 5 + 1 ≡ length name = omega (arith, last) in
          str_sub-some s 5 (last_index s) (omega (arith, last)) (omega (arith, last))
          ∙ ap (λ n. some (take n name)) size
          ∙ ap some (take-all name)
          ∙ sym (file_name-some name (omega arith))
    ]

-- `load` and `save` take what follows the keyword and one space as the file name if it has two
-- bytes at least; a shorter name is dropped, and the parameter stays NULL. (The text is shorter
-- than 4 GiB.)
pub parse_case-file :
    (name : Str)
    → length name + 5 < 2 ^ 32
    → (parse_case (some 0) (codes "load " ++ name)
        ≡ ok (record init_message { type = MessageType.load; s_parameter = file_name name }))
      × (parse_case (some 1) (codes "save " ++ name)
          ≡ ok (record init_message { type = MessageType.save; s_parameter = file_name name }))
unfolding parse_case cases parse_file
parse_case-file name h = (
  ap (λ p. ok (record init_message { type = MessageType.load; s_parameter = p }))
      (str_sub-name b'l' b'o' b'a' b'd' name (omega arith)),
  ap (λ p. ok (record init_message { type = MessageType.save; s_parameter = p }))
      (str_sub-name b's' b'a' b'v' b'e' name (omega arith)),
)
