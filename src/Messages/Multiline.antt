-- ===== src/Messages/Multiline.antt =====
-- common/messages.c: `mess__multiline_parse`.
pub mod Lines
pub mod Loop
pub mod Split
use re203_projet_reseau.Prelude.{
  ℕ, zero, suc, ◌+◌, ◌-◌, Bool, true, false, List, [], ◌∷◌, ◌++◌, Option, none, some, Str, Pointer,
  length, get_or, set, leb, ltb, ◌==◌, if◌then◌else◌, Outcome, ok, fault, ◌>>=◌,
}
use re203_projet_reseau.Messages.Escape.{treat_input}
use re203_projet_reseau.Messages.Types.{Message}
use re203_projet_reseau.Messages.Parse.{parse}

-- `MESSAGE__MAX_MESSAGES`
abbrev pub max_messages : ℕ
max_messages = 50

-- The locals of the loop: `mess_src`, which the loop writes to, the first `count` bytes of
-- `mess_unescp`, and the messages so far.
pub record Reading : Type 0 where
  pub source : Str
  pub line : Str
  pub messages : List (Option Message)

-- `mess_src[i - 1] =! '\\' && …` is an assignment: it stores the value of the conjunction, 0, and is
-- false.
unfoldable pub clear_previous : ℕ → Str → Str
clear_previous zero source = source
clear_previous (suc i) source = set source i 0

module _ (trex_match : Str → Str → Bool) where
  -- `mess__parse (mess__treatInput (mess_unescp))`
  unfoldable pub parse_line : Str → Outcome (Option Message)
  parse_line line = do text ← treat_input (some line); parse trex_match text

  -- The end of a line. The flag says that the limit is reached, where the loop breaks.
  unfoldable pub add_line : Reading → Outcome (Reading × Bool)
  add_line r =
      if leb max_messages (length r.messages + 1) then ok (record r { line = [] }, true) else do
        m ← parse_line r.line
        ok (record r { line = []; messages = r.messages ++ m ∷ [] }, false)

  -- The loop from index `i`, with so many bytes to go.
  unfoldable pub read_from : ℕ → ℕ → Reading → Outcome Reading
  read_from zero i r = ok r
  read_from (suc k) i r =
      let c = get_or r.source i 0 in
      let longer = record r { line = r.line ++ c ∷ [] } in
      let newline =
        add_line longer >>= λ t. elim t.1 [ true ↦ ok t.0 | false ↦ read_from k (i + 1) t.0 ] in
      let other = read_from k (i + 1) (record longer { source = clear_previous i r.source }) in
      if c == 10 then newline else other

  -- `if (count > 0)` behind the loop
  unfoldable pub add_rest : Reading → Outcome Reading
  add_rest r = if ltb 0 (length r.line) then add_line r >>= (λ t. ok t.0) else ok r

  unfoldable pub multiline_text : Str → Outcome Reading
  multiline_text s =
      read_from (length s) 0 (record { source = s; line = []; messages = [] }) >>= add_rest

  -- `mess__multiline_parse`: the messages, and what is left in the caller's buffer.
  unfoldable pub multiline_parse : Pointer → Outcome (Option (List (Option Message)) × Pointer)
  multiline_parse none = ok (none, none)
  multiline_parse (some s) = do r ← multiline_text s; ok (some r.messages, some r.source)
