-- ===== src/Messages/Parse/MissingNumber.antt =====
-- `mess__parse` (common/messages.c) of texts that end where a number should stand. The patterns of
-- the table allow that, since `\d*` matches no digit at all.
use re203_projet_reseau.Messages.Types.{MessageType}
use re203_projet_reseau.Messages.Wire.{unwords, addresses}
use re203_projet_reseau.Messages.Regexes.First.{first_from-hit, first_from-skip}
use re203_projet_reseau.Messages.Regexes.{regex_strtable, first_match, IsPrefixSound}
use re203_projet_reseau.Messages.Reader.Steps.{next-word, copy-word, int-word, int-missing}
use re203_projet_reseau.Messages.Reader.{run, Reader}
use re203_projet_reseau.Messages.Cases.{
  parse_login, parse_login_as, parse_weighted_link, parse_probe,
}
use re203_projet_reseau.Messages.Parse.{parse, parse_text, parse_case, cases}
use re203_projet_reseau.Libc.Tokens.{IsWord}
use re203_projet_reseau.Libc.Decimal.{IsInt}
use re203_projet_reseau.Prelude.{
  Bool, ℕ, ◌≡◌, refl, some, true, Str, ℤ, [], ◌∷◌, List, codes, fault, null_pointer, get_or, arith,
  ◌∙◌, Fault,
}

-- A message whose last word, a number, is missing.
pub data Unfinished : Type 0 where
  addlink updatelink : Str → Str → Unfinished
  login_as : Str → Unfinished
  login : Unfinished
  ping pong : ℤ → Str → Str → Unfinished

-- The words in front of the number, and an empty one.
abbrev pub begun : Unfinished → List Str
begun (Unfinished.addlink a b) = codes "add" ∷ codes "link" ∷ a ∷ b ∷ [] ∷ []
begun (Unfinished.updatelink a b) = codes "update" ∷ codes "link" ∷ a ∷ b ∷ [] ∷ []
begun (Unfinished.login_as id) = codes "log" ∷ codes "in" ∷ codes "as" ∷ id ∷ codes "port" ∷ [] ∷ []
begun Unfinished.login = codes "log" ∷ codes "in" ∷ codes "port" ∷ [] ∷ []
begun (Unfinished.ping q a b) = codes "ping" ∷ addresses q a b (codes "ttl" ∷ [] ∷ [])
begun (Unfinished.pong q a b) = codes "pong" ∷ addresses q a b (codes "ttl" ∷ [] ∷ [])

abbrev pub case_begun : Unfinished → ℕ
case_begun (Unfinished.addlink a b) = 3
case_begun (Unfinished.updatelink a b) = 4
case_begun (Unfinished.login_as id) = 10
case_begun Unfinished.login = 11
case_begun (Unfinished.ping q a b) = 25
case_begun (Unfinished.pong q a b) = 26

abbrev pub HasWords : Unfinished → Type 0
HasWords (Unfinished.addlink a b) = IsWord a × IsWord b
HasWords (Unfinished.updatelink a b) = IsWord a × IsWord b
HasWords (Unfinished.login_as id) = IsWord id
HasWords Unfinished.login = Unit
HasWords (Unfinished.ping q a b) = IsInt q × IsWord a × IsWord b
HasWords (Unfinished.pong q a b) = IsInt q × IsWord a × IsWord b

run-fault : {A : Type 0} (m : Reader A) (s : Str) {e : Fault} → m s ≡ fault e → run m s ≡ fault e
unfolding run
run-fault m s e = rw (e, run)

link-fault :
    (t : MessageType) (u a b : Str)
    → IsWord u
    → IsWord a
    → IsWord b
    → parse_weighted_link t (unwords (u ∷ codes "link" ∷ a ∷ b ∷ [] ∷ [])) ≡ fault null_pointer
unfolding parse_weighted_link
link-fault t u a b hu ha hb = run-fault _ _ (
    next-word _ u _ hu
    ∙ next-word _ (codes "link") _ (omega arith)
    ∙ copy-word _ a _ ha
    ∙ copy-word _ b _ hb
    ∙ int-missing _)

login_as-fault :
    (id : Str)
    → IsWord id
    → parse_login_as (unwords (begun (Unfinished.login_as id))) ≡ fault null_pointer
unfolding parse_login_as
login_as-fault id h = run-fault _ _ (
    next-word _ (codes "log") _ (omega arith)
    ∙ next-word _ (codes "in") _ (omega arith)
    ∙ next-word _ (codes "as") _ (omega arith)
    ∙ copy-word _ id _ h
    ∙ next-word _ (codes "port") _ (omega arith)
    ∙ int-missing _)

login-fault : parse_login (unwords (begun Unfinished.login)) ≡ fault null_pointer
unfolding parse_login
login-fault = run-fault _ _ (
    next-word _ (codes "log") _ (omega arith)
    ∙ next-word _ (codes "in") _ (omega arith)
    ∙ next-word _ (codes "port") _ (omega arith)
    ∙ int-missing _)

probe-fault :
    (t : MessageType) (w : Str) (q : ℤ) (a b : Str)
    → IsWord w
    → IsInt q
    → IsWord a
    → IsWord b
    → parse_probe t (unwords (w ∷ addresses q a b (codes "ttl" ∷ [] ∷ []))) ≡ fault null_pointer
unfolding parse_probe
probe-fault t w q a b hw hq ha hb = run-fault _ _ (
    next-word _ w _ hw
    ∙ next-word _ (codes "seqnum") _ (omega arith)
    ∙ int-word _ q _ hq
    ∙ next-word _ (codes "src") _ (omega arith)
    ∙ copy-word _ a _ ha
    ∙ next-word _ (codes "dst") _ (omega arith)
    ∙ copy-word _ b _ hb
    ∙ next-word _ (codes "ttl") _ (omega arith)
    ∙ int-missing _)

parse_case-begun :
    (u : Unfinished)
    → HasWords u
    → parse_case (some (case_begun u)) (unwords (begun u)) ≡ fault null_pointer
unfolding parse_case cases
parse_case-begun (Unfinished.addlink a b) h =
    link-fault MessageType.addlink (codes "add") a b (omega arith) h.0 h.1
parse_case-begun (Unfinished.updatelink a b) h =
    link-fault MessageType.updatelink (codes "update") a b (omega arith) h.0 h.1
parse_case-begun (Unfinished.login_as id) h = login_as-fault id h
parse_case-begun Unfinished.login h = login-fault
parse_case-begun (Unfinished.ping q a b) h =
    probe-fault MessageType.ping (codes "ping") q a b (omega arith) h.0 h.1 h.2
parse_case-begun (Unfinished.pong q a b) h =
    probe-fault MessageType.pong (codes "pong") q a b (omega arith) h.0 h.1 h.2

module _ (trex_match : Str → Str → Bool) (sound : IsPrefixSound trex_match) where
  first_match-begun :
      (u : Unfinished)
      → trex_match (get_or regex_strtable (case_begun u) []) (unwords (begun u)) ≡ true
      → first_match trex_match 0 regex_strtable (unwords (begun u)) ≡ some (case_begun u)
  first_match-begun (Unfinished.addlink a b) k =
      let s = unwords (begun (Unfinished.addlink a b)) in
      first_from-skip trex_match sound 3 0 3 s refl (omega arith) refl
      ∙ first_from-hit trex_match sound 3 s (omega arith) k
  first_match-begun u k =
      let s = unwords (begun u) in
      first_from-skip trex_match sound (case_begun u) 0 (case_begun u) s (omega arith) (omega arith)
        refl
      ∙ first_from-hit trex_match sound (case_begun u) s (omega arith) k

  parse_text-begun :
      (u : Unfinished)
      → HasWords u
      → trex_match (get_or regex_strtable (case_begun u) []) (unwords (begun u)) ≡ true
      → parse_text trex_match (unwords (begun u)) ≡ fault null_pointer
  unfolding parse_text
  parse_text-begun u h k = rw (first_match-begun u k) (parse_case-begun u h)

  -- A message that ends in a space where its port, weight or time to live should stand makes
  -- `mess__parse` hand NULL to `atoi`: `add link`, `update link`, both forms of `log in`, `ping` and
  -- `pong`, if the names in front are words and the matcher matches the text to the message's own
  -- pattern, as `\d*` allows.
  pub parse-missing_number :
      (u : Unfinished)
      → HasWords u
      → trex_match (get_or regex_strtable (case_begun u) []) (unwords (begun u)) ≡ true
      → parse trex_match (some (unwords (begun u))) ≡ fault null_pointer
  unfolding parse
  parse-missing_number u h k = rw (parse_text-begun u h k, parse)
