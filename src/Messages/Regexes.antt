-- ===== src/Messages/Regexes.antt =====
-- common/messages.c: the table of regular expressions, and the loop of `mess__parse` that looks for
-- the first one that matches. The matcher itself is a copy of the T-Rex library (trex/), and is a
-- parameter: `trex_match pattern text`.
pub mod First
use re203_projet_reseau.Prelude.{
  ℕ, suc, ◌+◌, Bool, true, ◌≡◌, List, [], ◌∷◌, Option, none, some, Str, codes, if◌then◌else◌, ◌==◌,
  starts_with, get_or, ◌||◌,
}

abbrev pub regex_strtable : List Str
regex_strtable =
    codes "load .*"
    ∷ codes "save .*"
    ∷ codes "show topology"
    ∷ codes "add link \\w* \\w* \\d*"
    ∷ codes "update link \\w* \\w* \\d*"
    ∷ codes "del link \\w* \\w*"
    ∷ codes "disconnect \\w*"
    ∷ codes "message \\w* \".*\""
    ∷ codes "route \\w*"
    ∷ codes "routetable"
    ∷ codes "log in as \\w* port \\d*"
    ∷ codes "log in port \\d*"
    ∷ codes "log out"
    ∷ codes "greeting \\w*"
    ∷ codes "bye"
    ∷ codes "poll"
    ∷ codes "neighborhood newlist \\[.*\\]"
    ∷ codes "neighborhood ok"
    ∷ codes "link id \\w*"
    ∷ codes "link ok"
    ∷ codes "vector \\[.*\\]"
    ∷ codes "vector ok"
    ∷ codes "packet seqnum \\d* src \\w* dst \\w* ttl \\d* data .*"
    ∷ codes "packet seqnum \\d* src \\w* dst \\w* ok"
    ∷ codes "packet seqnum \\d* src \\w* dst \\w* toofar"
    ∷ codes "ping seqnum \\d* src \\w* dst \\w* ttl \\d*"
    ∷ codes "pong seqnum \\d* src \\w* dst \\w* ttl \\d*"
    ∷ codes "pong seqnum \\d* src \\w* dst \\w* ttlzero"
    ∷ codes "ping \\w*"
    ∷ codes "quit"
    ∷ codes "neighborhood newlist \\[\\]"
    ∷ codes "vector \\[\\]"
    ∷ codes "debug"
    ∷ []

-- The loop over the table, at index `i`: the index at which it breaks, none for `i = -1`.
unfoldable pub first_match : (Str → Str → Bool) → ℕ → List Str → Str → Option ℕ
first_match trex_match i [] s = none
first_match trex_match i (p ∷ ps) s =
    let rest = first_match trex_match (i + 1) ps s in if trex_match p s then some i else rest

-- The bytes that a pattern of the table begins with, up to its first class or closure. A backslash
-- before a bracket quotes it.
abbrev pub literal_prefix : Str → Str
literal_prefix [] = []
literal_prefix (c ∷ []) = if c == b'.' || c == b'\\' then [] else c ∷ []
literal_prefix (c ∷ d ∷ p) =
    let quoted = d ∷ literal_prefix p in
    let plain = c ∷ literal_prefix (d ∷ p) in
    if c == b'.' then [] else if c == b'\\' then if d == b'[' then quoted else [] else plain

-- What the matcher promises: a text that matches a pattern begins with the pattern's literal bytes.
abbrev pub IsPrefixSound : (Str → Str → Bool) → Type 0
IsPrefixSound trex_match =
    (i : ℕ) (s : Str)
    → trex_match (get_or regex_strtable i []) s ≡ true
    → starts_with (literal_prefix (get_or regex_strtable i [])) s ≡ true
