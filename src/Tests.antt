-- ===== src/Tests.antt =====
-- Runs of the definitions on concrete inputs, and the theorems applied to such inputs.
mod Config
mod Messages
mod Net
mod Controller
mod Turn
mod Main
mod Table
mod Router
mod Start
mod Polled
use re203_projet_reseau.Prelude.{Str, Bool, starts_with}
use re203_projet_reseau.Messages.Regexes.{literal_prefix}

-- A matcher that only looks at the bytes a pattern begins with.
abbrev pub prefix_matcher : Str → Str → Bool
prefix_matcher pattern s = starts_with (literal_prefix pattern) s
