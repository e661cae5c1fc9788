-- ===== src/Logger.antt =====
-- internal/infrastructure/logger/logger.go: the level and the handler of the logger.
--
-- Parameter: the environment variable ENV. The letters that `to_lower` lowers are those of ASCII; no
-- other letter matters to the names of the levels.
use dns_flow.Prelude.{ℕ, ◌+◌, Text, codes, text_eq, Bool, not, ◌&&◌, map, leb, if◌then◌else◌}
use dns_flow.Prelude.Int.{ℤ, pos, negsuc, ltb_ℤ}

pub data Level : Type 0 where
  debug info warn error : Level

-- The number of a level of `slog`.
abbrev pub number : Level → ℤ
number debug = negsuc 3
number info = pos 0
number warn = pos 4
number error = pos 8

pub data Handler : Type 0 where
  json plain : Handler

pub record Logger : Type 0 where
  pub handler : Handler
  pub level : Level

abbrev pub lower_byte : ℕ → ℕ
lower_byte c = if leb b'A' c && leb c b'Z' then c + 32 else c

unfoldable pub to_lower : Text → Text
to_lower s = map lower_byte s

unfoldable pub parse_level : Text → Level
parse_level level =
    if text_eq level (codes "debug")
    then debug
    else if text_eq level (codes "info")
    then info
    else if text_eq level (codes "warn")
    then warn
    else if text_eq level (codes "error")
    then error
    else info

unfoldable pub init : (env : Text) → (level : Text) → Logger
unfolding parse_level to_lower
init env level = record {
  handler = if text_eq env (codes "production") then json else plain;
  level = parse_level (to_lower level);
}

-- Whether the logger prints a record of a level.
unfoldable pub enabled : Logger → Level → Bool
enabled logger level = not (ltb_ℤ (number level) (number logger.level))
