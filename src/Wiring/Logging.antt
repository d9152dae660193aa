-- ===== src/Wiring/Logging.antt =====
-- cmd/server/main.go: the attributes of a log line for Cloud Logging.
use overload_party_scenario.Common.{String, ◌==◌, if◌then◌else◌}
use overload_party_scenario.Common.Int.{ℤ, pos, leb_ℤ}

-- The value of an attribute: a level of package slog, a string, or any other value, named by `other`.
pub data AttrValue : Type 0 where
  level : ℤ → AttrValue
  string : String → AttrValue
  other : String → AttrValue

pub record Attr : Type 0 where
  pub key : String
  pub value : AttrValue

-- slog.LevelKey and slog.MessageKey; slog.LevelInfo, slog.LevelWarn and slog.LevelError.
abbrev level_key : String
level_key = "level"

abbrev message_key : String
message_key = "msg"

abbrev pub severity : ℤ → String
severity l =
    if leb_ℤ (pos 8) l
    then "ERROR"
    else if leb_ℤ (pos 4) l
    then "WARNING"
    else if leb_ℤ (pos 0) l
    then "INFO"
    else "DEBUG"

abbrev pub severity_value : AttrValue → AttrValue
severity_value (level l) = string (severity l)
severity_value (string text) = string text
severity_value (other text) = other text

-- The two blocks of ReplaceAttr.
abbrev pub replace_level : Attr → Attr
replace_level a =
    if a.key == level_key then record { key = "severity"; value = severity_value a.value } else a

abbrev pub replace_attr : Attr → Attr
replace_attr a =
    let b = replace_level a in if b.key == message_key then record b { key = "message" } else b
