-- ===== src/Base/Env.antt =====
-- The environment of a process, as `os.environ` gives it.
use mathlib.Core.Bool.{Bool}
use mathlib.Core.List.{[]}
use mathlib.Core.Option.{none, some}
use linux_iso_seeder.Base.Text.{Text, same}
use linux_iso_seeder.Base.Dict
use linux_iso_seeder.Base.Dict.{Dict}

abbrev pub Environment : Type 0
Environment = Dict Text

-- `env.get(name, "")`
abbrev pub env_text : Environment → Text → Text
env_text env name = elim (Dict.get env name) [ none ↦ [] | some v ↦ v ]

abbrev pub is_empty : Text → Bool
is_empty s = same s []
