-- ===== src/Env.antt =====
-- The environment of a k6 process (`__ENV`) and the reading of a setting with a default, as every
-- script of engines/k6 does it: `__ENV.NAME || 'default'`.
use p_loadtesting.Prelude.{String, Option, none, some, str_eq, if◌then◌else◌}

-- `none` is `undefined`.
abbrev pub Env : Type 0
Env = String → Option String

abbrev pub or_text : Option String → String → String
or_text none fallback = fallback
or_text (some s) fallback = if str_eq s "" then fallback else s

-- `__ENV.NAME || fallback`
abbrev pub setting : Env → String → String → String
setting env name fallback = or_text (env name) fallback

-- The environment with one variable set anew, or removed.
abbrev pub override : Env → String → Option String → Env
override env name v key = if str_eq name key then v else env key
