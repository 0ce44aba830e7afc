-- ===== src/Config/Layers.antt =====
-- `Load` of config/config.go: which of the environment, the file and the defaults is heard.
use acat_go_common.Common.{
  ◌≡◌, ◌≢◌, refl, ap, ◌∙◌, String, true, false, Option, none, some, ◌==◌, if◌then◌else◌, Bool-cases,
  Option-cases, inl, inr, arith, eq_iff,
}
use acat_go_common.Common.Int.{ℤ, pos, leb_ℤ, ◌<ℤ◌, ◌≤ℤ◌}
use acat_go_common.Common.Text.Atoi.{atoi}
use acat_go_common.Config.Records.{ServiceConfig}
use acat_go_common.Config.Placeholders.{Expanded, done, failed, out_of_fuel, expand_env}
use acat_go_common.Config.Placeholders.Ends.{expand_env-ends}
use acat_go_common.Config.{default_config, normalize}
use acat_go_common.Config.Environment.{given, or_else, read_by, set_int, apply_env}
use acat_go_common.Config.Load.{
  File, missing, unreadable, contents, Loaded, Surroundings, finish, decoded, load_file, load,
}
use acat_go_common.Config.Normal.{IsUsable, normalized}

-- What `Load` owes: a usable configuration, unless it reports an error.
abbrev pub Usable : Loaded → Type 0
Usable (cfg, none) = IsUsable cfg
Usable (cfg, some e) = Unit

-- A number over zero, or else 8080.
abbrev or_8080 : ℤ → ℤ
or_8080 n = if leb_ℤ n (pos 0) then pos 8080 else n

-- Which port is taken, where the environment's variable and the file's port are these.
pub data Heard (env : Option String) (file : ℤ) : ℤ → Type 0 where
  from_env : (v : String) (n : ℤ) → env ≡ some v → atoi v ≡ some n → pos 0 <ℤ n → Heard env file n
  illegal_in_env :
      (v : String) (n : ℤ) → env ≡ some v → atoi v ≡ some n → n ≤ℤ pos 0 → Heard env file (pos 8080)
  from_file : read_by atoi env ≡ none → pos 0 <ℤ file → Heard env file file
  from_default : read_by atoi env ≡ none → file ≤ℤ pos 0 → Heard env file (pos 8080)

by_file : (env : Option String) (file : ℤ) → read_by atoi env ≡ none → Heard env file (or_8080 file)
by_file env file h = elim (Bool-cases (leb_ℤ file (pos 0))) [
  | inl e ↦ rw e (from_default h (ground (arith, e)))
  | inr e ↦ rw e (from_file h (ground (arith, e)))
]

by_env : (v : String) (file n : ℤ) → atoi v ≡ some n → Heard (some v) file (or_8080 n)
by_env v file n h = elim (Bool-cases (leb_ℤ n (pos 0))) [
  | inl e ↦ rw e (illegal_in_env v n refl h (ground (arith, e)))
  | inr e ↦ rw e (from_env v n refl h (ground (arith, e)))
]

empty_env : read_by atoi (some "") ≡ none
unfolding atoi
empty_env = refl

empty_read : (v : String) → (v == "") ≡ true → read_by atoi (some v) ≡ none
empty_read v e =
    let empty : v ≡ "" = ground (arith, eq_iff v "", e) in
    ap (λ x. read_by atoi (some x)) empty ∙ empty_env

port_heard :
    (env : Option String) (file : ℤ)
    → Heard env file (or_8080 (or_else (read_by atoi (given env)) file))
port_heard none file = by_file none file refl
port_heard (some v) file = elim (Bool-cases (v == "")) [
  | inl e ↦ rw e (by_file (some v) file (empty_read v e))
  | inr e ↦ elim (Option-cases (atoi v)) [
    | inl none_read ↦ rw (e, none_read) (by_file (some v) file none_read)
    | inr (n, read) ↦ rw (e, read) (by_env v file n read)
  ]
]

module _ (w : Surroundings) where
  finish-Usable : (cfg : ServiceConfig) → Usable (finish w cfg)
  unfolding finish
  finish-Usable cfg = normalized (apply_env w.env w.parse_duration cfg)

  decoded-Usable : (path : String) (l : Loaded) → Usable (decoded w path l)
  unfolding decoded
  decoded-Usable path (cfg, none) = finish-Usable cfg
  decoded-Usable path (cfg, some e) = tt

  -- what `load_file` makes of an expanded text
  expanded-Usable :
      (path : String) (e : Expanded)
      → e ≢ out_of_fuel
      → Usable (elim e [
        | done expanded ↦ decoded w path (w.unmarshal expanded default_config)
        | failed e ↦ (default_config, some e)
        | out_of_fuel ↦ (default_config, none)
      ])
  expanded-Usable path (done text) h = decoded-Usable path (w.unmarshal text default_config)
  expanded-Usable path (failed e) h = tt
  expanded-Usable path out_of_fuel h = absurd (h refl)

  load_file-Usable : (path : String) (file : File) → Usable (load_file w path file)
  unfolding load_file
  load_file-Usable path missing = finish-Usable default_config
  load_file-Usable path (unreadable e) = tt
  load_file-Usable path (contents raw) =
      expanded-Usable path (expand_env w.env raw) (expand_env-ends w.env raw)

  -- On every path, and whatever the file and the environment hold, `Load` reports an error or returns
  -- a usable configuration.
  pub load-Usable : (path : String) → Usable (load w path)
  unfolding load
  load-Usable path = elim (Bool-cases (path == "")) [
    | inl e ↦ rw e (finish-Usable default_config)
    | inr e ↦ rw e (load_file-Usable path (w.read_file path))
  ]

  -- the file has been read, expanded and decoded
  load_decoded :
      (path raw text : String) (file : ServiceConfig)
      → (path == "") ≡ false
      → w.read_file path ≡ contents raw
      → expand_env w.env raw ≡ done text
      → w.unmarshal text default_config ≡ (file, none)
      → load w path ≡ finish w file
  unfolding load load_file decoded
  load_decoded path raw text file some_path r e u =
      rw (some_path, r, load_file, e, decoded, u) (ap (λ l. finish w l.0) u)

  -- Where the file is read, expanded and decoded, the port is the one that the environment gives as
  -- a number, or else the file's; one that is not positive is replaced by 8080.
  pub load_port :
      (path raw text : String) (file : ServiceConfig)
      → (path == "") ≡ false
      → w.read_file path ≡ contents raw
      → expand_env w.env raw ≡ done text
      → w.unmarshal text default_config ≡ (file, none)
      → Heard (w.env "ACAT_SERVER_PORT") file.server.port (load w path).0.server.port
  unfolding finish apply_env normalize set_int
  load_port path raw text file some_path r e u =
      let heard = port_heard (w.env "ACAT_SERVER_PORT") file.server.port in
      rw (load_decoded path raw text file some_path r e u) heard
