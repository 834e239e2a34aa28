-- ===== src/Process/Started.antt =====
-- pkg/ipc/protocol.go and sidecar/index.mjs: a sidecar reads what the bridge started it with.
use mathlib.Core.Path.{fun_ext}
use matrix_discord_voice_bri.Base.{
  ℕ, ◌≡◌, ◌≢◌, refl, sym, ap, ◌∙◌, Bool, true, false, ◌||◌, Option, none, some, [], ◌∷◌, ◌++◌,
  arith, if◌then◌else◌, append_assoc, append-nil, Bool-cases, inl, inr,
}
use matrix_discord_voice_bri.Base.Eq.{Bytes, ◌==◌, bytes_eq, bytes_beq_iff}
use matrix_discord_voice_bri.Base.Text.{text, decimal}
use matrix_discord_voice_bri.Bridge.Digits.{decimal_from-cons}
use matrix_discord_voice_bri.Ipc.Sidecar.{
  Environment, Settings, sidecar_variables, sidecar_env, or_else, is_true, read_settings,
  settings_from,
}

-- A process finds in its environment the last value of a variable.
pub record LastValue (variable : Bytes → Environment → Option Bytes) : Type 0 where
  pub found :
      (name value : Bytes) (env : Environment)
      → variable name (env ++ (name, value) ∷ []) ≡ some value
  pub other :
      (name key value : Bytes) (env : Environment)
      → key ≢ name
      → variable name (env ++ (key, value) ∷ []) ≡ variable name env

abbrev or_own : Option Bytes → Option Bytes → Option Bytes
or_own none o = o
or_own (some v) o = some v

abbrev pub last_of : Bytes → Environment → Option Bytes
last_of name [] = none
last_of name ((key, value) ∷ env) =
    or_own (last_of name env) (if key == name then some value else none)

or_else_given : (v d : Bytes) → v ≢ [] → or_else (some v) d ≡ v
or_else_given v d given = ground (arith, bytes_beq_iff v [])

decimal-nonempty : (n : ℕ) → decimal n ≢ []
unfolding decimal
decimal-nonempty n e =
    let (c, cs, same) = decimal_from-cons 19 n [] in absurd (ground (arith, same, e))

-- What a sidecar reads when the bridge starts it as a slot's sidecar from its own environment.
abbrev pub settings_for : Option Bytes → Bytes → Bytes → Bytes → Bytes → Bool → ℕ → Settings
settings_for inherited path token guild level primary slot = record {
  socket_path = path;
  token = token;
  guild_id = guild;
  log_level = if level == [] then text "info" else level;
  slot = decimal slot;
  primary = primary || is_true inherited;
}

or_else_token : (v : Bytes) → v ≢ [] → (or_else (some v) [] == []) ≡ false
or_else_token v given = ground (arith, bytes_beq_iff v [])

-- The reading itself, for the values of the six variables.
read_given :
    (path token guild level : Bytes) (slot : ℕ) (marked : Option Bytes)
    → token ≢ []
    → guild ≢ []
    → path ≢ []
    → settings_from (some path) (some token) (some guild) (some level) (some (decimal slot)) marked
      ≡ some (record {
        socket_path = path;
        token = token;
        guild_id = guild;
        log_level = if level == [] then text "info" else level;
        slot = decimal slot;
        primary = is_true marked;
      })
unfolding settings_from
read_given path token guild level slot marked has_token has_guild has_path =
    rw
      (
        or_else_token token has_token,
        or_else_token guild has_guild,
        or_else_given path (text "/tmp/discord-voice-bridge.sock") has_path,
        or_else_given token [] has_token,
        or_else_given guild [] has_guild,
        or_else_given (decimal slot) (text "0") (decimal-nonempty slot),
      )
      refl

module _ (variable : Bytes → Environment → Option Bytes) (last : LastValue variable) where
  variable-append :
      (name : Bytes) (vs own : Environment)
      → variable name (own ++ vs) ≡ or_own (last_of name vs) (variable name own)
  variable-append name [] own = rw (append-nil own) refl
  variable-append name ((key, value) ∷ vs) own =
      rw
        (
          sym (append_assoc own ((key, value) ∷ []) vs),
          variable-append name vs (own ++ (key, value) ∷ []),
        )
        (one (last_of name vs))
    where
      one :
          (o : Option Bytes)
          → or_own o (variable name (own ++ (key, value) ∷ []))
            ≡ or_own (or_own o (if key == name then some value else none)) (variable name own)
      one (some v) = refl
      one none = elim (Bool-cases (key == name)) [
        | inl this ↦
            let same : key ≡ name = (bytes_beq_iff key name).0 this in
            rw (this, same) (last.found name value own)
        | inr another ↦ rw another (
            last.other name key value own (λ e. ground (arith, bytes_beq_iff key name, e, another)))
      ]

  -- A sidecar started with a token, a guild and a socket path reads exactly what `StartSidecar` was
  -- called with, whatever the bridge's own environment holds, but for two settings: an empty log level
  -- is read as "info", and a sidecar that is not to be the primary one is so all the same if the bridge
  -- itself runs with SIDECAR_PRIMARY=true.
  pub sidecar_env-read_settings :
      (own : Environment) (path token guild level : Bytes) (primary : Bool) (slot : ℕ)
      → token ≢ []
      → guild ≢ []
      → path ≢ []
      → read_settings (λ name. variable name (sidecar_env own path token guild level primary slot))
        ≡ some (
            settings_for
              (variable (text "SIDECAR_PRIMARY") own)
              path
              token
              guild
              level
              primary
              slot)
  unfolding read_settings sidecar_env sidecar_variables
  sidecar_env-read_settings own path token guild level primary slot has_token has_guild has_path =
      ap read_settings (
        fun_ext (λ name.
          variable-append name (sidecar_variables path token guild level primary slot) own))
      ∙ given primary
    where
      given :
          (p : Bool)
          → read_settings (λ name.
            or_own
              (last_of name (sidecar_variables path token guild level p slot))
              (variable name own))
            ≡ some
                (settings_for (variable (text "SIDECAR_PRIMARY") own) path token guild level p slot)
      given true =
          read_given path token guild level slot (some (text "true")) has_token has_guild has_path
      given false =
          read_given path token guild level slot (variable (text "SIDECAR_PRIMARY") own) has_token
            has_guild has_path

-- The last value in the list is one way to find a variable.
pub last_of-LastValue : LastValue last_of
last_of-LastValue = record { found = found; other = other }
  where
    found :
        (name value : Bytes) (env : Environment)
        → last_of name (env ++ (name, value) ∷ []) ≡ some value
    found name value [] = ground (arith, bytes_beq_iff name name)
    found name value ((k, v) ∷ env) = rw (found name value env) refl

    other :
        (name key value : Bytes) (env : Environment)
        → key ≢ name
        → last_of name (env ++ (key, value) ∷ []) ≡ last_of name env
    other name key value [] ne = ground (arith, bytes_beq_iff key name)
    other name key value ((k, v) ∷ env) ne = rw (other name key value env ne) refl
