-- ===== src/Config.antt =====
-- pkg/config/config.go: the configuration, from a YAML file and the environment, and its check.
pub mod Settings
use matrix_discord_voice_bri.Base.{
  ℕ, ◌≡◌, ◌≢◌, ◌↔◌, refl, ap, sym, ◌∙◌, Bool, true, false, not, Option, none, some, List, [], ◌∷◌,
  if◌then◌else◌, arith, Bool-cases, inl, inr, ◌++◌,
}
use matrix_discord_voice_bri.Base.Eq.{Bytes, ◌==◌, nat_eq, bytes_eq, bytes_beq_iff}
use matrix_discord_voice_bri.Base.Text.{text}

pub record Discord : Type 0 where
  pub bot_token : Bytes
  pub bot_tokens : List Bytes
  pub guild_id : Bytes

abbrev pub is_nil {ℓ} : {A : Type ℓ} → List A → Bool
is_nil [] = true
is_nil (x ∷ xs) = false

-- `Tokens`; the nil slice of the source is the empty list.
unfoldable pub tokens : Discord → List Bytes
tokens d =
    if not (is_nil d.bot_tokens)
    then d.bot_tokens
    else if not (is_nil d.bot_token)
    then d.bot_token ∷ []
    else []

pub record LiveKit : Type 0 where
  pub url : Bytes
  pub api_key : Bytes
  pub api_secret : Bytes

pub record Matrix : Type 0 where
  pub homeserver_url : Bytes
  pub as_token : Bytes
  pub server_name : Bytes
  pub lk_jwt_service : Bytes
  pub admin_users : List Bytes

pub record Sidecar : Type 0 where
  pub dir : Bytes
  pub socket_path : Bytes

pub record Config : Type 0 where
  pub discord : Discord
  pub livekit : LiveKit
  pub matrix : Matrix
  pub sidecar : Sidecar
  pub log_level : Bytes
  pub database : Bytes

-- Which setting `Validate` misses.
pub data Missing : Type 0 where
  bot_token guild_id livekit_url api_key api_secret homeserver_url as_token : Missing
  server_name lk_jwt_service : Missing

-- `Validate`; `none` is the nil error.
unfoldable pub validate : Config → Option Missing
validate c =
    if is_nil (tokens c.discord)
    then some bot_token
    else if is_nil c.discord.guild_id
    then some guild_id
    else if is_nil c.livekit.url
    then some livekit_url
    else if is_nil c.livekit.api_key
    then some api_key
    else if is_nil c.livekit.api_secret
    then some api_secret
    else if is_nil c.matrix.homeserver_url
    then some homeserver_url
    else if is_nil c.matrix.as_token
    then some as_token
    else if is_nil c.matrix.server_name
    then some server_name
    else if is_nil c.matrix.lk_jwt_service
    then some lk_jwt_service
    else none

-- The field of `strings.Split` that a byte opens, before the fields after it.
abbrev pub onto_first : ℕ → List Bytes → List Bytes
onto_first b [] = (b ∷ []) ∷ []
onto_first b (field ∷ fields) = (b ∷ field) ∷ fields

-- `strings.Split(s, ",")`.
unfoldable pub split_comma : Bytes → List Bytes
split_comma [] = [] ∷ []
split_comma (b ∷ bs) = let rest = split_comma bs in if b == 44 then [] ∷ rest else onto_first b rest

-- `envOverride`, as the value that it leaves.
unfoldable pub env_override : Bytes → Bytes → Bytes
env_override old v = if is_nil v then old else v

unfoldable pub env_list : List Bytes → Bytes → List Bytes
env_list old v = if is_nil v then old else split_comma v

-- The defaults of `Load`.
abbrev pub defaults : Config
defaults = record {
  discord = record { bot_token = []; bot_tokens = []; guild_id = [] };
  livekit = record { url = []; api_key = []; api_secret = [] };
  matrix = record {
    homeserver_url = [];
    as_token = [];
    server_name = [];
    lk_jwt_service = [];
    admin_users = [];
  };
  sidecar = record { dir = text "sidecar"; socket_path = text "/tmp/discord-voice-bridge.sock" };
  log_level = [];
  database = text "bridge.db";
}

-- The environment over what the file says; `env` is `os.Getenv`.
unfoldable pub overlay : (Bytes → Bytes) → Config → Config
overlay env c = record {
  discord = record {
    bot_token = env_override c.discord.bot_token (env (text "DISCORD_BOT_TOKEN"));
    bot_tokens = env_list c.discord.bot_tokens (env (text "DISCORD_BOT_TOKENS"));
    guild_id = env_override c.discord.guild_id (env (text "DISCORD_GUILD_ID"));
  };
  livekit = record {
    url = env_override c.livekit.url (env (text "LIVEKIT_URL"));
    api_key = env_override c.livekit.api_key (env (text "LIVEKIT_API_KEY"));
    api_secret = env_override c.livekit.api_secret (env (text "LIVEKIT_API_SECRET"));
  };
  matrix = record {
    homeserver_url = env_override c.matrix.homeserver_url (env (text "MATRIX_HOMESERVER_URL"));
    as_token = env_override c.matrix.as_token (env (text "MATRIX_AS_TOKEN"));
    server_name = env_override c.matrix.server_name (env (text "MATRIX_SERVER_NAME"));
    lk_jwt_service = env_override c.matrix.lk_jwt_service (env (text "LK_JWT_SERVICE_URL"));
    admin_users = env_list c.matrix.admin_users (env (text "MATRIX_ADMIN_USERS"));
  };
  sidecar = record {
    dir = env_override c.sidecar.dir (env (text "SIDECAR_DIR"));
    socket_path = env_override c.sidecar.socket_path (env (text "IPC_SOCKET_PATH"));
  };
  log_level = env_override c.log_level (env (text "BRIDGE_LOG_LEVEL"));
  database = env_override c.database (env (text "BRIDGE_DATABASE"));
}

-- What reading the file gives; a file that does not exist is no error.
pub data File : Type 0 where
  absent unreadable : File
  contents : Bytes → File

pub data Loaded : Type 0 where
  loaded : Config → Loaded
  read_failed parse_failed : Loaded
  invalid : Missing → Loaded

unfoldable pub checked : Config → Option Missing → Loaded
checked c none = loaded c
checked c (some field) = invalid field

unfoldable pub finish_load : (Bytes → Bytes) → Option Config → Loaded
finish_load env none = parse_failed
finish_load env (some c) = checked (overlay env c) (validate (overlay env c))

-- `Load`; `unmarshal` is the YAML library's, and gives no configuration when it fails.
unfoldable pub load : (Bytes → Config → Option Config) → (Bytes → Bytes) → File → Loaded
load unmarshal env absent = finish_load env (some defaults)
load unmarshal env unreadable = read_failed
load unmarshal env (contents yaml) = finish_load env (unmarshal yaml defaults)
