-- ===== src/Config/Settings.antt =====
-- pkg/config/config.go: what a configuration that `Load` gives has, and `strings.Split` on commas.
use matrix_discord_voice_bri.Base.{
  ℕ, ◌≡◌, refl, ap, sym, ◌∙◌, Bool, true, false, Option, none, some, List, [], ◌∷◌, if◌then◌else◌,
  arith, Bool-cases, inl, inr, ◌⊎◌, ◌++◌, ◌||◌, subst,
}
use matrix_discord_voice_bri.Base.Eq.{Bytes, ◌==◌, nat_eq, bytes_eq}
use matrix_discord_voice_bri.Base.Text.{text}
use matrix_discord_voice_bri.Config.{
  Config, is_nil, tokens, Missing, validate, onto_first, split_comma, env_override, env_list,
  defaults, overlay, File, absent, unreadable, contents, loaded, checked, finish_load, load,
}

-- Every setting that the bridge cannot do without is there.
pub record IsValid (c : Config) : Type 0 where
  pub has_token : is_nil (tokens c.discord) ≡ false
  pub has_guild : is_nil c.discord.guild_id ≡ false
  pub has_url : is_nil c.livekit.url ≡ false
  pub has_key : is_nil c.livekit.api_key ≡ false
  pub has_secret : is_nil c.livekit.api_secret ≡ false
  pub has_homeserver : is_nil c.matrix.homeserver_url ≡ false
  pub has_as_token : is_nil c.matrix.as_token ≡ false
  pub has_server : is_nil c.matrix.server_name ≡ false
  pub has_jwt : is_nil c.matrix.lk_jwt_service ≡ false

validate-IsValid : (c : Config) → validate c ≡ none → IsValid c
unfolding validate
validate-IsValid c h = record {
  has_token = ground arith;
  has_guild = ground arith;
  has_url = ground arith;
  has_key = ground arith;
  has_secret = ground arith;
  has_homeserver = ground arith;
  has_as_token = ground arith;
  has_server = ground arith;
  has_jwt = ground arith;
}

IsValid-validate : (c : Config) → IsValid c → validate c ≡ none
unfolding validate
IsValid-validate c v =
    rw
      (
        v.has_token, v.has_guild, v.has_url, v.has_key, v.has_secret, v.has_homeserver,
        v.has_as_token, v.has_server, v.has_jwt,
      )
      refl

split_comma-some : (s : Bytes) → is_nil (split_comma s) ≡ false
unfolding split_comma
split_comma-some [] = refl
split_comma-some (b ∷ bs) = elim (Bool-cases (b == 44)) [
  | inl comma ↦ rw comma refl
  | inr other ↦ rw other (go (split_comma bs))
]
  where
    go : (fields : List Bytes) → is_nil (onto_first b fields) ≡ false
    go [] = refl
    go (field ∷ fields) = refl

finish_load-loaded :
    (env : Bytes → Bytes) (o : Option Config) (c : Config)
    → finish_load env o ≡ loaded c
    → (d : Config) × (c ≡ overlay env d) × IsValid c
unfolding finish_load
finish_load-loaded env none c h = absurd (ground arith)
finish_load-loaded env (some d) c h = go (validate (overlay env d)) refl h
  where
    go :
        (o : Option Missing)
        → validate (overlay env d) ≡ o
        → checked (overlay env d) o ≡ loaded c
        → (x : Config) × (c ≡ overlay env x) × IsValid c
    go none v e =
        let same : overlay env d ≡ c = unfold checked in ground arith in
        (d, sym same, subst IsValid same (validate-IsValid (overlay env d) v))
    go (some field) v e = absurd (unfold checked in ground arith)

overlay-tokens :
    (env : Bytes → Bytes) (d : Config)
    → is_nil (env (text "DISCORD_BOT_TOKENS")) ≡ false
    → tokens (overlay env d).discord ≡ split_comma (env (text "DISCORD_BOT_TOKENS"))
unfolding overlay tokens env_list
overlay-tokens env d h = rw (h, split_comma-some (env (text "DISCORD_BOT_TOKENS"))) refl

load-finish :
    (unmarshal : Bytes → Config → Option Config) (env : Bytes → Bytes) (file : File) (c : Config)
    → load unmarshal env file ≡ loaded c
    → (d : Config) × (c ≡ overlay env d) × IsValid c
unfolding load
load-finish unmarshal env absent c h = finish_load-loaded env (some defaults) c h
load-finish unmarshal env unreadable c h = absurd (ground arith)
load-finish unmarshal env (contents yaml) c h = finish_load-loaded env (unmarshal yaml defaults) c h

-- A configuration that `Load` gives has every required setting; where DISCORD_BOT_TOKENS is set,
-- the bots' tokens are its fields, whatever the file says.
pub load-IsValid :
    (unmarshal : Bytes → Config → Option Config) (env : Bytes → Bytes) (file : File) (c : Config)
    → load unmarshal env file ≡ loaded c
    → IsValid c
      × (is_nil (env (text "DISCORD_BOT_TOKENS")) ≡ false
          → tokens c.discord ≡ split_comma (env (text "DISCORD_BOT_TOKENS")))
load-IsValid unmarshal env file c h =
    let (d, same, v) = load-finish unmarshal env file c h in
    (v, λ set. ap (λ (x : Config). tokens x.discord) same ∙ overlay-tokens env d set)

-- With no file, `Load` succeeds when DISCORD_BOT_TOKENS and the other required settings are set in
-- the environment.
pub environment_alone :
    (unmarshal : Bytes → Config → Option Config) (env : Bytes → Bytes)
    → is_nil (env (text "DISCORD_BOT_TOKENS")) ≡ false
    → is_nil (env (text "DISCORD_GUILD_ID")) ≡ false
    → is_nil (env (text "LIVEKIT_URL")) ≡ false
    → is_nil (env (text "LIVEKIT_API_KEY")) ≡ false
    → is_nil (env (text "LIVEKIT_API_SECRET")) ≡ false
    → is_nil (env (text "MATRIX_HOMESERVER_URL")) ≡ false
    → is_nil (env (text "MATRIX_AS_TOKEN")) ≡ false
    → is_nil (env (text "MATRIX_SERVER_NAME")) ≡ false
    → is_nil (env (text "LK_JWT_SERVICE_URL")) ≡ false
    → load unmarshal env absent ≡ loaded (overlay env defaults)
unfolding load finish_load checked
environment_alone unmarshal env t g u k x h a n j =
    rw (IsValid-validate (overlay env defaults) valid) refl
  where
    override_set : (old v : Bytes) → is_nil v ≡ false → is_nil (env_override old v) ≡ false
    override_set old v e = unfold env_override in rw (e, e) refl

    valid : IsValid (overlay env defaults)
    valid =
        unfold overlay in
        record {
          has_token =
              ap is_nil (overlay-tokens env defaults t)
              ∙ split_comma-some (env (text "DISCORD_BOT_TOKENS"));
          has_guild = override_set [] (env (text "DISCORD_GUILD_ID")) g;
          has_url = override_set [] (env (text "LIVEKIT_URL")) u;
          has_key = override_set [] (env (text "LIVEKIT_API_KEY")) k;
          has_secret = override_set [] (env (text "LIVEKIT_API_SECRET")) x;
          has_homeserver = override_set [] (env (text "MATRIX_HOMESERVER_URL")) h;
          has_as_token = override_set [] (env (text "MATRIX_AS_TOKEN")) a;
          has_server = override_set [] (env (text "MATRIX_SERVER_NAME")) n;
          has_jwt = override_set [] (env (text "LK_JWT_SERVICE_URL")) j;
        }

-- `strings.Join(fields, ",")`.
unfoldable pub join_comma : List Bytes → Bytes
join_comma [] = []
join_comma (field ∷ []) = field
join_comma (field ∷ other ∷ fields) = field ++ 44 ∷ join_comma (other ∷ fields)

unfoldable pub has_comma : Bytes → Bool
has_comma [] = false
has_comma (b ∷ bs) = (b == 44) || has_comma bs

join-empty_field :
    (fields : List Bytes)
    → is_nil fields ≡ false
    → join_comma ([] ∷ fields) ≡ 44 ∷ join_comma fields
unfolding join_comma
join-empty_field [] h = absurd (ground arith)
join-empty_field (field ∷ fields) h = refl

join-onto_first :
    (b : ℕ) (fields : List Bytes)
    → is_nil fields ≡ false
    → join_comma (onto_first b fields) ≡ b ∷ join_comma fields
unfolding join_comma
join-onto_first b [] h = absurd (ground arith)
join-onto_first b (field ∷ []) h = refl
join-onto_first b (field ∷ other ∷ fields) h = refl

unfoldable pub NoCommas : List Bytes → Type 0
NoCommas [] = Unit
NoCommas (field ∷ fields) = (has_comma field ≡ false) × NoCommas fields

onto_first-NoCommas :
    (b : ℕ) (fields : List Bytes)
    → (b == 44) ≡ false
    → NoCommas fields
    → NoCommas (onto_first b fields)
unfolding NoCommas has_comma
onto_first-NoCommas b [] n h = (ground arith, tt)
onto_first-NoCommas b (field ∷ fields) n h = (ground (arith, n, h.0), h.1)

-- Joining the fields of a list with commas gives the list back, and no field has a comma.
pub split_comma_round_trip :
    (s : Bytes) → (join_comma (split_comma s) ≡ s) × NoCommas (split_comma s)
unfolding split_comma
split_comma_round_trip [] = unfold join_comma NoCommas has_comma in (refl, (refl, tt))
split_comma_round_trip (b ∷ bs) = go (split_comma_round_trip bs) (Bool-cases (b == 44))
  where
    go :
        (join_comma (split_comma bs) ≡ bs) × NoCommas (split_comma bs)
        → ((b == 44) ≡ true) ⊎ ((b == 44) ≡ false)
        → let fields = if b == 44 then [] ∷ split_comma bs else onto_first b (split_comma bs) in
          (join_comma fields ≡ b ∷ bs) × NoCommas fields
    go (back, clean) (inl comma) = rw comma (
      join-empty_field (split_comma bs) (split_comma-some bs) ∙ ground (arith, back, comma),
      unfold NoCommas has_comma in (refl, clean),
    )
    go (back, clean) (inr other) = rw other (
      join-onto_first b (split_comma bs) (split_comma-some bs) ∙ ap (◌∷◌ b) back,
      onto_first-NoCommas b (split_comma bs) other clean,
    )
