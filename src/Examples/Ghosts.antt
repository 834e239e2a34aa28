-- ===== src/Examples/Ghosts.antt =====
-- pkg/matrix/signalling.go and pkg/config/config.go at concrete users and settings.
use matrix_discord_voice_bri.Base.{ℕ, suc, zero, ◌≡◌, refl, true, false, [], ◌∷◌, Option, none}
use matrix_discord_voice_bri.Base.Eq.{Bytes, nat_eq, bytes_eq}
use matrix_discord_voice_bri.Base.Assoc.{lookup}
use matrix_discord_voice_bri.Base.Text.{text}
use matrix_discord_voice_bri.Matrix.Signaller.{
  Signaller, Answer, accepted, failed, CallEnv, no_membership, done, send_state_retry, retry,
  join_call, joined_call, join_event, leave_call,
}
use matrix_discord_voice_bri.Matrix.Presence.{leave_undoes_join}
use matrix_discord_voice_bri.Config.{Config, tokens, is_nil, defaults, overlay, split_comma, absent}
use matrix_discord_voice_bri.Config.Settings.{IsValid, load-IsValid, environment_alone}

abbrev signaller : Signaller
signaller = record {
  server_name = text "example.org";
  lk_jwt_service = text "https://jwt.example.org";
  active = [];
  profile_checked = [];
}

-- The homeserver fails once.
abbrev second_try : ℕ → Answer
second_try zero = failed
second_try (suc zero) = failed
second_try (suc (suc n)) = accepted

abbrev call_env : CallEnv
call_env = record {
  in_room = true;
  now = 1700000000000;
  answers = second_try;
  alias = λ room. room;
}

joins : (join_call call_env 42 (text "!seven") signaller).2 ≡ done
unfolding join_call joined_call send_state_retry retry
joins = refl

leave_undoes_join_example :
    ((join_call call_env 42 (text "!seven") signaller).1
      ≡ join_event call_env signaller 42 (text "!seven") ∷ [])
    × ((leave_call (λ n. failed) 42 (join_call call_env 42 (text "!seven") signaller).0).1
        ≡ record (join_event call_env signaller 42 (text "!seven")) { content = no_membership }
          ∷ [])
    × (lookup 42
          (leave_call (λ n. failed) 42 (join_call call_env 42 (text "!seven") signaller).0).0.active
        ≡ none)
leave_undoes_join_example =
    leave_undoes_join call_env 42 (text "!seven") signaller (λ n. failed) joins

-- An environment in which every variable is set.
abbrev environment : Bytes → Bytes
environment key = text "a,b"

abbrev parse_nothing : Bytes → Config → Option Config
parse_nothing yaml c = none

load-IsValid_example :
    IsValid (overlay environment defaults)
    × (is_nil (environment (text "DISCORD_BOT_TOKENS")) ≡ false
        → tokens (overlay environment defaults).discord
          ≡ split_comma (environment (text "DISCORD_BOT_TOKENS")))
load-IsValid_example =
    load-IsValid parse_nothing environment absent (overlay environment defaults)
      (environment_alone parse_nothing environment refl refl refl refl refl refl refl refl refl)
