-- ===== src/Payload/Safety.antt =====
-- The handlers of pkg/bridge/manager.go never slice out of range on what `ReadMessage` returns.
use matrix_discord_voice_bri.Base.{◌≡◌, ◌≢◌, none, All}
use matrix_discord_voice_bri.Base.Eq.{Bytes}
use matrix_discord_voice_bri.Ipc.LittleEndian.{IsByte}
use matrix_discord_voice_bri.Ipc.Frame.{Message, received, read_message}
use matrix_discord_voice_bri.Ipc.Inverse.{received-payload}
use matrix_discord_voice_bri.Payload.VoiceState.{
  parse_voice_state, parse_channel_list, parse_voice_state_total, parse_channel_list_total,
}
use matrix_discord_voice_bri.Payload.UserInfo.{parse_user_info, parse_user_info_total}

-- Whatever bytes a sidecar sends, no message that `ReadMessage` returns makes the parsers of
-- VOICE_STATE, CHANNEL_LIST or USER_INFO panic.
pub no_parser_panics :
    (s rest : Bytes) (m : Message)
    → All IsByte s
    → read_message s ≡ received m rest
    → (parse_voice_state m.payload ≢ none)
      × (parse_channel_list m.payload ≢ none)
      × (parse_user_info m.payload ≢ none)
no_parser_panics s rest m bytes e =
    let small = received-payload s m rest bytes e in
    (
      parse_voice_state_total m.payload small,
      parse_channel_list_total m.payload small,
      parse_user_info_total m.payload small,
    )
