-- ===== src/Examples/Wire.antt =====
-- pkg/ipc and the payloads of sidecar/index.mjs at concrete messages.
use matrix_discord_voice_bri.Base.{
  ℕ, ◌≡◌, ◌≢◌, ◌≤◌, ◌%◌, ◌^◌, drop, length-append, refl, ◌++◌, ◌∷◌, [], List, some, none, arith,
  All, length, take, zero, suc, ap,
}
use matrix_discord_voice_bri.Base.Eq.{Bytes}
use matrix_discord_voice_bri.Base.Text.{text}
use matrix_discord_voice_bri.Ipc.LittleEndian.{IsByte, le_bytes, le_value}
use matrix_discord_voice_bri.Ipc.Frame.{
  Message, IsMessage, frame, read_message, received, Socket, write_message, written, payload_failed,
  msg_audio_from_discord, msg_matrix_users, header, read_from, read_body, read_full,
}
use matrix_discord_voice_bri.Ipc.RoundTrip.{frame_round_trip, length-header}
use matrix_discord_voice_bri.Ipc.Stream.{write_message_sends, oversized_message_splits}
use matrix_discord_voice_bri.Ipc.Inverse.{received-frame}
use matrix_discord_voice_bri.Payload.VoiceState.{
  parse_voice_state, parse_channel_list, voice_state_payload, voice_state_round_trip,
}
use matrix_discord_voice_bri.Payload.UserInfo.{parse_user_info}
use matrix_discord_voice_bri.Payload.MatrixUsers.{
  names_payload, name_entries, read_matrix_users, matrix_users_round_trip,
}
use matrix_discord_voice_bri.Payload.Safety.{no_parser_panics}

-- A frame of audio from a user.
abbrev audio : Message
audio = record { msg_type = msg_audio_from_discord; user_id = 4242; payload = 252 ∷ 255 ∷ 254 ∷ [] }

audio-IsMessage : IsMessage audio
audio-IsMessage = record {
  msg_type_byte = omega arith;
  user_id_u64 = omega arith;
  payload_bytes = (omega arith, (omega arith, (omega arith, tt)));
}

frame_round_trip_example : read_message (frame audio ++ 9 ∷ []) ≡ received audio (9 ∷ [])
frame_round_trip_example = frame_round_trip audio (9 ∷ []) audio-IsMessage (omega arith)

-- A slot's connection that takes 12 bytes more.
abbrev closing : Socket
closing = record { sent = 7 ∷ []; room = 12 }

write_message_sends_example :
    ((write_message audio closing).0.sent ≡ 7 ∷ take 12 (frame audio))
    × ((write_message audio closing).1 ≡ payload_failed)
unfolding frame header le_bytes
write_message_sends_example = write_message_sends audio closing

abbrev frame_bytes : Bytes
frame_bytes = 1 ∷ 146 ∷ 16 ∷ 0 ∷ 0 ∷ 0 ∷ 0 ∷ 0 ∷ 0 ∷ 3 ∷ 0 ∷ 252 ∷ 255 ∷ 254 ∷ []

frame_bytes-read : read_message frame_bytes ≡ received audio []
unfolding read_message read_from read_body read_full le_value
frame_bytes-read = refl

frame_bytes-IsByte : All IsByte frame_bytes
frame_bytes-IsByte = (
  omega arith,
  (
    omega arith,
    (
      omega arith,
      (
        omega arith,
        (
          omega arith,
          (
            omega arith,
            (
              omega arith,
              (
                omega arith,
                (
                  omega arith,
                  (omega arith, (omega arith, (omega arith, (omega arith, (omega arith, tt))))),
                ),
              ),
            ),
          ),
        ),
      ),
    ),
  ),
)

received-frame_example : frame_bytes ≡ frame audio ++ []
received-frame_example = received-frame frame_bytes audio [] frame_bytes-IsByte frame_bytes-read

no_parser_panics_example :
    (parse_voice_state audio.payload ≢ none)
    × (parse_channel_list audio.payload ≢ none)
    × (parse_user_info audio.payload ≢ none)
no_parser_panics_example = no_parser_panics frame_bytes [] audio frame_bytes-IsByte frame_bytes-read

voice_state_round_trip_example :
    (parse_voice_state (voice_state_payload 77 (text "Lobby") 5)
      ≡ some (77, record { name = text "Lobby"; category_id = 5 }))
    × (parse_channel_list (voice_state_payload 77 (text "Lobby") 5)
        ≡ some (some (77, record { name = text "Lobby"; category_id = 5 })))
voice_state_round_trip_example =
    voice_state_round_trip 77 (text "Lobby") 5 (omega arith) (omega arith) (omega arith)

abbrev two_names : List Bytes
two_names = text "Ada" ∷ text "Grace" ∷ []

matrix_users_round_trip_example :
    read_matrix_users (names_payload two_names) ≡ some (some two_names)
matrix_users_round_trip_example =
    matrix_users_round_trip two_names (unfold names_payload name_entries le_bytes in omega arith)

unfoldable zeros : ℕ → Bytes
zeros zero = []
zeros (suc n) = 0 ∷ zeros n

length-zeros : (n : ℕ) → length (zeros n) ≡ n
unfolding zeros
length-zeros zero = refl
length-zeros (suc n) = ap suc (length-zeros n)

zeros-IsByte : (n : ℕ) → All IsByte (zeros n)
unfolding zeros
zeros-IsByte zero = tt
zeros-IsByte (suc n) = (omega arith, zeros-IsByte n)

-- The names of a full channel, one byte too many for a frame.
abbrev names : Message
names = record { msg_type = msg_matrix_users; user_id = 0; payload = zeros 65536 }

names-IsMessage : IsMessage names
names-IsMessage = record {
  msg_type_byte = omega arith;
  user_id_u64 = omega arith;
  payload_bytes = zeros-IsByte 65536;
}

abbrev roomy : Socket
roomy = record { sent = []; room = 70000 }

length-names : length (frame names) ≤ 70000
unfolding frame
length-names =
    omega
      (arith, length-append (header names) (zeros 65536), length-header names, length-zeros 65536)

oversized_message_splits_example :
    ((write_message names roomy).1 ≡ written)
    × (read_message ((write_message names roomy).0.sent ++ [])
        ≡ received
            (record names { payload = take (length (zeros 65536) % 2 ^ 16) (zeros 65536) })
            (drop (length (zeros 65536) % 2 ^ 16) (zeros 65536) ++ []))
    × (65536 ≤ length (drop (length (zeros 65536) % 2 ^ 16) (zeros 65536)))
oversized_message_splits_example =
    oversized_message_splits names roomy [] names-IsMessage (omega (arith, length-zeros 65536))
      length-names refl
