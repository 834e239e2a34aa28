-- ===== src/Matrix/Commands/Answers.antt =====
-- pkg/matrix/commands.go: every command of an admin is answered.
use matrix_discord_voice_bri.Base.{
  ℕ, ◌≡◌, ◌≢◌, refl, Bool, true, false, ◌&&◌, Option, none, some, List, [], ◌∷◌, arith, on_branches,
  if◌then◌else◌, Bool-cases, subst, inl, inr,
}
use matrix_discord_voice_bri.Base.Eq.{Bytes, ◌==◌, bytes_eq, bytes_beq_iff}
use matrix_discord_voice_bri.Base.Assoc.{is_some}
use matrix_discord_voice_bri.Base.Text.{text, has_prefix}
use matrix_discord_voice_bri.Process.Boot.{Level}
use matrix_discord_voice_bri.Bridge.Admin.{RoomInfo, SlotInfo}
use matrix_discord_voice_bri.Matrix.Words.{
  fields, ascii_fields, spaced, is_white, ends_word, extend_word, to_lower,
}
use matrix_discord_voice_bri.Matrix.Commands.{
  ManagerApi, Reply, no_reply, is_admin, cmd_join, cmd_leave, cmd_bot_add, cmd_bot_remove,
  cmd_sync_db, cmd_rooms, cmd_bots, cmd_log_level, run_command, handle_words, handle, on_message,
  sscan_int, remove_at, Signed, help_text, no_rooms, no_slots, join_usage, level_usage, add_usage,
  remove_usage, status_text, rooms_text, bots_text, join_failed, leave_failed, sync_failed,
  add_failed, remove_failed, stopped_all, started, stopped, unknown_level, level_text, bad_slot,
  unknown_command, synced, bot_added, bot_removed,
}
use matrix_discord_voice_bri.Matrix.Commands.Texts.{reply_text, answer, help}

-- A message that starts with a word has one.
ascii_fields-word : (c : ℕ) (cs : Bytes) → is_white c ≡ false → ascii_fields (c ∷ cs) ≢ []
unfolding ascii_fields
ascii_fields-word c cs solid e = split (ends_word cs) (ascii_fields cs) e
  where
    split :
        (t : Bool) (rest : List Bytes)
        → (if is_white c then rest else if t then (c ∷ []) ∷ rest else extend_word c rest) ≡ []
        → ⊥
    split true rest h = ground (arith, h, solid)
    split false [] h = ground (arith, h, solid)
    split false (word ∷ words) h = ground (arith, h, solid)

spaced-mark : (cs : Bytes) → spaced 0 (33 ∷ cs) ≡ 33 ∷ spaced 0 cs
unfolding spaced has_prefix
spaced-mark [] = refl
spaced-mark (b ∷ []) = refl
spaced-mark (b ∷ c ∷ cs) = refl

module _ (quote : Bytes → Bytes) (uptime guild error : Bytes) where
  -- Only the reply that is none has an empty text.
  reply_text-nonempty : (r : Reply) → r ≢ no_reply → reply_text quote uptime guild error r ≢ []
  unfolding reply_text help
  reply_text-nonempty no_reply said e = said refl
  reply_text-nonempty help_text said e = cc
  reply_text-nonempty no_rooms said e = cc
  reply_text-nonempty no_slots said e = cc
  reply_text-nonempty join_usage said e = cc
  reply_text-nonempty level_usage said e = cc
  reply_text-nonempty add_usage said e = cc
  reply_text-nonempty remove_usage said e = cc
  reply_text-nonempty (status_text s) said e = cc
  reply_text-nonempty (rooms_text rooms) said e = cc
  reply_text-nonempty (bots_text slots) said e = cc
  reply_text-nonempty join_failed said e = cc
  reply_text-nonempty leave_failed said e = cc
  reply_text-nonempty sync_failed said e = cc
  reply_text-nonempty add_failed said e = cc
  reply_text-nonempty remove_failed said e = cc
  reply_text-nonempty stopped_all said e = cc
  reply_text-nonempty (started name) said e = cc
  reply_text-nonempty (stopped name) said e = cc
  reply_text-nonempty (unknown_level word) said e = cc
  reply_text-nonempty (level_text word) said e = cc
  reply_text-nonempty (bad_slot word) said e = cc
  reply_text-nonempty (unknown_command cmd) said e = cc
  reply_text-nonempty (synced n) said e = cc
  reply_text-nonempty (bot_added i) said e = cc
  reply_text-nonempty (bot_removed i) said e = cc

module _ {S : Type 0} (api : ManagerApi S) where
  abbrev Answered : S × Level × Reply → Type 0
  Answered r = r.2 ≢ no_reply

  cmd_join-answers : (args : List Bytes) (s : S) → (cmd_join api args s).1 ≢ no_reply
  unfolding cmd_join
  cmd_join-answers [] s e = cc
  cmd_join-answers (word ∷ words) s e = ground (arith, e)

  cmd_leave-answers : (args : List Bytes) (s : S) → (cmd_leave api args s).1 ≢ no_reply
  unfolding cmd_leave
  cmd_leave-answers args s e = ground (arith, e)

  cmd_bot_add-answers : (args : List Bytes) (s : S) → (cmd_bot_add api args s).1 ≢ no_reply
  unfolding cmd_bot_add
  cmd_bot_add-answers [] s e = cc
  cmd_bot_add-answers (word ∷ words) s e = ground (arith, e)

  remove_at-answers :
      (word : Bytes) (i : Option Signed) (s : S) → (remove_at api word i s).1 ≢ no_reply
  remove_at-answers word none s e = cc
  remove_at-answers word (some i) s e = ground (arith, e)

  cmd_bot_remove-answers : (args : List Bytes) (s : S) → (cmd_bot_remove api args s).1 ≢ no_reply
  unfolding cmd_bot_remove
  cmd_bot_remove-answers [] s e = cc
  cmd_bot_remove-answers (word ∷ words) s e = remove_at-answers word (sscan_int word) s e

  cmd_sync_db-answers : (s : S) → (cmd_sync_db api s).1 ≢ no_reply
  unfolding cmd_sync_db
  cmd_sync_db-answers s e = ground (arith, e)

  lists-answer :
      (rooms : List (ℕ × RoomInfo)) (slots : List SlotInfo)
      → (cmd_rooms rooms ≢ no_reply) × (cmd_bots slots ≢ no_reply)
  unfolding cmd_rooms cmd_bots
  lists-answer rooms slots = ((λ e. ground (arith, e)), (λ e. ground (arith, e)))

  cmd_log_level-answers :
      (args : List Bytes) (level : Level) → (cmd_log_level args level).1 ≢ no_reply
  unfolding cmd_log_level
  cmd_log_level-answers [] level e = cc
  cmd_log_level-answers (word ∷ words) level e = ground (arith, e)

  -- Whatever the command, known or not, there is a reply.
  run_command-answers :
      (cmd : Bytes) (args : List Bytes) (s : S) (level : Level)
      → Answered (run_command api cmd args s level)
  unfolding run_command
  run_command-answers cmd args s level =
      on_branches Answered (cmd == text "!help") (λ e x. cc)
        (λ e.
          on_branches Answered (cmd == text "!status") (λ e x. cc)
            (λ e.
              on_branches Answered (cmd == text "!rooms")
                (λ e. (lists-answer (api.list_rooms s) []).0)
                (λ e.
                  on_branches Answered (cmd == text "!bots")
                    (λ e. (lists-answer [] (api.list_slots s)).1)
                    (λ e.
                      on_branches Answered (cmd == text "!join") (λ e. cmd_join-answers args s)
                        (λ e.
                          on_branches Answered (cmd == text "!leave")
                            (λ e. cmd_leave-answers args s)
                            (λ e.
                              on_branches Answered (cmd == text "!log-level")
                                (λ e. cmd_log_level-answers args level)
                                (λ e.
                                  on_branches Answered (cmd == text "!bot-add")
                                    (λ e. cmd_bot_add-answers args s)
                                    (λ e.
                                      on_branches Answered (cmd == text "!bot-remove")
                                        (λ e. cmd_bot_remove-answers args s)
                                        (λ e.
                                          on_branches Answered (cmd == text "!sync-db")
                                            (λ e. cmd_sync_db-answers s) (λ e x. cc))))))))))

  handle_words-answers :
      (words : List Bytes) (s : S) (level : Level)
      → words ≢ []
      → Answered (handle_words api words s level)
  unfolding handle_words
  handle_words-answers [] s level some_word = absurd (some_word refl)
  handle_words-answers (word ∷ args) s level some_word =
      run_command-answers (to_lower word) args s level

has_prefix-fields : (body : Bytes) → has_prefix (text "!") body ≡ true → fields body ≢ []
has_prefix-fields [] h = unfold has_prefix in absurd (ground (arith, h))
has_prefix-fields (c ∷ cs) h =
    let same : 33 ≡ c = unfold has_prefix in ground (arith, h) in
    subst (λ k. fields (k ∷ cs) ≢ []) same
      (unfold fields in
        rw (spaced-mark cs) (ascii_fields-word 33 (spaced 0 cs) (unfold is_white in refl)))

answer-some :
    (quote : Bytes → Bytes) (uptime guild error : Bytes) (r : Reply)
    → r ≢ no_reply
    → is_some (answer quote uptime guild error r) ≡ true
unfolding answer
answer-some quote uptime guild error r said = ground (
  arith,
  bytes_beq_iff (reply_text quote uptime guild error r) [],
  reply_text-nonempty quote uptime guild error r said,
)

-- The handler of messages answers a message with a text exactly if the initial sync is done, the
-- message starts with "!" and its sender is an admin, whatever the command and however it goes.
pub on_message-answer :
    {S : Type 0} (api : ManagerApi S) (quote : Bytes → Bytes) (uptime guild error : Bytes)
    (initial_done : Bool) (admins : List Bytes) (sender body : Bytes) (s : S) (level : Level)
    → is_some (
        answer quote uptime guild error
          (on_message api initial_done admins sender (some body) s level).2)
      ≡ (initial_done && (has_prefix (text "!") body && is_admin admins sender))
unfolding on_message handle
on_message-answer api quote uptime guild error initial_done admins sender body s level =
    elim (Bool-cases (initial_done && (has_prefix (text "!") body && is_admin admins sender))) [
      | inl asked ↦
          let prefixed : has_prefix (text "!") body ≡ true = ground (arith, asked) in
          rw asked (
            answer-some quote uptime guild error (handle_words api (fields body) s level).2
              (handle_words-answers api (fields body) s level (has_prefix-fields body prefixed)))
      | inr other ↦ rw other (unfold answer reply_text in refl)
    ]
