-- ===== src/Matrix/Commands/Gate.antt =====
-- pkg/matrix/commands.go: what a message can change, and who can change it.
use matrix_discord_voice_bri.Base.{
  on_branches, or_none, ◌≡◌, refl, Bool, false, ◌&&◌, ◌||◌, Option, none, some, List, [], ◌∷◌,
  arith,
}
use matrix_discord_voice_bri.Base.Eq.{Bytes, ◌==◌, bytes_eq}
use matrix_discord_voice_bri.Base.Text.{text, has_prefix}
use matrix_discord_voice_bri.Process.Boot.{Level}
use matrix_discord_voice_bri.Matrix.Words.{fields, to_lower}
use matrix_discord_voice_bri.Matrix.Commands.{
  ManagerApi, Reply, no_reply, is_admin, cmd_join, cmd_leave, cmd_bot_add, cmd_bot_remove,
  cmd_sync_db, run_command, handle_words, handle, on_message, sscan_int, remove_at, Signed,
}

-- The commands that change the manager.
unfoldable pub is_changing : Bytes → Bool
is_changing cmd =
    (cmd == text "!join")
    || ((cmd == text "!leave")
        || ((cmd == text "!bot-add") || ((cmd == text "!bot-remove") || (cmd == text "!sync-db"))))

module _ {S : Type 0} (api : ManagerApi S) where
  run_command-reads :
      (cmd : Bytes) (args : List Bytes) (s : S) (level : Level)
      → is_changing cmd ≡ false
      → (run_command api cmd args s level).0 ≡ s
  unfolding run_command is_changing
  run_command-reads cmd args s level h =
      let (join, h1) = or_none (cmd == text "!join") _ h in
      let (leave, h2) = or_none (cmd == text "!leave") _ h1 in
      let (add, h3) = or_none (cmd == text "!bot-add") _ h2 in
      let (remove, sync) = or_none (cmd == text "!bot-remove") (cmd == text "!sync-db") h3 in
      rw (join, leave, add, remove, sync)
        (on_branches Same (cmd == text "!help") (λ e. refl)
          (λ e.
            on_branches Same (cmd == text "!status") (λ e. refl)
              (λ e.
                on_branches Same (cmd == text "!rooms") (λ e. refl)
                  (λ e.
                    on_branches Same (cmd == text "!bots") (λ e. refl)
                      (λ e. on_branches Same (cmd == text "!log-level") (λ e. refl) (λ e. refl))))))
    where
      Same : S × Level × Reply → Type 0
      Same r = r.0 ≡ s

  -- What a property of the state needs of the interface to be kept by the commands.
  pub record Keeps (P : S → Type 0) : Type 0 where
    pub joins : (name : Bytes) (s : S) → P s → P (api.manual_join name s).0
    pub leaves : (name : Bytes) (s : S) → P s → P (api.manual_leave name s).0
    pub adds : (token : Bytes) (s : S) → P s → P (api.add_bot token s).0
    pub removes : (i : Signed) (s : S) → P s → P (api.remove_bot i s).0
    pub rebuilds : (s : S) → P s → P (api.rebuild_db s).0

  module _ (P : S → Type 0) (k : Keeps P) where
    cmd_join-keeps : (args : List Bytes) (s : S) → P s → P (cmd_join api args s).0
    unfolding cmd_join
    cmd_join-keeps [] s h = h
    cmd_join-keeps (word ∷ words) s h = k.joins _ s h

    remove_at-keeps :
        (word : Bytes) (i : Option Signed) (s : S) → P s → P (remove_at api word i s).0
    remove_at-keeps word none s h = h
    remove_at-keeps word (some i) s h = k.removes i s h

    cmd_bot_add-keeps : (args : List Bytes) (s : S) → P s → P (cmd_bot_add api args s).0
    unfolding cmd_bot_add
    cmd_bot_add-keeps [] s h = h
    cmd_bot_add-keeps (token ∷ rest) s h = k.adds token s h

    cmd_bot_remove-keeps : (args : List Bytes) (s : S) → P s → P (cmd_bot_remove api args s).0
    unfolding cmd_bot_remove
    cmd_bot_remove-keeps [] s h = h
    cmd_bot_remove-keeps (word ∷ rest) s h = remove_at-keeps word (sscan_int word) s h

    run_command-keeps :
        (cmd : Bytes) (args : List Bytes) (s : S) (level : Level)
        → P s
        → P (run_command api cmd args s level).0
    unfolding run_command cmd_leave cmd_sync_db
    run_command-keeps cmd args s level h =
        on_branches Kept (cmd == text "!help") (λ e. h)
          (λ e.
            on_branches Kept (cmd == text "!status") (λ e. h)
              (λ e.
                on_branches Kept (cmd == text "!rooms") (λ e. h)
                  (λ e.
                    on_branches Kept (cmd == text "!bots") (λ e. h)
                      (λ e.
                        on_branches Kept (cmd == text "!join") (λ e. cmd_join-keeps args s h)
                          (λ e.
                            on_branches Kept (cmd == text "!leave") (λ e. k.leaves _ s h)
                              (λ e.
                                on_branches Kept (cmd == text "!log-level") (λ e. h)
                                  (λ e.
                                    on_branches Kept (cmd == text "!bot-add")
                                      (λ e. cmd_bot_add-keeps args s h)
                                      (λ e.
                                        on_branches Kept (cmd == text "!bot-remove")
                                          (λ e. cmd_bot_remove-keeps args s h)
                                          (λ e.
                                            on_branches Kept (cmd == text "!sync-db")
                                              (λ e. k.rebuilds s h) (λ e. h))))))))))
      where
        Kept : S × Level × Reply → Type 0
        Kept r = P r.0

    handle_words-keeps :
        (words : List Bytes) (s : S) (level : Level) → P s → P (handle_words api words s level).0
    unfolding handle_words
    handle_words-keeps [] s level h = h
    handle_words-keeps (word ∷ args) s level h = run_command-keeps (to_lower word) args s level h

    -- A property that every changing operation of the interface keeps is kept by any message.
    pub on_message-keeps :
        (initial_done : Bool) (admins : List Bytes) (sender : Bytes) (body : Option Bytes) (s : S)
        (level : Level)
        → P s
        → P (on_message api initial_done admins sender body s level).0
    unfolding on_message handle
    on_message-keeps initial_done admins sender none s level h = h
    on_message-keeps initial_done admins sender (some body) s level h =
        on_branches {A = S × Level × Reply} (λ r. P r.0)
          (initial_done && (has_prefix (text "!") body && is_admin admins sender))
          (λ e. handle_words-keeps (fields body) s level h) (λ e. h)

  -- The words of a message that call for a change.
  abbrev pub calls_change : List Bytes → Bool
  calls_change [] = false
  calls_change (word ∷ args) = is_changing (to_lower word)

  handle_words-reads :
      (words : List Bytes) (s : S) (level : Level)
      → calls_change words ≡ false
      → (handle_words api words s level).0 ≡ s
  unfolding handle_words
  handle_words-reads [] s level h = refl
  handle_words-reads (word ∷ args) s level h = run_command-reads (to_lower word) args s level h

  -- Whatever implements the interface: its state after a message is another one only if the initial
  -- sync is done, the sender is an admin, the text starts with `!`, and its first word is, in lower
  -- case, `!join`, `!leave`, `!bot-add`, `!bot-remove` or `!sync-db`; a sender who is
  -- no admin, or a message before that sync, changes no log level either and has no reply.
  pub on_message-reads :
      (initial_done : Bool) (admins : List Bytes) (sender body : Bytes) (s : S) (level : Level)
      → ((initial_done
              && (is_admin admins sender
                  && (has_prefix (text "!") body && calls_change (fields body))))
            ≡ false
          → (on_message api initial_done admins sender (some body) s level).0 ≡ s)
        × ((initial_done && is_admin admins sender) ≡ false
            → on_message api initial_done admins sender (some body) s level ≡ (s, level, no_reply))
  unfolding on_message handle
  on_message-reads initial_done admins sender body s level =
      (ground (arith, handle_words-reads (fields body) s level), ground arith)
