-- ===== src/Process/Restart.antt =====
-- cmd/bridge/main.go and pkg/store/store.go: what a restart finds.
use matrix_discord_voice_bri.Base.{
  ℕ, suc, ◌≡◌, ◌≢◌, refl, Bool, true, not, Option, none, some, List, [], ◌∷◌, arith, Bool-cases,
  Option-cases, inl, inr, nat_beq_iff, subst, some-eq,
}
use matrix_discord_voice_bri.Base.Eq.{Bytes, ◌==◌, nat_eq, bytes_eq, bytes_beq_iff, elem}
use matrix_discord_voice_bri.Store.{
  Bot, Store, filter, find_row, bot_of, insert_bot, add_bot, remove_bot, all_active_bots,
  empty_store,
}
use matrix_discord_voice_bri.Store.Views.{Call, run_calls}
use matrix_discord_voice_bri.Store.Unique.{row_of, row-append, row-filter, Unique, run_calls-Unique}
use matrix_discord_voice_bri.Bridge.State.{Slot, free}
use matrix_discord_voice_bri.Bridge.Runs.{AllFree}
use matrix_discord_voice_bri.Process.Boot.{seed, slot_for, cons_slot, start_slots, boot}

-- A token that is there keeps its row.
add_bot-keeps :
    (o : Option Bot) (token guild other : Bytes) (s : Store) (b : Bot)
    → bot_of token s ≡ o
    → bot_of other s ≡ some b
    → bot_of other (insert_bot o token guild s).0 ≡ some b
unfolding insert_bot bot_of
add_bot-keeps (some old) token guild other s b e h = h
add_bot-keeps none token guild other s b e h =
    rw
      (
        row-append other s.bots
            (record { id = suc s.last_id; token = token; guild_id = guild; active = true }),
        h,
      )
      refl

seed-keeps :
    (tokens : List Bytes) (guild other : Bytes) (s : Store) (b : Bot)
    → bot_of other s ≡ some b
    → bot_of other (seed tokens guild s) ≡ some b
unfolding seed add_bot
seed-keeps [] guild other s b h = h
seed-keeps (token ∷ tokens) guild other s b h =
    seed-keeps tokens guild other (add_bot token guild s).0 b
      (add_bot-keeps (bot_of token s) token guild other s b refl h)

new_row : Bytes → Bytes → Store → Bot
new_row token guild s = record {
  id = suc s.last_id;
  token = token;
  guild_id = guild;
  active = true;
}

insert_bot_self :
    (token guild : Bytes) (s : Store)
    → bot_of token s ≡ none
    → bot_of token (insert_bot none token guild s).0 ≡ some (new_row token guild s)
unfolding insert_bot bot_of new_row
insert_bot_self token guild s h =
    rw
      (
        row-append token s.bots
            (record { id = suc s.last_id; token = token; guild_id = guild; active = true }),
        h,
      )
      (ground (arith, bytes_beq_iff token token))

insert_bot-other :
    (o : Option Bot) (token guild other : Bytes) (s : Store)
    → bot_of other s ≡ none
    → token ≢ other
    → bot_of other (insert_bot o token guild s).0 ≡ none
unfolding insert_bot bot_of
insert_bot-other (some b) token guild other s h ne = h
insert_bot-other none token guild other s h ne =
    rw
      (
        row-append other s.bots
            (record { id = suc s.last_id; token = token; guild_id = guild; active = true }),
        h,
      )
      (ground (arith, bytes_beq_iff token other))

-- A token that has no row gets an active one.
seed-new :
    (tokens : List Bytes) (guild token : Bytes) (s : Store)
    → elem token tokens ≡ true
    → bot_of token s ≡ none
    → (b : Bot) × (bot_of token (seed tokens guild s) ≡ some b) × (b.active ≡ true)
unfolding seed add_bot elem
seed-new [] guild token s h e = absurd (ground arith)
seed-new (t ∷ tokens) guild token s h e = elim (Bool-cases (t == token)) [
  | inl this ↦
      let same : t ≡ token = (bytes_beq_iff t token).0 this in
      let row = insert_bot_self token guild s e in
      (
        new_row token guild s,
        rw (same, e)
            (seed-keeps tokens guild token (insert_bot none token guild s).0 (new_row token guild s)
              row),
        unfold new_row in refl,
      )
  | inr later ↦
      seed-new tokens guild token (insert_bot (bot_of t s) t guild s).0 (ground (arith, h, later)) (
        insert_bot-other (bot_of t s) t guild token s e
          (λ p. ground (arith, bytes_beq_iff t token, p, later)))
]

seed-all :
    (tokens : List Bytes) (guild token : Bytes) (s : Store)
    → elem token tokens ≡ true
    → (b : Bot) × (bot_of token (seed tokens guild s) ≡ some b)
seed-all tokens guild token s h = elim (Option-cases (bot_of token s)) [
  | inl missing ↦ let x = seed-new tokens guild token s h missing in (x.0, x.1)
  | inr (b, there) ↦ (b, seed-keeps tokens guild token s b there)
]

seed-known :
    (tokens : List Bytes) (guild : Bytes) (s : Store)
    → ((token : Bytes) → elem token tokens ≡ true → (b : Bot) × (bot_of token s ≡ some b))
    → seed tokens guild s ≡ s
unfolding seed add_bot insert_bot elem
seed-known [] guild s known = refl
seed-known (t ∷ tokens) guild s known =
    let k = known t (ground (arith, bytes_beq_iff t t)) in
    rw k.1 (seed-known tokens guild s (λ token h. known token (ground (arith, h))))

cons_slot-AllFree :
    (slot : Slot) (o : Option (List Slot)) (slots : List Slot)
    → slot.channel_id ≡ free
    → ((rest : List Slot) → o ≡ some rest → AllFree rest)
    → cons_slot slot o ≡ some slots
    → AllFree slots
cons_slot-AllFree slot none slots f rest h = absurd (ground arith)
cons_slot-AllFree slot (some ss) slots f rest h = subst AllFree (some-eq h) (f, rest ss refl)

start_slots-AllFree :
    (connects : ℕ → Bool) (i : ℕ) (bots : List Bot) (slots : List Slot)
    → start_slots connects i bots ≡ some slots
    → AllFree slots
unfolding start_slots
start_slots-AllFree connects i [] slots h = subst AllFree (some-eq h) tt
start_slots-AllFree connects i (bot ∷ bots) slots h =
    cons_slot-AllFree (slot_for i bot) (start_slots connects (suc i) bots) slots refl
      (λ rest e. start_slots-AllFree connects (suc i) bots rest e) (ground (arith, h))

-- Booting on the database that a boot left changes nothing in it and starts the same slots; slots
-- that are started are all free.
pub boot_again :
    (tokens : List Bytes) (guild : Bytes) (connects : ℕ → Bool) (s : Store)
    → (boot tokens guild connects (boot tokens guild connects s).0 ≡ boot tokens guild connects s)
      × ((slots : List Slot) → (boot tokens guild connects s).1 ≡ some slots → AllFree slots)
unfolding boot
boot_again tokens guild connects s = (
  rw (seed-known tokens guild (seed tokens guild s) (λ token h. seed-all tokens guild token s h))
      refl,
  λ slots h. start_slots-AllFree connects 0 (all_active_bots (seed tokens guild s)) slots h,
)

row-remove :
    (token : Bytes) (bots : List Bot) (b : Bot)
    → Unique bots
    → row_of token bots ≡ some b
    → row_of token (filter (λ x. not (x.id == b.id)) bots) ≡ none
unfolding Unique find_row filter
row-remove token [] b u h = cc
row-remove token (x ∷ bots) b u h = ground (
  arith,
  row-remove token bots b u.1,
  row-filter (λ y. not (y.id == b.id)) token bots,
  bytes_beq_iff x.token token,
  nat_beq_iff x.id b.id,
)

-- A bot that `RemoveBot` deleted from the database is back after a restart, active, if its token is
-- in the configuration.
pub removed_bot_returns :
    (cs : List Call) (tokens : List Bytes) (guild token : Bytes) (b : Bot)
    → bot_of token (run_calls cs empty_store) ≡ some b
    → elem token tokens ≡ true
    → (bot_of token (remove_bot b.id (run_calls cs empty_store)) ≡ none)
      × ((b' : Bot) × (bot_of token (seed tokens guild (remove_bot b.id (run_calls cs empty_store)))
            ≡ some b')
          × (b'.active ≡ true))
removed_bot_returns cs tokens guild token b there listed =
    let gone = missing (run_calls-Unique cs) there in
    (gone, seed-new tokens guild token (remove_bot b.id (run_calls cs empty_store)) listed gone)
  where
    missing :
        Unique (run_calls cs empty_store).bots
        → bot_of token (run_calls cs empty_store) ≡ some b
        → bot_of token (remove_bot b.id (run_calls cs empty_store)) ≡ none
    missing u e = unfold bot_of remove_bot in row-remove token (run_calls cs empty_store).bots b u e
