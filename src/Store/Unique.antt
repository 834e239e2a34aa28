-- ===== src/Store/Unique.antt =====
-- pkg/store/store.go: no two bots share a token, over any calls.
use matrix_discord_voice_bri.Base.{
  on_branches, ◌≡◌, refl, Bool, not, Option, none, some, List, [], ◌∷◌, ◌++◌, arith, if◌then◌else◌,
  Bool-cases, inl, inr,
}
use matrix_discord_voice_bri.Base.Eq.{Bytes, ◌==◌, nat_eq, bytes_eq, bytes_beq_iff}
use matrix_discord_voice_bri.Store.{
  is_storable, Bot, Store, empty_store, filter, find_row, bot_of, insert_bot, add_bot, remove_bot,
  deactivate, deactivate_bot, upsert_room, delete_room, upsert_guild,
}
use matrix_discord_voice_bri.Store.Views.{
  Call, add, remove, deactivate_token, upsert, drop_room, sync_guild, run_call, run_calls,
}

abbrev pub row_of : Bytes → List Bot → Option Bot
row_of token bots = find_row (λ b. b.token == token) bots

pub row-append :
    (token : Bytes) (bots : List Bot) (b : Bot)
    → row_of token (bots ++ b ∷ []) ≡ elim (row_of token bots) [
      | some old ↦ some old
      | none ↦ if b.token == token then some b else none
    ]
unfolding find_row
row-append token [] b = refl
row-append token (old ∷ bots) b = ground (arith, row-append token bots b)

unfoldable pub Unique : List Bot → Type 0
Unique [] = Unit
Unique (b ∷ bots) = (row_of b.token bots ≡ none) × Unique bots

pub row-filter :
    (p : Bot → Bool) (token : Bytes) (bots : List Bot)
    → row_of token bots ≡ none
    → row_of token (filter p bots) ≡ none
unfolding find_row filter
row-filter p token [] h = refl
row-filter p token (b ∷ bots) h = ground (arith, row-filter p token bots)

filter-Unique : (p : Bot → Bool) (bots : List Bot) → Unique bots → Unique (filter p bots)
unfolding filter Unique
filter-Unique p [] u = tt
filter-Unique p (b ∷ bots) u = elim (Bool-cases (p b)) [
  | inl stays ↦ rw stays (row-filter p b.token bots u.0, filter-Unique p bots u.1)
  | inr goes ↦ rw goes (filter-Unique p bots u.1)
]

append-Unique :
    (bots : List Bot) (b : Bot) → row_of b.token bots ≡ none → Unique bots → Unique (bots ++ b ∷ [])
unfolding find_row Unique
append-Unique [] b h u = (refl, tt)
append-Unique (old ∷ bots) b h u = ground (
  arith,
  append-Unique bots b,
  row-append old.token bots b,
  bytes_beq_iff old.token b.token,
  bytes_beq_iff b.token old.token,
)

row-deactivate :
    (token other : Bytes) (bots : List Bot)
    → row_of other bots ≡ none
    → row_of other (deactivate token bots) ≡ none
unfolding find_row deactivate
row-deactivate token other [] h = refl
row-deactivate token other (b ∷ bots) h = ground (arith, row-deactivate token other bots)

deactivate-Unique : (token : Bytes) (bots : List Bot) → Unique bots → Unique (deactivate token bots)
unfolding deactivate Unique
deactivate-Unique token [] u = tt
deactivate-Unique token (b ∷ bots) u =
    (ground (arith, row-deactivate token b.token bots), deactivate-Unique token bots u.1)

insert_bot-Unique :
    (o : Option Bot) (token guild : Bytes) (s : Store)
    → bot_of token s ≡ o
    → Unique s.bots
    → Unique (insert_bot o token guild s).0.bots
unfolding insert_bot bot_of
insert_bot-Unique (some b) token guild s e u = u
insert_bot-Unique none token guild s e u = append-Unique s.bots _ e u

run_call-Unique : (c : Call) (s : Store) → Unique s.bots → Unique (run_call c s).bots
unfolding run_call add_bot remove_bot deactivate_bot upsert_room delete_room upsert_guild
run_call-Unique (add token guild) s u = insert_bot-Unique (bot_of token s) token guild s refl u
run_call-Unique (remove id) s u = filter-Unique (λ b. not (b.id == id)) s.bots u
run_call-Unique (deactivate_token token) s u = deactivate-Unique token s.bots u
run_call-Unique (upsert r) s u =
    on_branches {A = Store} (λ x. Unique x.bots) (is_storable r) (λ e. u) (λ e. u)
run_call-Unique (drop_room ch) s u = u
run_call-Unique (sync_guild guild space now) s u = u

run_calls-keeps : (cs : List Call) (s : Store) → Unique s.bots → Unique (run_calls cs s).bots
unfolding run_calls
run_calls-keeps [] s u = u
run_calls-keeps (c ∷ cs) s u = run_calls-keeps cs (run_call c s) (run_call-Unique c s u)

pub run_calls-Unique : (cs : List Call) → Unique (run_calls cs empty_store).bots
run_calls-Unique cs = run_calls-keeps cs empty_store (unfold Unique in tt)
