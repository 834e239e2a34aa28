-- ===== src/Matrix/Sync.antt =====
-- pkg/matrix/signalling.go: `StartSync`, which hears the call events, and its backoff. The sync library
-- calls `OnSync` for a response before it hands out the response's events.
use matrix_discord_voice_bri.Base.{
  ℕ, zero, suc, ◌*◌, ◌^◌, ◌≡◌, refl, ap, ◌∙◌, Bool, true, false, not, ◌&&◌, Option, none, some,
  List, [], ◌∷◌, ◌++◌, if◌then◌else◌, arith, ltb, map, ◌≢◌,
}
use matrix_discord_voice_bri.Base.Eq.{Bytes, ◌==◌, bytes_eq, bytes_beq_iff}
use matrix_discord_voice_bri.Base.Text.{text}
use matrix_discord_voice_bri.Store.{filter}

-- A call member event: whether it has a state key and an `application`, and its `expires_ts`, if that is
-- a number, with 0 for one below it; no content at all has neither.
pub record CallEvent : Type 0 where
  pub room : Bytes
  pub sender : Bytes
  pub has_key : Bool
  pub application : Bool
  pub expires_ts : Option ℕ

pub record HeardCall : Type 0 where
  pub room : Bytes
  pub sender : Bytes
  pub joined : Bool

abbrev pub is_expired : ℕ → Option ℕ → Bool
is_expired now none = false
is_expired now (some ts) = ltb ts now

-- What the handler of call events passes to `onCallMember`.
unfoldable pub hear_call : ℕ → CallEvent → Option HeardCall
hear_call now e =
    if e.application && is_expired now e.expires_ts
    then none
    else some (record { room = e.room; sender = e.sender; joined = e.application })

unfoldable pub on_call_event : Bool → ℕ → CallEvent → Option HeardCall
on_call_event initial_done now e = if initial_done && e.has_key then hear_call now e else none

-- The `OnSync` callback: `since` is empty for the initial sync only.
unfoldable pub on_sync : Bytes → Bool → Bool
on_sync since initial_done = if since == [] then initial_done else true

abbrev pub cons_heard : Option HeardCall → List HeardCall → List HeardCall
cons_heard none rest = rest
cons_heard (some h) rest = h ∷ rest

unfoldable pub hear_events : Bool → ℕ → List CallEvent → List HeardCall
hear_events initial_done now [] = []
hear_events initial_done now (e ∷ es) =
    cons_heard (on_call_event initial_done now e) (hear_events initial_done now es)

pub record SyncResponse : Type 0 where
  pub since : Bytes
  pub now : ℕ
  pub events : List CallEvent

-- The responses of a sync loop, in order, from a state of `initialSyncDone`.
unfoldable pub hear_syncs : Bool → List SyncResponse → List HeardCall
hear_syncs initial_done [] = []
hear_syncs initial_done (r ∷ rs) =
    let now_done = on_sync r.since initial_done in
    hear_events now_done r.now r.events ++ hear_syncs now_done rs

-- The handler of member events: whether the bot joins the room that it is invited to.
unfoldable pub joins_invited : Bytes → Bytes → Option Bytes → Bool
joins_invited bot state_key none = false
joins_invited bot state_key (some membership) = (state_key == bot) && (membership == text "invite")

-- Whether the bot's display name is set at the start; `none` for a profile that cannot be read.
abbrev pub needs_name : Option Bytes → Bool
needs_name none = true
needs_name (some name) = name == []

-- The wait before the next try, in milliseconds: after an error, and after a sync that ended well.
unfoldable pub next_backoff : Bool → ℕ → ℕ
next_backoff true backoff = 500
next_backoff false backoff = if ltb (backoff * 2) 8000 then backoff * 2 else 8000

-- The backoff after the results of the syncs.
unfoldable pub backoff_after : List Bool → ℕ → ℕ
backoff_after [] backoff = backoff
backoff_after (ok ∷ results) backoff = backoff_after results (next_backoff ok backoff)

-- A wait that doubles up to eight seconds.
abbrev pub capped : ℕ → ℕ
capped n = if ltb n 8000 then n else 8000

unfoldable pub failures : ℕ → List Bool
failures zero = []
failures (suc n) = false ∷ failures n

backoff_after-append :
    (xs ys : List Bool) (b : ℕ) → backoff_after (xs ++ ys) b ≡ backoff_after ys (backoff_after xs b)
unfolding backoff_after
backoff_after-append [] ys b = refl
backoff_after-append (x ∷ xs) ys b = backoff_after-append xs ys (next_backoff x b)

next_backoff-capped : (n : ℕ) → next_backoff false (capped n) ≡ capped (n * 2)
unfolding next_backoff
next_backoff-capped n = ground arith

twice_power : (x n : ℕ) → x * 2 * 2 ^ n ≡ x * 2 ^ suc n
twice_power x n = grind arith

times_one : (x : ℕ) → x ≡ x * 2 ^ 0
times_one x = grind arith

backoff_after-doubles : (n x : ℕ) → backoff_after (failures n) (capped x) ≡ capped (x * 2 ^ n)
unfolding backoff_after failures
backoff_after-doubles zero x = ap capped (times_one x)
backoff_after-doubles (suc n) x =
    ap (backoff_after (failures n)) (next_backoff-capped x)
    ∙ backoff_after-doubles n (x * 2)
    ∙ ap capped (twice_power x n)

-- Whatever syncs came before, after one that ended well and `n` failures the next wait is
-- 500 * 2 ^ n milliseconds, eight seconds at most.
pub backoff_after-failures :
    (results : List Bool) (n : ℕ)
    → backoff_after (results ++ true ∷ failures n) 500 ≡ capped (500 * 2 ^ n)
unfolding backoff_after next_backoff
backoff_after-failures results n =
    backoff_after-append results (true ∷ failures n) 500 ∙ backoff_after-doubles n 500

-- An event that tells of a call that goes on or of one that was left.
abbrev pub is_fresh : ℕ → CallEvent → Bool
is_fresh now e = e.has_key && not (e.application && is_expired now e.expires_ts)

abbrev pub heard_as : CallEvent → HeardCall
heard_as e = record { room = e.room; sender = e.sender; joined = e.application }

unfoldable pub fresh_calls : ℕ → List CallEvent → List HeardCall
fresh_calls now es = map heard_as (filter (is_fresh now) es)

unfoldable pub all_calls : List SyncResponse → List HeardCall
all_calls [] = []
all_calls (r ∷ rs) = fresh_calls r.now r.events ++ all_calls rs

hear_events-done : (now : ℕ) (es : List CallEvent) → hear_events true now es ≡ fresh_calls now es
unfolding hear_events fresh_calls filter on_call_event hear_call
hear_events-done now [] = refl
hear_events-done now (e ∷ es) = ground (arith, hear_events-done now es)

hear_events-initial : (now : ℕ) (es : List CallEvent) → hear_events false now es ≡ []
unfolding hear_events on_call_event
hear_events-initial now [] = refl
hear_events-initial now (e ∷ es) = hear_events-initial now es

on_sync-later : (since : Bytes) → on_sync since true ≡ true
unfolding on_sync
on_sync-later since = ground arith

on_sync-first : (since : Bytes) → since ≡ [] → on_sync since false ≡ false
unfolding on_sync
on_sync-first since h = ground (arith, bytes_beq_iff since [])

on_sync-next : (since : Bytes) → since ≢ [] → on_sync since false ≡ true
unfolding on_sync
on_sync-next since h = ground (arith, bytes_beq_iff since [])

hear_syncs-done : (rs : List SyncResponse) → hear_syncs true rs ≡ all_calls rs
unfolding hear_syncs all_calls
hear_syncs-done [] = refl
hear_syncs-done (r ∷ rs) =
    ap (λ d. hear_events d r.now r.events ++ hear_syncs d rs) (on_sync-later r.since)
    ∙ ap (λ es. es ++ hear_syncs true rs) (hear_events-done r.now r.events)
    ∙ ap (◌++◌ (fresh_calls r.now r.events)) (hear_syncs-done rs)

-- After an initial sync, every response has a position to follow; then the bridge hears nothing of the
-- initial response, however its events look, and of each later one the events with a state key whose
-- membership has not expired, in order, those of the first later response included.
pub hear_syncs-fresh :
    (initial next : SyncResponse) (rs : List SyncResponse)
    → initial.since ≡ []
    → next.since ≢ []
    → hear_syncs false (initial ∷ next ∷ rs) ≡ all_calls (next ∷ rs)
unfolding hear_syncs all_calls
hear_syncs-fresh initial next rs first later =
    ap (λ d. hear_events d initial.now initial.events ++ hear_syncs d (next ∷ rs))
      (on_sync-first initial.since first)
    ∙ ap (λ es. es ++ hear_syncs false (next ∷ rs)) (hear_events-initial initial.now initial.events)
    ∙ ap (λ d. hear_events d next.now next.events ++ hear_syncs d rs)
        (on_sync-next next.since later)
    ∙ ap (λ es. es ++ hear_syncs true rs) (hear_events-done next.now next.events)
    ∙ ap (◌++◌ (fresh_calls next.now next.events)) (hear_syncs-done rs)
