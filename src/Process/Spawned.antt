-- ===== src/Process/Spawned.antt =====
-- cmd/bridge/main.go: the sidecars' processes that the start of `run` leaves running.
use matrix_discord_voice_bri.Base.{
  ℕ, zero, suc, ◌+◌, ◌<◌, ◌≤◌, ◌≡◌, ◌≢◌, refl, sym, ap, ◌∙◌, append_assoc, Option, none, some, List,
  [], ◌∷◌, ◌++◌, map, arith, length, if◌then◌else◌, some-eq, subst,
}
use matrix_discord_voice_bri.Base.Eq.{nat_eq}
use matrix_discord_voice_bri.Store.{Bot}
use matrix_discord_voice_bri.Bridge.State.{Slot}
use matrix_discord_voice_bri.Process.Boot.{slot_for, cons_slot, start_slots}
use matrix_discord_voice_bri.Process.Launch.{
  is_connected, Arrival, no_socket, no_process, no_connection, connects, Act, spawn, sigterm,
  arrive_acts, Kept, then_rest, launch,
}
use matrix_discord_voice_bri.Process.Shutdown.{indices}

abbrev pub spawned_by : Act → List ℕ
spawned_by act = elim act [ spawn i token primary ↦ i ∷ [] | _ ↦ [] ]

abbrev pub terminated_by : Act → List ℕ
terminated_by act = elim act [ sigterm i ↦ i ∷ [] | _ ↦ [] ]

abbrev pub collect : (Act → List ℕ) → List Act → List ℕ
collect f [] = []
collect f (a ∷ acts) = f a ++ collect f acts

-- The slots whose process is started, and those whose process is asked to end, in order.
abbrev pub spawned : List Act → List ℕ
spawned = collect spawned_by

abbrev pub terminated : List Act → List ℕ
terminated = collect terminated_by

pub collect-append :
    (f : Act → List ℕ) (xs ys : List Act) → collect f (xs ++ ys) ≡ collect f xs ++ collect f ys
collect-append f [] ys = refl
collect-append f (x ∷ xs) ys =
    ap (λ zs. f x ++ zs) (collect-append f xs ys)
    ∙ sym (append_assoc (f x) (collect f xs) (collect f ys))

-- Acts that add nothing.
pub collect-quiet :
    {A : Type 0} (f : Act → List ℕ) (g : A → Act)
    → ((a : A) → f (g a) ≡ [])
    → (xs : List A) → collect f (map g xs) ≡ []
collect-quiet f g quiet [] = refl
collect-quiet f g quiet (x ∷ xs) = rw (quiet x) (collect-quiet f g quiet xs)

pub terminated-sigterm : (is : List ℕ) → terminated (map sigterm is) ≡ is
terminated-sigterm [] = refl
terminated-sigterm (i ∷ is) = ap (◌∷◌ i) (terminated-sigterm is)

then_rest-terminated :
    (a : Arrival) (i : ℕ) (bot : Bot) (rest : List Act × Option Kept)
    → terminated rest.0 ≡ []
    → terminated (then_rest a i bot rest).0 ≡ []
unfolding then_rest arrive_acts
then_rest-terminated no_socket i bot rest h = refl
then_rest-terminated no_process i bot rest h = refl
then_rest-terminated no_connection i bot rest h = refl
then_rest-terminated connects i bot rest h = h

-- The start asks no process to end.
pub launch-terminated :
    (arrival : ℕ → Arrival) (i : ℕ) (bots : List Bot) → terminated (launch arrival i bots).0 ≡ []
unfolding launch
launch-terminated arrival i [] = refl
launch-terminated arrival i (bot ∷ bots) =
    then_rest-terminated (arrival i) i bot (launch arrival (suc i) bots)
      (launch-terminated arrival (suc i) bots)

then_rest-spawned :
    (a : Arrival) (i : ℕ) (bot : Bot) (rest : List Act × Option Kept) (kept : Kept)
    → ((k : Kept) → rest.1 ≡ some k → spawned rest.0 ≡ indices k.slots)
    → (then_rest a i bot rest).1 ≡ some kept
    → spawned (then_rest a i bot rest).0 ≡ indices kept.slots
unfolding then_rest arrive_acts
then_rest-spawned no_socket i bot rest kept h e = absurd (ground arith)
then_rest-spawned no_process i bot rest kept h e = absurd (ground arith)
then_rest-spawned no_connection i bot rest kept h e = absurd (ground arith)
then_rest-spawned connects i bot (acts, none) kept h e = absurd (ground arith)
then_rest-spawned connects i bot (acts, some k) kept h e =
    ap (◌∷◌ i) (h k refl) ∙ ap (λ x. indices x.slots) (some-eq e)

-- A start that succeeds has started the process of every slot.
pub launch-spawned :
    (arrival : ℕ → Arrival) (i : ℕ) (bots : List Bot) (kept : Kept)
    → (launch arrival i bots).1 ≡ some kept
    → spawned (launch arrival i bots).0 ≡ indices kept.slots
unfolding launch
launch-spawned arrival i [] kept h = ap (λ x. indices x.slots) (some-eq h)
launch-spawned arrival i (bot ∷ bots) kept h =
    then_rest-spawned (arrival i) i bot (launch arrival (suc i) bots) kept
      (λ k. launch-spawned arrival (suc i) bots k) h

then_rest-cmds :
    (a : Arrival) (i : ℕ) (bot : Bot) (rest : List Act × Option Kept) (kept : Kept)
    → ((k : Kept) → rest.1 ≡ some k → spawned rest.0 ≡ k.cmds)
    → (then_rest a i bot rest).1 ≡ some kept
    → spawned (then_rest a i bot rest).0 ≡ kept.cmds
unfolding then_rest arrive_acts
then_rest-cmds no_socket i bot rest kept h e = absurd (ground arith)
then_rest-cmds no_process i bot rest kept h e = absurd (ground arith)
then_rest-cmds no_connection i bot rest kept h e = absurd (ground arith)
then_rest-cmds connects i bot (acts, none) kept h e = absurd (ground arith)
then_rest-cmds connects i bot (acts, some k) kept h e =
    ap (◌∷◌ i) (h k refl) ∙ ap (λ x. x.cmds) (some-eq e)

-- A start that succeeds keeps every process that it started.
pub launch-cmds :
    (arrival : ℕ → Arrival) (i : ℕ) (bots : List Bot) (kept : Kept)
    → (launch arrival i bots).1 ≡ some kept
    → spawned (launch arrival i bots).0 ≡ kept.cmds
unfolding launch
launch-cmds arrival i [] kept h = ap (λ x. x.cmds) (some-eq h)
launch-cmds arrival i (bot ∷ bots) kept h =
    then_rest-cmds (arrival i) i bot (launch arrival (suc i) bots) kept
      (λ k. launch-cmds arrival (suc i) bots k) h

-- `n` slots from the first one on.
abbrev pub count_from : ℕ → ℕ → List ℕ
count_from i zero = []
count_from i (suc n) = i ∷ count_from (suc i) n

-- The processes that a bot's failed start leaves.
abbrev pub left_over : Arrival → ℕ
left_over no_socket = 0
left_over no_process = 0
left_over no_connection = 1
left_over connects = 1

then_rest-fails :
    (a : Arrival) (i : ℕ) (bot : Bot) (rest : List Act × Option Kept)
    → a ≢ connects
    → (spawned (then_rest a i bot rest).0 ≡ count_from i (0 + left_over a))
      × ((then_rest a i bot rest).1 ≡ none)
unfolding then_rest arrive_acts
then_rest-fails no_socket i bot rest ne = (refl, refl)
then_rest-fails no_process i bot rest ne = (refl, refl)
then_rest-fails no_connection i bot rest ne = (refl, refl)
then_rest-fails connects i bot rest ne = absurd (ne refl)

then_rest-goes_on :
    (i n t : ℕ) (bot : Bot) (rest : List Act × Option Kept)
    → t ≡ suc n
    → (spawned rest.0 ≡ count_from (suc i) n) × (rest.1 ≡ none)
    → (spawned (then_rest connects i bot rest).0 ≡ count_from i t)
      × ((then_rest connects i bot rest).1 ≡ none)
unfolding then_rest arrive_acts
then_rest-goes_on i n t bot (acts, slots) e h = (rw e (ap (◌∷◌ i) h.0), rw h.1 refl)

pub launch-fails :
    (arrival : ℕ → Arrival) (i k n : ℕ) (bots : List Bot)
    → i + k ≡ n
    → k < length bots
    → ((j : ℕ) → i ≤ j → j < n → arrival j ≡ connects)
    → arrival n ≢ connects
    → (spawned (launch arrival i bots).0 ≡ count_from i (k + left_over (arrival n)))
      × ((launch arrival i bots).1 ≡ none)
unfolding launch
launch-fails arrival i k n [] at there before fails = absurd (omega (arith, there))
launch-fails arrival i zero n (bot ∷ bots) at there before fails =
    let here : n ≡ i = omega (arith, at) in
    rw here (
      then_rest-fails (arrival i) i bot (launch arrival (suc i) bots)
        (subst (λ j. arrival j ≢ connects) here fails))
launch-fails arrival i (suc k) n (bot ∷ bots) at there before fails =
    let later : suc i + k ≡ n = omega (arith, at) in
    subst
      (λ a.
        (spawned (then_rest a i bot (launch arrival (suc i) bots)).0
          ≡ count_from i (suc k + left_over (arrival n)))
        × ((then_rest a i bot (launch arrival (suc i) bots)).1 ≡ none))
      (sym (before i (omega arith) (omega (arith, at))))
      (then_rest-goes_on i (k + left_over (arrival n)) (suc k + left_over (arrival n)) bot
        (launch arrival (suc i) bots) (omega arith)
        (launch-fails arrival (suc i) k n bots later (omega (arith, there))
          (λ j least less. before j (omega (arith, least)) less) fails))

-- The slots of the three lists.
abbrev pub slots_kept : Option Kept → Option (List Slot)
slots_kept none = none
slots_kept (some k) = some k.slots

then_rest-slots :
    (a : Arrival) (i : ℕ) (bot : Bot) (rest : List Act × Option Kept)
    → slots_kept (then_rest a i bot rest).1
      ≡ (if is_connected a then cons_slot (slot_for i bot) (slots_kept rest.1) else none)
unfolding then_rest
then_rest-slots no_socket i bot rest = refl
then_rest-slots no_process i bot rest = refl
then_rest-slots no_connection i bot rest = refl
then_rest-slots connects i bot (acts, none) = refl
then_rest-slots connects i bot (acts, some k) = refl

-- The slots are those of `start_slots`.
pub launch-start_slots :
    (arrival : ℕ → Arrival) (i : ℕ) (bots : List Bot)
    → slots_kept (launch arrival i bots).1 ≡ start_slots (λ j. is_connected (arrival j)) i bots
unfolding launch start_slots
launch-start_slots arrival i [] = refl
launch-start_slots arrival i (bot ∷ bots) =
    then_rest-slots (arrival i) i bot (launch arrival (suc i) bots)
    ∙ rw (launch-start_slots arrival (suc i) bots) refl
