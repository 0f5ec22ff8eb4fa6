-- ===== src/LoadTest/Run.antt =====
-- newClientGroup and run of src/pa/loadtest.go: the goroutines of the clients, the channel between
-- them and the goroutine that counts the results. A move is one goroutine's next action on shared
-- state; a schedule picks the next move.
use opentitan_provisioning.Base.{
  ℕ, zero, suc, ◌+◌, ◌*◌, Bool, true, false, ◌&&◌, String, List, [], ◌∷◌, ◌++◌, map, Option, none,
  some, Result, ok, err, errorf, hangs, if◌then◌else◌, ltb, nat_eq, length,
}
use opentitan_provisioning.Base.Exec.{Exec, ◌>>=◌, pure, or_raise}
use opentitan_provisioning.LoadTest.{
  Service, ClientTask, CallResult, CallFunc, Flags, Request, max_buffered_call_results, setup, call,
}

-- Where a client's goroutine is: before its loop, before the call of a turn with so many turns to
-- follow, before the send of the turn's result, or at its end.
pub data Phase : Type 0 where
  starting : Phase
  calling : Request → ℕ → Phase
  sending : Request → CallResult → ℕ → Phase
  finished : Phase

pub record Client : Type 0 where
  pub task : ClientTask
  pub phase : Phase

-- What the clients share: the world, the lines that were logged, and the channel.
pub record Shared (W : Type 0) : Type 0 where
  pub world : W
  pub logged : List CallResult
  pub results : List CallResult

pub record State (W : Type 0) : Type 0 where
  pub shared : Shared W
  pub clients : List Client
  pub received : ℕ
  pub err_count : ℕ

-- The test `i < numCalls` of a loop with so many turns left.
abbrev pub turn : Request → ℕ → Phase
turn r zero = finished
turn r (suc n) = calling r n

-- log.Printf of a call that failed.
abbrev pub log_call : CallResult → List CallResult → List CallResult
log_call r lines = elim r.error [ none ↦ lines | some _ ↦ lines ++ r ∷ [] ]

abbrev pub count_error : CallResult → ℕ → ℕ
count_error r n = elim r.error [ none ↦ n | some _ ↦ suc n ]

pub data Move : Type 0 where
  client : ℕ → Move
  collector : Move

module _ {W : Type 0} (service : Service W) (test : CallFunc W) (num_calls : ℕ) where
  -- A client's next action; a send waits while the channel is full.
  unfoldable pub act : ClientTask → Phase → Shared W → Option (Phase × Shared W)
  act c starting x =
      let (request, w) = test.prepare x.world in
      some (turn request num_calls, record x { world = w })
  act c (calling request n) x =
      let (e, w) = call service c request x.world in
      let r : CallResult = record { id = c.id; error = e } in
      some (sending request r n, record x { world = w; logged = log_call r x.logged })
  act c (sending request r n) x =
      let (renewed, w) = test.renew request x.world in
      let sent = record x { world = w; results = x.results ++ r ∷ [] } in
      if ltb (length x.results) max_buffered_call_results then some (turn renewed n, sent) else none
  act c finished x = none

  abbrev pub front :
      Client → List Client → Option (Phase × Shared W) → Option (List Client × Shared W)
  front c cs none = none
  front c cs (some (phase, x)) = some (record c { phase = phase } ∷ cs, x)

  abbrev pub behind : Client → Option (List Client × Shared W) → Option (List Client × Shared W)
  behind c none = none
  behind c (some (cs, x)) = some (c ∷ cs, x)

  unfoldable pub advance_at : ℕ → List Client → Shared W → Option (List Client × Shared W)
  unfolding act
  advance_at k [] x = none
  advance_at zero (c ∷ cs) x = front c cs (act c.task c.phase x)
  advance_at (suc k) (c ∷ cs) x = behind c (advance_at k cs x)

  abbrev pub with_clients : State W → Option (List Client × Shared W) → Option (State W)
  with_clients s none = none
  with_clients s (some (cs, x)) = some (record s { clients = cs; shared = x })

  -- A turn of the loop that receives.
  unfoldable pub collect : ℕ → State W → Option (State W)
  collect expected_num_calls s = elim s.shared.results [
    | [] ↦ none
    | r ∷ rest ↦
        if ltb s.received expected_num_calls
        then some (record s {
          shared = record s.shared { results = rest };
          received = suc s.received;
          err_count = count_error r s.err_count;
        })
        else none
  ]

  unfoldable pub move : ℕ → Move → State W → Option (State W)
  move expected_num_calls (client k) s = with_clients s (advance_at k s.clients s.shared)
  move expected_num_calls collector s = collect expected_num_calls s

  -- The moves that a schedule picks, until one that it picks is not possible.
  unfoldable pub play : ℕ → (State W → Move) → ℕ → State W → State W
  play expected schedule zero s = s
  play expected schedule (suc fuel) s = elim (move expected (schedule s) s) [
    | none ↦ s
    | some next ↦ play expected schedule fuel next
  ]

abbrev pub all_finished : List Client → Bool
all_finished [] = true
all_finished (c ∷ cs) = elim c.phase [ finished ↦ all_finished cs | _ ↦ false ]

-- The program's world and the lines it has logged.
pub record Console (W : Type 0) : Type 0 where
  pub world : W
  pub logged : List CallResult

abbrev pub launch : {W : Type 0} → List ClientTask → Console W → State W
launch clients w = record {
  shared = record { world = w.world; logged = w.logged; results = [] };
  clients = map (λ c. record { task = c; phase = starting }) clients;
  received = 0;
  err_count = 0;
}

abbrev pub console : {W : Type 0} → State W → Console W
console s = record { world = s.shared.world; logged = s.shared.logged }

-- The error of the goroutine that counts, and so eg.Wait's: the clients' return nil.
abbrev pub verdict : {W : Type 0} → State W → Result (Unit {0})
verdict s = if ltb 0 s.err_count then err (errorf "detected %d call errors") else ok tt

-- The moves of a test with so many clients and calls.
abbrev pub moves : ℕ → ℕ → ℕ
moves num_clients num_calls = num_clients * (1 + 3 * num_calls)

-- eg.Wait returns when every goroutine has.
abbrev pub outcome : {W : Type 0} → ℕ → State W → Result (Unit {0}) × Console W
outcome expected s =
    if all_finished s.clients && nat_eq s.received expected
    then (verdict s, console s)
    else (err hangs, console s)

module _ {W : Type 0} (service : Service W) where
  unfoldable pub run :
      (State W → Move) → List ClientTask → ℕ → CallFunc W → Exec (Console W) (Unit {0})
  unfolding play
  run schedule clients num_calls test w =
      if nat_eq num_calls 0
      then (err (errorf "number of calls must be at least 1"), w)
      else outcome (length clients * num_calls) (
          play service test num_calls (length clients * num_calls) schedule
            (moves (length clients) num_calls) (launch clients w))

  abbrev pub on_world : {A : Type 0} → Exec W A → Exec (Console W) A
  on_world m w = let (r, next) = m w.world in (r, record w { world = next })

  -- The setups of clients i, i + 1, ..., which the source starts at once, one after the other.
  unfoldable pub setup_clients : Flags → String → ℕ → ℕ → Exec W (List ClientTask)
  setup_clients flags sku_name i zero = pure []
  setup_clients flags sku_name i (suc n) =
      setup service flags sku_name (record { id = i; auth_token = "" }) >>= λ c.
      setup_clients flags sku_name (suc i) n >>= λ rest. pure (c ∷ rest)

  unfoldable pub new_client_group : Flags → String → ℕ → Exec (Console W) (List ClientTask)
  unfolding setup_clients
  new_client_group flags sku_name num_clients w =
      if nat_eq num_clients 0
      then (err (errorf "number of clients must be at least 1"), w)
      else or_raise (on_world (setup_clients flags sku_name 0 num_clients))
          (errorf "error during client setup") w
