-- ===== src/Kernel/Plans/Store.antt =====
-- The state of a run, and its writes to storage (crates/portos-kernel/src/plans/store.rs,
-- plans/lifecycle.rs). A write that fails changes nothing but the world.
use portos.Base.{
  ℕ, ◌+◌, Bool, true, false, Option, some, List, [], ◌∷◌, ◌++◌, String, leb, if◌then◌else◌,
}
use portos.Base.Maps.{Map}
use portos.Proto.Label.{Label}
use portos.Proto.Plan.{Mode}
use portos.Kernel.Plans.{Outcome, RunState, done, BufferState, held, inserted, PlanRuntime}
use portos.Kernel.Plans.Control.{RunSignal}

-- What the run tells its listeners (`emit`).
pub data Event : Type 0 where
  performed : String → String → Bool → Event
  withheld : String → String → Event
  loop_truncated : ℕ → Event
  truncated_at : String → ℕ → Event
  paused : Event
  awaiting_approval approved : ℕ → Event
  finished : Outcome → Event

pub record Buffered (V : Type 0) : Type 0 where
  pub seq : ℕ
  pub verb : String
  pub target : String
  pub args : V
  pub cost : ℕ

-- A row of the log of emissions.
pub record Emission : Type 0 where
  pub seq : ℕ
  pub verb : String
  pub target : String
  pub nonce : String

-- The fields of `Interpreter` that change, the state of the run in memory and in its row, its rows of
-- the buffer and of the log, and what it has told its listeners.
pub record Run (V W : Type 0) : Type 0 where
  pub env : Map String (V × Label)
  pub modes : List Mode
  pub withheld_count : ℕ
  pub active_nonce : String
  pub state : RunState
  pub row_state : RunState
  pub outcome : Option Outcome
  pub buffer : List (Buffered V × BufferState)
  pub journal : List Emission
  pub events : List Event
  pub signals : List RunSignal
  pub world : W

-- `buffer_seq`: the highest number in the buffer.
unfoldable pub buffer_seq : {V : Type 0} → List (Buffered V × BufferState) → ℕ
buffer_seq [] = 0
buffer_seq ((b, _) ∷ bs) = let m = buffer_seq bs in if leb m b.seq then b.seq else m

abbrev pub BufferState_eq : BufferState → BufferState → Bool
BufferState_eq held held = true
BufferState_eq inserted inserted = true
BufferState_eq BufferState.aborted BufferState.aborted = true
BufferState_eq _ _ = false

unfoldable pub move_items :
    {V : Type 0}
    → BufferState
    → BufferState
    → List (Buffered V × BufferState)
    → List (Buffered V × BufferState)
move_items from to [] = []
move_items from to ((b, st) ∷ bs) =
    (b, if BufferState_eq st from then to else st) ∷ move_items from to bs

module _ {V W : Type 0} where
  abbrev pub in_world : W → Run V W → Run V W
  in_world w s = record s { world = w }

  unfoldable pub emit : Event → Run V W → Run V W
  emit e s = record s { events = s.events ++ e ∷ [] }

module _ {V W : Type 0} (runtime : PlanRuntime V W) where
  -- A write whose error is ignored, and one whose error is reported.
  abbrev pub try_write : (Run V W → Run V W) → Run V W → Run V W
  try_write change s =
      let (written, w) = runtime.write s.world in
      if written then change (in_world w s) else in_world w s

  unfoldable pub set_state : RunState → Run V W → Run V W
  set_state st s = try_write (λ t. record t { row_state = st }) (record s { state = st })

  unfoldable pub push_buffer : String → String → V → ℕ → Run V W → Bool × Run V W
  unfolding buffer_seq
  push_buffer verb target args cost s =
      let (written, w) = runtime.write s.world in
      let item : Buffered V = record {
        seq = buffer_seq s.buffer + 1;
        verb = verb;
        target = target;
        args = args;
        cost = cost;
      } in
      if written
      then (true, record s { buffer = s.buffer ++ (item, held) ∷ []; world = w })
      else (false, in_world w s)

  unfoldable pub log_emission : ℕ → String → String → String → Run V W → Run V W
  log_emission seq verb target nonce = try_write λ s. record s {
    journal = s.journal ++ (record { seq = seq; verb = verb; target = target; nonce = nonce }) ∷ [];
  }

  unfoldable pub set_buffer_state : BufferState → BufferState → Run V W → Run V W
  unfolding move_items
  set_buffer_state from to = try_write λ s. record s { buffer = move_items from to s.buffer }

  -- `finish_run`, and `finish_row` in it.
  unfoldable pub finish_run : Outcome → Run V W → Run V W
  unfolding emit
  finish_run o s =
      emit (finished o) (
        try_write (λ t. record t { row_state = done; outcome = some o })
          (record s { state = done }))

  unfoldable pub teardown : String → Run V W → Run V W
  teardown segment s = in_world (runtime.teardown_segment segment s.world) s
