-- ===== src/Runs/Sequence.antt =====
-- The sequence numbers of the runtime events.
use general_agent_platform.Base.{
  ℕ, ◌≤◌, ◌<◌, ◌≡◌, refl, Bool, false, ◌&&◌, ◌||◌, none, some, List, [], ◌∷◌, ◌++◌, arith, ◌==◌,
}
use general_agent_platform.Db.{Db, Run, RuntimeEvent, EventType}
use general_agent_platform.Runs.{last_sequence, next_sequence, record_runtime_event}

-- Some event of the attempt has the sequence number.
abbrev pub is_taken : ℕ → ℕ → ℕ → List RuntimeEvent → Bool
is_taken run_id attempt n [] = false
is_taken run_id attempt n (e ∷ rest) =
    (e.run_id == run_id && e.attempt_id == attempt && e.sequence == n)
    || is_taken run_id attempt n rest

-- The constraint `uq_runtime_events_sequence`.
abbrev pub UniqueSequences : List RuntimeEvent → Type 0
UniqueSequences [] = Unit
UniqueSequences (e ∷ rest) =
    (is_taken e.run_id e.attempt_id e.sequence rest ≡ false) × UniqueSequences rest

-- The number that an object in memory remembers is not behind the table.
abbrev pub IsCurrent : Run → Db → Type 0
IsCurrent run db = elim run.event_sequence [
  | none ↦ Unit
  | some n ↦ last_sequence run.id run.attempt_id db.events ≤ n
]

not_taken_above :
    (run_id attempt n : ℕ) (events : List RuntimeEvent)
    → last_sequence run_id attempt events < n
    → is_taken run_id attempt n events ≡ false
unfolding last_sequence
not_taken_above run_id attempt n [] h = refl
not_taken_above run_id attempt n (e ∷ rest) h =
    ground (arith, not_taken_above run_id attempt n rest)

is_taken-append :
    (run_id attempt n : ℕ) (events : List RuntimeEvent) (e : RuntimeEvent)
    → is_taken run_id attempt n (events ++ e ∷ []) ≡ (
        is_taken run_id attempt n events
        || (e.run_id == run_id && e.attempt_id == attempt && e.sequence == n))
is_taken-append run_id attempt n [] e = ground arith
is_taken-append run_id attempt n (f ∷ rest) e =
    ground (arith, is_taken-append run_id attempt n rest e)

UniqueSequences-append :
    (events : List RuntimeEvent) (e : RuntimeEvent)
    → UniqueSequences events
    → is_taken e.run_id e.attempt_id e.sequence events ≡ false
    → UniqueSequences (events ++ e ∷ [])
UniqueSequences-append [] e u h = ground arith
UniqueSequences-append (f ∷ rest) e u h = ground (
  arith,
  is_taken-append f.run_id f.attempt_id f.sequence rest e,
  UniqueSequences-append rest e u.1,
)

last_sequence-append :
    (run_id attempt : ℕ) (events : List RuntimeEvent) (e : RuntimeEvent)
    → last_sequence run_id attempt events ≤ e.sequence
    → last_sequence run_id attempt (events ++ e ∷ []) ≤ e.sequence
unfolding last_sequence
last_sequence-append run_id attempt [] e h = ground arith
last_sequence-append run_id attempt (f ∷ rest) e h =
    ground (arith, last_sequence-append run_id attempt rest e)

next_sequence_above :
    (run : Run) (db : Db)
    → IsCurrent run db
    → last_sequence run.id run.attempt_id db.events < next_sequence run db
unfolding next_sequence
next_sequence_above run db c = ground arith

-- Recording an event never breaks the unique constraint on run, attempt and sequence, as long as
-- the number that the object remembers is not behind the table; and then it is not behind after.
pub record_runtime_event-UniqueSequences :
    (run : Run) (event_type : EventType) (db : Db)
    → UniqueSequences db.events
    → IsCurrent run db
    → let (run', db') = record_runtime_event run event_type db in
      UniqueSequences db'.events × IsCurrent run' db'
unfolding record_runtime_event
record_runtime_event-UniqueSequences run event_type db u c =
    let above = next_sequence_above run db c in
    (
      UniqueSequences-append db.events _ u
          (not_taken_above run.id run.attempt_id (next_sequence run db) db.events above),
      last_sequence-append run.id run.attempt_id db.events _ (omega arith),
    )
