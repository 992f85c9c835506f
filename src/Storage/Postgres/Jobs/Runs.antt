-- ===== src/Storage/Postgres/Jobs/Runs.antt =====
-- Sequences of calls of the backends of src/storage/memory.rs and src/storage/postgres.rs.
use qml.Base.{◌≡◌, refl, String, Bool, List, [], ◌∷◌}
use qml.Base.Maps.{Map}
use qml.Error.{Result}
use qml.Storage.Memory.State.{MemoryStorage}
use qml.Storage.Postgres.Row.{JobRow}
use qml.Storage.Postgres.Jobs.{JobSession}
use qml.Storage.Postgres.Jobs.Agreement.{calm, Agree}
use qml.Storage.Postgres.Jobs.Calls.{Call, Answer, on_memory, on_postgres, Admissible}
use qml.Storage.Postgres.Jobs.Interchange.{call-Same}

abbrev pub memory_answers : MemoryStorage → List Call → List Answer
memory_answers s [] = []
memory_answers s (c ∷ calls) = (on_memory s c).1 ∷ memory_answers (on_memory s c).0 calls

module _ (from_str : String → Result String String) where
  abbrev pub postgres_answers : Bool → JobSession → List Call → List Answer
  postgres_answers auto s [] = []
  postgres_answers auto s (c ∷ calls) =
      (on_postgres from_str auto s c).1
      ∷ postgres_answers auto (on_postgres from_str auto s c).0 calls

  -- Each call is admissible where the calls before it lead.
  abbrev pub AllAdmissible : MemoryStorage → List Call → Type 0
  AllAdmissible s [] = Unit
  AllAdmissible s (c ∷ calls) = Admissible from_str s c × AllAdmissible (on_memory s c).0 calls

  -- While no query fails, the Postgres backend answers any sequence of calls on single jobs as the
  -- memory storage does, if what is stored agrees at first. The calls name jobs by identifiers as
  -- they are printed; a job that is written fits the columns and keeps the creation of the stored
  -- one, and a job that is enqueued is not stored yet, while the memory storage has room for it.
  pub runs_answer_alike :
      (auto : Bool) (rows : Map JobRow) (s : MemoryStorage) (calls : List Call)
      → Agree rows s.jobs
      → AllAdmissible s calls
      → postgres_answers auto (calm rows) calls ≡ memory_answers s calls
  runs_answer_alike auto rows s [] a h = refl
  runs_answer_alike auto rows s (c ∷ calls) a (h, hs) =
      let (same, still, a') = call-Same from_str auto rows s c a h in
      let r = (on_postgres from_str auto (calm rows) c).0.rows in
      rw (same, still) (rw (runs_answer_alike auto r (on_memory s c).0 calls a' hs) refl)
