-- ===== src/Processing/Server/Backend.antt =====
-- What the server uses of its surroundings: a store, `Storage` of src/storage/mod.rs as far as
-- src/processing/server.rs calls it, and the cancellation tokens of tokio_util.
use qml.Base.{ℕ, ◌≡◌, String, Bool, true, false, Option, List}
use qml.Core.JobState.{DateTime}
use qml.Core.Job.{Job}
use qml.Core.Recurring.{RecurringJob}
use qml.Core.ServerInfo.{ServerInfo}
use qml.Error.{StorageError, Result, ok}
use qml.Processing.Store.{JobStore}
use qml.Processing.Worker.{CancellationToken}
use qml.Storage.Memory.State.{MemoryStorage}
use qml.Storage.Memory.Jobs
use qml.Storage.Memory.Locker
use qml.Storage.Memory.Locker.{FetchClock}
use qml.Storage.Memory.Recurring
use qml.Storage.Memory.Servers

-- `FetchTimes` and `SweepTimes` are the clock readings that a fetch and a sweep make.
pub record ServerStore : Type 1 where
  pub S : Type 0
  pub FetchTimes : Type 0
  pub SweepTimes : Type 0
  pub update : S → Job → S × Result StorageError (Unit {0})
  pub fetch_and_lock_job :
      FetchTimes → S → String → Option (List String) → S × Result StorageError (Option Job)
  pub requeue_stranded_jobs : SweepTimes → S → DateTime → S × Result StorageError ℕ
  pub register_server : S → ServerInfo → S × Result StorageError (Unit {0})
  pub deregister_server : S → String → S × Result StorageError Bool
  pub upsert_recurring_job : S → RecurringJob → S × Result StorageError (Unit {0})
  pub remove_recurring_job : S → String → S × Result StorageError Bool

abbrev pub job_store : ServerStore → JobStore
job_store b = record { S = b.S; update = b.update }

-- An operation of the memory storage that cannot fail.
abbrev succeeds : {A : Type 0} → MemoryStorage × A → MemoryStorage × Result StorageError A
succeeds (s, a) = (s, ok a)

abbrev pub memory_backend : ServerStore
memory_backend = record {
  S = MemoryStorage;
  FetchTimes = FetchClock;
  SweepTimes = String → DateTime;
  update = Jobs.update;
  fetch_and_lock_job = λ c s w q. succeeds (Locker.fetch_and_lock_job c s w q);
  requeue_stranded_jobs =
      λ now_for s stale. succeeds (Locker.requeue_stranded_jobs now_for s stale);
  register_server = λ s info. (Servers.register_server s info, ok tt);
  deregister_server = λ s id. succeeds (Servers.deregister_server s id);
  upsert_recurring_job = λ s r. (Recurring.upsert_recurring_job s r, ok tt);
  remove_recurring_job = λ s id. succeeds (Recurring.remove_recurring_job s id);
}

-- A token stands as its number; `T` is what tokio_util keeps of all tokens.
pub record Tokens : Type 1 where
  pub T : Type 0
  pub new_token : T → T × CancellationToken
  pub child_token : T → CancellationToken → T × CancellationToken
  pub cancel : T → CancellationToken → T
  pub is_cancelled : T → CancellationToken → Bool

-- What its documentation says: a new token is not cancelled, nor is a new child of a token that is
-- not; to make a token cancels nothing; and a token is cancelled with its parent.
pub record TokenLaws (tk : Tokens) : Type 1 where
  pub ChildOf : CancellationToken → CancellationToken → Type 0
  pub new_live : (s : tk.T) → tk.is_cancelled (tk.new_token s).0 (tk.new_token s).1 ≡ false
  pub new_keeps :
      (s : tk.T) (t : CancellationToken)
      → tk.is_cancelled s t ≡ false
      → tk.is_cancelled (tk.new_token s).0 t ≡ false
  pub child_live :
      (s : tk.T) (p : CancellationToken)
      → tk.is_cancelled s p ≡ false
      → tk.is_cancelled (tk.child_token s p).0 (tk.child_token s p).1 ≡ false
  pub child_keeps :
      (s : tk.T) (p t : CancellationToken)
      → tk.is_cancelled s t ≡ false
      → tk.is_cancelled (tk.child_token s p).0 t ≡ false
  pub child_under : (s : tk.T) (p : CancellationToken) → ChildOf (tk.child_token s p).1 p
  pub cancel_self : (s : tk.T) (t : CancellationToken) → tk.is_cancelled (tk.cancel s t) t ≡ true
  pub cancel_under :
      (s : tk.T) (t u : CancellationToken) → ChildOf u t → tk.is_cancelled (tk.cancel s t) u ≡ true
