-- ===== src/Processing/Worker/Registry.antt =====
-- Which worker the registry of src/processing/mod.rs hands out.
use qml.Base.{
  ◌≡◌, refl, subst, String, Option, some, List, [], ◌∷◌, arith, if◌then◌else◌, ◌==◌, eq_iff,
}
use qml.Base.Maps.{get-insert}
use qml.Processing.Worker.{Worker, WorkerRegistry, register, get_worker}

-- The workers registered in turn, the last one last.
unfoldable pub register_all : WorkerRegistry → List Worker → WorkerRegistry
register_all r [] = r
register_all r (w ∷ ws) = register_all (register r w) ws

-- The last of the workers for the method, or the fallback.
abbrev pub last_for : String → List Worker → Option Worker → Option Worker
last_for method [] fallback = fallback
last_for method (w ∷ ws) fallback =
    last_for method ws (if w.method_name == method then some w else fallback)

registered :
    (r : WorkerRegistry) (w : Worker) (method : String)
    → get_worker (register r w) method
      ≡ (if w.method_name == method then some w else get_worker r method)
unfolding register get_worker
registered r w method =
    ground (arith, get-insert w.method_name method w r, eq_iff w.method_name method)

-- A lookup finds the worker that was registered last for the method, whatever else was registered
-- before or after it, and what the registry held where none was.
pub get_worker-register_all :
    (r : WorkerRegistry) (ws : List Worker) (method : String)
    → get_worker (register_all r ws) method ≡ last_for method ws (get_worker r method)
unfolding register_all
get_worker-register_all r [] method = refl
get_worker-register_all r (w ∷ ws) method =
    subst (λ o. get_worker (register_all (register r w) ws) method ≡ last_for method ws o)
      (registered r w method) (get_worker-register_all (register r w) ws method)
