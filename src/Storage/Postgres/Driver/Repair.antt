-- ===== src/Storage/Postgres/Driver/Repair.antt =====
-- What `handle_schema_error` of src/storage/postgres.rs sends to the database.
use qml.Base.{
  ℕ, zero, suc, ◌≡◌, ◌∙◌, ◌⊎◌, inl, inr, refl, ap, subst, String, ◌↔◌, ◌==◌, eq_iff, Bool, true,
  false, Option, none, some, List, [], ◌∷◌, drop, Bool-cases, arith,
}
use qml.Error.{StorageError, Result, ok, err}
use qml.Storage.Postgres.Driver.{
  SqlxError, Fault, refused, lost, run_unheard, Session, is_schema_error, execute, migrate,
  handle_schema_error, op_failed, and_then, settled, after_answer, retry,
}

-- The answer that a table or a schema is missing, by the codes of Postgres.
abbrev pub IsMissing : {A : Type 0} → Result SqlxError A → Type 0
IsMissing (err (SqlxError.database (some code) _)) = (code ≡ "42P01") ⊎ (code ≡ "3F000")
IsMissing _ = ⊥

module _ {T A : Type 0} (query : T → Result SqlxError (T × A)) where
  -- An answer is that of the query on the rows before it. An error leaves the rows, or the query has
  -- taken effect on them without its answer.
  abbrev pub Effect : {E : Type 0} → T → Session T × Result E A → Type 0
  Effect rows (s', ok a) = query rows ≡ ok (s'.rows, a)
  Effect rows (s', err e) = (s'.rows ≡ rows) ⊎ ((a : A) × (query rows ≡ ok (s'.rows, a)))

  settled-Effect :
      (rows : T) (faults : List (Option Fault)) (r : Result SqlxError (T × A))
      → query rows ≡ r
      → Effect rows (settled rows faults r) × ((settled rows faults r).0.faults ≡ faults)
  settled-Effect rows faults (ok (rows', a)) e = (e, refl)
  settled-Effect rows faults (err e) h = (inl refl, refl)

  unheard :
      (rows : T) (r : Result SqlxError (T × A))
      → query rows ≡ r
      → (run_unheard rows r ≡ rows) ⊎ ((a : A) × (query rows ≡ ok (run_unheard rows r, a)))
  unheard rows (ok (rows', a)) e = inr (a, e)
  unheard rows (err _) e = inl refl

  execute_from :
      (rows : T) (faults : List (Option Fault))
      → let s : Session T = record { rows = rows; faults = faults } in
        Effect rows (execute query s) × ((execute query s).0.faults ≡ drop 1 faults)
  unfolding execute
  execute_from rows [] = settled-Effect rows [] (query rows) refl
  execute_from rows (none ∷ rest) = settled-Effect rows rest (query rows) refl
  execute_from rows (some (refused e) ∷ rest) = (inl refl, refl)
  execute_from rows (some (lost text) ∷ rest) = (unheard rows (query rows) refl, refl)

  pub execute-Effect :
      (s : Session T)
      → Effect s.rows (execute query s) × ((execute query s).0.faults ≡ drop 1 s.faults)
  execute-Effect s = execute_from s.rows s.faults

  -- The database has changed no row when it answers so.
  missing_settled :
      (rows : T) (faults : List (Option Fault)) (r : Result SqlxError (T × A))
      → IsMissing (settled rows faults r).1
      → (settled rows faults r).0.rows ≡ rows
  missing_settled rows faults (ok (rows', a)) h = absurd h
  missing_settled rows faults (err e) h = refl

  missing_from :
      (rows : T) (faults : List (Option Fault))
      → let s : Session T = record { rows = rows; faults = faults } in
        IsMissing (execute query s).1 → (execute query s).0.rows ≡ rows
  unfolding execute
  missing_from rows [] h = missing_settled rows [] (query rows) h
  missing_from rows (none ∷ rest) h = missing_settled rows rest (query rows) h
  missing_from rows (some (refused e) ∷ rest) h = refl
  missing_from rows (some (lost text) ∷ rest) h = absurd h

  -- The same through `.map_err(…)`.
  pub op_failed-Effect :
      (message : String) (rows : T) (p : Session T × Result SqlxError A)
      → Effect rows p
      → Effect rows (op_failed message p) × ((op_failed message p).0 ≡ p.0)
  op_failed-Effect message rows (s', ok a) h = (h, refl)
  op_failed-Effect message rows (s', err e) h = (h, refl)

migrate_from :
    {T : Type 0} (rows : T) (faults : List (Option Fault))
    → let s : Session T = record { rows = rows; faults = faults } in
      ((migrate (λ rows. rows) s).0.rows ≡ rows)
      × ((migrate (λ rows. rows) s).0.faults ≡ drop 1 faults)
unfolding migrate execute
migrate_from rows [] = (refl, refl)
migrate_from rows (none ∷ rest) = (refl, refl)
migrate_from rows (some (refused e) ∷ rest) = (refl, refl)
migrate_from rows (some (lost text) ∷ rest) = (refl, refl)

migrate-keeps :
    {T : Type 0} (s : Session T)
    → ((migrate (λ rows. rows) s).0.rows ≡ s.rows)
      × ((migrate (λ rows. rows) s).0.faults ≡ drop 1 s.faults)
migrate-keeps s = migrate_from s.rows s.faults

drop-drop : {A : Type 0} (n : ℕ) (xs : List A) → drop 1 (drop n xs) ≡ drop (suc n) xs
drop-drop zero xs = refl
drop-drop (suc n) [] = refl
drop-drop (suc n) (x ∷ xs) = drop-drop n xs

is_schema_error-IsMissing :
    (A : Type 0) (e : SqlxError) → (is_schema_error e ≡ true) ↔ IsMissing {A = A} (err e)
unfolding is_schema_error
is_schema_error-IsMissing A (SqlxError.other text) = ((λ h. absurd (cc)), (λ h. absurd h))
is_schema_error-IsMissing A (SqlxError.database none text) = ((λ h. absurd (cc)), (λ h. absurd h))
is_schema_error-IsMissing A (SqlxError.database (some code) text) = (
  (λ h. elim (Bool-cases (code == "42P01")) [
    | inl t ↦ inl ((eq_iff code "42P01").0 t)
    | inr t ↦ inr ((eq_iff code "3F000").0 (rw t at h))
  ]),
  (λ h. elim h [
    | inl q ↦ rw ((eq_iff code "42P01").1 q) refl
    | inr q ↦ ground (arith, eq_iff code "3F000", q)
  ]),
)

-- The queries that have been sent between two sessions, by the first answer: two or three where it
-- says that a table or a schema is missing and the automatic migration is on, else one.
abbrev pub Sent : {T A : Type 0} → Bool → Result SqlxError A → Session T → Session T → Type 0
Sent auto first s s' =
    (auto ≡ true → IsMissing first → (s'.faults ≡ drop 2 s.faults) ⊎ (s'.faults ≡ drop 3 s.faults))
    × (auto ≡ false → s'.faults ≡ drop 1 s.faults)
    × (¬ IsMissing first → s'.faults ≡ drop 1 s.faults)

module _ {T A : Type 0} (query : T → Result SqlxError (T × A)) where
  -- After a first error: the migration, and the query once more where the migration went well.
  retried :
      (name : String) (s : Session T) (m : Session T × Result StorageError (Unit {0}))
      → (m.0.rows ≡ s.rows)
      → (m.0.faults ≡ drop 2 s.faults)
      → let p = and_then m (retry (execute query) name) in
        Effect query s.rows p × ((p.0.faults ≡ drop 2 s.faults) ⊎ (p.0.faults ≡ drop 3 s.faults))
  retried name s (s', err e) rows faults = (inl rows, inl faults)
  retried name s (s', ok _) rows faults =
      let (effect, sent) = execute-Effect query s' in
      let (answer, same) = op_failed-Effect query _ s'.rows (execute query s') effect in
      (
        subst (λ r. Effect query r (retry (execute query) name s' tt)) rows answer,
        inr (ap (λ p. p.faults) same ∙ sent ∙ ap (λ f. drop 1 f) faults ∙ drop-drop 2 s.faults),
      )

  answered :
      (auto : Bool) (name : String) (s : Session T) (p : Session T × Result SqlxError A)
      → Effect query s.rows p
      → (p.0.faults ≡ drop 1 s.faults)
      → (IsMissing p.1 → p.0.rows ≡ s.rows)
      → let r = after_answer auto (execute query) name p in
        Effect query s.rows r × Sent auto p.1 s r.0
  unfolding after_answer
  answered auto name s (s', ok a) effect sent keeps =
      (effect, ((λ on h. absurd h), (λ off. sent), (λ n. sent)))
  answered auto name s (s', err e) effect sent keeps =
      let iff = is_schema_error-IsMissing A e in
      elim (Bool-cases (is_schema_error e)) [
        | inr h ↦
            rw h (effect, ((λ on m. absurd (let t = iff.1 m in cc)), (λ off. sent), (λ n. sent)))
        | inl h ↦ rw h (elim (Bool-cases auto) [
          | inr off ↦ rw off (effect, ((λ on m. absurd (cc)), (λ _. sent), (λ n. sent)))
          | inl on ↦
              let (rows, faults) = migrate-keeps s' in
              let (done, count) =
                retried name s (migrate (λ rows. rows) s') (rows ∙ keeps (iff.0 h))
                  (faults ∙ ap (λ f. drop 1 f) sent ∙ drop-drop 1 s.faults) in
              rw on (done, ((λ _ m. count), (λ off. absurd (cc)), (λ n. absurd (n (iff.0 h)))))
        ])
      ]

  -- Whatever the database answers and wherever the connection is lost, a query under
  -- `handle_schema_error` takes effect exactly once, with its own answer, if the call succeeds, and at
  -- most once if the call fails. One query is sent; only if the automatic migration is on and the
  -- first answer has one of the codes 42P01 and 3F000 are there two or three: the query, the
  -- migration, and the query once more.
  pub handled_once :
      (auto : Bool) (name : String) (s : Session T)
      → let r = handle_schema_error auto (execute query) name s in
        Effect query s.rows r × Sent auto (execute query s).1 s r.0
  unfolding handle_schema_error
  handled_once auto name s =
      let (effect, sent) = execute-Effect query s in
      answered auto name s (execute query s) effect sent (missing_from query s.rows s.faults)
