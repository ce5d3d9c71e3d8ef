-- ===== src/Service/Auth/Setup.antt =====
-- `Bootstrap` of internal/service/auth.go sets up an installation once.
use iskele.Common.{
  ℕ, String, ◌≡◌, refl, sym, ap, ◌∙◌, Bool, true, false, not, ◌⊎◌, inl, inr, Option, List, [], ◌∷◌,
  ◌++◌, arith, any, length, length-append, ltb,
}
use iskele.Store.{Db, Role, User, admin, valid_role}
use iskele.Store.Exec.{Result, ok, err, World, db_failure, conflict, already_initialized}
use iskele.Store.Exec.Rules.{
  Outcome, Outcome-if, Triple, Triple-pure, Triple-statement, Triple-weaken, Triple-rename,
  Triple-bind, Triple-clocked, Triple-drawn, Triple-lifted, Triple-reject, Triple-choose,
  Triple-absurd,
}
use iskele.Store.Exec.Facts.{unheeded}
use iskele.Store.Users as Repo
use iskele.Store.Users.{stamped, clashes}
use iskele.Service.{Deps, RequestMeta}
use iskele.Service.Auth.{TokenPair, initialized, create_user, bootstrap}
use iskele.Service.Untouched.{issue_pair-Spares, record_event-Spares}

-- Some account exists.
abbrev pub IsSetUp : List User → Type 0
IsSetUp us = ltb 0 (length us) ≡ true

IsSetUp-append : (us : List User) (u : User) → IsSetUp (us ++ u ∷ [])
IsSetUp-append us u = ground (arith, length-append us (u ∷ []))

none_set_up : (us : List User) → ltb 0 (length us) ≡ false → us ≡ []
none_set_up [] h = refl
none_set_up (u ∷ us) h = ground arith

module _ (now : ℕ) (deps : Deps) where
  repo_create-IsSetUp :
      (F : Type 0) (u : User)
      → Triple now (λ _. F) (Repo.create deps.os u) (λ _ db. F × IsSetUp db.users) (λ _ _. Unit {0})
  unfolding Repo.create
  repo_create-IsSetUp F u = Triple-clocked _ (
      Triple-choose (λ db. not (valid_role u.role)) (λ db. (err db_failure, db)) _ (λ db f _. tt)
        (λ db f _.
          Outcome-if _ _ (any (clashes deps.os u) db.users) (err conflict, db)
            (ok tt, record db { users = db.users ++ stamped now u ∷ [] }) (λ _. tt)
            (λ _. (f, IsSetUp-append db.users (stamped now u))))
        (λ db f. tt))

  create_user-IsSetUp :
      (F : Type 0) (name password : String) (role : Role)
      → Triple now
          (λ _. F)
          (create_user deps name password role)
          (λ _ db. F × IsSetUp db.users)
          (λ _ _. Unit {0})
  unfolding create_user
  create_user-IsSetUp F name password role =
      Triple-reject _ _ _ (λ _ db f. tt)
        λ _.
          Triple-lifted _ _ (λ e _ db f. tt)
            λ _ _. Triple-bind {Q = λ _ _. F} _ _ (unheeded _) λ hash.
              Triple-drawn _ (λ db f. tt)
                λ id. Triple-clocked _ (
                  Triple-bind _ _ (Triple-rename _ _ (repo_create-IsSetUp F _))
                    λ _. Triple-pure _ (λ db p. p))

  bootstrap-IsSetUp :
      (us : List User) (username password : String) (meta : RequestMeta)
      → Triple now
          (λ db. db.users ≡ us)
          (bootstrap deps username password meta)
          (λ _ db. (us ≡ []) × IsSetUp db.users)
          (λ _ _. Unit {0})
  unfolding bootstrap initialized Repo.count
  bootstrap-IsSetUp us username password meta =
      Triple-bind {Q = λ done _. done ≡ ltb 0 (length us)} _ _
        (Triple-bind {Q = λ n _. n ≡ length us} _ _
          (Triple-statement _ (λ db p. ap (λ l. length l) p) (λ db p. tt))
          (λ n. Triple-pure _ (λ db p. ap (λ k. ltb 0 k) p)))
        λ done.
          Triple-reject done _ _ (λ _ db p. tt)
            λ fresh.
              Triple-bind {Q = λ _ db. (us ≡ []) × IsSetUp db.users} _ _
                (Triple-weaken _ (λ db p. none_set_up us (sym p ∙ fresh)) (λ _ db p. p)
                  (λ _ db p. p) (create_user-IsSetUp (us ≡ []) username password admin))
                λ u.
                  Triple-bind _ _
                    (issue_pair-Spares now (λ l. (us ≡ []) × IsSetUp l) (λ _. Unit) (λ l p. tt) deps
                      u meta)
                    λ pair.
                      Triple-bind _ _
                        (record_event-Spares now (λ l. (us ≡ []) × IsSetUp l) (λ _. Unit)
                          (λ l p. tt) deps meta _)
                        λ _. Triple-pure _ (λ db p. p)

  refused :
      (username password : String) (meta : RequestMeta)
      → Triple now
          (λ db. IsSetUp db.users)
          (bootstrap deps username password meta)
          (λ _ _. ⊥)
          (λ e _. (e ≡ already_initialized) ⊎ (e ≡ db_failure))
  unfolding bootstrap initialized Repo.count
  refused username password meta =
      Triple-bind {Q = λ done _. done ≡ true} _ _
        (Triple-bind {Q = λ n _. ltb 0 n ≡ true} _ _
          (Triple-statement _ (λ db p. p) (λ db p. inr refl)) (λ n. Triple-pure _ (λ db p. p)))
        λ done.
          Triple-reject done _ _ (λ _ db p. inl refl)
            (λ not_done. Triple-absurd _ (λ db p. ground arith))

-- A `Bootstrap` that returned found no account; at any later request on the database that it left,
-- it is refused as already done, or because the database fails, whatever the name and password.
pub bootstrap_once :
    (deps : Deps) (username password username' password' : String) (meta meta' : RequestMeta)
    (now later : ℕ) (w : World) (faults : List Bool) (entropy : List (Option String))
    (pair : TokenPair)
    → (bootstrap deps username password meta now w).0 ≡ ok pair
    → let w' : World = record {
      db = (bootstrap deps username password meta now w).1.db;
      faults = faults;
      entropy = entropy;
    } in
      let r = (bootstrap deps username' password' meta' later w').0 in
      (w.db.users ≡ []) × ((r ≡ err already_initialized) ⊎ (r ≡ err db_failure))
bootstrap_once deps username password username' password' meta meta' now later w faults entropy pair
      h =
    let (empty, up) =
      done _ _ h ((bootstrap-IsSetUp now deps w.db.users username password meta).at w refl) in
    (empty, refused_result _ _ ((refused later deps username' password' meta').at _ up))
  where
    done :
        (r : Result TokenPair) (db : Db)
        → r ≡ ok pair
        → Outcome (λ _ d. (w.db.users ≡ []) × IsSetUp d.users) (λ _ _. Unit {0}) r db
        → (w.db.users ≡ []) × IsSetUp db.users
    done (ok p) db e d = d
    done (err x) db e d = cc

    refused_result :
        (r : Result TokenPair) (db : Db)
        → Outcome (λ _ _. ⊥) (λ e _. (e ≡ already_initialized) ⊎ (e ≡ db_failure)) r db
        → (r ≡ err already_initialized) ⊎ (r ≡ err db_failure)
    refused_result (ok a) db d = absurd d
    refused_result (err e) db d = ground arith
