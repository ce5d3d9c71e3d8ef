-- ===== src/Service/Requests.antt =====
-- The account services of internal/service as one server: requests come one after another, each
-- with its own instant, its own failing statements and its own random draws, and one that fails
-- leaves what it has written.
use iskele.Common.{ℕ, String, Bool, Option, List, [], ◌∷◌}
use iskele.Store.{Db, Role}
use iskele.Store.Exec.{Exec, Result, ok, err}
use iskele.Store.Exec.Rules.{Outcome, Keeps}
use iskele.Store.Platform.{IsOrdering}
use iskele.Service.{Deps, RequestMeta, Identity}
use iskele.Service.Users as Users
use iskele.Service.Users.{UpdateInput}
use iskele.Service.Users.Guard.{IsAdministered}
use iskele.Service.Users.LastAdmin.{
  create-IsAdministered, update-IsAdministered, delete-IsAdministered, begin_totp-IsAdministered,
  confirm_totp-IsAdministered, disable_totp-IsAdministered, reset_totp-IsAdministered,
}
use iskele.Service.Auth as Auth
use iskele.Service.Auth.{LoginInput}
use iskele.Service.Auth.Administered.{
  bootstrap-IsAdministered, login-IsAdministered, refresh-IsAdministered, logout-IsAdministered,
  authenticate-IsAdministered,
}

pub data Request : Type 0 where
  create_user : String → String → Role → Identity → Request
  update_user : String → UpdateInput → Identity → Request
  delete_user : String → Identity → Request
  begin_totp : Identity → Request
  confirm_totp : String → Identity → Request
  disable_totp : String → Identity → Request
  reset_totp : String → Identity → Request
  bootstrap : String → String → Request
  login : LoginInput → Request
  refresh : String → Request
  logout : String → Identity → Request
  authenticate : String → Request

-- what surrounds one request
pub record Circumstance : Type 0 where
  pub meta : RequestMeta
  pub now : ℕ
  pub faults : List Bool
  pub entropy : List (Option String)

abbrev after : {A : Type 0} → Circumstance → Exec A → Db → Db
after c m db = (m c.now (record { db = db; faults = c.faults; entropy = c.entropy })).1.db

module _ (deps : Deps) where
  -- the database that a request leaves
  unfoldable pub handle : Request → Circumstance → Db → Db
  handle (create_user name password role actor) c =
      after c (Users.create deps name password role actor c.meta)
  handle (update_user id input actor) c = after c (Users.update deps id input actor c.meta)
  handle (delete_user id actor) c = after c (Users.delete deps id actor c.meta)
  handle (begin_totp actor) c = after c (Users.begin_totp deps actor c.meta)
  handle (confirm_totp code actor) c = after c (Users.confirm_totp deps code actor c.meta)
  handle (disable_totp code actor) c = after c (Users.disable_totp deps code actor c.meta)
  handle (reset_totp id actor) c = after c (Users.reset_totp deps id actor c.meta)
  handle (bootstrap username password) c = after c (Auth.bootstrap deps username password c.meta)
  handle (login input) c = after c (Auth.login deps input c.meta)
  handle (refresh token) c = after c (Auth.refresh deps token c.meta)
  handle (logout token identity) c = after c (Auth.logout deps token identity c.meta)
  handle (authenticate credential) c = after c (Auth.authenticate deps credential)

  unfoldable pub serve : List (Request × Circumstance) → Db → Db
  unfolding handle
  serve [] db = db
  serve ((r, c) ∷ rs) db = serve rs (handle r c db)

keeps-after :
    {A : Type 0} {P : Db → Type 0} (c : Circumstance) (m : Exec A) (db : Db)
    → Keeps c.now P m
    → P db
    → P (after c m db)
keeps-after {A} {P} c m db k h =
    go _ _ (k.at (record { db = db; faults = c.faults; entropy = c.entropy }) h)
  where
    go : (r : Result A) (d : Db) → Outcome (λ _ e. P e) (λ _ e. P e) r d → P d
    go (ok a) d p = p
    go (err e) d p = p

module _ (deps : Deps) (os : IsOrdering deps.os) where
  handle-IsAdministered :
      (r : Request) (c : Circumstance) (db : Db)
      → IsAdministered db
      → IsAdministered (handle deps r c db)
  unfolding handle
  handle-IsAdministered (create_user name password role actor) c db =
      keeps-after c _ db (create-IsAdministered c.now deps os name password role actor c.meta)
  handle-IsAdministered (update_user id input actor) c db =
      keeps-after c _ db (update-IsAdministered c.now deps os id input actor c.meta)
  handle-IsAdministered (delete_user id actor) c db =
      keeps-after c _ db (delete-IsAdministered c.now deps os id actor c.meta)
  handle-IsAdministered (begin_totp actor) c db =
      keeps-after c _ db (begin_totp-IsAdministered c.now deps os actor c.meta)
  handle-IsAdministered (confirm_totp code actor) c db =
      keeps-after c _ db (confirm_totp-IsAdministered c.now deps os code actor c.meta)
  handle-IsAdministered (disable_totp code actor) c db =
      keeps-after c _ db (disable_totp-IsAdministered c.now deps os code actor c.meta)
  handle-IsAdministered (reset_totp id actor) c db =
      keeps-after c _ db (reset_totp-IsAdministered c.now deps os id actor c.meta)
  handle-IsAdministered (bootstrap username password) c db =
      keeps-after c _ db (bootstrap-IsAdministered c.now deps os username password c.meta)
  handle-IsAdministered (login input) c db =
      keeps-after c _ db (login-IsAdministered c.now deps os input c.meta)
  handle-IsAdministered (refresh token) c db =
      keeps-after c _ db (refresh-IsAdministered c.now deps os token c.meta)
  handle-IsAdministered (logout token identity) c db =
      keeps-after c _ db (logout-IsAdministered c.now deps os token identity c.meta)
  handle-IsAdministered (authenticate credential) c db =
      keeps-after c _ db (authenticate-IsAdministered c.now deps os credential)

  -- From a database with unique ids and an enabled admin, no sequence of requests to the account
  -- services, at any instants, with any statements refused and any draws, leaves one without.
  pub serve-IsAdministered :
      (rs : List (Request × Circumstance)) (db : Db)
      → IsAdministered db
      → IsAdministered (serve deps rs db)
  unfolding serve
  serve-IsAdministered [] db h = h
  serve-IsAdministered ((r, c) ∷ rs) db h =
      serve-IsAdministered rs (handle deps r c db) (handle-IsAdministered r c db h)
