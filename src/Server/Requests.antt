-- ===== src/Server/Requests.antt =====
-- internal/server: a request, what it is answered, and what the handlers share.
use iskele.Common.{ℕ, String, Bool, Option}
use iskele.Store.{Role}
use iskele.Store.Exec.{Error, Result, ok, err, Exec, World}
use iskele.Service.{Identity}
use iskele.Server.Rbac.{Permission}
use iskele.Server.RateLimit.{RateLimiter}

-- What the guards call in the Go library's strings package.
pub record Strings : Type 0 where
  pub equal_fold : String → String → Bool
  pub trim_space : String → String
  -- strings.Cut(s, sep), which is also strings.Index with the two slices around what it finds
  pub cut : String → String → Option (String × String)

pub data Method : Type 0 where
  get head options post put patch delete : Method

-- A request: its headers that the guards read, an absent one being "", the address of ClientIP, and
-- the identity that its context carries.
pub record Request : Type 0 where
  pub method : Method
  pub authorization : String
  pub origin : String
  pub host : String
  pub client_ip : String
  pub identity : Identity

-- Why a guard refuses a request.
pub data Denial : Type 0 where
  unauthenticated csrf_no_bearer not_set_up : Denial
  rejected failed : Error → Denial
  forbidden : Role → Permission → Denial
  csrf_origin : String → Denial
  rate_limited : ℕ → Denial

-- What a request is answered: a handler's response, or a guard's refusal.
pub data Reply (A : Type 0) : Type 0 where
  handled : A → Reply A
  refused : Denial → Reply A

-- What the handlers share: the daemon's database, and the two limiters of the router.
pub record Site : Type 0 where
  pub world : World
  pub general : RateLimiter
  pub login : RateLimiter

abbrev pub Handler : Type 0 → Type 0
Handler A = Request → ℕ → Site → Reply A × Site

-- A service's method that a guard calls: an error is answered by `deny`.
module _ {A B : Type 0} (deny : Error → Denial) (next : B → Handler A) where
  abbrev pub proceed : Result B → Handler A
  proceed (ok b) r now s = next b r now s
  proceed (err e) r now s = (refused (deny e), s)

  abbrev pub call : Exec B → Handler A
  call m r now s =
      let (result, world') = m now s.world in proceed result r now (record s { world = world' })
