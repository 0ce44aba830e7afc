-- ===== src/Server.antt =====
-- server/server.go: `Run`, from the registration of the checks to the end of the service. net/http and
-- signals are outside; the log is left out.
pub mod Closed
mod Tests
use acat_go_common.Common.{String, Option, none, some, List, [], ◌∷◌}
use acat_go_common.Common.Int.{ℤ}
use acat_go_common.Common.Text.{show_int}
use acat_go_common.Apperr.{GoError, wrapped}
use acat_go_common.Exec.{Exec, try, pure, raise}
use acat_go_common.Health.{Registry, CheckFunc, register}
use Prim.Native.String.{◌++◌}

-- how waiting ends: the listener has ended, with its error or without one, or a signal has come
pub data Ending : Type 0 where
  ended : Option GoError → Ending
  signalled : Ending

-- What `Run` uses of an `http.Server` and of the process: serving until it ends, `Shutdown` and
-- `Close`, whose error is not looked at.
pub record HttpServer (S : Type 0) : Type 0 where
  pub serve : S → Ending × S
  pub shutdown : Exec S (Unit {0})
  pub force_close : Exec S (Unit {0})

-- `Service`; a check may be a nil function.
pub record Service (S : Type 0) : Type 0 where
  pub name : String
  pub health : List (String × Option CheckFunc)
  pub close : Exec S (Unit {0})

unfoldable pub register_all : List (String × Option CheckFunc) → Registry → Registry
unfolding register
register_all [] r = r
register_all (c ∷ cs) r = register_all cs (register c.0 c.1 r)

-- the checks behind `/readyz`
unfoldable pub registry_of : {S : Type 0} → Option (Service S) → Registry
unfolding register_all
registry_of none = register "self" (some none) []
registry_of (some svc) = register_all svc.health (register "self" (some none) [])

-- `fmt.Sprintf(":%d", port)`
unfoldable pub address : ℤ → String
unfolding show_int
address port = ":" ++ show_int port

module _ {S : Type 0} (http : HttpServer S) where
  unfoldable pub close_service : Option (Service S) → Exec S (Unit {0})
  unfolding try
  close_service none = pure tt
  close_service (some svc) =
      try svc.close pure (λ e. raise (wrapped ("关闭 " ++ (svc.name ++ " 资源失败: ")) e ""))

  abbrev pub failed_serving : GoError → GoError
  failed_serving e = wrapped "HTTP 服务异常退出: " e ""

  abbrev pub failed_shutdown : GoError → GoError
  failed_shutdown e = wrapped "优雅停机失败: " e ""

  -- `Run` behind the wait
  unfoldable pub stop : Option (Service S) → Ending → Exec S (Unit {0})
  unfolding close_service
  stop svc (ended none) = try (close_service svc) (λ _. pure tt) (λ _. pure tt)
  stop svc (ended (some e)) =
      try (close_service svc) (λ _. raise (failed_serving e)) (λ _. raise (failed_serving e))
  stop svc signalled =
      try http.shutdown (λ _. close_service svc)
        (λ e.
          try http.force_close (λ _. try (close_service svc) (λ _. raise (failed_shutdown e)) raise)
            (λ _. try (close_service svc) (λ _. raise (failed_shutdown e)) raise))

  unfoldable pub run : Option (Service S) → Exec S (Unit {0})
  unfolding stop
  run svc s = let (ending, s') = http.serve s in stop svc ending s'
