-- ===== src/Server/Tests.antt =====
-- The end of a service at concrete inputs.
use acat_go_common.Common.{◌≡◌, refl, ℕ, suc, none, some, [], ◌∷◌}
use acat_go_common.Apperr.{plain}
use acat_go_common.Exec.{ok, err}
use acat_go_common.Server.{signalled, HttpServer, Service, registry_of, run}
use acat_go_common.Server.Closed.{Counts, run-closes}

-- a signal comes, and the shutdown takes too long; the state counts what is closed
abbrev http : HttpServer ℕ
http = record {
  serve = λ n. (signalled, n);
  shutdown = λ n. (err (plain "timeout"), n);
  force_close = λ n. (ok tt, n);
}

abbrev svc : Service ℕ
svc = record {
  name = "acat-admin-user";
  health = ("mysql", some none) ∷ [];
  close = λ n. (ok tt, suc n);
}

svc-Counts : Counts http svc (λ n. n)
svc-Counts = record {
  close_counts = λ s. refl;
  serve_keeps = λ s. refl;
  shutdown_keeps = λ s. refl;
  force_close_keeps = λ s. refl;
}

run-closes_example : (run http (some svc) 0).1 ≡ 1
run-closes_example = run-closes http svc (λ n. n) svc-Counts 0

registers : registry_of (some svc) ≡ ("mysql", none) ∷ ("self", none) ∷ []
unfolding registry_of
registers = refl
